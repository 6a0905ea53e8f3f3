-- ===== src/Startup/Process/Orderly.antt =====
-- cmd/ingest/main.go and internal/ingest/server.go: when the Ingest Service ends with status 0.
use mathlib.Core.List.{Memᴰ}
use enisa_sbd_example.Common.{
  ℕ, ◌≡◌, ◌↔◌, refl, sym, ap, ◌∙◌, inl, inr, false, List, [], ◌∷◌, Option, none, some, Bytes,
  Result-cases, ok, err, ℤ, arith,
}
use enisa_sbd_example.Mqtt.Wire.{IoError}
use enisa_sbd_example.Ingest.Handle.{Incoming}
use enisa_sbd_example.Ingest.Sample.{Sample}
use enisa_sbd_example.Ingest.Serve.{
  System, Event, arrives, accept_fails, cancels, runs, step, run, returned,
}
use enisa_sbd_example.Startup.Ingest
use enisa_sbd_example.Startup.Process.{not_started, run_ingest, main_ingest, status_of, after_serve}
use enisa_sbd_example.Startup.Ingest.Ready.{prepare-IsReady}

-- The service started, it was told to stop, its accept loop ended after that, and every connection
-- that it accepted is closed.
pub record IsOrderly {C P : Type 0} (env : Ingest.Outside C P) (decode : Bytes → Option Sample)
    (es : List Event) (args : List Bytes) : Type 0 where
  pub svc : Ingest.Service C P
  pub started : Ingest.prepare env args ≡ ok svc
  pub all_closed : (run decode svc.max_conns svc.system es).live ≡ []
  pub loop_ended : (run decode svc.max_conns svc.system es).stopped ≡ some none
  pub told : Memᴰ cancels es

module _ (decode : Bytes → Option Sample) (max_conns : ℤ) where
  -- Once the loop has ended, its result stands.
  step-stopped :
      (sys : System) (e : Event) (x : Option IoError)
      → sys.stopped ≡ some x
      → (step decode max_conns sys e).stopped ≡ some x
  unfolding step
  step-stopped sys (arrives inc) x h = ground arith
  step-stopped sys (accept_fails e) x h = ground arith
  step-stopped sys cancels x h = h
  step-stopped sys (runs now i) x h = h

  run-stopped :
      (sys : System) (es : List Event) (x : Option IoError)
      → sys.stopped ≡ some x
      → (run decode max_conns sys es).stopped ≡ some x
  unfolding run
  run-stopped sys [] x h = h
  run-stopped sys (e ∷ es) x h =
      run-stopped (step decode max_conns sys e) es x (step-stopped sys e x h)

  arrives-goes_on :
      (sys : System) (inc : Incoming)
      → ((step decode max_conns sys (arrives inc)).stopped ≡ sys.stopped)
        × ((step decode max_conns sys (arrives inc)).is_cancelled ≡ sys.is_cancelled)
  unfolding step
  arrives-goes_on sys inc = (ground arith, ground arith)

  -- An accept that fails in a context that has not ended is the loop's error.
  accept_fails-stopped :
      (sys : System) (e : IoError)
      → sys.stopped ≡ none
      → sys.is_cancelled ≡ false
      → (step decode max_conns sys (accept_fails e)).stopped ≡ some (some e)
  unfolding step
  accept_fails-stopped sys e going running = ground arith

  stopped-told :
      (sys : System) (es : List Event)
      → (run decode max_conns sys es).stopped ≡ some none
      → sys.stopped ≡ none
      → sys.is_cancelled ≡ false
      → Memᴰ cancels es
  unfolding run
  stopped-told sys [] h going running = absurd (ground arith)
  stopped-told sys (cancels ∷ es) h going running = Memᴰ.head refl
  stopped-told sys (runs now i ∷ es) h going running = Memᴰ.tail (
      stopped-told (step decode max_conns sys (runs now i)) es h (unfold step in going)
        (unfold step in running))
  stopped-told sys (arrives inc ∷ es) h going running =
      let (stops, cancelled) = arrives-goes_on sys inc in
      Memᴰ.tail (
        stopped-told (step decode max_conns sys (arrives inc)) es h (stops ∙ going)
          (cancelled ∙ running))
  stopped-told sys (accept_fails e ∷ es) h going running =
      let failed =
        run-stopped (step decode max_conns sys (accept_fails e)) es (some e)
          (accept_fails-stopped sys e going running) in
      absurd (differ (sym failed ∙ h))
    where
      differ : some (some e) ≡ some none → ⊥
      differ same = cc

returned-ended :
    (sys : System) → returned sys ≡ some none → (sys.live ≡ []) × (sys.stopped ≡ some none)
unfolding returned
returned-ended sys h = ground arith

status-zero : (r : Option (Option IoError)) → status_of (after_serve r) ≡ some 0 → r ≡ some none
status-zero none h = absurd (ground arith)
status-zero (some none) h = refl
status-zero (some (some e)) h = absurd (ground arith)

module _ {C P : Type 0} (env : Ingest.Outside C P) (decode : Bytes → Option Sample)
    (es : List Event) (args : List Bytes) where
  run_ingest-unstarted :
      (e : Ingest.StartError)
      → Ingest.prepare env args ≡ err e
      → run_ingest env decode es args ≡ some (err (not_started e))
  unfolding run_ingest
  run_ingest-unstarted e bad = rw (bad, run_ingest) refl

  run_ingest-started :
      (svc : Ingest.Service C P)
      → Ingest.prepare env args ≡ ok svc
      → run_ingest env decode es args
        ≡ after_serve (returned (run decode svc.max_conns svc.system es))
  unfolding run_ingest
  run_ingest-started svc started = rw (started, run_ingest) refl

  main_ingest-unstarted :
      (e : Ingest.StartError)
      → Ingest.prepare env args ≡ err e
      → main_ingest env decode es args ≡ some 1
  unfolding main_ingest
  main_ingest-unstarted e bad = ap status_of (run_ingest-unstarted e bad)

  main_ingest-started :
      (svc : Ingest.Service C P)
      → Ingest.prepare env args ≡ ok svc
      → main_ingest env decode es args
        ≡ status_of (after_serve (returned (run decode svc.max_conns svc.system es)))
  unfolding main_ingest
  main_ingest-started svc started = ap status_of (run_ingest-started svc started)

  orderly :
      (svc : Ingest.Service C P)
      → Ingest.prepare env args ≡ ok svc
      → main_ingest env decode es args ≡ some 0
      → IsOrderly env decode es args
  orderly svc started h =
      let sys = run decode svc.max_conns svc.system es in
      let (closed, ended) =
        returned-ended sys
          (status-zero (returned sys) (sym (main_ingest-started svc started) ∙ h)) in
      let ready = prepare-IsReady env args svc started in
      record {
        svc = svc;
        started = started;
        all_closed = closed;
        loop_ended = ended;
        told =
            stopped-told decode svc.max_conns svc.system es ended ready.unstopped ready.uncancelled;
      }

  zero_status : IsOrderly env decode es args → main_ingest env decode es args ≡ some 0
  unfolding returned
  zero_status o = main_ingest-started o.svc o.started ∙ rw (o.all_closed, o.loop_ended) refl

  -- The Ingest Service ends with status 0 exactly if it started and its `Serve` came to an orderly end:
  -- the accept loop ended after the service was told to stop, by a signal that ends its context, and
  -- all connections that it accepted are closed. Whatever goes wrong at the start, or in the accept
  -- loop before that, gives another status.
  pub main_ingest-IsOrderly_iff :
      (main_ingest env decode es args ≡ some 0) ↔ IsOrderly env decode es args
  main_ingest-IsOrderly_iff = (to, zero_status)
    where
      differ : {A : Type 0} (x : Option ℕ) → x ≡ some 1 → x ≡ some 0 → A
      differ x one zero_left = absurd (ground arith)

      to : main_ingest env decode es args ≡ some 0 → IsOrderly env decode es args
      to h = elim (Result-cases (Ingest.prepare env args)) [
        | inr (e, bad) ↦ differ (main_ingest env decode es args) (main_ingest-unstarted e bad) h
        | inl (svc, started) ↦ orderly svc started h
      ]
