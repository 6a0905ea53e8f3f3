-- ===== src/Ingest/Serve/Bound.antt =====
-- internal/ingest/server.go: the connections that are served at once.
use enisa_sbd_example.Common.{
  ℕ, zero, suc, ◌≤◌, List, [], ◌∷◌, Option, none, some, Bytes, length, length-append, ℤ, arith,
}
use enisa_sbd_example.Store.Model.{Time, Store}
use enisa_sbd_example.Ingest.Sample.{Sample}
use enisa_sbd_example.Ingest.Serve.{
  Live, waiting, System, capacity, keep_live, Event, arrives, accept_fails, cancels, runs,
  step_live, run_nth, step, run,
}

module _ (decode : Bytes → Option Sample) where
  length-keep_live : (l : Option Live) (ls : List Live) → length (keep_live l ls) ≤ suc (length ls)
  length-keep_live none ls = omega arith
  length-keep_live (some l) ls = omega arith

  length-run_nth :
      (now : Time) (s : Store) (ls : List Live) (i : ℕ)
      → length (run_nth decode now s ls i).1 ≤ length ls
  unfolding run_nth
  length-run_nth now s [] i = omega arith
  length-run_nth now s (l ∷ ls) zero = length-keep_live (step_live decode now s l).1 ls
  length-run_nth now s (l ∷ ls) (suc i) = omega (arith, length-run_nth now s ls i)

  step-bound :
      (max_conns : ℤ) (sys : System) (e : Event)
      → length sys.live ≤ capacity max_conns
      → length (step decode max_conns sys e).live ≤ capacity max_conns
  unfolding step
  step-bound max_conns sys (arrives inc) h =
      ground (arith, length-append {0} sys.live (waiting inc ∷ []))
  step-bound max_conns sys (accept_fails e) h = ground arith
  step-bound max_conns sys cancels h = h
  step-bound max_conns sys (runs now i) h = omega (arith, length-run_nth now sys.store sys.live i)

  -- At no time are more connections served than `MaxConns`, or than one if that is not positive.
  pub run-bound :
      (max_conns : ℤ) (sys : System) (es : List Event)
      → length sys.live ≤ capacity max_conns
      → length (run decode max_conns sys es).live ≤ capacity max_conns
  unfolding run
  run-bound max_conns sys [] h = h
  run-bound max_conns sys (e ∷ es) h =
      run-bound max_conns (step decode max_conns sys e) es (step-bound max_conns sys e h)
