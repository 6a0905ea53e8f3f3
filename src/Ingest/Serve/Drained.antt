-- ===== src/Ingest/Serve/Drained.antt =====
-- internal/ingest/server.go: `Serve` after its loop, while the last connections are served.
use enisa_sbd_example.Common.{
  ℕ, suc, ◌≡◌, refl, ap, ◌∙◌, List, [], ◌∷◌, ◌++◌, Option, some, Bytes, length, ℤ, pos, arith,
}
use enisa_sbd_example.Mqtt.Wire.{IoError}
use enisa_sbd_example.Store.Model.{Time, Store}
use enisa_sbd_example.Ingest.Sample.{Sample}
use enisa_sbd_example.Ingest.Session.Ends.{rounds_total}
use enisa_sbd_example.Ingest.Handle.Paths.{handle_total}
use enisa_sbd_example.Ingest.Serve.{Live, waiting, looping, System, Event, step, run, returned}
use enisa_sbd_example.Ingest.Serve.Alone.{rounds-run, handle-run}

abbrev still : ℕ → Time
still i = pos 0

module _ (decode : Bytes → Option Sample) (max_conns : ℤ) where
  run-append :
      (sys : System) (es fs : List Event)
      → run decode max_conns sys (es ++ fs) ≡ run decode max_conns (run decode max_conns sys es) fs
  unfolding run
  run-append sys [] fs = refl
  run-append sys (e ∷ es) fs = run-append (step decode max_conns sys e) es fs

  -- Some schedule brings the first connection to its end.
  first_ends :
      (sys : System) (s : Store) (l : Live) (others : List Live)
      → (es : List Event) × (t : Store) × (run decode max_conns
            (record sys { store = s; live = l ∷ others })
            es
          ≡ record sys { store = t; live = others })
  first_ends sys s (waiting inc) others =
      let n = suc (length inc.conn.input.bytes) in
      let (out, ends) = handle_total decode n still s inc (omega arith) in
      let (es, same) = handle-run decode max_conns sys others n still s inc out ends in
      (es, out.1, same)
  first_ends sys s (looping id c) others =
      let n = suc (length c.input.bytes) in
      let (out, ends) = rounds_total decode id n still 0 s c (omega arith) in
      let (es, same) = rounds-run decode max_conns sys others id n still 0 s c out ends in
      (es, out.1, same)

  drains :
      (sys : System) (s : Store) (ls : List Live)
      → (es : List Event) × (t : Store) × (run decode max_conns
            (record sys { store = s; live = ls })
            es
          ≡ record sys { store = t; live = [] })
  drains sys s [] = ([], s, unfold run in refl)
  drains sys s (l ∷ ls) =
      let (es, t, first) = first_ends sys s l ls in
      let (fs, u, rest) = drains sys t ls in
      (
        es ++ fs,
        u,
        run-append (record sys { store = s; live = l ∷ ls }) es fs
            ∙ ap (λ x. run decode max_conns x fs) first
            ∙ rest,
      )

  -- Once the accept loop has ended, `Serve` can always return, with the loop's result: whatever the
  -- connections are that are still served, some order of their steps brings each of them to its end.
  pub run-returned :
      (sys : System) (result : Option IoError)
      → sys.stopped ≡ some result
      → (es : List Event) × (returned (run decode max_conns sys es) ≡ some result)
  unfolding returned
  run-returned sys result h =
      let (es, t, same) = drains sys sys.store sys.live in (es, ap returned same ∙ h)
