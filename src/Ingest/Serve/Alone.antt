-- ===== src/Ingest/Serve/Alone.antt =====
-- internal/ingest/server.go: a connection that is run to its end, as `handle` runs it, while the
-- others wait.
use enisa_sbd_example.Common.{
  ℕ, zero, suc, ◌+◌, ◌≡◌, inl, inr, sym, ap, ◌∙◌, Bool-cases, List, [], ◌∷◌, Option, none, some,
  Option-cases, Bytes, ℤ, pos, Result-cases,
}
use enisa_sbd_example.Store.Model.{Time, Store}
use enisa_sbd_example.Store.Reads.{device}
use enisa_sbd_example.Ingest.Conn.{SessionError, Conn, device_id_from}
use enisa_sbd_example.Ingest.Sample.{Sample}
use enisa_sbd_example.Ingest.Session.{open_session, next_round, rounds, session}
use enisa_sbd_example.Ingest.Session.Paths.{Progress-cases}
use enisa_sbd_example.Ingest.Handle.{
  Incoming, Ending, not_tls, handshake_refused, certificate_unusable, not_enrolled, session_over,
  end_session, handle,
}
use enisa_sbd_example.Ingest.Serve.{
  Live, waiting, looping, System, keep_live, after_round, opened, greet, Event, runs, step_live,
  run_nth, step, run,
}

-- The server with one connection before the others.
abbrev pub with_first : Store → Live → List Live → System → System
with_first s l others sys = record sys { store = s; live = l ∷ others }

module _ (decode : Bytes → Option Sample) (max_conns : ℤ) (sys : System) (others : List Live) where
  pub rounds-run :
      (device_id : Bytes) (fuel : ℕ) (clock : ℕ → Time) (i : ℕ) (s : Store) (c : Conn)
      (out : Option SessionError × Store × Conn)
      → rounds decode device_id fuel clock i s c ≡ some out
      → (es : List Event) × (run decode max_conns (with_first s (looping device_id c) others sys) es
          ≡ record sys { store = out.1; live = others })
  unfolding rounds run step run_nth step_live
  rounds-run id zero clock i s c out h = cc
  rounds-run id (suc fuel) clock i s c out h =
      let o = next_round decode id (clock i) s c in
      elim (Progress-cases o.0) [
        | inl more ↦
            let (es, same) =
              rounds-run id fuel clock (i + 1) o.1 o.2 out (rw (more, rounds) at h) in
            (runs (clock i) 0 ∷ es, rw (more, after_round) same)
        | inr (e, over) ↦
            let here : some (e, o.1, o.2) ≡ some out = rw (over, rounds) at h in
            let same : (e, o.1, o.2) ≡ out = cc in
            (
              runs (clock i) 0 ∷ [],
              rw (over, after_round)
                  (ap
                    (λ (x : Option SessionError × Store × Conn). record sys {
                      store = x.1;
                      live = others;
                    })
                    same),
            )
      ]

  Alone : Store → Live → Store → Type 0
  Alone s l t =
      (es : List Event) × (run decode max_conns (with_first s l others sys) es
        ≡ record sys { store = t; live = others })

  closed-Alone :
      (s : Store) (inc : Incoming) (e : Ending) (c : Conn) (out : Ending × Store × Conn)
      → greet s inc ≡ none
      → some (e, s, c) ≡ some out
      → Alone s (waiting inc) out.1
  unfolding Alone run step run_nth step_live
  closed-Alone s inc e c out none_left h =
      let same : (e, s, c) ≡ out = cc in
      (
        runs (pos 0) 0 ∷ [],
        rw (none_left, keep_live)
            (ap (λ (x : Ending × Store × Conn). record sys { store = x.1; live = others }) same),
      )

  session-Alone :
      (id : Bytes) (fuel : ℕ) (clock : ℕ → Time) (s : Store) (inc : Incoming)
      (out : Ending × Store × Conn)
      → greet s inc ≡ opened id (open_session inc.conn)
      → end_session (session decode id fuel clock s inc.conn) ≡ some out
      → Alone s (waiting inc) out.1
  unfolding Alone session run step run_nth step_live
  session-Alone id fuel clock s inc out greeted h = elim (Option-cases (open_session inc.conn).0) [
    | inr (e, refused) ↦
        closed-Alone s inc (session_over (some e)) (open_session inc.conn).1 out
          (greeted ∙ rw (refused, opened)) (rw (refused, end_session) at h)
    | inl accepted ↦
        let c = (open_session inc.conn).1 in
        let in_loop : greet s inc ≡ some (looping id c) = greeted ∙ rw (accepted, opened) in
        let loop_over : end_session (rounds decode id fuel clock 0 s c) ≡ some out =
          rw (accepted, end_session) at h in
        elim (Option-cases (rounds decode id fuel clock 0 s c)) [
          | inl cut ↦ let nothing : none ≡ some out = sym (ap end_session cut) ∙ loop_over in cc
          | inr (r, runs_to) ↦
              let (es, same) = rounds-run id fuel clock 0 s c r runs_to in
              let over : some (session_over r.0, r.1, r.2) ≡ some out =
                sym (ap end_session runs_to) ∙ loop_over in
              let eq : (session_over r.0, r.1, r.2) ≡ out = cc in
              (
                runs (pos 0) 0 ∷ es,
                ap
                      (λ (l : Option Live).
                        run decode max_conns (record sys { store = s; live = keep_live l others })
                          es)
                      in_loop
                    ∙ same
                    ∙ ap (λ (x : Ending × Store × Conn). record sys { store = x.1; live = others })
                        eq,
              )
        ]
  ]

  -- What `handle` makes of a connection is what some schedule makes of a server that serves it beside
  -- others: the store is the same, its slot is free again, and the other connections stand where they
  -- stood.
  pub handle-run :
      (fuel : ℕ) (clock : ℕ → Time) (s : Store) (inc : Incoming) (out : Ending × Store × Conn)
      → handle decode fuel clock s inc ≡ some out
      → (es : List Event) × (run decode max_conns (with_first s (waiting inc) others sys) es
          ≡ record sys { store = out.1; live = others })
  unfolding handle greet Alone
  handle-run fuel clock s inc out h = elim (Bool-cases inc.is_tls) [
    | inr plain ↦
        closed-Alone s inc not_tls inc.conn out (rw (plain, greet)) (rw (plain, handle) at h)
    | inl is_tls ↦ elim (Option-cases inc.handshake) [
      | inr (e, refused) ↦
          closed-Alone s inc (handshake_refused e) inc.conn out (rw (is_tls, refused, greet))
            (rw (is_tls, refused, handle) at h)
      | inl shaken ↦ elim (Result-cases (device_id_from inc.common_names)) [
        | inr (e, bad) ↦
            closed-Alone s inc (certificate_unusable e) inc.conn out
              (rw (is_tls, shaken, bad, greet)) (rw (is_tls, shaken, bad, handle) at h)
        | inl (id, named) ↦ elim (Option-cases (device s id)) [
          | inl absent ↦
              closed-Alone s inc (not_enrolled id) inc.conn out
                (rw (is_tls, shaken, named, absent, greet))
                (rw (is_tls, shaken, named, absent, handle) at h)
          | inr (d, present) ↦
              session-Alone id fuel clock s inc out (rw (is_tls, shaken, named, present, greet))
                (rw (is_tls, shaken, named, present, handle) at h)
        ]
      ]
    ]
  ]
