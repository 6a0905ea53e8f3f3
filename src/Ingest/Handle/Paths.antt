-- ===== src/Ingest/Handle/Paths.antt =====
-- internal/ingest/server.go: the paths through `handle`.
use enisa_sbd_example.Common.{
  ℕ, ◌≡◌, ◌<◌, ◌⊎◌, inl, inr, true, Bool-cases, Option, none, some, Option-cases, Bytes, length,
  Result-cases, ok, subst, sym, ap, ◌∙◌,
}
use enisa_sbd_example.Store.Model.{Time, Store, Device}
use enisa_sbd_example.Store.Reads.{device}
use enisa_sbd_example.Ingest.Conn.{SessionError, Conn, device_id_from}
use enisa_sbd_example.Ingest.Sample.{Sample}
use enisa_sbd_example.Ingest.Session.{session}
use enisa_sbd_example.Ingest.Session.Served.{session-SessionPath}
use enisa_sbd_example.Ingest.Session.Trace.{SessionPath}
use enisa_sbd_example.Ingest.Session.Ends.{session_total}
use enisa_sbd_example.Ingest.Handle.{
  Incoming, Ending, not_tls, handshake_refused, certificate_unusable, not_enrolled, session_over,
  end_session, handle,
}

module _ (decode : Bytes → Option Sample) where
  -- The connection is dropped before a byte of it is read, or it is a TLS connection whose verified
  -- certificate names an enrolled device, and the session is that device's.
  pub data HandlePath (fuel : ℕ) (clock : ℕ → Time) (s : Store) (inc : Incoming)
      (res : Option (Ending × Store × Conn)) : Type 0 where
    dropped : (e : Ending) → res ≡ some (e, s, inc.conn) → HandlePath fuel clock s inc res
    serves :
        (device_id : Bytes) (d : Device)
        → inc.is_tls ≡ true
        → inc.handshake ≡ none
        → device_id_from inc.common_names ≡ ok device_id
        → device s device_id ≡ some d
        → res ≡ end_session (session decode device_id fuel clock s inc.conn)
        → HandlePath fuel clock s inc res

  pub handle-HandlePath :
      (fuel : ℕ) (clock : ℕ → Time) (s : Store) (inc : Incoming)
      → HandlePath fuel clock s inc (handle decode fuel clock s inc)
  unfolding handle
  handle-HandlePath fuel clock s inc = elim (Bool-cases inc.is_tls) [
    | inr plain ↦ dropped not_tls (rw (plain, handle))
    | inl is_tls ↦ elim (Option-cases inc.handshake) [
      | inr (e, refused) ↦ dropped (handshake_refused e) (rw (is_tls, refused, handle))
      | inl shaken ↦ elim (Result-cases (device_id_from inc.common_names)) [
        | inr (e, bad) ↦ dropped (certificate_unusable e) (rw (is_tls, shaken, bad, handle))
        | inl (id, named) ↦ elim (Option-cases (device s id)) [
          | inl absent ↦ dropped (not_enrolled id) (rw (is_tls, shaken, named, absent, handle))
          | inr (d, present) ↦
              serves id d is_tls shaken named present (rw (is_tls, shaken, named, present, handle))
        ]
      ]
    ]
  ]

  -- With more rounds than the connection has bytes, every connection comes to its end.
  pub handle_total :
      (fuel : ℕ) (clock : ℕ → Time) (s : Store) (inc : Incoming)
      → length inc.conn.input.bytes < fuel
      → (out : Ending × Store × Conn) × (handle decode fuel clock s inc ≡ some out)
  handle_total fuel clock s inc h = of_path (handle-HandlePath fuel clock s inc)
    where
      of_path :
          HandlePath fuel clock s inc (handle decode fuel clock s inc)
          → (out : Ending × Store × Conn) × (handle decode fuel clock s inc ≡ some out)
      of_path (dropped e same) = ((e, s, inc.conn), same)
      of_path (serves id d t k n p same) =
          let ((e, s', c), runs) = session_total decode id fuel clock s inc.conn h in
          ((session_over e, s', c), same ∙ ap end_session runs)

  -- A connection stores nothing and is written nothing, or it came over TLS with a certificate that
  -- names an enrolled device, and its session went as that device's.
  pub handle-SessionPath :
      (fuel : ℕ) (clock : ℕ → Time) (s : Store) (inc : Incoming) (out : Ending × Store × Conn)
      → handle decode fuel clock s inc ≡ some out
      → ((out.1 ≡ s) × (out.2 ≡ inc.conn))
        ⊎ ((device_id : Bytes) × (d : Device) × (e : Option SessionError) × (inc.is_tls ≡ true)
            × (inc.handshake ≡ none)
            × (device_id_from inc.common_names ≡ ok device_id)
            × (device s device_id ≡ some d)
            × SessionPath decode device_id s inc.conn (e, out.1, out.2))
  handle-SessionPath fuel clock s inc out h = of_path (handle-HandlePath fuel clock s inc)
    where
      Outcome : Type 0
      Outcome =
          ((out.1 ≡ s) × (out.2 ≡ inc.conn))
          ⊎ ((device_id : Bytes) × (d : Device) × (e : Option SessionError) × (inc.is_tls ≡ true)
              × (inc.handshake ≡ none)
              × (device_id_from inc.common_names ≡ ok device_id)
              × (device s device_id ≡ some d)
              × SessionPath decode device_id s inc.conn (e, out.1, out.2))

      of_path : HandlePath fuel clock s inc (handle decode fuel clock s inc) → Outcome
      of_path (dropped e same) =
          let dropped_here : some out ≡ some (e, s, inc.conn) = sym h ∙ same in
          let eq : out ≡ (e, s, inc.conn) = cc in inl (ap (λ o. o.1) eq, ap (λ o. o.2) eq)
      of_path (serves id d t k n p same) =
          elim (Option-cases (session decode id fuel clock s inc.conn)) [
            | inl cut ↦ let nothing : some out ≡ none = sym h ∙ same ∙ ap end_session cut in cc
            | inr (r, runs) ↦
                let served : some out ≡ some (session_over r.0, r.1, r.2) =
                  sym h ∙ same ∙ ap end_session runs in
                let eq : out ≡ (session_over r.0, r.1, r.2) = cc in
                inr (
                  id,
                  d,
                  r.0,
                  t,
                  k,
                  n,
                  p,
                  subst
                      (λ (o : Ending × Store × Conn).
                        SessionPath decode id s inc.conn (r.0, o.1, o.2))
                      (sym eq) (session-SessionPath decode id fuel clock s inc.conn r runs),
                )
          ]
