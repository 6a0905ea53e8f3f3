-- ===== src/Ingest/Session/Opening.antt =====
-- internal/ingest/server.go: the session up to the answer to CONNECT.
use enisa_sbd_example.Common.{
  ℕ, ◌≡◌, ◌≢◌, ◌⊎◌, ◌+◌, ◌≤◌, inl, inr, refl, ap, ◌∙◌, Option, some, none, Option-cases, [], ◌∷◌,
  ◌++◌, Bytes, length, ◌==◌, ==_iff, Bool-cases, pos, Result-cases, ok, arith,
}
use enisa_sbd_example.Mqtt.Wire.{
  Error, io, malformed, too_large, creds_in_con, Stream, max_packet_size, connect_type,
}
use enisa_sbd_example.Mqtt.Packet.{Packet, read, write_conn_ack, conn_accepted}
use enisa_sbd_example.Mqtt.Packet.Bounds.{read-ReadParts}
use enisa_sbd_example.Mqtt.Connect.{Connect, decode_connect}
use enisa_sbd_example.Ingest.Conn.{
  SessionError, wire, not_connect, Conn, set_deadline, first_answer, later_answers, write_packet,
}
use enisa_sbd_example.Ingest.Conn.Writes.{
  write_packet-input, write_packet-written, write_packet-sent, write_packet-failed,
}
use enisa_sbd_example.Ingest.Session.{open_session, answer_connect, refusal_code}

-- The session is refused, with at most one CONNACK, which does not accept; or a CONNACK that accepts
-- has been written, to a first packet that is an acceptable CONNECT.
pub data OpenPath (conn : Conn) (out : Option SessionError × Conn) : Type 0 where
  refused :
      (e : SessionError)
      → out.0 ≡ some e
      → (out.1.written ≡ conn.written)
        ⊎ ((code : ℕ) × (b : Bytes) × (code ≢ conn_accepted)
            × (write_conn_ack code ≡ ok b)
            × (out.1.written ≡ conn.written ++ b ∷ []))
      → OpenPath conn out
  accepted :
      (first : Packet) (greeting : Connect) (b : Bytes)
      → out.0 ≡ none
      → first.type ≡ connect_type
      → decode_connect first.body ≡ ok greeting
      → write_conn_ack conn_accepted ≡ ok b
      → out.1.written ≡ conn.written ++ b ∷ []
      → read conn.input (pos max_packet_size) ≡ ok (first, out.1.input)
      → length out.1.input.bytes + 2 ≤ length conn.input.bytes
      → OpenPath conn out

refusal_code-ne : (e : Error) → refusal_code e ≢ conn_accepted
refusal_code-ne creds_in_con h = omega arith
refusal_code-ne malformed h = omega arith
refusal_code-ne too_large h = omega arith
refusal_code-ne (io e) h = omega arith

refuse-OpenPath :
    (conn c : Conn) (e : Error)
    → c.written ≡ conn.written
    → OpenPath conn (some (wire e), (write_packet c (write_conn_ack (refusal_code e))).1)
refuse-OpenPath conn c e same = elim (write_packet-written c (write_conn_ack (refusal_code e))) [
  | inl nothing ↦ refused (wire e) refl (inl (nothing ∙ same))
  | inr (b, encoded, sent) ↦
      refused (wire e) refl
        (inr (refusal_code e, b, refusal_code-ne e, encoded, sent ∙ ap (λ w. w ++ b ∷ []) same))
]

accept-OpenPath :
    (conn c : Conn) (first : Packet) (greeting : Connect)
    → c.written ≡ conn.written
    → read conn.input (pos max_packet_size) ≡ ok (first, c.input)
    → length c.input.bytes + 2 ≤ length conn.input.bytes
    → first.type ≡ connect_type
    → decode_connect first.body ≡ ok greeting
    → OpenPath conn (write_packet c (write_conn_ack conn_accepted))
accept-OpenPath conn c first greeting same arrived taken t decoded =
    let out = write_packet c (write_conn_ack conn_accepted) in
    elim (Option-cases out.0) [
      | inl done ↦
          let (b, encoded, sent) = write_packet-sent c (write_conn_ack conn_accepted) done in
          accepted first greeting b done t decoded encoded (sent ∙ ap (λ w. w ++ b ∷ []) same)
            (rw (write_packet-input c (write_conn_ack conn_accepted)) arrived)
            (omega (
              arith,
              taken,
              ap (λ (i : Stream). length i.bytes)
                  (write_packet-input c (write_conn_ack conn_accepted)),
            ))
      | inr (e, fails) ↦
          refused e fails
            (inl (write_packet-failed c (write_conn_ack conn_accepted) e fails ∙ same))
    ]

answer_connect-OpenPath :
    (conn c : Conn) (first : Packet)
    → c.written ≡ conn.written
    → read conn.input (pos max_packet_size) ≡ ok (first, c.input)
    → length c.input.bytes + 2 ≤ length conn.input.bytes
    → OpenPath conn (answer_connect c first)
unfolding answer_connect
answer_connect-OpenPath conn c first same arrived taken =
    elim (Bool-cases (first.type == connect_type)) [
      | inr other ↦ rw (other, answer_connect) (refused (not_connect first.type) refl (inl same))
      | inl is_connect ↦ elim (Result-cases (decode_connect first.body)) [
        | inr (e, bad) ↦ rw (is_connect, bad, answer_connect) (refuse-OpenPath conn c e same)
        | inl (greeting, decoded) ↦
            rw (is_connect, decoded, answer_connect)
              (accept-OpenPath conn c first greeting same arrived taken ((==_iff _ _).0 is_connect)
                decoded)
      ]
    ]

pub open_session-OpenPath : (conn : Conn) → OpenPath conn (open_session conn)
unfolding open_session set_deadline
open_session-OpenPath conn = elim (Option-cases (first_answer conn.deadlines)) [
  | inr (e, fails) ↦
      refused (wire (io e)) (rw (fails, open_session)) (inl (rw (fails, open_session)))
  | inl set ↦ elim (Result-cases (read conn.input (pos max_packet_size))) [
    | inr (e, fails) ↦
        refused (wire e) (rw (set, fails, open_session)) (inl (rw (set, fails, open_session)))
    | inl ((first, rest), arrived) ↦
        let c = record conn { deadlines = later_answers conn.deadlines; input = rest } in
        rw (set, arrived, open_session)
          (answer_connect-OpenPath conn c first refl arrived (
            omega (
              arith,
              (read-ReadParts conn.input rest (pos max_packet_size) first arrived).consumed_least,
            )))
  ]
]
