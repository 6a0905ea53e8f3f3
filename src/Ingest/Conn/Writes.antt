-- ===== src/Ingest/Conn/Writes.antt =====
-- internal/ingest/server.go: what a write does to the connection.
use enisa_sbd_example.Common.{
  ◌≡◌, ◌⊎◌, inl, inr, refl, [], ◌∷◌, ◌++◌, none, some, arith, Option-cases, Bytes, Result, ok, err,
}
use enisa_sbd_example.Mqtt.Wire.{Error}
use enisa_sbd_example.Ingest.Conn.{SessionError, Conn, write_packet, first_answer}

pub write_packet-input : (c : Conn) (r : Result Error Bytes) → (write_packet c r).1.input ≡ c.input
unfolding write_packet
write_packet-input c (err e) = refl
write_packet-input c (ok b) = elim (Option-cases (first_answer c.writes)) [
  | inl sent ↦ rw (sent, write_packet)
  | inr (e, fails) ↦ rw (fails, write_packet)
]

-- Nothing is written, or the packet.
pub write_packet-written :
    (c : Conn) (r : Result Error Bytes)
    → ((write_packet c r).1.written ≡ c.written)
      ⊎ ((b : Bytes) × (r ≡ ok b) × ((write_packet c r).1.written ≡ c.written ++ b ∷ []))
unfolding write_packet
write_packet-written c (err e) = inl refl
write_packet-written c (ok b) = elim (Option-cases (first_answer c.writes)) [
  | inl sent ↦ inr (b, refl, rw (sent, write_packet))
  | inr (e, fails) ↦ inl (rw (fails, write_packet))
]

pub write_packet-sent :
    (c : Conn) (r : Result Error Bytes)
    → (write_packet c r).0 ≡ none
    → (b : Bytes) × (r ≡ ok b) × ((write_packet c r).1.written ≡ c.written ++ b ∷ [])
unfolding write_packet
write_packet-sent c (err e) h = cc
write_packet-sent c (ok b) h = elim (Option-cases (first_answer c.writes)) [
  | inl sent ↦ (b, refl, rw (sent, write_packet))
  | inr (e, fails) ↦ ground arith
]

pub write_packet-failed :
    (c : Conn) (r : Result Error Bytes) (e : SessionError)
    → (write_packet c r).0 ≡ some e
    → (write_packet c r).1.written ≡ c.written
unfolding write_packet
write_packet-failed c (err x) e h = refl
write_packet-failed c (ok b) e h = elim (Option-cases (first_answer c.writes)) [
  | inl sent ↦ ground arith
  | inr (x, fails) ↦ rw (fails, write_packet)
]
