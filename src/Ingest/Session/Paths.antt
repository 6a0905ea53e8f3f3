-- ===== src/Ingest/Session/Paths.antt =====
-- internal/ingest/server.go: the paths through one round of the session's loop.
use enisa_sbd_example.Common.{
  ◌≡◌, ◌⊎◌, inl, inr, refl, Bool-cases, [], Option, some, none, Option-cases, Bytes, text_eq,
  text_eq_iff, ==_iff, subst, ◌==◌, pos, Result-cases, ok, err,
}
use enisa_sbd_example.Mqtt.Wire.{
  IoError, Error, io, max_packet_size, publish_type, pingreq_type, disconnect_type, pingresp_type,
}
use enisa_sbd_example.Mqtt.Packet.{Packet, read, write}
use enisa_sbd_example.Mqtt.Publish.{Publish, decode_publish}
use enisa_sbd_example.Store.Model.{Time, Store}
use enisa_sbd_example.Ingest.Conn.{
  SessionError, wire, unexpected_packet, device_mismatch, Conn, set_deadline, first_answer,
  later_answers, write_packet, topic_for,
}
use enisa_sbd_example.Ingest.Sample.{Sample, record_sample}
use enisa_sbd_example.Ingest.Session.Trace.{
  IsRefused, undecodable, misdirected, unrecorded, unexpected,
}
use enisa_sbd_example.Ingest.Session.{
  Progress, goes_on, ended, after_write, acknowledge, on_publish, on_packet, next_round,
}

pub Progress-cases : (p : Progress) → (p ≡ goes_on) ⊎ ((e : Option SessionError) × (p ≡ ended e))
Progress-cases goes_on = inl refl
Progress-cases (ended e) = inr (e, refl)

module _ (decode : Bytes → Option Sample) (device_id : Bytes) where
  -- Nothing is stored and nothing written, at a packet that is refused or a DISCONNECT; a ping is answered; or a sample is stored, for the device
  -- of the session, under whose topic it came, and acknowledged where QoS 1 asks for it.
  pub data PacketPath (now : Time) (s : Store) (c : Conn) (p : Packet)
      (out : Progress × Store × Conn) : Type 0 where
    quits :
        (e : SessionError)
        → IsRefused decode device_id s p e
        → out ≡ (ended (some e), s, c)
        → PacketPath now s c p out
    leaves : p.type ≡ disconnect_type → out ≡ (ended none, s, c) → PacketPath now s c p out
    pongs :
        p.type ≡ pingreq_type
        → out ≡ after_write s (write_packet c (write pingresp_type 0 []))
        → PacketPath now s c p out
    stores :
        (m : Publish) (s' : Store)
        → p.type ≡ publish_type
        → decode_publish p.flags p.body ≡ ok m
        → m.topic ≡ topic_for device_id
        → record_sample decode s now device_id m.payload ≡ ok s'
        → out ≡ acknowledge s' c m
        → PacketPath now s c p out

  on_publish-PacketPath :
      (now : Time) (s : Store) (c : Conn) (p : Packet) (m : Publish)
      → p.type ≡ publish_type
      → decode_publish p.flags p.body ≡ ok m
      → PacketPath now s c p (on_publish decode device_id now s c m)
  unfolding on_publish
  on_publish-PacketPath now s c p m t decoded =
      elim (Bool-cases (text_eq m.topic (topic_for device_id))) [
        | inr other ↦
            quits device_mismatch (misdirected m t decoded (λ own. cc ((text_eq_iff _ _).1 own)))
              (rw (other, on_publish))
        | inl own ↦ elim (Result-cases (record_sample decode s now device_id m.payload)) [
          | inr (e, refused) ↦
              quits e (unrecorded now m e t decoded ((text_eq_iff _ _).0 own) refused)
                (rw (own, refused, on_publish))
          | inl (s', stored) ↦
              stores m s' t decoded ((text_eq_iff _ _).0 own) stored (rw (own, stored, on_publish))
        ]
      ]

  pub on_packet-PacketPath :
      (now : Time) (s : Store) (c : Conn) (p : Packet)
      → PacketPath now s c p (on_packet decode device_id now s c p)
  unfolding on_packet
  on_packet-PacketPath now s c p = elim (Bool-cases (p.type == publish_type)) [
    | inl is_publish ↦ elim (Result-cases (decode_publish p.flags p.body)) [
      | inr (e, bad) ↦
          quits (wire e) (undecodable e ((==_iff _ _).0 is_publish) bad)
            (rw (is_publish, bad, on_packet))
      | inl (m, decoded) ↦
          subst (PacketPath now s c p) (rw (is_publish, decoded, on_packet))
            (on_publish-PacketPath now s c p m ((==_iff _ _).0 is_publish) decoded)
    ]
    | inr no_publish ↦ elim (Bool-cases (p.type == pingreq_type)) [
      | inl is_ping ↦ pongs ((==_iff _ _).0 is_ping) (rw (no_publish, is_ping, on_packet))
      | inr no_ping ↦ elim (Bool-cases (p.type == disconnect_type)) [
        | inl last ↦ leaves ((==_iff _ _).0 last) (rw (no_publish, no_ping, last, on_packet))
        | inr other ↦
            quits (unexpected_packet p.type)
              (unexpected (λ h. cc ((==_iff _ _).1 h)) (λ h. cc ((==_iff _ _).1 h))
                (λ h. cc ((==_iff _ _).1 h)))
              (rw (no_publish, no_ping, other, on_packet))
      ]
    ]
  ]

  -- A round ends because the deadline is not set or no packet is read, or it handles the packet that was read.
  pub data RoundPath (now : Time) (s : Store) (conn : Conn) (out : Progress × Store × Conn)
      : Type 0 where
    halts :
        (e : IoError) (c : Conn)
        → out ≡ (ended (some (wire (io e))), s, c)
        → c.written ≡ conn.written
        → RoundPath now s conn out
    stops :
        (e : Error) (c : Conn)
        → read conn.input (pos max_packet_size) ≡ err e
        → out ≡ (ended (some (wire e)), s, c)
        → c.written ≡ conn.written
        → RoundPath now s conn out
    handles :
        (c : Conn) (p : Packet)
        → read conn.input (pos max_packet_size) ≡ ok (p, c.input)
        → c.written ≡ conn.written
        → PacketPath now s c p out
        → RoundPath now s conn out

  pub next_round-RoundPath :
      (now : Time) (s : Store) (conn : Conn)
      → RoundPath now s conn (next_round decode device_id now s conn)
  unfolding next_round set_deadline
  next_round-RoundPath now s conn =
      let c = record conn { deadlines = later_answers conn.deadlines } in
      elim (Option-cases (first_answer conn.deadlines)) [
        | inr (e, fails) ↦ halts e c (rw (fails, next_round)) refl
        | inl set ↦ elim (Result-cases (read conn.input (pos max_packet_size))) [
          | inr (e, fails) ↦ stops e c fails (rw (set, fails, next_round)) refl
          | inl ((p, rest), arrived) ↦
              handles (record c { input = rest }) p arrived refl
                (subst (PacketPath now s (record c { input = rest }) p)
                  (rw (set, arrived, next_round))
                  (on_packet-PacketPath now s (record c { input = rest }) p))
        ]
      ]
