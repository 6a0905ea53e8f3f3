-- ===== src/Ingest/Session/Ends.antt =====
-- internal/ingest/server.go: every session ends.
use enisa_sbd_example.Common.{
  ℕ, [], zero, suc, ◌≡◌, ◌+◌, ◌≤◌, ◌<◌, inl, inr, ap, ◌∙◌, Option, some, Bytes, length, ◌==◌,
  Bool-cases, pos, arith,
}
use enisa_sbd_example.Mqtt.Wire.{Stream, max_packet_size, pingresp_type}
use enisa_sbd_example.Mqtt.Packet.{Packet, write, write_pub_ack}
use enisa_sbd_example.Mqtt.Packet.Bounds.{read-ReadParts}
use enisa_sbd_example.Mqtt.Publish.{Publish}
use enisa_sbd_example.Store.Model.{Time, Store}
use enisa_sbd_example.Ingest.Conn.{SessionError, Conn}
use enisa_sbd_example.Ingest.Conn.Writes.{write_packet-input}
use enisa_sbd_example.Ingest.Sample.{Sample}
use enisa_sbd_example.Ingest.Session.{
  Progress, goes_on, acknowledge, next_round, rounds, session, open_session,
}
use enisa_sbd_example.Ingest.Session.Opening.{OpenPath, refused, accepted, open_session-OpenPath}
use enisa_sbd_example.Ingest.Session.Paths.{
  Progress-cases, PacketPath, quits, leaves, pongs, stores, RoundPath, halts, stops, handles,
  next_round-RoundPath,
}

acknowledge-input : (s : Store) (c : Conn) (m : Publish) → (acknowledge s c m).2.input ≡ c.input
unfolding acknowledge
acknowledge-input s c m = elim (Bool-cases (m.qos == 1)) [
  | inl asked ↦ rw (asked, acknowledge) (write_packet-input c (write_pub_ack m.packet_id))
  | inr silent ↦ rw (silent, acknowledge)
]

module _ (decode : Bytes → Option Sample) (device_id : Bytes) where
  PacketPath-input :
      (now : Time) (s : Store) (c : Conn) (p : Packet) (out : Progress × Store × Conn)
      → PacketPath decode device_id now s c p out
      → out.2.input ≡ c.input
  PacketPath-input now s c p out (quits e r same) = ap (λ o. o.2.input) same
  PacketPath-input now s c p out (leaves t same) = ap (λ o. o.2.input) same
  PacketPath-input now s c p out (pongs t same) =
      ap (λ o. o.2.input) same ∙ write_packet-input c (write pingresp_type 0 [])
  PacketPath-input now s c p out (stores m s' t d own r same) =
      ap (λ o. o.2.input) same ∙ acknowledge-input s' c m

  -- A round that goes on has taken a packet off the input.
  RoundPath-shrinks :
      (now : Time) (s : Store) (conn : Conn) (out : Progress × Store × Conn)
      → RoundPath decode device_id now s conn out
      → out.0 ≡ goes_on
      → length out.2.input.bytes + 2 ≤ length conn.input.bytes
  RoundPath-shrinks now s conn out (halts e c same w) more = cc
  RoundPath-shrinks now s conn out (stops e c fails same w) more = cc
  RoundPath-shrinks now s conn out (handles c p arrived w path) more = omega (
    arith,
    (read-ReadParts conn.input c.input (pos max_packet_size) p arrived).consumed_least,
    ap (λ (i : Stream). length i.bytes) (PacketPath-input now s c p out path),
  )

  pub rounds_total :
      (fuel : ℕ) (clock : ℕ → Time) (i : ℕ) (s : Store) (c : Conn)
      → length c.input.bytes < fuel
      → (out : Option SessionError × Store × Conn) × (rounds decode device_id fuel clock i s c
          ≡ some out)
  unfolding rounds
  rounds_total zero clock i s c h = elim h [ ]
  rounds_total (suc fuel) clock i s c h =
      let path = next_round-RoundPath decode device_id (clock i) s c in
      let out = next_round decode device_id (clock i) s c in
      elim (Progress-cases out.0) [
        | inr (e, over) ↦ ((e, out.1, out.2), rw (over, rounds))
        | inl more ↦
            let (res, runs) =
              rounds_total fuel clock (i + 1) out.1 out.2
                (omega (arith, RoundPath-shrinks (clock i) s c out path more)) in
            (res, rw (more, rounds) runs)
      ]

  -- With more rounds than the connection has bytes, the session comes to its end: each round takes
  -- two bytes at least.
  pub session_total :
      (fuel : ℕ) (clock : ℕ → Time) (s : Store) (conn : Conn)
      → length conn.input.bytes < fuel
      → (out : Option SessionError × Store × Conn) × (session decode device_id fuel clock s conn
          ≡ some out)
  unfolding session
  session_total fuel clock s conn h = of_path (open_session-OpenPath conn)
    where
      of_path :
          OpenPath conn (open_session conn)
          → (out : Option SessionError × Store × Conn) × (session decode device_id fuel clock s conn
              ≡ some out)
      of_path (refused e is_refused w) =
          ((some e, s, (open_session conn).1), rw (is_refused, session))
      of_path (accepted first g b is_open t d a w arrived taken) =
          let (out, runs) =
            rounds_total fuel clock 0 s (open_session conn).1 (omega (arith, taken)) in
          (out, rw (is_open, session) runs)
