-- ===== src/Ingest/Session.antt =====
-- internal/ingest/server.go: the session of one device.
pub mod Opening
pub mod Paths
pub mod Trace
pub mod Served
pub mod Ends
pub mod Published
use enisa_sbd_example.Common.{
  ℕ, zero, suc, ◌+◌, Bool, not, [], Bytes, text_eq, ◌==◌, if◌then◌else◌, Option, none, some, pos,
  Result, ok, err,
}
use enisa_sbd_example.Mqtt.Wire.{
  Error, creds_in_con, max_packet_size, connect_type, publish_type, pingreq_type, pingresp_type,
  disconnect_type,
}
use enisa_sbd_example.Mqtt.Packet.{
  Packet, read, write, write_conn_ack, write_pub_ack, conn_accepted, conn_refused_bad_protocol,
  conn_refused_not_authed,
}
use enisa_sbd_example.Mqtt.Connect.{decode_connect}
use enisa_sbd_example.Mqtt.Publish.{Publish, decode_publish}
use enisa_sbd_example.Store.Model.{Time, Store}
use enisa_sbd_example.Ingest.Conn.{
  SessionError, wire, not_connect, unexpected_packet, device_mismatch, Conn, set_deadline,
  write_packet, topic_for,
}
use enisa_sbd_example.Ingest.Sample.{Sample, record_sample}

abbrev pub refusal_code : Error → ℕ
refusal_code creds_in_con = conn_refused_not_authed
refusal_code _ = conn_refused_bad_protocol

-- The first packet, once it is read.
unfoldable pub answer_connect : Conn → Packet → Option SessionError × Conn
answer_connect c first =
    if not (first.type == connect_type)
    then (some (not_connect first.type), c)
    else elim (decode_connect first.body) [
      | err e ↦ (some (wire e), (write_packet c (write_conn_ack (refusal_code e))).1)
      | ok _ ↦ write_packet c (write_conn_ack conn_accepted)
    ]

-- The session up to the answer to CONNECT.
unfoldable pub open_session : Conn → Option SessionError × Conn
open_session conn =
    let (refused, c) = set_deadline conn in
    elim refused [
      | some e ↦ (some e, c)
      | none ↦ elim (read c.input (pos max_packet_size)) [
        | err e ↦ (some (wire e), c)
        | ok (first, rest) ↦ answer_connect (record c { input = rest }) first
      ]
    ]

-- What one round of the loop leads to: the next round, or the session's result.
pub data Progress : Type 0 where
  goes_on : Progress
  ended : Option SessionError → Progress

abbrev pub progress_of : Option SessionError → Progress
progress_of none = goes_on
progress_of (some e) = ended (some e)

-- A write ends the session where it fails.
abbrev pub after_write : Store → Option SessionError × Conn → Progress × Store × Conn
after_write s (refused, c) = (progress_of refused, s, c)

-- The acknowledgement of a recorded PUBLISH.
unfoldable pub acknowledge : Store → Conn → Publish → Progress × Store × Conn
acknowledge s c p =
    if p.qos == 1
    then after_write s (write_packet c (write_pub_ack p.packet_id))
    else (goes_on, s, c)

module _ (decode : Bytes → Option Sample) (device_id : Bytes) where
  unfoldable pub on_publish : Time → Store → Conn → Publish → Progress × Store × Conn
  on_publish now s c p =
      if not (text_eq p.topic (topic_for device_id))
      then (ended (some device_mismatch), s, c)
      else elim (record_sample decode s now device_id p.payload) [
        | err e ↦ (ended (some e), s, c)
        | ok s' ↦ acknowledge s' c p
      ]

  unfoldable pub on_packet : Time → Store → Conn → Packet → Progress × Store × Conn
  on_packet now s c p =
      if p.type == publish_type
      then elim (decode_publish p.flags p.body) [
        | err e ↦ (ended (some (wire e)), s, c)
        | ok pub_ ↦ on_publish now s c pub_
      ]
      else if p.type == pingreq_type
      then after_write s (write_packet c (write pingresp_type 0 []))
      else if p.type == disconnect_type
      then (ended none, s, c)
      else (ended (some (unexpected_packet p.type)), s, c)

  -- One round of the loop.
  unfoldable pub next_round : Time → Store → Conn → Progress × Store × Conn
  next_round now s conn =
      let (refused, c) = set_deadline conn in
      elim refused [
        | some e ↦ (ended (some e), s, c)
        | none ↦ elim (read c.input (pos max_packet_size)) [
          | err e ↦ (ended (some (wire e)), s, c)
          | ok (p, rest) ↦ on_packet now s (record c { input = rest }) p
        ]
      ]

  -- The loop, with the rounds that it may take and the clock at each; `none` is a loop cut short.
  unfoldable pub rounds :
      ℕ → (ℕ → Time) → ℕ → Store → Conn → Option (Option SessionError × Store × Conn)
  rounds zero clock i s c = none
  rounds (suc fuel) clock i s c =
      let (progress, s', c') = next_round (clock i) s c in
      elim progress [ goes_on ↦ rounds fuel clock (i + 1) s' c' | ended e ↦ some (e, s', c') ]

  unfoldable pub session :
      ℕ → (ℕ → Time) → Store → Conn → Option (Option SessionError × Store × Conn)
  session fuel clock s conn =
      let (refused, c) = open_session conn in
      elim refused [ some e ↦ some (some e, s, c) | none ↦ rounds fuel clock 0 s c ]
