-- ===== src/Ingest/Session/Served.antt =====
-- internal/ingest/server.go: what a session stores and what it writes, packet by packet.
use enisa_sbd_example.Common.{
  ℕ, zero, suc, ◌≡◌, ◌+◌, inl, inr, refl, sym, subst, Option, none, some, Option-cases, List, [],
  ◌∷◌, ◌++◌, Bytes, ◌==◌, ==_iff, Bool-cases, Result, ok,
}
use enisa_sbd_example.Mqtt.Wire.{Error, io, Stream, pingresp_type}
use enisa_sbd_example.Mqtt.Packet.{Packet, write, write_pub_ack}
use enisa_sbd_example.Mqtt.Publish.{Publish}
use enisa_sbd_example.Store.Model.{Time, Store}
use enisa_sbd_example.Ingest.Conn.{SessionError, wire, Conn, write_packet}
use enisa_sbd_example.Ingest.Conn.Writes.{
  write_packet-input, write_packet-sent, write_packet-failed,
}
use enisa_sbd_example.Ingest.Sample.{Sample}
use enisa_sbd_example.Ingest.Sample.Accepted.{record_sample_iff}
use enisa_sbd_example.Ingest.Session.{
  Progress, goes_on, ended, after_write, acknowledge, next_round, rounds, session, open_session,
}
use enisa_sbd_example.Ingest.Session.Opening.{OpenPath, refused, accepted, open_session-OpenPath}
use enisa_sbd_example.Ingest.Session.Paths.{
  PacketPath, quits, leaves, pongs, stores, RoundPath, halts, stops, handles, next_round-RoundPath,
}
use enisa_sbd_example.Ingest.Session.Trace.{
  IsNext, IsTaken, Served, idle, ponged, stored, acknowledged, left, no_deadline, unread, rejected,
  unanswered, unacknowledged, Finished, finished, SessionPath, turned_away, welcomed,
}

module _ (decode : Bytes → Option Sample) (device_id : Bytes) where
  module _ (s₀ : Store) (i₀ : Stream) (w₀ : List Bytes) where
    pub data Outcome (out : Progress × Store × Conn) : Type 0 where
      continues :
          out.0 ≡ goes_on
          → Served decode device_id s₀ i₀ w₀ out.1 out.2.input out.2.written
          → Outcome out
      finishes :
          (e : Option SessionError)
          → out.0 ≡ ended e
          → Finished decode device_id s₀ i₀ w₀ e out.1 out.2.written
          → Outcome out

    after_write-Outcome :
        (s : Store) (c : Conn) (r : Result Error Bytes)
        → ((b : Bytes)
            → r ≡ ok b
            → Served decode device_id s₀ i₀ w₀ s c.input (c.written ++ b ∷ []))
        → ((e : SessionError) → Finished decode device_id s₀ i₀ w₀ (some e) s c.written)
        → Outcome (after_write s (write_packet c r))
    after_write-Outcome s c r goes fails = elim (Option-cases (write_packet c r).0) [
      | inl done ↦
          let (b, encoded, sent) = write_packet-sent c r done in
          continues (rw done) (rw (sent, write_packet-input c r) (goes b encoded))
      | inr (e, bad) ↦ finishes (some e) (rw bad) (rw (write_packet-failed c r e bad) (fails e))
    ]

    acknowledge-Outcome :
        (now : Time) (s t : Store) (i : Stream) (c : Conn) (m : Publish)
        → IsTaken decode device_id i c.input m now s t
        → Served decode device_id s₀ i₀ w₀ s i c.written
        → Outcome (acknowledge t c m)
    unfolding acknowledge
    acknowledge-Outcome now s t i c m taken served = elim (Bool-cases (m.qos == 1)) [
      | inr silent ↦
          rw (silent, acknowledge)
            (continues refl (stored now m taken (λ asked. cc ((==_iff _ _).1 asked)) served))
      | inl asked ↦
          let once = (==_iff _ _).0 asked in
          rw (asked, acknowledge)
            (after_write-Outcome t c (write_pub_ack m.packet_id)
              (λ b encoded. acknowledged now m b taken once encoded served)
              (λ e. finished served (unacknowledged c.input now m e taken once)))
    ]

    PacketPath-Outcome :
        (now : Time) (s : Store) (i : Stream) (c : Conn) (p : Packet)
        (out : Progress × Store × Conn)
        → IsNext i p c.input
        → PacketPath decode device_id now s c p out
        → Served decode device_id s₀ i₀ w₀ s i c.written
        → Outcome out
    PacketPath-Outcome now s i c p out arrived (quits e r same) served =
        rw same (finishes (some e) refl (finished served (rejected p c.input e arrived r)))
    PacketPath-Outcome now s i c p out arrived (leaves t same) served =
        rw same (finishes none refl (finished served (left p c.input arrived t)))
    PacketPath-Outcome now s i c p out arrived (pongs t same) served = rw same (
        after_write-Outcome s c (write pingresp_type 0 [])
          (λ b encoded. ponged p b arrived t encoded served)
          (λ e. finished served (unanswered p c.input e arrived t)))
    PacketPath-Outcome now s i c p out arrived (stores m s' t d own r same) served =
        let taken : IsTaken decode device_id i c.input m now s s' = record {
          packet = p;
          arrived = arrived;
          is_publish = t;
          decoded = d;
          own_topic = own;
          sampled = (record_sample_iff decode s s' now device_id m.payload).0 r;
        } in
        rw same (acknowledge-Outcome now s s' i c m taken served)

    pub RoundPath-Outcome :
        (now : Time) (s : Store) (conn : Conn) (out : Progress × Store × Conn)
        → RoundPath decode device_id now s conn out
        → Served decode device_id s₀ i₀ w₀ s conn.input conn.written
        → Outcome out
    RoundPath-Outcome now s conn out (halts e c same w) served =
        let here : Served decode device_id s₀ i₀ w₀ s conn.input c.written = rw w served in
        rw same (finishes (some (wire (io e))) refl (finished here (no_deadline e)))
    RoundPath-Outcome now s conn out (stops e c fails same w) served =
        let here : Served decode device_id s₀ i₀ w₀ s conn.input c.written = rw w served in
        rw same (finishes (some (wire e)) refl (finished here (unread e fails)))
    RoundPath-Outcome now s conn out (handles c p arrived w path) served =
        PacketPath-Outcome now s conn.input c p out arrived path (rw w served)

    rounds-Finished :
        (fuel : ℕ) (clock : ℕ → Time) (n : ℕ) (s : Store) (c : Conn)
        (out : Option SessionError × Store × Conn)
        → rounds decode device_id fuel clock n s c ≡ some out
        → Served decode device_id s₀ i₀ w₀ s c.input c.written
        → Finished decode device_id s₀ i₀ w₀ out.0 out.1 out.2.written
    unfolding rounds
    rounds-Finished zero clock n s c out h served = cc
    rounds-Finished (suc fuel) clock n s c out h served =
        let o = next_round decode device_id (clock n) s c in
        elim (RoundPath-Outcome (clock n) s c o
          (next_round-RoundPath decode device_id (clock n) s c) served) [
            | continues more going ↦
                rounds-Finished fuel clock (n + 1) o.1 o.2 out (rw (more, rounds) at h) going
            | finishes e last done ↦
                let here : some (e, o.1, o.2) ≡ some out = rw (last, rounds) at h in
                let same : (e, o.1, o.2) ≡ out = cc in
                subst
                  (λ (x : Option SessionError × Store × Conn).
                    Finished decode device_id s₀ i₀ w₀ x.0 x.1 x.2.written)
                  same done
          ]

  pub session-SessionPath :
      (fuel : ℕ) (clock : ℕ → Time) (s : Store) (conn : Conn)
      (out : Option SessionError × Store × Conn)
      → session decode device_id fuel clock s conn ≡ some out
      → SessionPath decode device_id s conn out
  unfolding session
  session-SessionPath fuel clock s conn out h = of_path (open_session-OpenPath conn)
    where
      of_path : OpenPath conn (open_session conn) → SessionPath decode device_id s conn out
      of_path (refused e is_refused w) =
          let here : some (some e, s, (open_session conn).1) ≡ some out =
            rw (is_refused, session) at h in
          let same : (some e, s, (open_session conn).1) ≡ out = cc in
          subst (SessionPath decode device_id s conn) same (turned_away e refl refl w)
      of_path (accepted first g b is_open t d a w arrived taken) =
          let rest = (open_session conn).1.input in
          welcomed first rest g b arrived t d a (
            rounds-Finished s rest (conn.written ++ b ∷ []) fuel clock 0 s (open_session conn).1 out
              (rw (is_open, session) at h)
              (subst (λ v. Served decode device_id s rest (conn.written ++ b ∷ []) s rest v) (sym w)
                idle))
