-- ===== src/Tests/Devices.antt =====
-- internal/ingest: a device's connection, served alone and beside others.
use enisa_sbd_example.Common.{
  ℕ, suc, ◌≡◌, ◌↔◌, ◌⊎◌, ◌≤◌, refl, ap, subst, true, false, List, [], ◌∷◌, ◌++◌, Bytes, Option,
  some, none, codes, ok, pos, length, text_eq, lookup, insert, arith,
}
use enisa_sbd_example.Mqtt.Wire.{eof}
use enisa_sbd_example.Mqtt.Wire.{read_byte, read_full, decode_string}
use enisa_sbd_example.Mqtt.Varint.{read_varint, read_varint_from, append_varint, append_varint_from}
use enisa_sbd_example.Mqtt.Packet.{read, write, write_conn_ack, write_pub_ack}
use enisa_sbd_example.Mqtt.Connect.{decode_connect, decode_connect_fields}
use enisa_sbd_example.Mqtt.Publish.{decode_publish, take_packet_id}
use enisa_sbd_example.Common.Strings.{trim_space, cut_prefix}
use enisa_sbd_example.Common.Order.{lt_wf}
use native.Mathlib.Bridge.{IsLe}
use native.Mathlib.Decide.{dec_le, dec_lt}
use enisa_sbd_example.Store.Scope.{org_scope}
use enisa_sbd_example.Store.Reads.{device}
use enisa_sbd_example.Store.Writes.{record_reading, stamp}
use enisa_sbd_example.Store.Isolation.{SameView, IsOther}
use enisa_sbd_example.Store.Model.{Time, Store, Device}
use enisa_sbd_example.Ingest.Conn.{
  SessionError, Conn, device_id_from, topic_for, set_deadline, write_packet,
}
use enisa_sbd_example.Ingest.Sample.{Sample, check_sample, record_sample}
use enisa_sbd_example.Ingest.Session.{
  session, rounds, open_session, answer_connect, next_round, on_packet, on_publish, acknowledge,
}
use enisa_sbd_example.Ingest.Handle.{Incoming, Ending, session_over, handle, end_session}
use enisa_sbd_example.Ingest.Sample.Accepted.{IsRecorded, record_sample_iff}
use enisa_sbd_example.Ingest.Session.Trace.{SessionPath}
use enisa_sbd_example.Ingest.Handle.Paths.{handle_total, handle-SessionPath}
use enisa_sbd_example.Ingest.Serve.{
  System, waiting, looping, returned, capacity, Event, arrives, runs, run,
}
use enisa_sbd_example.Ingest.Serve.Drained.{run-returned}
use enisa_sbd_example.Ingest.Serve.Bound.{run-bound}
use enisa_sbd_example.Ingest.Serve.Isolated.{run-SameView}
use enisa_sbd_example.Ingest.Serve.Alone.{with_first, handle-run}
use enisa_sbd_example.Tests.Data.{acme, device_of_acme, device_of_globex, reading_20, two_devices}

-- A CONNECT of the device d2, a PUBLISH of one byte at QoS 1 on its topic, and a DISCONNECT.
abbrev pub dialogue : Bytes
dialogue =
    0x10 ∷ 14 ∷ 0 ∷ 4 ∷ codes "MQTT"
    ++ 4 ∷ 2 ∷ 0 ∷ 60 ∷ 0 ∷ 2 ∷ codes "d2"
    ++ 0x32 ∷ 23 ∷ 0 ∷ 18 ∷ codes "fleet/d2/telemetry"
    ++ 0 ∷ 7 ∷ 42 ∷ 0xE0 ∷ 0 ∷ []

abbrev pub conn_of_d2 : Conn
conn_of_d2 = record {
  input = record { bytes = dialogue; ending = eof };
  deadlines = [];
  writes = [];
  written = [];
}

abbrev pub incoming_of_d2 : Incoming
incoming_of_d2 = record {
  is_tls = true;
  handshake = none;
  common_names = codes " d2 " ∷ [];
  conn = conn_of_d2;
}

-- A stand-in for decoding JSON: every payload is one sample.
abbrev pub sample_stub : Bytes → Option Sample
sample_stub _ = some (record { metric = codes "temp"; value = 20; at = pos 5 })

abbrev pub clock_stub : ℕ → Time
clock_stub i = pos (suc i)

-- What the dialogue leaves: the sample is stored, and both packets are acknowledged.
abbrev pub store_after : Store
store_after = record {
  devices =
      (codes "d1", device_of_acme)
      ∷ (codes "d2", record device_of_globex { last_seen = pos 1 })
      ∷ [];
  readings = (codes "d2", stamp (codes "d2") (pos 1) reading_20 ∷ []) ∷ [];
  audit = [];
}

abbrev conn_after : Conn
conn_after = record conn_of_d2 {
  input = record { bytes = []; ending = eof };
  written = (32 ∷ 2 ∷ 0 ∷ 0 ∷ []) ∷ (64 ∷ 2 ∷ 0 ∷ 7 ∷ []) ∷ [];
}

abbrev outcome : Option SessionError × Store × Conn
outcome = (none, store_after, conn_after)

abbrev ending : Ending × Store × Conn
ending = (session_over none, store_after, conn_after)

served : session sample_stub (codes "d2") 60 clock_stub two_devices conn_of_d2 ≡ some outcome
unfolding session open_session set_deadline read read_byte read_varint read_varint_from read_full
    answer_connect decode_connect decode_string text_eq decode_connect_fields write_packet
    write_conn_ack rounds next_round on_packet decode_publish insert lookup lt_wf topic_for
    check_sample record_sample acknowledge on_publish write write_pub_ack take_packet_id
    append_varint append_varint_from record_reading IsLe dec_le dec_lt
served = refl

handled : handle sample_stub 60 clock_stub two_devices incoming_of_d2 ≡ some ending
unfolding handle device_id_from trim_space device lookup text_eq cut_prefix
handled = ap end_session served

record_sample_iff_example :
    (record_sample sample_stub two_devices (pos 1) (codes "d2") (42 ∷ []) ≡ ok store_after)
    ↔ IsRecorded sample_stub (pos 1) (codes "d2") (42 ∷ []) two_devices store_after
record_sample_iff_example =
    record_sample_iff sample_stub two_devices store_after (pos 1) (codes "d2") (42 ∷ [])

handle_total_example :
    (out : Ending × Store × Conn) × (handle sample_stub 60 clock_stub two_devices incoming_of_d2
      ≡ some out)
handle_total_example =
    handle_total sample_stub 60 clock_stub two_devices incoming_of_d2 (omega arith)

handle-SessionPath_example :
    ((store_after ≡ two_devices) × (conn_after ≡ conn_of_d2))
    ⊎ ((device_id : Bytes) × (d : Device) × (e : Option SessionError) × (incoming_of_d2.is_tls
          ≡ true)
        × (incoming_of_d2.handshake ≡ none)
        × (device_id_from incoming_of_d2.common_names ≡ ok device_id)
        × (device two_devices device_id ≡ some d)
        × SessionPath sample_stub device_id two_devices conn_of_d2 (e, store_after, conn_after))
handle-SessionPath_example =
    handle-SessionPath sample_stub 60 clock_stub two_devices incoming_of_d2 ending handled

pub d2-IsOther :
    (device_id : Bytes)
    → device_id_from incoming_of_d2.common_names ≡ ok device_id
    → IsOther acme (device two_devices device_id)
unfolding device_id_from trim_space device lookup text_eq
d2-IsOther device_id named =
    let found : ok (codes "d2") ≡ ok device_id = named in
    let same : codes "d2" ≡ device_id = cc in
    subst (λ id. IsOther acme (device two_devices id)) same (λ e. cc)

abbrev pub idle_system : System
idle_system = record { store = two_devices; live = []; is_cancelled = false; stopped = none }

abbrev pub schedule : List Event
schedule = arrives incoming_of_d2 ∷ arrives incoming_of_d2 ∷ runs (pos 1) 0 ∷ runs (pos 1) 0 ∷ []

run-bound_example : length (run sample_stub (pos 1) idle_system schedule).live ≤ capacity (pos 1)
run-bound_example = run-bound sample_stub (pos 1) idle_system schedule (omega arith)

run-SameView_example :
    SameView two_devices (run sample_stub (pos 2) idle_system schedule).store (org_scope acme)
unfolding lookup device
run-SameView_example =
    run-SameView sample_stub acme (pos 2) idle_system schedule tt
      (d2-IsOther, (d2-IsOther, (tt, (tt, tt))))

handle-run_example :
    (es : List Event) × (run sample_stub
        (pos 2)
        (with_first two_devices (waiting incoming_of_d2) (waiting incoming_of_d2 ∷ []) idle_system)
        es
      ≡ record idle_system { store = store_after; live = waiting incoming_of_d2 ∷ [] })
handle-run_example =
    handle-run sample_stub (pos 2) idle_system (waiting incoming_of_d2 ∷ []) 60 clock_stub
      two_devices incoming_of_d2 ending handled

-- A server whose listener is closed, with two connections left.
abbrev closing_system : System
closing_system = record idle_system {
  live = waiting incoming_of_d2 ∷ looping (codes "d2") conn_of_d2 ∷ [];
  is_cancelled = true;
  stopped = some none;
}

run-returned_example :
    (es : List Event) × (returned (run sample_stub (pos 2) closing_system es) ≡ some none)
run-returned_example = run-returned sample_stub (pos 2) closing_system none refl
