-- ===== src/Tests/Delivery.antt =====
-- internal/ingest and internal/dashboard: what is shown of a sample that was sent.
use mathlib.Core.List.{reverse}
use enisa_sbd_example.Common.{
  ◌≡◌, refl, List, [], ◌∷◌, ◌++◌, Option, some, Bytes, codes, pos, text_eq, lookup, take, arith,
}
use enisa_sbd_example.Common.Strings.{hex_encode, cut_prefix, trim_space, cut, equal_fold}
use native.Mathlib.Decide.{dec_lt}
use enisa_sbd_example.Authn.Tokens.{bearer_token, find_token, hash_token}
use enisa_sbd_example.Mqtt.Wire.{eof, append_string}
use enisa_sbd_example.Mqtt.Packet.{write}
use enisa_sbd_example.Mqtt.Varint.{append_varint, append_varint_from}
use enisa_sbd_example.Mqtt.Publish.{Publish, encode_publish}
use enisa_sbd_example.Store.Model.{readings_of}
use enisa_sbd_example.Store.Writes.{stamp}
use enisa_sbd_example.Store.Reads.{reading_limit}
use enisa_sbd_example.Http.{Request, readings_body, status_ok, write_json}
use enisa_sbd_example.Authz.Router.{serve_http, contains_role}
use enisa_sbd_example.Ingest.Conn.{Conn, topic_for}
use enisa_sbd_example.Ingest.Sample.{Sample, reading_of}
use enisa_sbd_example.Ingest.Session.Published.{IsSending}
use enisa_sbd_example.Ingest.Serve.{System, looping, runs, step}
use enisa_sbd_example.Dashboard.Handlers.{limit_of}
use enisa_sbd_example.Dashboard.Delivered.{serve_http-step}
use enisa_sbd_example.Dashboard.Delivered.Route.{IsAsking, telemetry_pattern}
use enisa_sbd_example.Tests.Data.{device_of_acme, two_devices, admin, sum_stub}
use enisa_sbd_example.Tests.Devices.{sample_stub, idle_system, conn_of_d2}
use enisa_sbd_example.Tests.Api.{
  print_float, print_time, no_conflicts, tokens, unrouted, api_router, api_router-built, request,
}

-- A PUBLISH of one byte at QoS 1, as the device d1 sends it.
abbrev sample_of_d1 : Sample
sample_of_d1 = record { metric = codes "temp"; value = 20; at = pos 5 }

abbrev publish_of_d1 : Publish
publish_of_d1 = record {
  topic = codes "fleet/d1/telemetry";
  qos = 1;
  packet_id = 7;
  payload = 42 ∷ [];
}

abbrev packet_of_d1 : Bytes
packet_of_d1 = 0x32 ∷ 23 ∷ 0 ∷ 18 ∷ codes "fleet/d1/telemetry" ++ 0 ∷ 7 ∷ 42 ∷ []

abbrev conn_of_d1 : Conn
conn_of_d1 = record conn_of_d2 {
  input = record { bytes = packet_of_d1 ++ 0xE0 ∷ 0 ∷ []; ending = eof };
}

abbrev looping_system : System
looping_system = record idle_system {
  live = looping (codes "d2") conn_of_d2 ∷ looping (codes "d1") conn_of_d1 ∷ [];
}

d1-IsSending : IsSending sample_stub (codes "d1") conn_of_d1 sample_of_d1
unfolding encode_publish append_string write append_varint append_varint_from topic_for dec_lt
d1-IsSending = record {
  in_time = refl;
  p = publish_of_d1;
  packet = packet_of_d1;
  rest = 0xE0 ∷ 0 ∷ [];
  arrived = refl;
  written = refl;
  fits = omega arith;
  qos_bound = omega arith;
  id_bound = omega arith;
  own_topic = refl;
  topic_bound = omega arith;
  decoded = refl;
  named = λ e. ground arith;
  name_bound = omega arith;
  finite = refl;
}

-- A request for the telemetry of d1, with no limit of its own.
abbrev telemetry_request : Request
telemetry_request = record request { path_id = codes "d1"; query_limit = codes "" }

abbrev select_telemetry : List Bytes → Bytes → Option Bytes
select_telemetry ps target = some telemetry_pattern

asks : IsAsking sum_stub tokens select_telemetry api_router telemetry_request admin (pos 100)
unfolding bearer_token find_token hash_token lookup text_eq hex_encode contains_role limit_of
    cut_prefix trim_space cut equal_fold
asks = record {
  granted = record {
    token = codes "s3cret";
    presented = refl;
    found = refl;
    allowed = refl;
    routed = refl;
  };
  limited = refl;
}

serve_http-step_example :
    (serve_http select_telemetry unrouted api_router telemetry_request
      (step sample_stub (pos 2) looping_system (runs (pos 7) 1)).store).0
    ≡ write_json status_ok (
        readings_body (
          take (reading_limit (pos 100)) (
            stamp (codes "d1") (pos 7) (reading_of sample_of_d1)
            ∷ reverse (readings_of two_devices (codes "d1")))))
unfolding lookup text_eq
serve_http-step_example =
    serve_http-step sample_stub print_float print_time sum_stub no_conflicts tokens select_telemetry
      unrouted (pos 2) looping_system (pos 7) 1 conn_of_d1 sample_of_d1 device_of_acme api_router
      telemetry_request admin (pos 100) refl d1-IsSending refl refl (λ e. cc) api_router-built asks
