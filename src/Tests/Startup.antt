-- ===== src/Tests/Startup.antt =====
-- cmd: starts of the three services.
use enisa_sbd_example.Common.{
  ◌≡◌, ◌↔◌, refl, true, false, List, [], ◌∷◌, Bytes, Option, some, codes, ok, pos, text_eq, lookup,
  insert,
}
use enisa_sbd_example.Common.Strings.{is_lower_hex}
use enisa_sbd_example.Authn.Identity.{Entry, is_valid_role}
use enisa_sbd_example.Authn.Tokens.{load_store, new_store, add_entries, check_entry}
use enisa_sbd_example.Authz.Router.{Router, handle, handle_public, new_router}
use enisa_sbd_example.Store.Model.{Store, empty_store}
use enisa_sbd_example.Store.Writes.{enrol, enrol_all}
use enisa_sbd_example.Store.FleetFile.{DeviceFile, load_fleet, fleet_of, check_devices}
use enisa_sbd_example.Rollout.Server.{World}
use enisa_sbd_example.Rollout.Routes.{rollout_handler}
use enisa_sbd_example.Rollout.ReleaseKey.{ed25519_key, load_release_key}
use enisa_sbd_example.Rollout.Cdn.{new_http_publisher, trim_slash}
use enisa_sbd_example.Ingest.Tls.{tls_config, load_tls_config}
use enisa_sbd_example.Dashboard.Handlers.{handler}
use enisa_sbd_example.Startup.Flags.{flags_of, check_required}
use enisa_sbd_example.Startup.Fleet.{fleet_store}
use enisa_sbd_example.Startup.Listener.{Options, Listening, https, server_of, listening}
use enisa_sbd_example.Startup.Rollout
use enisa_sbd_example.Startup.Rollout.Pinned.{IsPinned, listening-IsPinned}
use enisa_sbd_example.Startup.Ingest
use enisa_sbd_example.Startup.Ingest.Ready.{IsReady, prepare-IsReady}
use enisa_sbd_example.Startup.Dashboard
use enisa_sbd_example.Startup.Dashboard.Secured.{IsSecured, listening-IsSecured}
use enisa_sbd_example.Startup.Process.{main_ingest}
use enisa_sbd_example.Startup.Process.Orderly.{IsOrderly, main_ingest-IsOrderly_iff}
use enisa_sbd_example.Ingest.Serve.{Event, arrives, runs, cancels, accept_fails}
use enisa_sbd_example.Mqtt.Wire.{closed}
use enisa_sbd_example.Tests.Devices.{sample_stub, incoming_of_d2}
use enisa_sbd_example.Tests.Data.{admin_entry, sum_stub, one_device}
use enisa_sbd_example.Tests.Releases.{key, decode_stub, verify_stub}
use enisa_sbd_example.Tests.Api.{print_float, print_time, api_router}
use enisa_sbd_example.Tests.Publishing.{
  router_over, body_stub, no_conflicts, parse_stub, encode_stub, wellformed_stub, exchange_stub,
  cdn,
}

abbrev read_stub : Bytes → Option Bytes
read_stub path = some path

abbrev tokens_stub : Bytes → Option (List Entry)
tokens_stub raw = some (admin_entry ∷ [])

abbrev devices_stub : Bytes → Option (List DeviceFile)
devices_stub raw = some (
    record {
      id = codes "d1";
      org_id = codes "acme";
      model = codes "m";
      firmware_version = codes "1.0";
    }
    ∷ [])

abbrev rollout_flags : Rollout.Flags
rollout_flags = record Rollout.default_flags {
  tokens = codes "t";
  release_key = codes "k";
  cdn_url = codes "https://cdn/";
  tls_cert = codes "c";
  tls_key = codes "s";
}

abbrev rollout_env : Rollout.Outside
rollout_env = record {
  parse_flags = λ defaults args. some rollout_flags;
  read_file = read_stub;
  parse_tokens = tokens_stub;
  pem_decode = λ raw. some (record { label = codes "PUBLIC KEY"; bytes = raw });
  parse_pkix = λ raw. some (ed25519_key key);
  parse_url = parse_stub;
  cdn_token = codes "t0ken";
  base64_decode = decode_stub;
  ed25519_verify = verify_stub;
  decode_manifest = body_stub;
  encode_manifest = encode_stub;
  is_wellformed = wellformed_stub;
  exchange = exchange_stub;
  sum256 = sum_stub;
  conflicts = no_conflicts;
}

abbrev rollout_options : Options (Router World)
rollout_options = record {
  addr = codes ":9443";
  handler = router_over (Rollout.cdn_accepts rollout_env cdn);
  cert_file = codes "c";
  key_file = codes "s";
  allow_plaintext = false;
}

abbrev rollout_listening : Listening (Router World)
rollout_listening = https (server_of rollout_options) (codes "c") (codes "s")

rollout_starts : Rollout.options rollout_env (pos 9) [] ≡ ok rollout_options
unfolding Rollout.options flags_of check_required load_store new_store add_entries check_entry
    is_lower_hex insert lookup is_valid_role text_eq load_release_key new_http_publisher trim_slash
    rollout_handler handle handle_public new_router
rollout_starts = refl

rollout_listens : listening rollout_options ≡ ok rollout_listening
unfolding listening
rollout_listens = refl

listening-IsPinned_example : IsPinned rollout_env (pos 9) [] rollout_options rollout_listening
listening-IsPinned_example =
    listening-IsPinned rollout_env (pos 9) [] rollout_options rollout_listening rollout_starts
      rollout_listens

abbrev dashboard_env : Dashboard.Outside
dashboard_env = record {
  parse_flags = λ defaults args. some (record defaults {
    tokens = codes "t";
    fleet = codes "f";
    tls_cert = codes "c";
    tls_key = codes "s";
  });
  read_file = read_stub;
  parse_tokens = tokens_stub;
  parse_devices = devices_stub;
  format_float = print_float;
  format_time = print_time;
  sum256 = sum_stub;
  conflicts = no_conflicts;
}

abbrev dashboard_options : Options (Router Store)
dashboard_options = record {
  addr = codes ":8443";
  handler = api_router;
  cert_file = codes "c";
  key_file = codes "s";
  allow_plaintext = false;
}

abbrev dashboard_listening : Listening (Router Store)
dashboard_listening = https (server_of dashboard_options) (codes "c") (codes "s")

dashboard_starts : Dashboard.options dashboard_env [] ≡ ok (dashboard_options, one_device)
unfolding Dashboard.options flags_of check_required load_store new_store add_entries check_entry
    is_lower_hex insert lookup is_valid_role text_eq fleet_store load_fleet fleet_of check_devices
    enrol enrol_all empty_store handler handle handle_public new_router
dashboard_starts = refl

dashboard_listens : listening dashboard_options ≡ ok dashboard_listening
unfolding listening
dashboard_listens = refl

listening-IsSecured_example :
    IsSecured dashboard_env [] dashboard_options one_device dashboard_listening
listening-IsSecured_example =
    listening-IsSecured dashboard_env [] dashboard_options one_device dashboard_listening
      dashboard_starts dashboard_listens

-- Certificates and pools are texts here.
abbrev ingest_env : Ingest.Outside Bytes Bytes
ingest_env = record {
  parse_flags = λ defaults args. some (record defaults {
    cert = codes "c";
    key = codes "s";
    device_ca = codes "ca";
    fleet = codes "f";
  });
  read_file = read_stub;
  parse_devices = devices_stub;
  load_keypair = λ cert key. some cert;
  pool_of = λ pem. some pem;
  can_listen = λ addr. true;
}

abbrev ingest_service : Ingest.Service Bytes Bytes
ingest_service = Ingest.new_service one_device (tls_config (codes "c") (codes "ca"))

ingest_starts : Ingest.prepare ingest_env [] ≡ ok ingest_service
unfolding Ingest.prepare flags_of check_required fleet_store load_fleet fleet_of check_devices enrol
    enrol_all empty_store insert lookup text_eq load_tls_config
ingest_starts = refl

prepare-IsReady_example : IsReady ingest_env [] ingest_service
prepare-IsReady_example = prepare-IsReady ingest_env [] ingest_service ingest_starts

-- A connection of an unknown device, and a signal.
abbrev ingest_events : List Event
ingest_events = arrives incoming_of_d2 ∷ runs (pos 1) 0 ∷ cancels ∷ accept_fails closed ∷ []

main_ingest-IsOrderly_iff_example :
    (main_ingest ingest_env sample_stub ingest_events [] ≡ some 0)
    ↔ IsOrderly ingest_env sample_stub ingest_events []
main_ingest-IsOrderly_iff_example =
    main_ingest-IsOrderly_iff ingest_env sample_stub ingest_events []
