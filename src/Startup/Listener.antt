-- ===== src/Startup/Listener.antt =====
-- internal/httpserve/serve.go: the listener of an API service.
pub mod Transport
use enisa_sbd_example.Common.{
  ℕ, ◌*◌, ◌^◌, Bool, not, ◌&&◌, ◌||◌, Option, none, some, Bytes, length, ◌==◌, if◌then◌else◌,
  Result, ok, err, ◌>>=◌, ◌>>◌, refuse_if,
}

-- The logger is not kept.
pub record Options (H : Type 0) : Type 0 where
  pub addr : Bytes
  pub handler : H
  pub cert_file : Bytes
  pub key_file : Bytes
  pub allow_plaintext : Bool

-- `tls.VersionTLS12`
abbrev pub version_tls12 : ℕ
version_tls12 = 0x0303

-- The settings of `http.Server`, timeouts in seconds.
pub record HttpServer (H : Type 0) : Type 0 where
  pub addr : Bytes
  pub handler : H
  pub read_header_timeout : ℕ
  pub read_timeout : ℕ
  pub write_timeout : ℕ
  pub idle_timeout : ℕ
  pub max_header_bytes : ℕ
  pub min_version : ℕ

unfoldable pub server_of : {H : Type 0} → Options H → HttpServer H
server_of o = record {
  addr = o.addr;
  handler = o.handler;
  read_header_timeout = 10;
  read_timeout = 30;
  write_timeout = 30;
  idle_timeout = 60;
  max_header_bytes = 2 ^ 20;
  min_version = version_tls12;
}

-- `ListenAndServe`, or `ListenAndServeTLS` with its two files.
pub data Listening (H : Type 0) : Type 0 where
  plaintext : HttpServer H → Listening H
  https : HttpServer H → Bytes → Bytes → Listening H

pub data RunError : Type 0 where
  files_required : RunError
  serving_failed shutdown_failed : Bytes → RunError

-- What `Run` starts, if it starts a listener at all.
unfoldable pub listening : {H : Type 0} → Options H → Result RunError (Listening H)
listening o = do
  refuse_if (not o.allow_plaintext && (length o.cert_file == 0 || length o.key_file == 0))
      files_required
  ok (
      if o.allow_plaintext
      then plaintext (server_of o)
      else https (server_of o) o.cert_file o.key_file)

-- What the select waits for: the listener's error, or the end of the context and then that of
-- `Shutdown`.
pub data Selected : Type 0 where
  server_closed : Selected
  listener_failed : Bytes → Selected
  cancelled : Option Bytes → Selected

abbrev pub after_select : Selected → Result RunError (Unit {0})
after_select server_closed = ok tt
after_select (listener_failed e) = err (serving_failed e)
after_select (cancelled none) = ok tt
after_select (cancelled (some e)) = err (shutdown_failed e)

-- `Run(ctx, o)`, where the listener's course is given.
unfoldable pub run_listener :
    {H : Type 0} → (Listening H → Selected) → Options H → Result RunError (Unit {0})
run_listener course o = do l ← listening o; after_select (course l)
