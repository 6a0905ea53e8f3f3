-- ===== src/Ingest/Handle.antt =====
-- internal/ingest/server.go: what happens to an accepted connection before and around its session.
pub mod Paths
pub mod Isolated
use enisa_sbd_example.Common.{
  ℕ, Bool, true, false, not, List, Option, none, some, Bytes, if◌then◌else◌, Result, ok, err,
}
use enisa_sbd_example.Mqtt.Wire.{IoError}
use enisa_sbd_example.Store.Model.{Time, Store}
use enisa_sbd_example.Store.Reads.{device}
use enisa_sbd_example.Ingest.Conn.{SessionError, Conn, CertError, device_id_from, is_closed}
use enisa_sbd_example.Ingest.Sample.{Sample}
use enisa_sbd_example.Ingest.Session.{session}

-- An accepted connection: whether it is a TLS connection, how its handshake ends, the common names
-- of the peer's verified certificates, and the connection behind it.
pub record Incoming : Type 0 where
  pub is_tls : Bool
  pub handshake : Option IoError
  pub common_names : List Bytes
  pub conn : Conn

-- Where `handle` returns.
pub data Ending : Type 0 where
  not_tls : Ending
  handshake_refused : IoError → Ending
  certificate_unusable : CertError → Ending
  not_enrolled : Bytes → Ending
  session_over : Option SessionError → Ending

-- Whether the ending leaves a line in the log.
unfoldable pub is_logged : Ending → Bool
is_logged (session_over none) = false
is_logged (session_over (some e)) = not (is_closed e)
is_logged _ = true

abbrev pub end_session :
    Option (Option SessionError × Store × Conn) → Option (Ending × Store × Conn)
end_session none = none
end_session (some (e, s, c)) = some (session_over e, s, c)

module _ (decode : Bytes → Option Sample) where
  -- `none` is a session that was cut short.
  unfoldable pub handle : ℕ → (ℕ → Time) → Store → Incoming → Option (Ending × Store × Conn)
  handle fuel clock s inc =
      if not inc.is_tls then some (not_tls, s, inc.conn) else elim inc.handshake [
        | some e ↦ some (handshake_refused e, s, inc.conn)
        | none ↦ elim (device_id_from inc.common_names) [
          | err e ↦ some (certificate_unusable e, s, inc.conn)
          | ok device_id ↦ elim (device s device_id) [
            | none ↦ some (not_enrolled device_id, s, inc.conn)
            | some _ ↦ end_session (session decode device_id fuel clock s inc.conn)
          ]
        ]
      ]
