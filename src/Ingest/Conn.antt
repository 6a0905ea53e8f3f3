-- ===== src/Ingest/Conn.antt =====
-- internal/ingest/server.go: a device's connection, and the errors that end its session.
pub mod Writes
use enisa_sbd_example.Common.{
  ℕ, Bool, true, false, List, [], ◌∷◌, ◌++◌, Option, none, some, Bytes, codes, length, ◌==◌,
  if◌then◌else◌, Result, ok, err,
}
use enisa_sbd_example.Common.Strings.{trim_space}
use enisa_sbd_example.Mqtt.Wire.{IoError, eof, closed, deadline_exceeded, Error, io, Stream}
use enisa_sbd_example.Store.Model

-- `device_mismatch` is a topic that is not the device's own; the texts of the errors are not kept.
pub data SessionError : Type 0 where
  wire : Error → SessionError
  not_connect unexpected_packet : ℕ → SessionError
  device_mismatch undecodable_sample unusable_metric non_finite_value : SessionError
  unstored : Model.Error → SessionError

-- What arrives, how the next calls of `SetDeadline` and of `Write` end (all later ones succeed), and
-- the packets that were written. A deadline that passes is an ending of the input.
pub record Conn : Type 0 where
  pub input : Stream
  pub deadlines : List (Option IoError)
  pub writes : List (Option IoError)
  pub written : List Bytes

abbrev pub first_answer : List (Option IoError) → Option IoError
first_answer [] = none
first_answer (answer ∷ _) = answer

abbrev pub later_answers : List (Option IoError) → List (Option IoError)
later_answers [] = []
later_answers (_ ∷ answers) = answers

-- `none` is success, as a nil error is.
abbrev pub io_error : Option IoError → Option SessionError
io_error none = none
io_error (some e) = some (wire (io e))

-- `conn.SetDeadline(...)`
unfoldable pub set_deadline : Conn → Option SessionError × Conn
set_deadline c =
    (io_error (first_answer c.deadlines), record c { deadlines = later_answers c.deadlines })

-- One of the package's writes: encoding, and one call of the connection's `Write`.
unfoldable pub write_packet : Conn → Result Error Bytes → Option SessionError × Conn
write_packet c (err e) = (some (wire e), c)
write_packet c (ok packet) = elim (first_answer c.writes) [
  | none ↦ (none, record c { writes = later_answers c.writes; written = c.written ++ packet ∷ [] })
  | some e ↦ (some (wire (io e)), record c { writes = later_answers c.writes })
]

-- `TopicFor(deviceID)`
unfoldable pub topic_for : Bytes → Bytes
topic_for device_id = codes "fleet/" ++ (device_id ++ codes "/telemetry")

-- `DefaultHandshakeTimeout` and `DefaultIdleTimeout`, in seconds.
abbrev pub default_handshake_timeout : ℕ
default_handshake_timeout = 10

abbrev pub default_idle_timeout : ℕ
default_idle_timeout = 90

-- The uses of `DefaultMaxConns` and `maxMetricNameLen`.
abbrev pub default_max_conns : ℕ
default_max_conns = 512

abbrev pub max_metric_name_len : ℕ
max_metric_name_len = 64

pub data CertError : Type 0 where
  no_certificate empty_common_name : CertError

-- `deviceIDFrom(state)`, over the common names of the peer's certificates.
unfoldable pub device_id_from : List Bytes → Result CertError Bytes
device_id_from [] = err no_certificate
device_id_from (name ∷ _) =
    let cn = trim_space name in if length cn == 0 then err empty_common_name else ok cn

-- `isClosed(err)`
abbrev pub is_closed : SessionError → Bool
is_closed (wire (io eof)) = true
is_closed (wire (io closed)) = true
is_closed (wire (io deadline_exceeded)) = true
is_closed _ = false
