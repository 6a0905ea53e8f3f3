-- ===== src/Lib.antt =====
-- The services of a sensor platform: an ingest service that devices publish telemetry to over MQTT,
-- a dashboard for operators, and a rollout service for signed firmware releases. They share a
-- credential store, a router that denies by default, and a store of telemetry and audit entries
-- in which every read needs the scope of one organisation.
--
-- Parts and files. Each file opens with the source that it is about.
-- - Mqtt: internal/mqtt/packet.go. Mqtt/Wire has the errors, strings and the buffered reader, a
--   stream of bytes with the error behind it; Mqtt/Varint `readVarint` and `appendVarint`;
--   Mqtt/Packet `Read` and `Write`; Mqtt/Connect and Mqtt/Publish the two bodies.
-- - Authn: internal/authn/authn.go. Authn/Identity has roles, identities and entries, Authn/Tokens
--   `NewStore`, `LoadStore`, `BearerToken`, `HashToken` and `Lookup` (`find_token`).
-- - Authz: internal/authz/router.go. A handler is a function of the identity in the request's
--   context, the request and the service's state; `guard` wraps it as the source does.
-- - Store: internal/store. Store/Model has the rows, Store/Scope the scopes, Store/Writes the
--   methods that change the store and Store/Reads those that do not, Store/FleetFile `LoadFleet`.
--   Store/Invariant has the sequences of calls as a relation, Store/Calls a client's calls as data
--   with their answers, and Store/Spec the rows and the answers that a store promises.
-- - Rollout: internal/rollout. Rollout/Version has `ParseVersion` and `CompareVersions`,
--   Rollout/Manifest `Validate`, `Verify` and `Sign`, Rollout/Server the handlers over the store
--   and the list of manifests that were handed to the publisher, Rollout/Routes its routes,
--   Rollout/History sequences of requests, Rollout/Concurrent requests that are handled at once as a
--   machine whose steps a schedule orders, Rollout/Cdn the client of the CDN.
-- - Ingest: internal/ingest/server.go. Ingest/Conn has a connection as data: the bytes that arrive,
--   how its calls end, and what was written; Ingest/Sample has `record`, Ingest/Session the session,
--   Ingest/Handle `handle`, and Ingest/Serve the accept loop and its goroutines as a machine whose
--   steps a schedule orders.
-- - Dashboard: internal/dashboard/server.go. Dashboard/Csv has the rows of an export and `csvSafe`,
--   Dashboard/Handlers the handlers and routes; Dashboard/EndToEnd and Dashboard/Delivered join the
--   Ingest Service and the Dashboard API over one store.
-- - Startup: cmd and internal/httpserve/serve.go. Startup/Listener has `Run`, Startup/Flags the
--   required flags, Startup/Fleet the store of a fleet file, and Startup/Rollout, Startup/Ingest and
--   Startup/Dashboard the `run` of the three commands, Startup/Process their `main`. A record
--   `Outside` has what each process meets outside of this code.
-- - Http has requests and responses, Common what the parts share, among it the functions of Go's
--   strings and strconv packages. Tests applies the theorems to concrete data.
-- The Rollout Service reads the identity that the router attached, takes a scope for it, and calls
-- the store with that scope; the router asks the credential store for every request. The Dashboard
-- API does the same for its reads. The Ingest Service takes the device from the certificate that the
-- TLS handshake verified, asks the store whether it is enrolled, and records what it sends.
-- Each command starts with a store of its own; Dashboard/EndToEnd and Dashboard/Delivered are about
-- the two services over one.
--
-- Numbers, bounds and fuel. Bytes and text are lists of numbers below 256; a text is compared byte
-- by byte. `int` is an integer with the ranges that the code can reach written out: a version
-- component is below a million, a packet length below 2 ^ 28. The loop of `readVarint` has the four
-- rounds of the source; that of `appendVarint` runs on accessibility, since the quotient falls. The
-- session's loop runs on fuel, and more rounds than the connection has bytes are enough. A float is
-- its 64 bits. A map is a list of entries with one entry for a key; its order is not observable in
-- what is proved.
--
-- Parameters: SHA-256, base64, Ed25519, reading files, JSON decoding and encoding, printing floats
-- and times, the choice of a pattern by the mux with the patterns that it refuses beside others, the
-- outcome of a TLS handshake, the clock, the exchange with the CDN, flags, and the course of an HTTP
-- listener. Whether the publisher takes a manifest is a parameter of the Rollout Service, which
-- Startup/Rollout instantiates with the client of the CDN. A method of the store holds the lock for
-- its whole body and is one step; the steps of the ingest machine are those of its goroutines
-- between two packets, and those of the rollout machine touch the store by one call at most or hand
-- one manifest to the publisher. A request to the Rollout Service has four steps at most.
--
-- Not modelled: parsing of flags, signals but for the end that they put to a context, the timeouts of
-- connections but for their lengths and the end that they put to a read, and log lines but for
-- whether the end of a connection leaves one.
pub mod Common
pub mod Http
pub mod Mqtt
pub mod Authn
pub mod Authz
pub mod Store
pub mod Rollout
pub mod Ingest
pub mod Dashboard
pub mod Startup
pub mod Tests
