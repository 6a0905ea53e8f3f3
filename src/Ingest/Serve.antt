-- ===== src/Ingest/Serve.antt =====
-- internal/ingest/server.go: the accept loop and the connections that it serves at once. Each goroutine
-- is a connection of the list; a schedule says which of them goes on next.
pub mod Bound
pub mod Alone
pub mod Drained
pub mod Isolated
use enisa_sbd_example.Common.{
  ℕ, zero, suc, Bool, true, false, not, List, [], ◌∷◌, ◌++◌, Option, none, some, Bytes, length, ltb,
  if◌then◌else◌, ℤ, pos, negsuc, Result, ok, err, ◌||◌,
}
use enisa_sbd_example.Mqtt.Wire.{IoError}
use enisa_sbd_example.Store.Model.{Time, Store}
use enisa_sbd_example.Store.Reads.{device}
use enisa_sbd_example.Ingest.Conn.{SessionError, Conn, device_id_from}
use enisa_sbd_example.Ingest.Sample.{Sample}
use enisa_sbd_example.Ingest.Session.{Progress, goes_on, ended, open_session, next_round}
use enisa_sbd_example.Ingest.Handle.{Incoming}

-- A connection that holds a slot: before its session, or in the loop as a device.
pub data Live : Type 0 where
  waiting : Incoming → Live
  looping : Bytes → Conn → Live

pub record System : Type 0 where
  pub store : Store
  pub live : List Live
  pub is_cancelled : Bool
  pub stopped : Option (Option IoError)

-- `max(s.MaxConns, 1)`
abbrev pub capacity : ℤ → ℕ
capacity (pos zero) = 1
capacity (pos (suc n)) = suc n
capacity (negsuc n) = 1

abbrev pub opened : Bytes → Option SessionError × Conn → Option Live
opened device_id (none, c) = some (looping device_id c)
opened device_id (some e, c) = none

-- `handle` up to the session's loop; `none` is a connection that is closed.
unfoldable pub greet : Store → Incoming → Option Live
greet s inc = if not inc.is_tls then none else elim inc.handshake [
  | some e ↦ none
  | none ↦ elim (device_id_from inc.common_names) [
    | err e ↦ none
    | ok device_id ↦ elim (device s device_id) [
      | none ↦ none
      | some _ ↦ opened device_id (open_session inc.conn)
    ]
  ]
]

abbrev pub keep_live : Option Live → List Live → List Live
keep_live none rest = rest
keep_live (some l) rest = l ∷ rest

abbrev pub after_round : Bytes → Progress × Store × Conn → Store × Option Live
after_round device_id (goes_on, s, c) = (s, some (looping device_id c))
after_round device_id (ended e, s, c) = (s, none)

-- Accepting, the end of the context, and a goroutine's next step, at a time.
pub data Event : Type 0 where
  arrives : Incoming → Event
  accept_fails : IoError → Event
  cancels : Event
  runs : Time → ℕ → Event

abbrev pub is_stopped : Option (Option IoError) → Bool
is_stopped none = false
is_stopped (some _) = true

module _ (decode : Bytes → Option Sample) where
  -- A step of one connection: up to its loop, or one round of it.
  unfoldable pub step_live : Time → Store → Live → Store × Option Live
  step_live now s (waiting inc) = (s, greet s inc)
  step_live now s (looping device_id c) =
      after_round device_id (next_round decode device_id now s c)

  unfoldable pub run_nth : Time → Store → List Live → ℕ → Store × List Live
  run_nth now s [] i = (s, [])
  run_nth now s (l ∷ ls) zero = let (s', l') = step_live now s l in (s', keep_live l' ls)
  run_nth now s (l ∷ ls) (suc i) = let (s', ls') = run_nth now s ls i in (s', l ∷ ls')

  -- A connection beyond the capacity is closed at once; after the loop has ended none is accepted.
  unfoldable pub step : ℤ → System → Event → System
  step max_conns sys (arrives inc) =
      if is_stopped sys.stopped || not (ltb (length sys.live) (capacity max_conns))
      then sys
      else record sys { live = sys.live ++ waiting inc ∷ [] }
  step max_conns sys (accept_fails e) = if is_stopped sys.stopped then sys else record sys {
    stopped = some (if sys.is_cancelled then none else some e);
    is_cancelled = true;
  }
  step max_conns sys cancels = record sys { is_cancelled = true }
  step max_conns sys (runs now i) =
      let (s, live) = run_nth now sys.store sys.live i in record sys { store = s; live = live }

  unfoldable pub run : ℤ → System → List Event → System
  run max_conns sys [] = sys
  run max_conns sys (e ∷ es) = run max_conns (step max_conns sys e) es

-- `Serve` returns when its loop has ended and the last connection is closed.
unfoldable pub returned : System → Option (Option IoError)
returned sys = elim sys.live [ [] ↦ sys.stopped | _ ∷ _ ↦ none ]
