-- ===== src/Rollout/Concurrent/Answered.antt =====
-- internal/rollout/server.go: how many steps a request takes, whatever the others do.
use enisa_sbd_example.Common.{
  ℕ, zero, suc, ◌-◌, ◌≡◌, ◌≤◌, refl, Bool, true, false, List, [], ◌∷◌, ◌++◌, Option, some, Bytes,
  codes, get_elem?, ◌==◌, if◌then◌else◌, Result, ok, err, arith,
}
use enisa_sbd_example.Authn.Identity.{Identity}
use enisa_sbd_example.Store.Model.{Time, Store, action_rollout_accepted}
use enisa_sbd_example.Store.Model
use enisa_sbd_example.Store.Scope.{Scope}
use enisa_sbd_example.Store.Writes.{append_audit}
use enisa_sbd_example.Http.{Request, Response}
use enisa_sbd_example.Rollout.Manifest.{Manifest}
use enisa_sbd_example.Rollout.Server.{
  World, attempt_entry, Verdict, history_failed, not_newer, cleared, check_history,
}
use enisa_sbd_example.Rollout.Concurrent.Received.{
  Received, anonymous, turned_down, passed, receive-Received,
}
use enisa_sbd_example.Rollout.Concurrent.{
  Phase, arrived, refusing, verified, checked, published, answered, after_check, after_append,
  advance, advance_nth, Turn, arrives, goes_on, turn, turns,
}

-- The steps that a request has left at most.
abbrev pub steps_left : Phase → ℕ
steps_left (arrived ctx r) = 4
steps_left (verified id scope m) = 3
steps_left (checked id scope m) = 2
steps_left (published id scope m) = 1
steps_left (refusing id scope version status reason) = 1
steps_left (answered res) = 0

-- How often a schedule has the request with a number go on.
abbrev pub turns_of : ℕ → List Turn → ℕ
turns_of i [] = 0
turns_of i (arrives ctx r ∷ ts) = turns_of i ts
turns_of i (goes_on now takes j ∷ ts) = if j == i then suc (turns_of i ts) else turns_of i ts

module _ (base64_decode : Bytes → Option Bytes) (ed25519_verify : Bytes → Bytes → Bytes → Bool)
    (decode : ℕ → Bytes → Manifest × Bool) (key : Bytes) where
  after_check-steps_left :
      (id : Identity) (scope : Scope) (m : Manifest) (w : World) (v : Verdict)
      → steps_left (after_check id scope m w v) ≤ 2
  after_check-steps_left id scope m w history_failed = omega arith
  after_check-steps_left id scope m w not_newer = omega arith
  after_check-steps_left id scope m w cleared = omega arith

  after_append-steps_left :
      (w : World) (m : Manifest) (r : Result Model.Error Store)
      → steps_left (after_append w m r).1 ≡ 0
  after_append-steps_left w m (ok s) = refl
  after_append-steps_left w m (err e) = refl

  Received-steps_left :
      (ctx : Option Identity) (r : Request) (p : Phase)
      → Received base64_decode ed25519_verify decode key ctx r p
      → steps_left p ≤ 3
  Received-steps_left ctx r p (anonymous res e) = rw e (omega arith)
  Received-steps_left ctx r p (turned_down id scope version status reason k e) = rw e (omega arith)
  Received-steps_left ctx r p (passed id scope m k d v e) = rw e (omega arith)

  advance-steps_left :
      (now : Time) (takes : Bool) (w : World) (p : Phase)
      → steps_left (advance base64_decode ed25519_verify decode key now takes w p).1
        ≤ steps_left p - 1
  unfolding advance
  advance-steps_left now takes w (arrived ctx r) =
      Received-steps_left ctx r _ (receive-Received base64_decode ed25519_verify decode key ctx r)
  advance-steps_left now takes w (refusing id scope version status reason) = omega arith
  advance-steps_left now takes w (verified id scope m) =
      after_check-steps_left id scope m w (check_history w.store scope m)
  advance-steps_left now true w (checked id scope m) = omega arith
  advance-steps_left now false w (checked id scope m) = omega arith
  advance-steps_left now takes w (published id scope m) = omega (
    arith,
    after_append-steps_left w m (
        append_audit w.store now scope
          (attempt_entry id action_rollout_accepted m.version (codes "allowed") [])),
  )
  advance-steps_left now takes w (answered res) = omega arith

  -- The phase of a request after some turns.
  abbrev IsAt : List Phase → ℕ → ℕ → Type 0
  IsAt ps i bound = (p : Phase) × (get_elem? ps i ≡ some p) × (steps_left p ≤ bound)

  advance_nth-IsAt :
      (now : Time) (takes : Bool) (w : World) (ps : List Phase) (j i : ℕ) (p : Phase)
      → get_elem? ps i ≡ some p
      → IsAt
          (advance_nth base64_decode ed25519_verify decode key now takes w ps j).1
          i
          (if j == i then steps_left p - 1 else steps_left p)
  unfolding advance_nth
  advance_nth-IsAt now takes w [] j i p at = cc
  advance_nth-IsAt now takes w (q ∷ ps) zero zero p at =
      let same : q ≡ p = cc in (_, refl, rw (← same) (advance-steps_left now takes w q))
  advance_nth-IsAt now takes w (q ∷ ps) zero (suc i) p at = (p, at, ground arith)
  advance_nth-IsAt now takes w (q ∷ ps) (suc j) zero p at = (p, at, ground arith)
  advance_nth-IsAt now takes w (q ∷ ps) (suc j) (suc i) p at =
      let (p', at', bound) = advance_nth-IsAt now takes w ps j i p at in
      (p', at', ground (arith, bound))

  get_elem?-append :
      (ps qs : List Phase) (i : ℕ) (p : Phase)
      → get_elem? ps i ≡ some p
      → get_elem? (ps ++ qs) i ≡ some p
  get_elem?-append [] qs i p at = cc
  get_elem?-append (q ∷ ps) qs zero p at = at
  get_elem?-append (q ∷ ps) qs (suc i) p at = get_elem?-append ps qs i p at

  turns-IsAt :
      (w : World) (ps : List Phase) (ts : List Turn) (i : ℕ) (p : Phase)
      → get_elem? ps i ≡ some p
      → IsAt
          (turns base64_decode ed25519_verify decode key (w, ps) ts).1
          i
          (steps_left p - turns_of i ts)
  unfolding turns turn
  turns-IsAt w ps [] i p at = (p, at, omega arith)
  turns-IsAt w ps (arrives ctx r ∷ ts) i p at =
      turns-IsAt w (ps ++ arrived ctx r ∷ []) ts i p
        (get_elem?-append ps (arrived ctx r ∷ []) i p at)
  turns-IsAt w ps (goes_on now takes j ∷ ts) i p at =
      let out = advance_nth base64_decode ed25519_verify decode key now takes w ps j in
      let (p', at', bound) = advance_nth-IsAt now takes w ps j i p at in
      let (q, at_end, less) = turns-IsAt out.0 out.1 ts i p' at' in
      (q, at_end, ground (arith, bound, less))

  -- A request is answered once it went on four times, whatever the schedule has other requests do
  -- in between and whatever the publisher answers.
  pub turns-answered :
      (w : World) (ps : List Phase) (ts : List Turn) (i : ℕ) (p : Phase)
      → get_elem? ps i ≡ some p
      → 4 ≤ turns_of i ts
      → (res : Response) × (get_elem? (turns base64_decode ed25519_verify decode key (w, ps) ts).1 i
          ≡ some (answered res))
  turns-answered w ps ts i p at enough =
      let (q, at_end, bound) = turns-IsAt w ps ts i p at in
      of_phase q at_end (omega (arith, bound, steps_left-le p))
    where
      steps_left-le : (p : Phase) → steps_left p ≤ 4
      steps_left-le (arrived ctx r) = omega arith
      steps_left-le (verified id scope m) = omega arith
      steps_left-le (checked id scope m) = omega arith
      steps_left-le (published id scope m) = omega arith
      steps_left-le (refusing id scope version status reason) = omega arith
      steps_left-le (answered res) = omega arith

      of_phase :
          (q : Phase)
          → get_elem? (turns base64_decode ed25519_verify decode key (w, ps) ts).1 i ≡ some q
          → steps_left q ≤ 0
          → (res : Response) × (get_elem?
                (turns base64_decode ed25519_verify decode key (w, ps) ts).1
                i
              ≡ some (answered res))
      of_phase (answered res) e h = (res, e)
      of_phase (arrived ctx r) e h = absurd (omega arith)
      of_phase (verified id scope m) e h = absurd (omega arith)
      of_phase (checked id scope m) e h = absurd (omega arith)
      of_phase (published id scope m) e h = absurd (omega arith)
      of_phase (refusing id scope version status reason) e h = absurd (omega arith)
