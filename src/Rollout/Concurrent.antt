-- ===== src/Rollout/Concurrent.antt =====
-- internal/rollout/server.go: requests that are handled at once. A request goes on in steps that
-- each touch what the requests share at most once: the store by one call, or the publisher.
pub mod Received
pub mod Answered
pub mod Alone
pub mod Grown
pub mod Sound
pub mod Race
pub mod Serial
use enisa_sbd_example.Common.{
  ℕ, zero, suc, Bool, not, List, [], ◌∷◌, ◌++◌, Option, Bytes, codes, if◌then◌else◌, Result, ok,
  err,
}
use enisa_sbd_example.Authn.Identity.{Identity}
use enisa_sbd_example.Store.Model.{Time, Store, action_rollout_accepted}
use enisa_sbd_example.Store.Model
use enisa_sbd_example.Store.Scope.{Scope}
use enisa_sbd_example.Store.Writes.{append_audit}
use enisa_sbd_example.Http.{
  Request, Response, write_json, published_body, status_accepted, status_bad_request,
  status_conflict, status_bad_gateway,
}
use enisa_sbd_example.Rollout.Manifest.{Manifest, Error, verify}
use enisa_sbd_example.Rollout.Server.{
  World, Caller, refused, known, identify, attempt_entry, reject, fail, Verdict, history_failed,
  not_newer, cleared, check_history, verify_status, max_manifest_bytes,
}

-- How far `create` has come with a request.
pub data Phase : Type 0 where
  arrived : Option Identity → Request → Phase
  -- Before `s.reject`, with the version, the status and the reason.
  refusing : Identity → Scope → Bytes → ℕ → Bytes → Phase
  -- Before `s.currentVersion`, before `s.cdn.Publish`, and before the last `AppendAudit`.
  verified checked published : Identity → Scope → Manifest → Phase
  answered : Response → Phase

abbrev pub after_check : Identity → Scope → Manifest → World → Verdict → Phase
after_check id scope m w history_failed = answered (fail w).0
after_check id scope m w not_newer =
    refusing id scope m.version status_conflict (codes "downgrade refused")
after_check id scope m w cleared = checked id scope m

abbrev pub accepted_response : Manifest → Response
accepted_response m = write_json status_accepted (published_body m.version m.digest)

abbrev pub after_append : World → Manifest → Result Model.Error Store → World × Phase
after_append w m (err _) = (w, answered (fail w).0)
after_append w m (ok s) = (record w { store = s }, answered (accepted_response m))

-- A request comes in, or one of them goes on.
pub data Turn : Type 0 where
  arrives : Option Identity → Request → Turn
  goes_on : Time → Bool → ℕ → Turn

module _ (base64_decode : Bytes → Option Bytes) (ed25519_verify : Bytes → Bytes → Bytes → Bool)
    (decode : ℕ → Bytes → Manifest × Bool) (key : Bytes) where
  -- `create` up to the check of the history, which reads nothing that requests share.
  unfoldable pub receive : Option Identity → Request → Phase
  receive ctx r = elim (identify ctx) [
    | refused res ↦ answered res
    | known id scope ↦
        let (m, decoded) = decode max_manifest_bytes r.body in
        if not decoded
        then refusing id scope m.version status_bad_request (codes "undecodable manifest")
        else elim (verify base64_decode ed25519_verify m key) [
          | err e ↦
              refusing id scope m.version (verify_status e) (codes "signature verification failed")
          | ok _ ↦ verified id scope m
        ]
  ]

  -- The next step of a request, at a time; the publisher's answer is given with it.
  unfoldable pub advance : Time → Bool → World → Phase → World × Phase
  advance now takes w (arrived ctx r) = (w, receive ctx r)
  advance now takes w (refusing id scope version status reason) =
      let (res, w') = reject w now id scope version status reason in (w', answered res)
  advance now takes w (verified id scope m) =
      (w, after_check id scope m w (check_history w.store scope m))
  advance now takes w (checked id scope m) = (
    record w { sent = w.sent ++ m ∷ [] },
    if not takes
        then refusing id scope m.version status_bad_gateway (codes "cdn publish failed")
        else published id scope m,
  )
  advance now takes w (published id scope m) = after_append w m (
      append_audit w.store now scope
        (attempt_entry id action_rollout_accepted m.version (codes "allowed") []))
  advance now takes w (answered res) = (w, answered res)

  -- The request with a number goes on.
  unfoldable pub advance_nth : Time → Bool → World → List Phase → ℕ → World × List Phase
  advance_nth now takes w [] i = (w, [])
  advance_nth now takes w (p ∷ ps) zero = let (w', p') = advance now takes w p in (w', p' ∷ ps)
  advance_nth now takes w (p ∷ ps) (suc i) =
      let (w', ps') = advance_nth now takes w ps i in (w', p ∷ ps')

  unfoldable pub turn : World × List Phase → Turn → World × List Phase
  turn (w, ps) (arrives ctx r) = (w, ps ++ arrived ctx r ∷ [])
  turn (w, ps) (goes_on now takes i) = advance_nth now takes w ps i

  unfoldable pub turns : World × List Phase → List Turn → World × List Phase
  turns sys [] = sys
  turns sys (t ∷ ts) = turns (turn sys t) ts
