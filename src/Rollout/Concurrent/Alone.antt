-- ===== src/Rollout/Concurrent/Alone.antt =====
-- internal/rollout/server.go: a request that goes on with nothing in between is handled as `create`
-- handles it.
use enisa_sbd_example.Common.{
  ℕ, zero, suc, ◌≡◌, inl, inr, refl, Bool, true, not, if◌then◌else◌, ok, err, Bool-cases, List, [],
  ◌∷◌, ◌++◌, Option, Bytes, codes, Result-cases, ap, ◌∙◌,
}
use enisa_sbd_example.Authn.Identity.{Identity}
use enisa_sbd_example.Store.Model.{Time, action_rollout_accepted}
use enisa_sbd_example.Store.Scope.{Scope}
use enisa_sbd_example.Store.Writes.{append_audit}
use enisa_sbd_example.Http.{
  Request, Response, status_conflict, status_bad_gateway, status_bad_request,
}
use enisa_sbd_example.Rollout.Manifest.{Manifest, verify}
use enisa_sbd_example.Rollout.Server.{
  World, identify, attempt_entry, reject, fail, check_history, publish_release, create_verified,
  create, max_manifest_bytes, verify_status, Verdict, history_failed, not_newer, cleared,
}
use enisa_sbd_example.Rollout.Server.Paths.{Caller-cases}
use enisa_sbd_example.Rollout.Server.Sent.{Verdict-cases}
use enisa_sbd_example.Rollout.Concurrent.{
  Phase, arrived, refusing, verified, published, answered, after_check, after_append,
  accepted_response, receive, advance, advance_nth, Turn, goes_on, turn, turns,
}
use enisa_sbd_example.Rollout.Concurrent

abbrev pub times : ℕ → Turn → List Turn
times zero t = []
times (suc n) t = t ∷ times n t

-- The first request has been answered, and the others stand where they stood.
abbrev pub settled : Response × World → List Phase → World × List Phase
settled out others = (out.1, answered out.0 ∷ others)

module _ (base64_decode : Bytes → Option Bytes) (ed25519_verify : Bytes → Bytes → Bytes → Bool)
    (decode : ℕ → Bytes → Manifest × Bool) (key : Bytes) (now : Time) (takes : Bool)
    (others : List Phase) where
  abbrev after : ℕ → World → Phase → World × List Phase
  after n w p =
      turns base64_decode ed25519_verify decode key (w, p ∷ others) (times n (goes_on now takes 0))

  answered-after :
      (n : ℕ) (w : World) (res : Response) → after n w (answered res) ≡ (w, answered res ∷ others)
  unfolding turns turn advance_nth advance
  answered-after zero w res = refl
  answered-after (suc n) w res = answered-after n w res

  refusing-after :
      (n : ℕ) (w : World) (id : Identity) (scope : Scope) (version : Bytes) (status : ℕ)
      (reason : Bytes)
      → after (suc n) w (refusing id scope version status reason)
        ≡ settled (reject w now id scope version status reason) others
  unfolding turns turn advance_nth advance
  refusing-after n w id scope version status reason =
      answered-after n (reject w now id scope version status reason).1
        (reject w now id scope version status reason).0

  after-advance :
      (n : ℕ) (w : World) (p : Phase) (out : World × Phase)
      → advance base64_decode ed25519_verify decode key now takes w p ≡ out
      → after (suc n) w p ≡ after n out.0 out.1
  unfolding turns turn advance_nth
  after-advance n w p out e = ap (λ (o : World × Phase). after n o.0 o.1) e

  published-after :
      (accepts : Manifest → Bool) (n : ℕ) (w : World) (id : Identity) (scope : Scope) (m : Manifest)
      → accepts m ≡ true
      → after (suc n) (record w { sent = w.sent ++ m ∷ [] }) (published id scope m)
        ≡ settled (publish_release accepts w now id scope m) others
  unfolding advance publish_release fail
  published-after accepts n w id scope m taken =
      let w' = record w { sent = w.sent ++ m ∷ [] } in
      let e = attempt_entry id action_rollout_accepted m.version (codes "allowed") [] in
      elim (Result-cases (append_audit w.store now scope e)) [
        | inl (s, done) ↦
            after-advance n w' (published id scope m) (after_append w' m (ok s))
              (ap (after_append w' m) done)
            ∙ answered-after n (record w' { store = s }) (accepted_response m)
            ∙ rw (taken, done) refl
        | inr (x, failed) ↦
            after-advance n w' (published id scope m) (after_append w' m (err x))
              (ap (after_append w' m) failed)
            ∙ answered-after n w' (fail w').0
            ∙ rw (taken, failed) refl
      ]

  checked-after :
      (accepts : Manifest → Bool) (n : ℕ) (w : World) (id : Identity) (scope : Scope) (m : Manifest)
      → accepts m ≡ takes
      → after (suc (suc n)) w (Concurrent.checked id scope m)
        ≡ settled (publish_release accepts w now id scope m) others
  unfolding advance publish_release
  checked-after accepts n w id scope m same =
      let w' = record w { sent = w.sent ++ m ∷ [] } in
      let lost_phase =
        refusing id scope m.version status_bad_gateway (codes "cdn publish failed") in
      elim (Bool-cases takes) [
        | inr lost ↦
            after-advance (suc n) w (Concurrent.checked id scope m) (w', lost_phase)
              (ap (λ b. (w', if not b then lost_phase else published id scope m)) lost)
            ∙ refusing-after n w' id scope m.version status_bad_gateway (codes "cdn publish failed")
            ∙ rw (same ∙ lost) refl
        | inl taken ↦
            after-advance (suc n) w (Concurrent.checked id scope m) (w', published id scope m)
              (ap (λ b. (w', if not b then lost_phase else published id scope m)) taken)
            ∙ published-after accepts n w id scope m (same ∙ taken)
      ]

  verified-after :
      (accepts : Manifest → Bool) (n : ℕ) (w : World) (id : Identity) (scope : Scope) (m : Manifest)
      → accepts m ≡ takes
      → after (suc (suc (suc n))) w (verified id scope m)
        ≡ settled (create_verified accepts w now id scope m) others
  unfolding advance create_verified fail
  verified-after accepts n w id scope m same =
      let next : Verdict → World × Phase = λ v. (w, after_check id scope m w v) in
      elim (Verdict-cases (check_history w.store scope m)) [
        | inl failed ↦
            after-advance (suc (suc n)) w (verified id scope m) (next history_failed)
              (ap next failed)
            ∙ answered-after (suc (suc n)) w (fail w).0
            ∙ rw (failed, create_verified) refl
        | inr (inl older) ↦
            after-advance (suc (suc n)) w (verified id scope m) (next not_newer) (ap next older)
            ∙ refusing-after (suc n) w id scope m.version status_conflict
                (codes "downgrade refused")
            ∙ rw (older, create_verified) refl
        | inr (inr newer) ↦
            after-advance (suc (suc n)) w (verified id scope m) (next cleared) (ap next newer)
            ∙ checked-after accepts n w id scope m same
            ∙ rw (newer, create_verified) refl
      ]

-- A request that takes its four steps with no other in between, and with the publisher's answer to
-- its manifest, changes the world and is answered as `create` has it; the others stand where they
-- stood.
pub create-turns :
    (base64_decode : Bytes → Option Bytes) (ed25519_verify : Bytes → Bytes → Bytes → Bool)
    (decode : ℕ → Bytes → Manifest × Bool) (accepts : Manifest → Bool) (key : Bytes) (now : Time)
    (ctx : Option Identity) (r : Request) (w : World) (others : List Phase)
    → turns base64_decode ed25519_verify decode key
        (w, arrived ctx r ∷ others)
        (times 4 (goes_on now (accepts (decode max_manifest_bytes r.body).0) 0))
      ≡ settled (create base64_decode ed25519_verify decode accepts key now ctx r w) others
unfolding advance receive create
create-turns base64_decode ed25519_verify decode accepts key now ctx r w others =
    let m = (decode max_manifest_bytes r.body).0 in
    let first = λ (p : Phase).
      after-advance base64_decode ed25519_verify decode key now (accepts m) others 3 w
        (arrived ctx r) (w, p) in
    elim (Caller-cases (identify ctx)) [
      | inl (res, is_refused) ↦
          first (answered res) (rw (is_refused, receive))
          ∙ answered-after base64_decode ed25519_verify decode key now (accepts m) others 3 w res
          ∙ rw (is_refused, create) refl
      | inr (id, scope, is_known) ↦ elim (Bool-cases (decode max_manifest_bytes r.body).1) [
        | inr bad ↦
            first (refusing id scope m.version status_bad_request (codes "undecodable manifest"))
              (rw (is_known, bad, receive))
            ∙ refusing-after base64_decode ed25519_verify decode key now (accepts m) others 2 w id
                scope m.version status_bad_request (codes "undecodable manifest")
            ∙ rw (is_known, bad, create) refl
        | inl good ↦ elim (Result-cases (verify base64_decode ed25519_verify m key)) [
          | inr (e, bad) ↦
              first
                (refusing id scope m.version (verify_status e)
                  (codes "signature verification failed"))
                (rw (is_known, good, bad, receive))
              ∙ refusing-after base64_decode ed25519_verify decode key now (accepts m) others 2 w id
                  scope m.version (verify_status e) (codes "signature verification failed")
              ∙ rw (is_known, good, bad, create) refl
          | inl (tt, fine) ↦
              first (verified id scope m) (rw (is_known, good, fine, receive))
              ∙ verified-after base64_decode ed25519_verify decode key now (accepts m) others
                  accepts 0 w id scope m refl
              ∙ rw (is_known, good, fine, create) refl
        ]
      ]
    ]
