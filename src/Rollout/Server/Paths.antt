-- ===== src/Rollout/Server/Paths.antt =====
-- internal/rollout/server.go: the paths through `create` up to the check of the history.
use enisa_sbd_example.Common.{
  ℕ, ◌≡◌, ◌⊎◌, inl, inr, refl, Bool, true, false, Bool-cases, Option, Bytes, codes, Result-cases,
  ok, err,
}
use enisa_sbd_example.Authn.Identity.{Identity}
use enisa_sbd_example.Store.Model.{Time}
use enisa_sbd_example.Store.Scope.{Scope}
use enisa_sbd_example.Http.{Request, Response, status_bad_request}
use enisa_sbd_example.Rollout.Manifest.{Manifest, Error, verify}
use enisa_sbd_example.Rollout.Server.{
  World, Caller, refused, known, identify, reject, create_verified, create, max_manifest_bytes,
  verify_status,
}

pub Caller-cases :
    (c : Caller)
    → ((res : Response) × (c ≡ refused res))
      ⊎ ((id : Identity) × (scope : Scope) × (c ≡ known id scope))
Caller-cases (refused res) = inl (res, refl)
Caller-cases (known id scope) = inr (id, scope, refl)

module _ (base64_decode : Bytes → Option Bytes) (ed25519_verify : Bytes → Bytes → Bytes → Bool)
    (decode : ℕ → Bytes → Manifest × Bool) (accepts : Manifest → Bool) where
  pub data CreatePath (key : Bytes) (now : Time) (ctx : Option Identity) (r : Request) (w : World)
      (out : Response × World) : Type 0 where
    anonymous :
        (res : Response)
        → identify ctx ≡ refused res
        → out ≡ (res, w)
        → CreatePath key now ctx r w out
    undecodable :
        (id : Identity) (scope : Scope) (m : Manifest)
        → identify ctx ≡ known id scope
        → decode max_manifest_bytes r.body ≡ (m, false)
        → out ≡ reject w now id scope m.version status_bad_request (codes "undecodable manifest")
        → CreatePath key now ctx r w out
    unverified :
        (id : Identity) (scope : Scope) (m : Manifest) (e : Error)
        → identify ctx ≡ known id scope
        → decode max_manifest_bytes r.body ≡ (m, true)
        → verify base64_decode ed25519_verify m key ≡ err e
        → out
          ≡ reject w now id scope m.version
              (verify_status e)
              (codes "signature verification failed")
        → CreatePath key now ctx r w out
    checked :
        (id : Identity) (scope : Scope) (m : Manifest)
        → identify ctx ≡ known id scope
        → decode max_manifest_bytes r.body ≡ (m, true)
        → verify base64_decode ed25519_verify m key ≡ ok tt
        → out ≡ create_verified accepts w now id scope m
        → CreatePath key now ctx r w out

  pub create-CreatePath :
      (key : Bytes) (now : Time) (ctx : Option Identity) (r : Request) (w : World)
      → CreatePath key now ctx r w
          (create base64_decode ed25519_verify decode accepts key now ctx r w)
  unfolding create
  create-CreatePath key now ctx r w = elim (Caller-cases (identify ctx)) [
    | inl (res, is_refused) ↦ anonymous res is_refused (rw (is_refused, create))
    | inr (id, scope, is_known) ↦ elim (Bool-cases (decode max_manifest_bytes r.body).1) [
      | inr bad ↦
          undecodable id scope (decode max_manifest_bytes r.body).0 is_known
            (λ i. ((decode max_manifest_bytes r.body).0, bad i)) (rw (is_known, bad, create))
      | inl good ↦
          let m = (decode max_manifest_bytes r.body).0 in
          let decoded : decode max_manifest_bytes r.body ≡ (m, true) = λ i. (m, good i) in
          elim (Result-cases (verify base64_decode ed25519_verify m key)) [
            | inr (e, bad) ↦
                unverified id scope m e is_known decoded bad (rw (is_known, good, bad, create))
            | inl (tt, verified) ↦
                checked id scope m is_known decoded verified (rw (is_known, good, verified, create))
          ]
    ]
  ]
