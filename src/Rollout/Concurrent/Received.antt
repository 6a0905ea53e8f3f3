-- ===== src/Rollout/Concurrent/Received.antt =====
-- internal/rollout/server.go: what the first step of a request comes to.
use enisa_sbd_example.Common.{
  ℕ, ◌≡◌, inl, inr, Bool, true, Bool-cases, Option, Bytes, codes, Result-cases, ok,
}
use enisa_sbd_example.Authn.Identity.{Identity}
use enisa_sbd_example.Store.Scope.{Scope}
use enisa_sbd_example.Http.{Request, Response, status_bad_request}
use enisa_sbd_example.Rollout.Manifest.{Manifest, verify}
use enisa_sbd_example.Rollout.Server.{known, identify, verify_status, max_manifest_bytes}
use enisa_sbd_example.Rollout.Server.Paths.{Caller-cases}
use enisa_sbd_example.Rollout.Concurrent.{Phase, refusing, verified, answered, receive}

module _ (base64_decode : Bytes → Option Bytes) (ed25519_verify : Bytes → Bytes → Bytes → Bool)
    (decode : ℕ → Bytes → Manifest × Bool) (key : Bytes) where
  -- The caller is refused, or the manifest is, or the manifest is verified.
  pub data Received (ctx : Option Identity) (r : Request) (p : Phase) : Type 0 where
    anonymous : (res : Response) → p ≡ answered res → Received ctx r p
    turned_down :
        (id : Identity) (scope : Scope) (version : Bytes) (status : ℕ) (reason : Bytes)
        → identify ctx ≡ known id scope
        → p ≡ refusing id scope version status reason
        → Received ctx r p
    passed :
        (id : Identity) (scope : Scope) (m : Manifest)
        → identify ctx ≡ known id scope
        → decode max_manifest_bytes r.body ≡ (m, true)
        → verify base64_decode ed25519_verify m key ≡ ok tt
        → p ≡ verified id scope m
        → Received ctx r p

  pub receive-Received :
      (ctx : Option Identity) (r : Request)
      → Received ctx r (receive base64_decode ed25519_verify decode key ctx r)
  unfolding receive
  receive-Received ctx r = elim (Caller-cases (identify ctx)) [
    | inl (res, is_refused) ↦ anonymous res (rw (is_refused, receive))
    | inr (id, scope, is_known) ↦ elim (Bool-cases (decode max_manifest_bytes r.body).1) [
      | inr bad ↦
          turned_down id scope (decode max_manifest_bytes r.body).0.version status_bad_request
            (codes "undecodable manifest") is_known (rw (is_known, bad, receive))
      | inl good ↦
          let m = (decode max_manifest_bytes r.body).0 in
          elim (Result-cases (verify base64_decode ed25519_verify m key)) [
            | inr (e, bad) ↦
                turned_down id scope m.version (verify_status e)
                  (codes "signature verification failed") is_known
                  (rw (is_known, good, bad, receive))
            | inl (tt, fine) ↦
                passed id scope m is_known (λ i. (m, good i)) fine
                  (rw (is_known, good, fine, receive))
          ]
    ]
  ]
