-- ===== src/Rollout/Server/Sent.antt =====
-- internal/rollout/server.go: what `create` hands to the publisher.
use enisa_sbd_example.Common.{
  ℕ, ◌≡◌, ◌⊎◌, ◌<◌, inl, inr, refl, ap, ◌∙◌, Bool, true, false, List, [], ◌∷◌, ◌++◌, Option, Bytes,
  Result-cases, ok, ℤ, is_nonpositive, arith,
}
use enisa_sbd_example.Authn.Identity.{Identity}
use enisa_sbd_example.Store.Model.{Time, Store}
use enisa_sbd_example.Store.Scope.{Scope}
use enisa_sbd_example.Http.{Request, Response}
use enisa_sbd_example.Rollout.Version.{parse_version, compare_versions}
use enisa_sbd_example.Rollout.Version.Order.{rank, compare_versions-rank}
use enisa_sbd_example.Rollout.Manifest.{Manifest}
use enisa_sbd_example.Rollout.Manifest.Verified.{IsVerified, verify_iff}
use enisa_sbd_example.Rollout.Server.Paths.{
  CreatePath, anonymous, undecodable, unverified, checked, create-CreatePath,
}
use enisa_sbd_example.Rollout.Server.{
  World, Verdict, history_failed, not_newer, cleared, known, identify, reject, fail,
  current_version, check_history, publish_release, create_verified, create, max_manifest_bytes,
}

-- One version text spells a lower version than another.
pub record IsBelow (low : Bytes) (high : Bytes) : Type 0 where
  pub low_parts : List ℕ
  pub high_parts : List ℕ
  pub low_parses : parse_version low ≡ ok low_parts
  pub high_parses : parse_version high ≡ ok high_parts
  pub lower : rank low_parts < rank high_parts

compare_versions-IsBelow :
    (a b : Bytes) (c : ℤ) → compare_versions a b ≡ ok c → is_nonpositive c ≡ false → IsBelow b a
compare_versions-IsBelow a b c h p = elim (Result-cases (parse_version a)) [
  | inr (x, bad) ↦ unfold compare_versions in ground arith
  | inl (av, ha) ↦ elim (Result-cases (parse_version b)) [
    | inr (x, bad) ↦ unfold compare_versions in ground arith
    | inl (bv, hb) ↦ record {
      low_parts = bv;
      high_parts = av;
      low_parses = hb;
      high_parses = ha;
      lower = ground (arith, compare_versions-rank a b av bv ha hb);
    }
  ]
]

pub Verdict-cases : (v : Verdict) → (v ≡ history_failed) ⊎ (v ≡ not_newer) ⊎ (v ≡ cleared)
Verdict-cases history_failed = inl refl
Verdict-cases not_newer = inr (inl refl)
Verdict-cases cleared = inr (inr refl)

-- The history lets a version through: the organisation has no accepted release, or the last one is
-- lower.
pub record IsNewer (s : Store) (scope : Scope) (version : Bytes) : Type 0 where
  pub current : Bytes
  pub is_current : current_version s scope ≡ ok current
  pub newer : (current ≡ []) ⊎ IsBelow current version

pub check_history-cleared :
    (s : Store) (scope : Scope) (m : Manifest)
    → check_history s scope m ≡ cleared
    → IsNewer s scope m.version
unfolding check_history
check_history-cleared s scope m h = elim (Result-cases (current_version s scope)) [
  | inr (x, failed) ↦ ground arith
  | inl ([], is_current) ↦ record { current = []; is_current = is_current; newer = inl refl }
  | inl (c ∷ cs, is_current) ↦ elim (Result-cases (compare_versions m.version (c ∷ cs))) [
    | inr (x, failed) ↦ ground arith
    | inl (cmp, compared) ↦ record {
      current = c ∷ cs;
      is_current = is_current;
      newer = inr (compare_versions-IsBelow m.version (c ∷ cs) cmp compared (ground arith));
    }
  ]
]

module _ (base64_decode : Bytes → Option Bytes) (ed25519_verify : Bytes → Bytes → Bytes → Bool)
    (decode : ℕ → Bytes → Manifest × Bool) (accepts : Manifest → Bool) where
  -- The request of a known caller carries a verified manifest of a newer version.
  pub record IsReleasable (key : Bytes) (ctx : Option Identity) (r : Request) (w : World)
      (m : Manifest) : Type 0 where
    pub id : Identity
    pub scope : Scope
    pub is_known : identify ctx ≡ known id scope
    pub is_decoded : decode max_manifest_bytes r.body ≡ (m, true)
    pub is_verified : IsVerified base64_decode ed25519_verify m key
    pub is_newer : IsNewer w.store scope m.version

  reject-sent :
      (w : World) (now : Time) (id : Identity) (scope : Scope) (v : Bytes) (n : ℕ) (reason : Bytes)
      → (reject w now id scope v n reason).1.sent ≡ w.sent
  unfolding reject
  reject-sent w now id scope v n reason = refl

  publish_release-sent :
      (w : World) (now : Time) (id : Identity) (scope : Scope) (m : Manifest)
      → (publish_release accepts w now id scope m).1.sent ≡ w.sent ++ m ∷ []
  unfolding publish_release fail reject
  publish_release-sent w now id scope m = ground arith

  create_verified-sent :
      (w : World) (now : Time) (id : Identity) (scope : Scope) (m : Manifest)
      → ((create_verified accepts w now id scope m).1.sent ≡ w.sent)
        ⊎ (((create_verified accepts w now id scope m).1.sent ≡ w.sent ++ m ∷ [])
            × (check_history w.store scope m ≡ cleared))
  unfolding create_verified
  create_verified-sent w now id scope m = elim (Verdict-cases (check_history w.store scope m)) [
    | inl failed ↦ inl (rw (failed, create_verified) (unfold fail in refl))
    | inr (inl older) ↦ inl (rw (older, create_verified) (reject-sent w now id scope m.version _ _))
    | inr (inr ok_) ↦ inr (rw (ok_, create_verified) (publish_release-sent w now id scope m), ok_)
  ]

  -- `create` hands nothing to the publisher, or exactly one manifest: the one that the request of a
  -- known caller carries, which verifies against the pinned key and is newer than the last release
  -- that the caller's organisation accepted.
  pub create-sent :
      (key : Bytes) (now : Time) (ctx : Option Identity) (r : Request) (w : World)
      → ((create base64_decode ed25519_verify decode accepts key now ctx r w).1.sent ≡ w.sent)
        ⊎ ((m : Manifest) × ((create base64_decode ed25519_verify decode accepts key now ctx r
                w).1.sent
              ≡ w.sent ++ m ∷ [])
            × IsReleasable key ctx r w m)
  create-sent key now ctx r w =
      by_path (create base64_decode ed25519_verify decode accepts key now ctx r w)
        (create-CreatePath base64_decode ed25519_verify decode accepts key now ctx r w)
    where
      by_path :
          (out : Response × World)
          → CreatePath base64_decode ed25519_verify decode accepts key now ctx r w out
          → (out.1.sent ≡ w.sent)
            ⊎ ((m : Manifest) × (out.1.sent ≡ w.sent ++ m ∷ []) × IsReleasable key ctx r w m)
      by_path out (anonymous res c e) = inl (ap (λ o. o.1.sent) e)
      by_path out (undecodable id scope m c d e) =
          inl (ap (λ o. o.1.sent) e ∙ reject-sent w now id scope m.version _ _)
      by_path out (unverified id scope m x c d v e) =
          inl (ap (λ o. o.1.sent) e ∙ reject-sent w now id scope m.version _ _)
      by_path out (checked id scope m c d v e) = elim (create_verified-sent w now id scope m) [
        | inl same ↦ inl (ap (λ o. o.1.sent) e ∙ same)
        | inr (more, newer) ↦ inr (
          m,
          ap (λ o. o.1.sent) e ∙ more,
          record {
            id = id;
            scope = scope;
            is_known = c;
            is_decoded = d;
            is_verified = (verify_iff base64_decode ed25519_verify m key).0 v;
            is_newer = check_history-cleared w.store scope m newer;
          },
        )
      ]
