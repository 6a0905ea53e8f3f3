-- ===== src/Authz/Router/Guarded.antt =====
-- internal/authz/router.go: what a guarded handler lets through.
use mathlib.Core.List.{Memᴰ}
use enisa_sbd_example.Common.{
  ◌≡◌, ◌⊎◌, inl, inr, true, List, [], ◌∷◌, Option, some, Bytes, text_eq, text_eq_iff, Bool-cases,
  Option-cases, arith,
}
use enisa_sbd_example.Authn.Identity.{Identity, Role}
use enisa_sbd_example.Authn.Tokens.{Tokens, bearer_token, find_token}
use enisa_sbd_example.Http.{Request, Handler, status_unauthorized, status_forbidden}
use enisa_sbd_example.Authz.Router.{contains_role, deny, guard}

pub contains_role-Memᴰ :
    (allow : List Role) (r : Role) → contains_role allow r ≡ true → Memᴰ r allow
unfolding contains_role
contains_role-Memᴰ [] r h = cc
contains_role-Memᴰ (a ∷ allow) r h = elim (Bool-cases (text_eq a r)) [
  | inl same ↦ Memᴰ.head (ground (arith, text_eq_iff a r))
  | inr other ↦ Memᴰ.tail (contains_role-Memᴰ allow r (ground arith))
]

module _ (sum256 : Bytes → Bytes) where
  -- The caller presented a token that the store knows, and has one of the roles.
  pub record IsAdmitted (tokens : Option Tokens) (allow : List Role) (r : Request) (id : Identity)
      : Type 0 where
    pub token : Bytes
    pub presented : bearer_token r.authorization ≡ some token
    pub known : find_token sum256 tokens token ≡ some id
    pub granted : Memᴰ id.role allow

  -- A guarded handler refuses with 401 or 403 and changes nothing, or the caller is admitted and the
  -- inner handler runs with the caller's identity.
  pub guard-cases :
      {S : Type 0} (tokens : Option Tokens) (allow : List Role) (h : Handler S)
      (ctx : Option Identity) (r : Request) (s : S)
      → (guard sum256 tokens allow h ctx r s ≡ (deny status_unauthorized, s))
        ⊎ (guard sum256 tokens allow h ctx r s ≡ (deny status_forbidden, s))
        ⊎ ((id : Identity) × IsAdmitted tokens allow r id
            × (guard sum256 tokens allow h ctx r s ≡ h (some id) r s))
  unfolding guard
  guard-cases tokens allow h ctx r s = elim (Option-cases (bearer_token r.authorization)) [
    | inl absent ↦ inl (rw (absent, guard))
    | inr (token, presented) ↦ elim (Option-cases (find_token sum256 tokens token)) [
      | inl unknown ↦ inl (rw (presented, unknown, guard))
      | inr (id, known) ↦ elim (Bool-cases (contains_role allow id.role)) [
        | inr denied ↦ inr (inl (rw (presented, known, denied, guard)))
        | inl granted ↦ inr (
            inr (
              id,
              record {
                token = token;
                presented = presented;
                known = known;
                granted = contains_role-Memᴰ allow id.role granted;
              },
              rw (presented, known, granted, guard),
            ))
      ]
    ]
  ]
