-- ===== src/Tests/Access.antt =====
-- internal/authn and internal/authz: runs of the token lookup and of the router.
use mathlib.Core.List.{Memᴰ}
use enisa_sbd_example.Common.{
  ℕ, suc, ◌≡◌, ◌≢◌, ◌↔◌, refl, true, false, List, [], ◌∷◌, Bytes, Option, some, codes, ok, All,
  text_eq, lookup, insert,
}
use enisa_sbd_example.Common.Strings.{is_lower_hex}
use enisa_sbd_example.Authn.Identity.{role_admin, is_valid_role}
use enisa_sbd_example.Authn.Tokens.{Tokens, new_store, add_entries, check_entry, find_token}
use enisa_sbd_example.Authn.Tokens.WellFormed.{IsWellFormed}
use enisa_sbd_example.Authn.Tokens.Lookup.{IsKnown, find_token_iff}
use enisa_sbd_example.Authn.Tokens.Accepts.{HasDistinctDigests, new_store_iff}
use enisa_sbd_example.Http.{Request, Handler, status_body, write_json, status_ok, status_forbidden}
use enisa_sbd_example.Authz.Router.{Router, guard, deny, new_router, handle, serve_http}
use enisa_sbd_example.Authz.Router.DenyByDefault.{Grant, Built, IsDecided, serve_http-IsDecided}
use enisa_sbd_example.Tests.Data.{admin, admin_entry, admin_tokens, sum_stub}

-- A service that counts the requests that its handler saw.
abbrev counting : Handler ℕ
counting ctx r n = (write_json status_ok (status_body (codes "ok")), suc n)

abbrev root_pattern : Bytes
root_pattern = codes "GET /"

abbrev request : Request
request = record {
  target = codes "/";
  authorization = codes "Bearer s3cret";
  path_id = [];
  query_limit = [];
  body = [];
}

abbrev admin_router : Router ℕ
admin_router = record {
  mux = (root_pattern, guard sum_stub (some admin_tokens) (role_admin ∷ []) counting) ∷ [];
  tokens = some admin_tokens;
  routes = record { pattern = root_pattern; allow = role_admin ∷ []; is_public = false } ∷ [];
}

abbrev admin_grants : List (Grant ℕ)
admin_grants = record { pattern = root_pattern; allow = role_admin ∷ []; handler = counting } ∷ []

abbrev select_first : List Bytes → Bytes → Option Bytes
select_first ps _ = some root_pattern

admin_router-Built : Built sum_stub (λ ps p. false) (some admin_tokens) admin_grants admin_router
unfolding handle new_router is_valid_role text_eq
admin_router-Built = Built.granted root_pattern (role_admin ∷ []) counting Built.fresh refl

find_token_iff_example :
    (find_token sum_stub (some admin_tokens) (codes "s3cret") ≡ some admin)
    ↔ IsKnown sum_stub (admin_entry ∷ []) (codes "s3cret") admin
unfolding new_store add_entries check_entry is_lower_hex insert lookup is_valid_role text_eq
find_token_iff_example =
    find_token_iff sum_stub (admin_entry ∷ []) admin_tokens (codes "s3cret") admin refl

new_store_iff_example : ((s : Tokens) × (new_store (admin_entry ∷ []) ≡ ok s)) ↔ (
    (admin_entry ∷ [] ≢ [])
    × All IsWellFormed (admin_entry ∷ [])
    × HasDistinctDigests (admin_entry ∷ []))
new_store_iff_example = new_store_iff (admin_entry ∷ [])

serve_http-IsDecided_example :
    IsDecided sum_stub
      (some admin_tokens)
      admin_grants
      admin_router
      root_pattern
      request
      0
      (serve_http select_first (λ r. deny status_forbidden) admin_router request 0)
unfolding lookup text_eq
serve_http-IsDecided_example =
    serve_http-IsDecided sum_stub (λ ps p. false) select_first (λ r. deny status_forbidden)
      (some admin_tokens) admin_grants admin_router root_pattern
      (guard sum_stub (some admin_tokens) (role_admin ∷ []) counting) request 0 admin_router-Built
      refl refl no_public
  where
    no_public :
        ¬ Memᴰ (record { pattern = root_pattern; allow = []; is_public = true }) admin_router.routes
    no_public (Memᴰ.head e) = cc
    no_public (Memᴰ.tail m) = elim m [ ]
