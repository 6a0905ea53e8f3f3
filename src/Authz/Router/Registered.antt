-- ===== src/Authz/Router/Registered.antt =====
-- internal/authz/router.go: what holds of every handler that is registered, as it stands in the mux.
use enisa_sbd_example.Common.{◌≡◌, refl, sym, ap, subst, ◌∙◌, List, Bool, Option, Bytes, ok}
use enisa_sbd_example.Common.Maps.Keys.{AllEntries}
use enisa_sbd_example.Authn.Identity.{Role}
use enisa_sbd_example.Authn.Tokens.{Tokens}
use enisa_sbd_example.Http.{Handler}
use enisa_sbd_example.Authz.Router.{Router, guard, new_router, handle, handle_public}
use enisa_sbd_example.Authz.Router.DenyByDefault.{handle-ok, handle_public-ok, AllEntries-concat}

module _ (sum256 : Bytes → Bytes) (conflicts : List Bytes → Bytes → Bool) (tokens : Option Tokens)
    {S : Type 0} (P : Bytes → Handler S → Type 0) where
  -- A router over the credential store, all of whose handlers have the property.
  pub record IsRegistered (rt : Router S) : Type 0 where
    pub same_tokens : rt.tokens ≡ tokens
    pub entries : AllEntries P rt.mux

  pub new_router-IsRegistered : IsRegistered (new_router tokens)
  unfolding new_router
  new_router-IsRegistered = record { same_tokens = refl; entries = tt }

  pub handle-IsRegistered :
      (rt rt' : Router S) (p : Bytes) (allow : List Role) (h : Handler S)
      → handle conflicts sum256 rt p allow h ≡ ok rt'
      → IsRegistered rt
      → P p (guard sum256 tokens allow h)
      → IsRegistered rt'
  handle-IsRegistered rt rt' p allow h e g holds =
      let (_, _, same) = handle-ok sum256 conflicts rt rt' p allow h e in
      let here = subst (λ t. P p (guard sum256 t allow h)) (sym g.same_tokens) holds in
      record {
        same_tokens = ap (λ (x : Router S). x.tokens) same ∙ g.same_tokens;
        entries =
            subst (λ (x : Router S). AllEntries P x.mux) (sym same)
              (AllEntries-concat sum256 P rt.mux p (guard sum256 rt.tokens allow h) g.entries here);
      }

  pub handle_public-IsRegistered :
      (rt rt' : Router S) (p : Bytes) (h : Handler S)
      → handle_public conflicts rt p h ≡ ok rt'
      → IsRegistered rt
      → P p h
      → IsRegistered rt'
  handle_public-IsRegistered rt rt' p h e g holds =
      let same = handle_public-ok sum256 conflicts rt rt' p h e in
      record {
        same_tokens = ap (λ (x : Router S). x.tokens) same ∙ g.same_tokens;
        entries =
            subst (λ (x : Router S). AllEntries P x.mux) (sym same)
              (AllEntries-concat sum256 P rt.mux p h g.entries holds);
      }
