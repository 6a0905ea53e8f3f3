-- ===== src/Rollout/Routes/Listed.antt =====
-- internal/rollout/server.go and internal/authz/router.go: what the history shows of an accepted release.
use mathlib.Core.List.{reverse, reverse-append}
use enisa_sbd_example.Common.{
  ◌≡◌, ◌≢◌, refl, sym, ap, ap₂, ℕ, subst, ◌⊎◌, ◌∙◌, inl, inr, Bool, List, [], ◌∷◌, ◌++◌, keep,
  has_prefix, Option, some, Bytes, codes, lookup, text_eq, text_eq_refl, Map, ok, arith, bind-ok,
  ◌>>=◌,
}
use enisa_sbd_example.Authn.Identity.{Identity}
use enisa_sbd_example.Authn.Tokens.{Tokens}
use enisa_sbd_example.Store.Model.{Time, AuditEntry, Store, action_rollout_accepted}
use enisa_sbd_example.Store.Scope.{scope_for, org_scope}
use enisa_sbd_example.Store.Writes.{stamp_entry}
use enisa_sbd_example.Store.Writes.Seen.{org_of-eq_ok}
use enisa_sbd_example.Store.Reads.Order.{is_shown, audit-eq}
use enisa_sbd_example.Http.{
  Request, Response, Handler, rollouts_body, status_ok, status_accepted, write_json,
}
use enisa_sbd_example.Authz.Router.{Router, new_router, guard, handle, handle_public, serve_http}
use enisa_sbd_example.Authz.Router.Granted.{IsGranted, serve_http-granted}
use enisa_sbd_example.Authz.Router.DenyByDefault.{handle-ok, handle_public-ok}
use enisa_sbd_example.Rollout.Manifest.{Manifest}
use enisa_sbd_example.Rollout.Server.{
  World, admin_only, max_manifest_bytes, create, list_rollouts, health, identify, known,
}
use enisa_sbd_example.Rollout.Server.Logged.{IsLogged, IsUnlogged, create-IsLogged}
use enisa_sbd_example.Rollout.Routes.{rollout_handler}

-- The entries of an organisation's history, newest first.
abbrev pub history : Bytes → Store → List AuditEntry
history org s = keep (is_shown org (codes "rollout.")) (reverse s.audit)

history-appended :
    (org : Bytes) (s : Store) (now : Time) (e : AuditEntry)
    → e.action ≡ action_rollout_accepted
    → history org (record s { audit = s.audit ++ stamp_entry org now e ∷ [] })
      ≡ stamp_entry org now e ∷ history org s
unfolding has_prefix
history-appended org s now e accepted =
    rw (reverse-append s.audit (stamp_entry org now e ∷ []), accepted, text_eq_refl) refl

identify-own :
    (id : Identity) → id.org_id ≢ [] → identify (some id) ≡ known id (org_scope id.org_id)
unfolding identify scope_for
identify-own id h = ground arith

list_rollouts-history :
    (id : Identity) (r : Request) (w : World)
    → id.org_id ≢ []
    → (list_rollouts (some id) r w).0
      ≡ write_json status_ok (rollouts_body (history id.org_id w.store))
unfolding list_rollouts
list_rollouts-history id r w h =
    rw
      (
        identify-own id h,
        audit-eq w.store (org_scope id.org_id) id.org_id (codes "rollout.")
            (org_of-eq_ok id.org_id h),
        list_rollouts,
      )
      refl

abbrev pub post_pattern : Bytes
post_pattern = codes "POST /api/rollouts"

abbrev pub get_pattern : Bytes
get_pattern = codes "GET /api/rollouts"

-- An accepted release in the log: whose it was, and which version.
pub record IsAcceptance (author : Identity) (version : Bytes) (e : AuditEntry) : Type 0 where
  pub actor : e.actor ≡ author.subject
  pub action : e.action ≡ action_rollout_accepted
  pub target : e.target ≡ version

-- An answer of 202 is one that was logged.
accepted-logged :
    (author : Identity) (version : Bytes) (now : Time) (w : World) (out : Response × World)
    → IsUnlogged w out ⊎ IsLogged w now (some author) version out
    → out.0.status ≡ status_accepted
    → (e : AuditEntry) × IsAcceptance author version e
      × (out.1.store
          ≡ record w.store { audit = w.store.audit ++ stamp_entry author.org_id now e ∷ [] })
accepted-logged author version now w out (inl u) h = absurd (ground (arith, u.answer))
accepted-logged author version now w out (inr l) h =
    let same : l.id ≡ author = some_injective (sym l.is_caller) in
    (
      l.entry,
      record {
        actor = l.actor ∙ ap (λ i. i.subject) same;
        action = ground (arith, l.outcome);
        target = l.target;
      },
      l.appended
          ∙ ap
              (λ (i : Identity). record w.store {
                audit = w.store.audit ++ stamp_entry i.org_id now l.entry ∷ [];
              })
              same,
    )
  where
    some_injective : {i j : Identity} → some i ≡ some j → i ≡ j
    some_injective e = cc

module _ (base64_decode : Bytes → Option Bytes) (ed25519_verify : Bytes → Bytes → Bytes → Bool)
    (decode : ℕ → Bytes → Manifest × Bool) (accepts : Manifest → Bool) (sum256 : Bytes → Bytes)
    (conflicts : List Bytes → Bytes → Bool) (tokens : Option Tokens) (key : Bytes)
    (now : Time) where
  abbrev creates : Handler World
  creates = create base64_decode ed25519_verify decode accepts key now

  abbrev mounted : Map (Handler World)
  mounted =
      (post_pattern, guard sum256 tokens admin_only creates)
      ∷ (get_pattern, guard sum256 tokens admin_only list_rollouts)
      ∷ (codes "GET /healthz", health)
      ∷ []

  rollout_handler-mounted :
      (rt : Router World)
      → rollout_handler base64_decode ed25519_verify decode accepts sum256 conflicts tokens key now
        ≡ ok rt
      → rt.mux ≡ mounted
  unfolding rollout_handler new_router
  rollout_handler-mounted rt h =
      let (r₁, e₁, h₁) =
        bind-ok (handle conflicts sum256 (new_router tokens) post_pattern admin_only creates)
          (λ (x : Router World).
            handle conflicts sum256 x get_pattern admin_only list_rollouts >>= λ (y : Router World).
            handle_public conflicts y (codes "GET /healthz") health)
          h in
      let (r₂, e₂, e₃) =
        bind-ok (handle conflicts sum256 r₁ get_pattern admin_only list_rollouts)
          (λ (y : Router World). handle_public conflicts y (codes "GET /healthz") health) h₁ in
      let (_, _, s₁) =
        handle-ok sum256 conflicts (new_router tokens) r₁ post_pattern admin_only creates e₁ in
      let (_, _, s₂) = handle-ok sum256 conflicts r₁ r₂ get_pattern admin_only list_rollouts e₂ in
      rw (handle_public-ok sum256 conflicts r₂ rt (codes "GET /healthz") health e₃, s₂, s₁) refl

  lookup-post : lookup post_pattern mounted ≡ some (guard sum256 tokens admin_only creates)
  unfolding lookup text_eq
  lookup-post = refl

  lookup-get : lookup get_pattern mounted ≡ some (guard sum256 tokens admin_only list_rollouts)
  unfolding lookup text_eq
  lookup-get = refl

  -- Once a release has been answered with 202, the history that an administrator of the same
  -- organisation is shown through the router begins with its acceptance: with the subject of whoever
  -- sent it, and with the version of the manifest in the request's body. The history from before
  -- follows as it was.
  pub serve_http-listed :
      (select : List Bytes → Bytes → Option Bytes) (unrouted : Request → Response)
      (rt : Router World) (post get : Request) (author reader : Identity) (w : World)
      → rollout_handler base64_decode ed25519_verify decode accepts sum256 conflicts tokens key now
        ≡ ok rt
      → IsGranted sum256 tokens select rt post_pattern admin_only post author
      → IsGranted sum256 tokens select rt get_pattern admin_only get reader
      → reader.org_id ≡ author.org_id
      → author.org_id ≢ []
      → (serve_http select unrouted rt post w).0.status ≡ status_accepted
      → (e : AuditEntry) × IsAcceptance author (decode max_manifest_bytes post.body).0.version e
        × ((serve_http select unrouted rt get (serve_http select unrouted rt post w).1).0
            ≡ write_json status_ok
                (rollouts_body (stamp_entry author.org_id now e ∷ history author.org_id w.store)))
  serve_http-listed select unrouted rt post get author reader w built posts gets same has_org h =
      let posted =
        serve_http-granted sum256 tokens select rt unrouted post_pattern admin_only creates post
          author w (ap (lookup post_pattern) (rollout_handler-mounted rt built) ∙ lookup-post)
          posts in
      let out = creates (some author) post w in
      let (e, accepted, appended) =
        accepted-logged author (decode max_manifest_bytes post.body).0.version now w out
          (create-IsLogged base64_decode ed25519_verify decode accepts key now (some author) post w)
          (ap (λ o. o.0.status) (sym posted) ∙ h) in
      let got =
        serve_http-granted sum256 tokens select rt unrouted get_pattern admin_only list_rollouts get
          reader (serve_http select unrouted rt post w).1
          (ap (lookup get_pattern) (rollout_handler-mounted rt built) ∙ lookup-get) gets in
      (
        e,
        accepted,
        ap (λ o. o.0) got
            ∙ list_rollouts-history reader get (serve_http select unrouted rt post w).1
                (subst (λ o. o ≢ []) (sym same) has_org)
            ∙ ap₂ (λ o (s : Store). write_json status_ok (rollouts_body (history o s))) same
                (ap (λ o. o.1.store) posted ∙ appended)
            ∙ ap (λ l. write_json status_ok (rollouts_body l))
                (history-appended author.org_id w.store now e accepted.action),
      )
