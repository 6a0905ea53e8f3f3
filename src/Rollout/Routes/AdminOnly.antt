-- ===== src/Rollout/Routes/AdminOnly.antt =====
-- internal/rollout/server.go and internal/authz/router.go: only an administrator's request changes anything.
use mathlib.Core.List.{Memᴰ}
use enisa_sbd_example.Common.{
  ℕ, ◌>>=◌, ◌≡◌, ◌⊎◌, inl, inr, refl, ap, ◌∙◌, Bool, List, [], ◌∷◌, ◌++◌, Option, none, some,
  Option-cases, Bytes, codes, lookup, ok, bind-ok, arith,
}
use enisa_sbd_example.Common.Maps.Keys.{AllEntries-lookup}
use enisa_sbd_example.Authn.Identity.{Identity, Role, role_admin}
use enisa_sbd_example.Authn.Tokens.{Tokens}
use enisa_sbd_example.Store.Model.{Time}
use enisa_sbd_example.Http.{Request, Response, Handler}
use enisa_sbd_example.Authz.Router.{
  Router, new_router, guard, handle, handle_public, serve_http, patterns,
}
use enisa_sbd_example.Authz.Router.Guarded.{IsAdmitted, guard-cases}
use enisa_sbd_example.Authz.Router.Registered.{
  IsRegistered, new_router-IsRegistered, handle-IsRegistered, handle_public-IsRegistered,
}
use enisa_sbd_example.Rollout.Manifest.{Manifest}
use enisa_sbd_example.Rollout.Server.{World, admin_only, create, list_rollouts, health, fail}
use enisa_sbd_example.Rollout.Server.Sent.{IsReleasable, create-sent}
use enisa_sbd_example.Rollout.Routes.{rollout_handler}

-- The handler changes nothing.
abbrev IsRead : Handler World → Type 0
IsRead h = (ctx : Option Identity) (r : Request) (w : World) → (h ctx r w).1 ≡ w

health-IsRead : IsRead health
unfolding health
health-IsRead ctx r w = refl

list_rollouts-IsRead : IsRead list_rollouts
unfolding list_rollouts fail
list_rollouts-IsRead ctx r w = ground arith

module _ (sum256 : Bytes → Bytes) (tokens : Option Tokens) (creates : Handler World) where
  -- The request comes from a known administrator, and the handler that answered it is `create`.
  pub record IsAdminCreate (r : Request) (w : World) (out : Response × World) : Type 0 where
    pub id : Identity
    pub admitted : IsAdmitted sum256 tokens admin_only r id
    pub is_admin : id.role ≡ role_admin
    pub created : out ≡ creates (some id) r w

  -- A handler of the mux, which runs with no identity in the context.
  abbrev IsAdminOnly : Bytes → Handler World → Type 0
  IsAdminOnly p h =
      (r : Request) (w : World) → ((h none r w).1 ≡ w) ⊎ IsAdminCreate r w (h none r w)

  guard_read-IsAdminOnly :
      (p : Bytes) (h : Handler World) → IsRead h → IsAdminOnly p (guard sum256 tokens admin_only h)
  guard_read-IsAdminOnly p h read r w = elim (guard-cases sum256 tokens admin_only h none r w) [
    | inl denied ↦ inl (ap (λ (o : Response × World). o.1) denied)
    | inr (inl denied) ↦ inl (ap (λ (o : Response × World). o.1) denied)
    | inr (inr (id, admitted, ran)) ↦
        inl (ap (λ (o : Response × World). o.1) ran ∙ read (some id) r w)
  ]

  guard_create-IsAdminOnly : (p : Bytes) → IsAdminOnly p (guard sum256 tokens admin_only creates)
  guard_create-IsAdminOnly p r w = elim (guard-cases sum256 tokens admin_only creates none r w) [
    | inl denied ↦ inl (ap (λ (o : Response × World). o.1) denied)
    | inr (inl denied) ↦ inl (ap (λ (o : Response × World). o.1) denied)
    | inr (inr (id, admitted, ran)) ↦ inr (record {
      id = id;
      admitted = admitted;
      is_admin = only_admin id.role admitted.granted;
      created = ran;
    })
  ]
    where
      only_admin : (role : Role) → Memᴰ role admin_only → role ≡ role_admin
      only_admin role (Memᴰ.head e) = e
      only_admin role (Memᴰ.tail m) = elim m [ ]

module _ (base64_decode : Bytes → Option Bytes) (ed25519_verify : Bytes → Bytes → Bytes → Bool)
    (decode : ℕ → Bytes → Manifest × Bool) (accepts : Manifest → Bool) (sum256 : Bytes → Bytes)
    (conflicts : List Bytes → Bytes → Bool) (tokens : Option Tokens) (key : Bytes)
    (now : Time) where
  abbrev creates_now : Handler World
  creates_now = create base64_decode ed25519_verify decode accepts key now

  handler-IsRegistered :
      (rt : Router World)
      → rollout_handler base64_decode ed25519_verify decode accepts sum256 conflicts tokens key now
        ≡ ok rt
      → IsRegistered sum256 conflicts tokens (IsAdminOnly sum256 tokens creates_now) rt
  unfolding rollout_handler
  handler-IsRegistered rt h =
      let P = IsAdminOnly sum256 tokens creates_now in
      let post = codes "POST /api/rollouts" in
      let get = codes "GET /api/rollouts" in
      let healthz = codes "GET /healthz" in
      let (r₁, e₁, h₁) =
        bind-ok (handle conflicts sum256 (new_router tokens) post admin_only creates_now)
          (λ (r : Router World).
            handle conflicts sum256 r get admin_only list_rollouts >>= λ (q : Router World).
            handle_public conflicts q healthz health)
          h in
      let (r₂, e₂, e₃) =
        bind-ok (handle conflicts sum256 r₁ get admin_only list_rollouts)
          (λ (q : Router World). handle_public conflicts q healthz health) h₁ in
      let g₁ =
        handle-IsRegistered sum256 conflicts tokens P (new_router tokens) r₁ post admin_only
          creates_now e₁ (new_router-IsRegistered sum256 conflicts tokens P)
          (guard_create-IsAdminOnly sum256 tokens creates_now post) in
      let g₂ =
        handle-IsRegistered sum256 conflicts tokens P r₁ r₂ get admin_only list_rollouts e₂ g₁ (
          guard_read-IsAdminOnly sum256 tokens creates_now get list_rollouts
            list_rollouts-IsRead) in
      handle_public-IsRegistered sum256 conflicts tokens P r₂ rt healthz health e₃ g₂
        (λ r w. inl (health-IsRead none r w))

  serve_http-IsAdminCreate :
      (select : List Bytes → Bytes → Option Bytes) (unrouted : Request → Response)
      (rt : Router World) (r : Request) (w : World)
      → rollout_handler base64_decode ed25519_verify decode accepts sum256 conflicts tokens key now
        ≡ ok rt
      → ((serve_http select unrouted rt r w).1 ≡ w)
        ⊎ IsAdminCreate sum256 tokens creates_now r w (serve_http select unrouted rt r w)
  unfolding serve_http
  serve_http-IsAdminCreate select unrouted rt r w built =
      elim (Option-cases (select (patterns rt.mux) r.target)) [
        | inl nowhere ↦ inl (rw (nowhere, serve_http))
        | inr (pattern, selected) ↦ elim (Option-cases (lookup pattern rt.mux)) [
          | inl missing ↦ inl (rw (selected, missing, serve_http))
          | inr (h, found) ↦
              rw (selected, found, serve_http)
                (AllEntries-lookup (IsAdminOnly sum256 tokens creates_now) pattern h rt.mux
                  (handler-IsRegistered rt built).entries found r w)
        ]
      ]

  -- A request to the Rollout Service changes nothing, neither the audit log nor what was handed to
  -- the publisher, unless its token belongs to an administrator. Even then at most one manifest is
  -- handed over: the verified one that the request carries, if it is newer than the last release that
  -- the administrator's organisation accepted.
  pub serve_http-IsReleasable :
      (select : List Bytes → Bytes → Option Bytes) (unrouted : Request → Response)
      (rt : Router World) (r : Request) (w : World)
      → rollout_handler base64_decode ed25519_verify decode accepts sum256 conflicts tokens key now
        ≡ ok rt
      → ((serve_http select unrouted rt r w).1 ≡ w)
        ⊎ ((id : Identity) × IsAdmitted sum256 tokens admin_only r id
            × (id.role ≡ role_admin)
            × (((serve_http select unrouted rt r w).1.sent ≡ w.sent)
                ⊎ ((m : Manifest) × ((serve_http select unrouted rt r w).1.sent ≡ w.sent ++ m ∷ [])
                    × IsReleasable base64_decode ed25519_verify decode accepts key
                        (some id)
                        r
                        w
                        m)))
  serve_http-IsReleasable select unrouted rt r w built =
      elim (serve_http-IsAdminCreate select unrouted rt r w built) [
        | inl same ↦ inl same
        | inr a ↦ inr (
          a.id,
          a.admitted,
          a.is_admin,
          elim (create-sent base64_decode ed25519_verify decode accepts key now (some a.id) r w) [
            | inl nothing ↦ inl (ap (λ (o : Response × World). o.1.sent) a.created ∙ nothing)
            | inr (m, sent, releasable) ↦
                inr (m, ap (λ (o : Response × World). o.1.sent) a.created ∙ sent, releasable)
          ],
        )
      ]
