-- ===== src/Authz/Router/DenyByDefault.antt =====
-- internal/authz/router.go: a router that the registration methods built denies by default.
use mathlib.Core.List.{Memᴰ}
use enisa_sbd_example.Common.{
  ℕ, ◌≡◌, ◌≢◌, ◌⊎◌, inl, inr, refl, ap, subst, ◌∙◌, append-nil, Bool, true, false, List, [], ◌∷◌,
  ◌++◌, Option, none, some, Bytes, ok, arith, All, All-append, all, Map, Memᴰ-front, Memᴰ-last,
  lookup,
}
use enisa_sbd_example.Common.Maps.Keys.{AllEntries, AllEntries-lookup}
use enisa_sbd_example.Authn.Identity.{Identity, Role, is_valid_role}
use enisa_sbd_example.Authn.Tokens.{Tokens}
use enisa_sbd_example.Http.{Request, Response, Handler, status_unauthorized, status_forbidden}
use enisa_sbd_example.Authz.Router.{
  Route, Router, patterns, deny, guard, new_router, handle, handle_public, serve_http,
}
use enisa_sbd_example.Authz.Router.Guarded.{IsAdmitted, guard-cases}

-- A route is public, or it carries a grant of known roles.
abbrev pub HasGrant : Route → Type 0
HasGrant route =
    (route.is_public ≡ true)
    ⊎ ((route.is_public ≡ false) × (route.allow ≢ []) × (all is_valid_role route.allow ≡ true))

-- A call of `Handle`: the pattern, the roles and the handler that it was given.
pub record Grant (S : Type 0) : Type 0 where
  pub pattern : Bytes
  pub allow : List Role
  pub handler : Handler S

module _ (sum256 : Bytes → Bytes) {S : Type 0} where
  -- A handler of the mux is the guard of the one that a call of `Handle` was given, and a route is
  -- listed for the call; or its pattern is listed as public.
  abbrev pub IsCovered : Option Tokens → List (Grant S) → List Route → Bytes → Handler S → Type 0
  IsCovered tokens grants routes pattern h =
      ((allow : List Role) × (inner : Handler S) × (h ≡ guard sum256 tokens allow inner)
        × Memᴰ (record { pattern = pattern; allow = allow; handler = inner }) grants
        × Memᴰ (record { pattern = pattern; allow = allow; is_public = false }) routes)
      ⊎ Memᴰ (record { pattern = pattern; allow = []; is_public = true }) routes

  AllEntries-more :
      (tokens : Option Tokens) (gs hs : List (Grant S)) (xs ys : List Route) (m : Map (Handler S))
      → AllEntries (IsCovered tokens gs xs) m
      → AllEntries (IsCovered tokens (gs ++ hs) (xs ++ ys)) m
  AllEntries-more tokens gs hs xs ys [] _ = tt
  AllEntries-more tokens gs hs xs ys ((p, h) ∷ m) (c, cs) =
      (weaker c, AllEntries-more tokens gs hs xs ys m cs)
    where
      weaker : IsCovered tokens gs xs p h → IsCovered tokens (gs ++ hs) (xs ++ ys) p h
      weaker (inl (allow, inner, same, given, listed)) =
          inl (allow, inner, same, Memᴰ-front _ gs hs given, Memᴰ-front _ xs ys listed)
      weaker (inr listed) = inr (Memᴰ-front _ xs ys listed)

  pub AllEntries-concat :
      (P : Bytes → Handler S → Type 0) (m : Map (Handler S)) (p : Bytes) (h : Handler S)
      → AllEntries P m
      → P p h
      → AllEntries P (m ++ (p, h) ∷ [])
  AllEntries-concat P [] p h _ c = (c, tt)
  AllEntries-concat P ((k, g) ∷ m) p h (c, cs) d = (c, AllEntries-concat P m p h cs d)

  pub record IsGuarded (tokens : Option Tokens) (gs : List (Grant S)) (rt : Router S) : Type 0 where
    pub same_tokens : rt.tokens ≡ tokens
    pub grants : All HasGrant rt.routes
    pub covered : AllEntries (IsCovered tokens gs rt.routes) rt.mux

module _ (sum256 : Bytes → Bytes) (conflicts : List Bytes → Bytes → Bool) {S : Type 0} where
  pub handle-ok :
      (rt rt' : Router S) (p : Bytes) (allow : List Role) (h : Handler S)
      → handle conflicts sum256 rt p allow h ≡ ok rt'
      → (allow ≢ [])
        × (all is_valid_role allow ≡ true)
        × (rt' ≡ record rt {
          routes = rt.routes ++ record { pattern = p; allow = allow; is_public = false } ∷ [];
          mux = rt.mux ++ (p, guard sum256 rt.tokens allow h) ∷ [];
        })
  unfolding handle
  handle-ok rt rt' p allow h e = ground arith

  pub handle_public-ok :
      (rt rt' : Router S) (p : Bytes) (h : Handler S)
      → handle_public conflicts rt p h ≡ ok rt'
      → rt' ≡ record rt {
        routes = rt.routes ++ record { pattern = p; allow = []; is_public = true } ∷ [];
        mux = rt.mux ++ (p, h) ∷ [];
      }
  unfolding handle_public
  handle_public-ok rt rt' p h e = ground arith

  -- The routers that registrations can build from a new one, with what `Handle` was called with.
  pub data Built (tokens : Option Tokens) : List (Grant S) → Router S → Type 0 where
    fresh : Built tokens [] (new_router tokens)
    granted :
        {gs : List (Grant S)} {rt rt' : Router S} (p : Bytes) (allow : List Role) (h : Handler S)
        → Built tokens gs rt
        → handle conflicts sum256 rt p allow h ≡ ok rt'
        → Built tokens (gs ++ record { pattern = p; allow = allow; handler = h } ∷ []) rt'
    opened :
        {gs : List (Grant S)} {rt rt' : Router S} (p : Bytes) (h : Handler S)
        → Built tokens gs rt
        → handle_public conflicts rt p h ≡ ok rt'
        → Built tokens gs rt'

  handle-IsGuarded :
      (tokens : Option Tokens) (gs : List (Grant S)) (rt rt' : Router S) (p : Bytes)
      (allow : List Role) (h : Handler S)
      → IsGuarded sum256 tokens gs rt
      → handle conflicts sum256 rt p allow h ≡ ok rt'
      → IsGuarded sum256 tokens (gs ++ record { pattern = p; allow = allow; handler = h } ∷ []) rt'
  handle-IsGuarded tokens gs rt rt' p allow h g e =
      let (some_role, known, same) = handle-ok rt rt' p allow h e in
      let route : Route = record { pattern = p; allow = allow; is_public = false } in
      let grant : Grant S = record { pattern = p; allow = allow; handler = h } in
      rw same (record {
        same_tokens = g.same_tokens;
        grants =
            All-append HasGrant rt.routes (route ∷ []) g.grants (inr (refl, some_role, known), tt);
        covered =
            AllEntries-concat sum256
              (IsCovered sum256 tokens (gs ++ grant ∷ []) (rt.routes ++ route ∷ [])) rt.mux p _
              (AllEntries-more sum256 tokens gs (grant ∷ []) rt.routes (route ∷ []) rt.mux
                g.covered)
              (inl (
                allow,
                h,
                ap (λ t. guard sum256 t allow h) g.same_tokens,
                Memᴰ-last grant gs,
                Memᴰ-last route rt.routes,
              ));
      })

  handle_public-IsGuarded :
      (tokens : Option Tokens) (gs : List (Grant S)) (rt rt' : Router S) (p : Bytes) (h : Handler S)
      → IsGuarded sum256 tokens gs rt
      → handle_public conflicts rt p h ≡ ok rt'
      → IsGuarded sum256 tokens gs rt'
  handle_public-IsGuarded tokens gs rt rt' p h g e =
      let route : Route = record { pattern = p; allow = []; is_public = true } in
      rw (handle_public-ok rt rt' p h e) (record {
        same_tokens = g.same_tokens;
        grants = All-append HasGrant rt.routes (route ∷ []) g.grants (inl refl, tt);
        covered =
            AllEntries-concat sum256 (IsCovered sum256 tokens gs (rt.routes ++ route ∷ [])) rt.mux p
              h
              (subst (λ l. AllEntries (IsCovered sum256 tokens l (rt.routes ++ route ∷ [])) rt.mux)
                (append-nil gs)
                (AllEntries-more sum256 tokens gs [] rt.routes (route ∷ []) rt.mux g.covered))
              (inr (Memᴰ-last route rt.routes));
      })

  -- Every route of a router that registrations built is public or carries a grant of known roles,
  -- and every handler of the mux is the guard of a listed route or is listed as public.
  Built-IsGuarded :
      (tokens : Option Tokens) {gs : List (Grant S)} {rt : Router S}
      → Built tokens gs rt
      → IsGuarded sum256 tokens gs rt
  Built-IsGuarded tokens fresh =
      unfold new_router in record { same_tokens = refl; grants = tt; covered = tt }
  Built-IsGuarded tokens (granted {gs} {rt} {rt'} p allow h b e) =
      handle-IsGuarded tokens gs rt rt' p allow h (Built-IsGuarded tokens b) e
  Built-IsGuarded tokens (opened {gs} {rt} {rt'} p h b e) =
      handle_public-IsGuarded tokens gs rt rt' p h (Built-IsGuarded tokens b) e

module _ (select : List Bytes → Bytes → Option Bytes) (unrouted : Request → Response)
    {S : Type 0} where
  serve_http_found :
      (rt : Router S) (pattern : Bytes) (h : Handler S) (r : Request) (s : S)
      → select (patterns rt.mux) r.target ≡ some pattern
      → lookup pattern rt.mux ≡ some h
      → serve_http select unrouted rt r s ≡ h none r s
  unfolding serve_http
  serve_http_found rt pattern h r s selected found = rw (selected, found, serve_http)

module _ (sum256 : Bytes → Bytes) {S : Type 0} where
  -- What a request to a route that is not public leads to.
  pub data IsDecided (tokens : Option Tokens) (gs : List (Grant S)) (rt : Router S)
      (pattern : Bytes) (r : Request) (s : S) : Response × S → Type 0 where
    refused :
        (status : ℕ) (res : Response × S)
        → (status ≡ status_unauthorized) ⊎ (status ≡ status_forbidden)
        → res ≡ (deny status, s)
        → IsDecided tokens gs rt pattern r s res
    admitted :
        (id : Identity) (allow : List Role) (inner : Handler S) (res : Response × S)
        → IsAdmitted sum256 tokens allow r id
        → Memᴰ (record { pattern = pattern; allow = allow; handler = inner }) gs
        → Memᴰ (record { pattern = pattern; allow = allow; is_public = false }) rt.routes
        → res ≡ inner (some id) r s
        → IsDecided tokens gs rt pattern r s res

module _ (sum256 : Bytes → Bytes) (conflicts : List Bytes → Bytes → Bool)
    (select : List Bytes → Bytes → Option Bytes) (unrouted : Request → Response) {S : Type 0} where
  -- Deny by default: a request whose pattern has a handler and is not listed as public is refused
  -- with 401 or 403, with the service's state unchanged, or the caller presented a token that the
  -- store knows, has one of the roles that a call of `Handle` granted for that pattern, and the
  -- handler that this call was given ran with the caller's identity.
  pub serve_http-IsDecided :
      (tokens : Option Tokens) (gs : List (Grant S)) (rt : Router S) (pattern : Bytes)
      (h : Handler S) (r : Request) (s : S)
      → Built sum256 conflicts tokens gs rt
      → select (patterns rt.mux) r.target ≡ some pattern
      → lookup pattern rt.mux ≡ some h
      → ¬ Memᴰ (record { pattern = pattern; allow = []; is_public = true }) rt.routes
      → IsDecided sum256 tokens gs rt pattern r s (serve_http select unrouted rt r s)
  serve_http-IsDecided tokens gs rt pattern h r s built selected found private = decide (
      AllEntries-lookup (IsCovered sum256 tokens gs rt.routes) pattern h rt.mux
        (Built-IsGuarded sum256 conflicts tokens built).covered found)
    where
      served : serve_http select unrouted rt r s ≡ h none r s
      served = serve_http_found select unrouted rt pattern h r s selected found

      decide :
          IsCovered sum256 tokens gs rt.routes pattern h
          → IsDecided sum256 tokens gs rt pattern r s (serve_http select unrouted rt r s)
      decide (inr public) = absurd (private public)
      decide (inl (allow, inner, same, given, listed)) =
          elim (guard-cases sum256 tokens allow inner none r s) [
            | inl no_token ↦
                refused status_unauthorized _ (inl refl)
                  (served ∙ ap (λ f. f none r s) same ∙ no_token)
            | inr (inl no_role) ↦
                refused status_forbidden _ (inr refl) (served ∙ ap (λ f. f none r s) same ∙ no_role)
            | inr (inr (id, known, ran)) ↦
                admitted id allow inner _ known given listed
                  (served ∙ ap (λ f. f none r s) same ∙ ran)
          ]
