-- ===== src/Authz/Router/Granted.antt =====
-- internal/authz/router.go: a request that the router passes on to a handler.
use enisa_sbd_example.Common.{◌≡◌, refl, true, List, Option, some, Bytes, lookup}
use enisa_sbd_example.Authn.Identity.{Identity, Role}
use enisa_sbd_example.Authn.Tokens.{Tokens, bearer_token, find_token}
use enisa_sbd_example.Http.{Request, Response, Handler}
use enisa_sbd_example.Authz.Router.{Router, guard, serve_http, contains_role, patterns}

module _ (sum256 : Bytes → Bytes) (tokens : Option Tokens)
    (select : List Bytes → Bytes → Option Bytes) {S : Type 0} (rt : Router S) where
  -- The request goes to the pattern and carries a token of an identity that has one of the roles.
  pub record IsGranted (pattern : Bytes) (allow : List Role) (r : Request) (id : Identity)
      : Type 0 where
    pub token : Bytes
    pub presented : bearer_token r.authorization ≡ some token
    pub found : find_token sum256 tokens token ≡ some id
    pub allowed : contains_role allow id.role ≡ true
    pub routed : select (patterns rt.mux) r.target ≡ some pattern

  -- It is answered by the handler that was registered for the roles, with its identity.
  pub serve_http-granted :
      (unrouted : Request → Response) (pattern : Bytes) (allow : List Role) (h : Handler S)
      (r : Request) (id : Identity) (s : S)
      → lookup pattern rt.mux ≡ some (guard sum256 tokens allow h)
      → IsGranted pattern allow r id
      → serve_http select unrouted rt r s ≡ h (some id) r s
  unfolding serve_http guard
  serve_http-granted unrouted pattern allow h r id s mounted g =
      rw (g.routed, mounted, serve_http) (rw (g.presented, g.found, g.allowed, guard) refl)
