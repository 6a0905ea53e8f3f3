-- ===== src/Authz/Router.antt =====
-- internal/authz/router.go: the router that authenticates and authorises every request.
pub mod Guarded
pub mod DenyByDefault
pub mod Registered
pub mod Granted
use enisa_sbd_example.Common.{
  ℕ, Bool, true, false, ◌||◌, not, List, [], ◌∷◌, ◌++◌, Option, none, some, Bytes, codes, text_eq,
  length, all, ◌==◌, if◌then◌else◌, Map, lookup, Result, ok, err, ◌>>=◌, ◌>>◌, refuse_if,
}
use enisa_sbd_example.Authn.Identity.{Identity, Role, is_valid_role}
use enisa_sbd_example.Authn.Tokens.{Tokens, bearer_token, find_token}
use enisa_sbd_example.Http.{
  Request, Response, Handler, error_body, status_text, status_unauthorized, status_forbidden,
  write_json,
}

pub record Route : Type 0 where
  pub pattern : Bytes
  pub allow : List Role
  pub is_public : Bool

-- The panics of a registration.
pub data Panic : Type 0 where
  no_role_grant grants_unknown_role pattern_conflict : Panic

pub record Router (S : Type 0) : Type 0 where
  pub mux : Map (Handler S)
  pub tokens : Option Tokens
  pub routes : List Route

-- `slices.Contains(allow, role)`
unfoldable pub contains_role : List Role → Role → Bool
contains_role [] role = false
contains_role (r ∷ allow) role = text_eq r role || contains_role allow role

-- The refusal that is written; the log line is not kept.
unfoldable pub deny : ℕ → Response
deny status =
    let answer = write_json status (error_body (status_text status)) in
    if status == status_unauthorized
    then record answer {
      headers = (codes "WWW-Authenticate", codes "Bearer realm=\"sensorhub\"") ∷ answer.headers;
    }
    else answer

-- `New(tokens, log)`
unfoldable pub new_router : {S : Type 0} → Option Tokens → Router S
new_router tokens = record { mux = []; tokens = tokens; routes = [] }

-- `Caller(ctx)`: the identity that the router attached.
abbrev pub caller : Option Identity → Option Identity
caller id = id

abbrev pub patterns : {S : Type 0} → Map (Handler S) → List Bytes
patterns [] = []
patterns ((p, _) ∷ m) = p ∷ patterns m

-- SHA-256 is given.
module _ (sum256 : Bytes → Bytes) {S : Type 0} where
  unfoldable pub guard : Option Tokens → List Role → Handler S → Handler S
  guard tokens allow h ctx r s = elim (bearer_token r.authorization) [
    | none ↦ (deny status_unauthorized, s)
    | some token ↦ elim (find_token sum256 tokens token) [
      | none ↦ (deny status_unauthorized, s)
      | some id ↦
          if not (contains_role allow id.role) then (deny status_forbidden, s) else h (some id) r s
    ]
  ]

-- The patterns beside which `mux.Handle` panics on another are given.
module _ (conflicts : List Bytes → Bytes → Bool) {S : Type 0} where
  unfoldable pub handle :
      (Bytes → Bytes) → Router S → Bytes → List Role → Handler S → Result Panic (Router S)
  handle sum256 rt pattern allow h = do
    refuse_if (length allow == 0) no_role_grant
    refuse_if (not (all is_valid_role allow)) grants_unknown_role
    refuse_if (conflicts (patterns rt.mux) pattern) pattern_conflict
    ok (record rt {
      routes = rt.routes ++ record { pattern = pattern; allow = allow; is_public = false } ∷ [];
      mux = rt.mux ++ (pattern, guard sum256 rt.tokens allow h) ∷ [];
    })

  abbrev pub handle_func :
      (Bytes → Bytes) → Router S → Bytes → List Role → Handler S → Result Panic (Router S)
  handle_func sum256 rt pattern allow h = handle sum256 rt pattern allow h

  unfoldable pub handle_public : Router S → Bytes → Handler S → Result Panic (Router S)
  handle_public rt pattern h = do
    refuse_if (conflicts (patterns rt.mux) pattern) pattern_conflict
    ok (record rt {
      routes = rt.routes ++ record { pattern = pattern; allow = []; is_public = true } ∷ [];
      mux = rt.mux ++ (pattern, h) ∷ [];
    })

-- Which pattern the mux selects for a request target, and its answer where it selects none, are given.
module _ (select : List Bytes → Bytes → Option Bytes) (unrouted : Request → Response)
    {S : Type 0} where
  -- A request comes in with no identity in its context.
  unfoldable pub serve_http : Router S → Request → S → Response × S
  serve_http rt r s = elim (select (patterns rt.mux) r.target) [
    | none ↦ (unrouted r, s)
    | some pattern ↦ elim (lookup pattern rt.mux) [ none ↦ (unrouted r, s) | some h ↦ h none r s ]
  ]

-- `Routes()`, a copy of the list.
abbrev pub registered_routes : {S : Type 0} → Router S → List Route
registered_routes rt = rt.routes
