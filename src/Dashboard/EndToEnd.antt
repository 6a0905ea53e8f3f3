-- ===== src/Dashboard/EndToEnd.antt =====
-- internal/ingest, internal/dashboard and internal/store: the way of telemetry from the devices'
-- connections to the Dashboard API's answers, over one store.
use enisa_sbd_example.Common.{◌≡◌, Bool, List, Option, some, Bytes, All, ℤ, ok}
use enisa_sbd_example.Authn.Identity.{Identity}
use enisa_sbd_example.Authn.Tokens.{Tokens, bearer_token, find_token}
use enisa_sbd_example.Store.Model.{Time, Float64, Store}
use enisa_sbd_example.Http.{Request, Response}
use enisa_sbd_example.Authz.Router.{Router, serve_http}
use enisa_sbd_example.Ingest.Sample.{Sample}
use enisa_sbd_example.Ingest.Serve.{System, Event, run}
use enisa_sbd_example.Ingest.Serve.Isolated.{IsForeignLive, IsForeignEvent, run-SameView}
use enisa_sbd_example.Dashboard.Handlers.{handler}
use enisa_sbd_example.Dashboard.Routes.{serve_http-LooksSame}

module _ (decode : Bytes → Option Sample) (format_float : Float64 → Bytes)
    (format_time : Time → Bytes) (sum256 : Bytes → Bytes) (tokens : Option Tokens) where
  -- Every connection names, if its certificate names a device at all, one that is not enrolled with
  -- the organisation of whoever the request's token belongs to.
  pub record IsForeignTraffic (r : Request) (sys : System) (es : List Event) : Type 0 where
    pub foreign :
        (token : Bytes) (id : Identity)
        → bearer_token r.authorization ≡ some token
        → find_token sum256 tokens token ≡ some id
        → All (IsForeignLive id.org_id sys.store) sys.live
          × All (IsForeignEvent id.org_id sys.store) es

  -- The answer of the Dashboard API to a request is the same before and after any run of the ingest
  -- service over the same store, whatever its connections send, as long as none of their certificates
  -- names a device of the organisation that the request's token belongs to.
  pub serve_http-run :
      (conflicts : List Bytes → Bytes → Bool) (select : List Bytes → Bytes → Option Bytes)
      (unrouted : Request → Response) (rt : Router Store) (r : Request) (max_conns : ℤ)
      (sys : System) (es : List Event)
      → handler format_float format_time sum256 conflicts tokens ≡ ok rt
      → IsForeignTraffic r sys es
      → (serve_http select unrouted rt r sys.store).0
        ≡ (serve_http select unrouted rt r (run decode max_conns sys es).store).0
  serve_http-run conflicts select unrouted rt r max_conns sys es built traffic =
      (serve_http-LooksSame sum256 tokens format_float format_time conflicts select unrouted rt r
        sys.store (run decode max_conns sys es).store built
        (λ token id presented found.
          let (lives, events) = traffic.foreign token id presented found in
          run-SameView decode id.org_id max_conns sys es lives events)).0
