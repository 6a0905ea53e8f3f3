-- ===== src/Rollout/Routes.antt =====
-- internal/rollout/server.go: the Rollout Service behind its router.
pub mod AdminOnly
pub mod Listed
use enisa_sbd_example.Common.{ℕ, Bool, List, Option, Bytes, codes, Result, ◌>>=◌}
use enisa_sbd_example.Authn.Tokens.{Tokens}
use enisa_sbd_example.Store.Model.{Time}
use enisa_sbd_example.Authz.Router.{Router, Panic, new_router, handle_func, handle_public}
use enisa_sbd_example.Rollout.Manifest.{Manifest}
use enisa_sbd_example.Rollout.Server.{World, admin_only, create, list_rollouts, health}

-- `Handler(st, tokens, key, cdn, log)`, at the time at which the store's clock stands.
module _ (base64_decode : Bytes → Option Bytes) (ed25519_verify : Bytes → Bytes → Bytes → Bool)
    (decode : ℕ → Bytes → Manifest × Bool) (accepts : Manifest → Bool) where
  unfoldable pub rollout_handler :
      (Bytes → Bytes)
      → (List Bytes → Bytes → Bool)
      → Option Tokens
      → Bytes
      → Time
      → Result Panic (Router World)
  rollout_handler sum256 conflicts tokens key now = do
    let creates = create base64_decode ed25519_verify decode accepts key now
    r₁ ←
        handle_func conflicts sum256 (new_router tokens) (codes "POST /api/rollouts") admin_only
          creates
    r₂ ← handle_func conflicts sum256 r₁ (codes "GET /api/rollouts") admin_only list_rollouts
    handle_public conflicts r₂ (codes "GET /healthz") health
