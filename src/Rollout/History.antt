-- ===== src/Rollout/History.antt =====
-- internal/rollout/server.go: the versions that an organisation accepted, over any requests.
pub mod Entries
pub mod Descends
pub mod Current
use enisa_sbd_example.Common.{ℕ, Bool, List, [], ◌∷◌, Option, Bytes}
use enisa_sbd_example.Authn.Identity.{Identity}
use enisa_sbd_example.Store.Model.{Time}
use enisa_sbd_example.Http.{Request}
use enisa_sbd_example.Rollout.Manifest.{Manifest}
use enisa_sbd_example.Rollout.Server.{World, create}

-- A POST that reached the handler: when, from whom, and the request.
pub record Post : Type 0 where
  pub now : Time
  pub ctx : Option Identity
  pub request : Request

-- One request after the other.
module _ (base64_decode : Bytes → Option Bytes) (ed25519_verify : Bytes → Bytes → Bytes → Bool)
    (decode : ℕ → Bytes → Manifest × Bool) (accepts : Manifest → Bool) where
  unfoldable pub create_all : Bytes → World → List Post → World
  create_all key w [] = w
  create_all key w (p ∷ ps) =
      create_all key
        (create base64_decode ed25519_verify decode accepts key p.now p.ctx p.request w).1 ps
