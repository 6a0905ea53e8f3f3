-- ===== src/Rollout/Cdn.antt =====
-- internal/rollout/cdn.go: the client that hands a release to the CDN.
pub mod Published
use enisa_sbd_example.Common.{
  ℕ, Bool, not, ◌||◌, List, [], ◌∷◌, ◌++◌, Option, none, some, Bytes, codes, text_eq, ◌==◌, ltb,
  if◌then◌else◌, Result, ok, err, refuse_if, ◌>>=◌, ◌>>◌,
}
use enisa_sbd_example.Rollout.Manifest.{Manifest}

-- What the constructor reads of the result of `url.Parse`.
pub record Url : Type 0 where
  pub scheme : Bytes
  pub host : Bytes

pub data ConfigError : Type 0 where
  bad_url not_https no_host no_credential : ConfigError

pub record HttpPublisher : Type 0 where
  pub base_url : Bytes
  pub token : Bytes

-- `strings.TrimSuffix(s, "/")`
unfoldable pub trim_slash : Bytes → Bytes
trim_slash [] = []
trim_slash (c ∷ []) = if c == 0x2f then [] else c ∷ []
trim_slash (c ∷ d ∷ s) = c ∷ trim_slash (d ∷ s)

-- `url.Parse` is given, with `none` for its error.
unfoldable pub new_http_publisher :
    (Bytes → Option Url) → Bytes → Bytes → Result ConfigError HttpPublisher
new_http_publisher parse_url base_url token = elim (parse_url base_url) [
  | none ↦ err bad_url
  | some u ↦ do
    refuse_if (not (text_eq u.scheme (codes "https"))) not_https
    refuse_if (text_eq u.host []) no_host
    refuse_if (text_eq token []) no_credential
    ok (record { base_url = trim_slash base_url; token = token })
]

pub record PublishRequest : Type 0 where
  pub method : Bytes
  pub url : Bytes
  pub headers : List (Bytes × Bytes)
  pub body : Bytes

pub data PublishError : Type 0 where
  not_encoded not_built not_sent rejected : PublishError

-- The request with the two headers that `Publish` sets.
unfoldable pub publish_request : HttpPublisher → Bytes → PublishRequest
publish_request p body = record {
  method = codes "POST";
  url = p.base_url ++ codes "/releases";
  headers =
      (codes "Content-Type", codes "application/json")
      ∷ (codes "Authorization", codes "Bearer " ++ p.token)
      ∷ [];
  body = body;
}

-- The test of the status that the CDN answered with, `none` where no answer came.
unfoldable pub publish_status : Option ℕ → Result PublishError (Unit {0})
publish_status none = err not_sent
publish_status (some status) = refuse_if (ltb status 200 || ltb 299 status) rejected

-- Encoding JSON, the request that `http.NewRequestWithContext` builds unless it takes the method
-- and address for malformed, and the exchange with the CDN are given. What is sent is returned
-- beside the result.
unfoldable pub publish :
    (Manifest → Option Bytes)
    → (Bytes → Bytes → Bool)
    → (PublishRequest → Option ℕ)
    → HttpPublisher
    → Manifest
    → Option PublishRequest × Result PublishError (Unit {0})
publish encode is_wellformed exchange p m = elim (encode m) [
  | none ↦ (none, err not_encoded)
  | some body ↦
      let req = publish_request p body in
      if not (is_wellformed req.method req.url)
      then (none, err not_built)
      else (some req, publish_status (exchange req))
]
