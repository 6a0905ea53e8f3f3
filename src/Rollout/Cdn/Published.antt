-- ===== src/Rollout/Cdn/Published.antt =====
-- internal/rollout/cdn.go: which configurations are taken and which publications succeed.
use enisa_sbd_example.Common.{
  ◌≡◌, ◌≢◌, ◌↔◌, ◌≤◌, ℕ, Bool, true, [], ◌∷◌, ◌++◌, Option, some, Bytes, codes, ok, inl, inr,
  Option-cases, text_eq_iff, text_eq-eq-false, arith,
}
use enisa_sbd_example.Rollout.Manifest.{Manifest}
use enisa_sbd_example.Rollout.Cdn.{
  Url, HttpPublisher, trim_slash, new_http_publisher, PublishRequest, publish_request,
  publish_status, publish,
}

-- The publisher for an https address with a host and a credential.
pub record IsOrigin (parse_url : Bytes → Option Url) (base_url token : Bytes) (p : HttpPublisher)
    : Type 0 where
  pub address : Url
  pub parsed : parse_url base_url ≡ some address
  pub is_https : address.scheme ≡ codes "https"
  pub has_host : address.host ≢ []
  pub has_credential : token ≢ []
  pub built : p ≡ record { base_url = trim_slash base_url; token = token }

-- A publisher is made exactly for an address that parses, whose scheme is https and whose host is
-- not empty, with a credential that is not empty: it keeps the credential and the address without
-- a slash at its end.
pub new_http_publisher_iff :
    (parse_url : Bytes → Option Url) (base_url token : Bytes) (p : HttpPublisher)
    → (new_http_publisher parse_url base_url token ≡ ok p) ↔ IsOrigin parse_url base_url token p
unfolding new_http_publisher
new_http_publisher_iff parse_url base_url token p = (
  λ h. elim (Option-cases (parse_url base_url)) [
    | inl bad ↦ ground arith
    | inr (u, parsed) ↦ record {
      address = u;
      parsed = parsed;
      is_https = (text_eq_iff u.scheme (codes "https")).0 (ground arith);
      has_host = λ e. ground (arith, (text_eq_iff u.host []).1 e);
      has_credential = λ e. ground (arith, (text_eq_iff token []).1 e);
      built = ground arith;
    }
  ],
  λ o. ground (
    arith,
    o.parsed,
    o.built,
    (text_eq_iff o.address.scheme (codes "https")).1 o.is_https,
    text_eq-eq-false o.address.host [] o.has_host,
    text_eq-eq-false token [] o.has_credential,
  ),
)

-- A publication that the CDN confirms.
pub record IsPublished (encode : Manifest → Option Bytes) (is_wellformed : Bytes → Bytes → Bool)
    (exchange : PublishRequest → Option ℕ) (p : HttpPublisher) (m : Manifest)
    (sent : Option PublishRequest) : Type 0 where
  pub body : Bytes
  pub encoded : encode m ≡ some body
  pub request_is :
      sent
      ≡ some (record {
        method = codes "POST";
        url = p.base_url ++ codes "/releases";
        headers =
            (codes "Content-Type", codes "application/json")
            ∷ (codes "Authorization", codes "Bearer " ++ p.token)
            ∷ [];
        body = body;
      })
  pub wellformed : is_wellformed (codes "POST") (p.base_url ++ codes "/releases") ≡ true
  pub status : ℕ
  pub answered : exchange (publish_request p body) ≡ some status
  pub is_success : (200 ≤ status) × (status ≤ 299)

-- Publishing succeeds exactly where the manifest has an encoding and the CDN answered, with a
-- status of 200 to 299, the POST of that encoding to the base address's `/releases` with the
-- publisher's token, whose address is well-formed.
pub publish_iff :
    (encode : Manifest → Option Bytes) (is_wellformed : Bytes → Bytes → Bool)
    (exchange : PublishRequest → Option ℕ) (p : HttpPublisher) (m : Manifest)
    → ((publish encode is_wellformed exchange p m).1 ≡ ok tt)
      ↔ IsPublished encode is_wellformed exchange p m (publish encode is_wellformed exchange p m).0
unfolding publish publish_request publish_status
publish_iff encode is_wellformed exchange p m = (
  λ h. elim (Option-cases (encode m)) [
    | inl bad ↦ ground arith
    | inr (body, encoded) ↦ elim (Option-cases (exchange (publish_request p body))) [
      | inl lost ↦ ground arith
      | inr (status, answered) ↦ record {
        body = body;
        encoded = encoded;
        request_is = ground arith;
        wellformed = ground arith;
        status = status;
        answered = answered;
        is_success = ground arith;
      }
    ]
  ],
  λ r. ground (arith, r.encoded, r.wellformed, r.answered, r.is_success),
)
