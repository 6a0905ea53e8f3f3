-- ===== src/Startup/Listener/Transport.antt =====
-- internal/httpserve/serve.go: which listener is started.
use enisa_sbd_example.Common.{◌≡◌, ◌≢◌, ◌⊎◌, inl, inr, true, Bool-cases, [], ok, arith}
use enisa_sbd_example.Startup.Listener.{Options, server_of, Listening, plaintext, https, listening}

-- The listener serves HTTPS with both files, or plaintext because that was asked for.
abbrev pub HasTransport : {H : Type 0} → Options H → Listening H → Type 0
HasTransport o l =
    ((l ≡ plaintext (server_of o)) × (o.allow_plaintext ≡ true))
    ⊎ ((l ≡ https (server_of o) o.cert_file o.key_file) × (o.cert_file ≢ []) × (o.key_file ≢ []))

pub listening-HasTransport :
    {H : Type 0} (o : Options H) (l : Listening H) → listening o ≡ ok l → HasTransport o l
unfolding listening
listening-HasTransport o l h = elim (Bool-cases o.allow_plaintext) [
  | inl asked ↦ inl (ground (arith, h, asked))
  | inr secure ↦ inr (
    ground (arith, h, secure),
    (λ e. ground (arith, h, secure, e)),
    λ e. ground (arith, h, secure, e),
  )
]
