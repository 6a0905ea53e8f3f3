-- ===== src/Authn/Tokens/WellFormed.antt =====
-- internal/authn/authn.go: which entries `NewStore` accepts.
use enisa_sbd_example.Common.{◌≡◌, ◌≢◌, ◌↔◌, ◌⊎◌, [], true, length, All, text_eq_iff, ok, arith}
use enisa_sbd_example.Common.Strings.Hex.{IsHexDigit, is_lower_hex_iff}
use enisa_sbd_example.Authn.Identity.{Role, Entry, role_operator, role_admin, is_valid_role}
use enisa_sbd_example.Authn.Tokens.{check_entry}

pub is_valid_role_iff :
    (r : Role) → (is_valid_role r ≡ true) ↔ ((r ≡ role_operator) ⊎ (r ≡ role_admin))
unfolding is_valid_role
is_valid_role_iff r = ground (arith, text_eq_iff r role_operator, text_eq_iff r role_admin)

pub record IsWellFormed (e : Entry) : Type 0 where
  pub digest_length : length e.token_sha256 ≡ 64
  pub digest_hex : All IsHexDigit e.token_sha256
  pub has_subject : e.subject ≢ []
  pub has_org : e.org_id ≢ []
  pub known_role : (e.role ≡ role_operator) ⊎ (e.role ≡ role_admin)

-- An entry passes the checks exactly when it has a digest of 64 lowercase hexadecimal digits, a
-- subject, an organisation and one of the two roles.
pub check_entry_iff : (e : Entry) → (check_entry e ≡ ok tt) ↔ IsWellFormed e
unfolding check_entry
check_entry_iff e = ground (arith, is_lower_hex_iff e.token_sha256, is_valid_role_iff e.role)
