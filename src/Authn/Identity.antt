-- ===== src/Authn/Identity.antt =====
-- internal/authn/authn.go: roles, identities and credentials.
use enisa_sbd_example.Common.{Bool, ◌||◌, Bytes, codes, text_eq}

-- Go's `Role` is a string type.
abbrev pub Role : Type 0
Role = Bytes

abbrev pub role_operator : Role
role_operator = codes "operator"

abbrev pub role_admin : Role
role_admin = codes "admin"

-- `r.Valid()`
unfoldable pub is_valid_role : Role → Bool
is_valid_role r = text_eq r role_operator || text_eq r role_admin

pub record Identity : Type 0 where
  pub subject : Bytes
  pub org_id : Bytes
  pub role : Role

pub record Entry : Type 0 where
  pub token_sha256 : Bytes
  pub subject : Bytes
  pub org_id : Bytes
  pub role : Role
