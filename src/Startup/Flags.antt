-- ===== src/Startup/Flags.antt =====
-- cmd: the flags that a service cannot do without.
pub mod Required
use enisa_sbd_example.Common.{
  List, [], ◌∷◌, Option, none, some, Bytes, length, ◌==◌, Result, ok, err, ◌>>=◌, ◌>>◌, refuse_if,
}

pub data FlagError : Type 0 where
  unparsable flag_required : FlagError

-- The loop over the map of required flags, in any order: the error does not keep which is missing.
unfoldable pub check_required : List Bytes → Result FlagError (Unit {0})
check_required [] = ok tt
check_required (value ∷ values) = do
  refuse_if (length value == 0) flag_required
  check_required values

-- The flags as `flag.FlagSet` parsed them, `none` where it did not.
unfoldable pub flags_of {ℓ} : {F : Type ℓ} → (F → List Bytes) → Option F → Result FlagError F
flags_of required none = err unparsable
flags_of required (some flags) = do check_required (required flags); ok flags
