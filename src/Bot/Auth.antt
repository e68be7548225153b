-- ===== src/Bot/Auth.antt =====
-- src/server/routes/auth.rs: the client token of a request. `sha256` is the digest of the `ring`
-- crate.
use ilink_hub.Base.{
  ℕ, Text, codes, List, [], Bool, false, ◌&&◌, Option, none, some, ◌==◌, length, if◌then◌else◌,
  text_eq, get_or,
}
use ilink_hub.Base.Strings.{strip_prefix}
use ilink_hub.Base.Utf8.{as_bytes}
use ilink_hub.VtokenHash.{hash_vtoken, all_hex}

unfoldable pub is_valid_vtoken : Text → Bool
is_valid_vtoken s = elim (strip_prefix (codes "vhub_") s) [
  | none ↦ false
  | some rest ↦ length (as_bytes rest) == 32 && all_hex (as_bytes rest)
]

abbrev pub bearer : Option Text → Option Text
bearer none = none
bearer (some header) = strip_prefix (codes "Bearer ") header

-- `authorization` is the header's text, if it is there and is ASCII.
unfoldable pub extract_vtoken : (List ℕ → List ℕ) → Option Text → Option Text
extract_vtoken sha256 authorization = elim (bearer authorization) [
  | none ↦ none
  | some s ↦ if is_valid_vtoken s then some (hash_vtoken sha256 s) else none
]

-- `AdminConfig`: the token that is required, or else the leave to do without.
pub record AdminConfig : Type 0 where
  pub token : Option Text
  pub insecure_no_auth : Bool

-- The comparison in constant time answers as equality does.
unfoldable pub check_admin_auth : AdminConfig → Option Text → Bool
check_admin_auth admin authorization = elim admin.token [
  | some required ↦ text_eq (get_or (bearer authorization) []) required
  | none ↦ admin.insecure_no_auth
]
