-- ===== src/Registry/Client.antt =====
-- src/hub/registry.rs: one registered client, and how a registration, a rename and a lookup treat it.
use ilink_hub.Base.{
  ℕ, Text, codes, text_eq, List, [], ◌∷◌, ◌++◌, Option, none, some, Bool, true, false,
  if◌then◌else◌,
}
use ilink_hub.Base.Order.{contains}

pub record ClientInfo : Type 0 where
  pub name : Text
  pub vtoken : Text
  pub label : Option Text
  pub description : Option Text
  pub registered_at : ℕ
  pub online : Bool
  pub persona_name : Option Text
  pub persona_emoji : Option Text

-- `if x.is_some() { field = x }`.
abbrev pub or_keep : Option Text → Option Text → Option Text
or_keep none old = old
or_keep (some new) old = some new

abbrev pub with_hashed_vtoken : Text → Option Text → Option Text → Text → ℕ → ClientInfo
with_hashed_vtoken name label description vtoken_hash now = record {
  name = name;
  vtoken = vtoken_hash;
  label = label;
  description = description;
  registered_at = now;
  online = false;
  persona_name = none;
  persona_emoji = none;
}

-- The update of a client that registers again.
abbrev pub refresh : Option Text → Option Text → ClientInfo → ClientInfo
refresh label description info = record info {
  label = or_keep label info.label;
  description = or_keep description info.description;
  online = true;
}

-- `format!("vhub_{}", uuid)`.
abbrev pub plain_vtoken : Text → Text
plain_vtoken uuid = codes "vhub_" ++ uuid

-- `allowed.is_none_or(|set| set.contains(name))`.
abbrev pub is_visible : Option (List Text) → Text → Bool
is_visible none name = true
is_visible (some set) name = contains name set

abbrev pub rename : Text → Option Text → ClientInfo → ClientInfo
rename name label c = record c { name = name; label = or_keep label c.label }

abbrev pub find_other : Text → List ClientInfo → Option Text
find_other removed [] = none
find_other removed (c ∷ cs) =
    let rest = find_other removed cs in if text_eq c.vtoken removed then rest else some c.vtoken
