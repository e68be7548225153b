-- ===== src/Registry.antt =====
-- src/hub/registry.rs: the registered clients, by hashed token and by name. Each call that makes a
-- client is given the drawn identifier and the time.
mod Client
pub mod Consistency
pub mod Rotation
pub mod Runs
pub mod Names
mod Examples
use ilink_hub.Base.{
  ℕ, zero, suc, ◌+◌, ◌-◌, ◌*◌, ◌^◌, ◌≡◌, Text, codes, text_eq, is_empty, List, [], ◌∷◌, ◌++◌, map,
  Option, none, some, Bool, true, false, ltb, leb, ◌==◌, not, is_some, ◌&&◌, if◌then◌else◌, length,
  get_elem?, filter_by,
}
use ilink_hub.Base.Map.{Map, lookup, contains_key, insert, remove, modify, values}
use ilink_hub.Base.Order.{text_le, sort_by, parse_usize, contains}
use ilink_hub.VtokenHash.{hash_vtoken}
pub use Client.*

pub data UpdateClientError : Type 0 where
  not_found name_taken : UpdateClientError

pub data Result {ℓ} (A : Type ℓ) : Type ℓ where
  ok : A → Result A
  err : UpdateClientError → Result A

pub record ClientRegistry : Type 0 where
  pub by_vtoken : Map ClientInfo
  pub by_name : Map Text

abbrev pub empty : ClientRegistry
empty = record { by_vtoken = []; by_name = [] }

-- The two insertions that make a client known.
unfoldable pub enter : Text → ClientInfo → ClientRegistry → ClientRegistry
enter name info r = record {
  by_vtoken = insert info.vtoken info r.by_vtoken;
  by_name = insert name info.vtoken r.by_name;
}

module _ (sha256 : List ℕ → List ℕ) where
  -- `ClientInfo::new`: the client, and its plaintext token.
  unfoldable pub new_client : Text → Option Text → Option Text → Text → ℕ → ClientInfo × Text
  new_client name label description uuid now =
      let plain = plain_vtoken uuid in
      (with_hashed_vtoken name label description (hash_vtoken sha256 plain) now, plain)

  -- Returns (plaintext, hash, is_new).
  unfoldable pub register :
      Text
      → Option Text
      → Option Text
      → Text
      → ℕ
      → ClientRegistry
      → ClientRegistry × (Text × Text × Bool)
  unfolding enter new_client
  register name label description uuid now r = elim (lookup name r.by_name) [
    | some existing ↦ (
      record r { by_vtoken = modify existing (refresh label description) r.by_vtoken },
      ([], existing, false),
    )
    | none ↦
        let (info, plain) = new_client name label description uuid now in
        (enter name info r, (plain, info.vtoken, true))
  ]

  -- Returns (stored token, is_new).
  unfoldable pub register_with_vtoken :
      Text
      → Option Text
      → Option Text
      → Option Text
      → Text
      → ℕ
      → ClientRegistry
      → ClientRegistry × (Text × Bool)
  unfolding enter new_client
  register_with_vtoken name label description vtoken uuid now r = elim (lookup name r.by_name) [
    | some existing ↦ (
      record r { by_vtoken = modify existing (refresh label description) r.by_vtoken },
      (existing, false),
    )
    | none ↦ elim vtoken [
      | some hashed ↦
          (enter name (with_hashed_vtoken name label description hashed now) r, (hashed, true))
      | none ↦
          let (info, plain) = new_client name label description uuid now in
          (enter name info r, (plain, true))
    ]
  ]

  -- Returns (plaintext, hash).
  unfoldable pub rotate_vtoken :
      Text → Text → ClientRegistry → ClientRegistry × Option (Text × Text)
  rotate_vtoken name uuid r = elim (lookup name r.by_name) [
    | none ↦ (r, none)
    | some old_hash ↦ elim (lookup old_hash r.by_vtoken) [
      | none ↦ (r, none)
      | some info ↦
          let plain = plain_vtoken uuid in
          let new_hash = hash_vtoken sha256 plain in
          (
            record {
              by_vtoken =
                  insert new_hash (record info { vtoken = new_hash; online = false })
                    (remove old_hash r.by_vtoken);
              by_name = insert name new_hash r.by_name;
            },
            some (plain, new_hash),
          )
    ]
  ]

unfoldable pub register_confirmed :
    Text
    → Option Text
    → Option Text
    → Text
    → ℕ
    → ClientRegistry
    → ClientRegistry × Result (Unit {0})
unfolding enter
register_confirmed name label description vtoken_hash now r =
    if contains_key name r.by_name
    then (r, err name_taken)
    else (enter name (with_hashed_vtoken name label description vtoken_hash now) r, ok tt)

unfoldable pub get_by_vtoken : Text → ClientRegistry → Option ClientInfo
get_by_vtoken vtoken r = lookup vtoken r.by_vtoken

unfoldable pub get_by_name : Text → ClientRegistry → Option ClientInfo
get_by_name name r = elim (lookup name r.by_name) [ none ↦ none | some vt ↦ lookup vt r.by_vtoken ]

unfoldable pub all_clients_in : Option (List Text) → ClientRegistry → List ClientInfo
all_clients_in allowed r = filter_by (λ c. is_visible allowed c.name) (values r.by_vtoken)

unfoldable pub all_clients : ClientRegistry → List ClientInfo
unfolding all_clients_in
all_clients r = all_clients_in none r

unfoldable pub online_clients : ClientRegistry → List ClientInfo
online_clients r = filter_by (λ c. c.online) (values r.by_vtoken)

-- The n-th visible client in the order of names, from 1.
unfoldable pub nth_visible : ℕ → Option (List Text) → ClientRegistry → Option ClientInfo
nth_visible zero allowed r = none
nth_visible (suc n) allowed r =
    get_elem? (sort_by (λ a b. text_le a.name b.name) (all_clients_in allowed r)) n

unfoldable pub get_by_alias_in : Text → Option (List Text) → ClientRegistry → Option ClientInfo
get_by_alias_in name allowed r = elim (get_by_name name r) [
  | some c ↦ if is_visible allowed c.name then some c else none
  | none ↦ elim (parse_usize name) [ none ↦ none | some n ↦ nth_visible n allowed r ]
]

unfoldable pub update_metadata :
    Text → Option Text → Option Text → Option Text → Option Text → ClientRegistry → ClientRegistry
update_metadata vtoken label description persona_name persona_emoji r = record r {
  by_vtoken =
      modify vtoken
        (λ info. record info {
          label = or_keep label info.label;
          description = or_keep description info.description;
          persona_name = or_keep persona_name info.persona_name;
          persona_emoji = or_keep persona_emoji info.persona_emoji;
        })
        r.by_vtoken;
}

unfoldable pub set_persona : Text → Option Text → Option Text → ClientRegistry → ClientRegistry
unfolding update_metadata
set_persona vtoken persona_name persona_emoji r =
    update_metadata vtoken none none persona_name persona_emoji r

unfoldable pub set_description : Text → Option Text → ClientRegistry → ClientRegistry
set_description vtoken description r = record r {
  by_vtoken = modify vtoken (λ c. record c { description = description }) r.by_vtoken;
}

unfoldable pub mark_online : Text → ClientRegistry → ClientRegistry
mark_online vtoken r = record r {
  by_vtoken = modify vtoken (λ c. record c { online = true }) r.by_vtoken;
}

unfoldable pub mark_offline : Text → ClientRegistry → ClientRegistry
mark_offline vtoken r = record r {
  by_vtoken = modify vtoken (λ c. record c { online = false }) r.by_vtoken;
}

-- `HashMap::remove` of the name, and of the token that it named.
unfoldable pub remove_client : Text → ClientRegistry → ClientRegistry × Bool
remove_client name r = elim (lookup name r.by_name) [
  | none ↦ (r, false)
  | some vtoken ↦
      (record { by_vtoken = remove vtoken r.by_vtoken; by_name = remove name r.by_name }, true)
]

-- The renaming is done only where the name changes; the label is set in either case.
unfoldable pub update_client :
    Text → Text → Option Text → ClientRegistry → ClientRegistry × Result Text
update_client old_name new_name label r = elim (lookup old_name r.by_name) [
  | none ↦ (r, err not_found)
  | some vtoken ↦
      let same = text_eq new_name old_name in
      if not same && contains_key new_name r.by_name
      then (r, err name_taken)
      else elim (lookup vtoken r.by_vtoken) [
        | none ↦ (r, err not_found)
        | some info ↦
            if same
            then (
              record r {
                by_vtoken =
                    modify vtoken (λ c. record c { label = or_keep label c.label }) r.by_vtoken;
              },
              ok vtoken,
            )
            else (
              record {
                by_vtoken = modify vtoken (rename new_name label) r.by_vtoken;
                by_name = insert new_name vtoken (remove old_name r.by_name);
              },
              ok vtoken,
            )
      ]
]

unfoldable pub pick_default_after_remove : Text → ClientRegistry → Option Text
unfolding online_clients all_clients
pick_default_after_remove removed r = elim (find_other removed (online_clients r)) [
  | some vt ↦ some vt
  | none ↦ find_other removed (all_clients r)
]
