-- ===== src/Acl.antt =====
-- src/hub/acl.rs: the agent allowlist, and whom it lets through.
pub mod Grants
pub mod Visibility
mod Examples
use ilink_hub.Base.{
  ℕ, Text, codes, text_eq, is_empty, List, [], ◌∷◌, ◌++◌, Option, none, some, Bool, true, false,
  ◌||◌, ◌&&◌, if◌then◌else◌, get_or, filter_by,
}
use ilink_hub.Base.Map.{Map, lookup, insert}
use ilink_hub.Base.Order.{contains}
use ilink_hub.Base.Strings.{trim, split, split_once, strip_prefix}

abbrev pub wildcard : Text
wildcard = codes "*"

pub record AgentAcl : Type 0 where
  pub a2a : Map (List Text)
  pub wechat_users : Map (List Text)
  pub wechat_public : List Text
  pub spec_present : Bool

-- `AgentAcl::default()`.
abbrev pub no_acl : AgentAcl
no_acl = record { a2a = []; wechat_users = []; wechat_public = []; spec_present = false }

-- `HashSet::insert`.
unfoldable pub set_insert : Text → List Text → List Text
set_insert x xs = if contains x xs then xs else x ∷ xs

-- `entry(k).or_default().insert(x)`.
unfoldable pub add_to : Text → Text → Map (List Text) → Map (List Text)
unfolding set_insert
add_to k x m = insert k (set_insert x (get_or (lookup k m) [])) m

abbrev pub add_a2a : Text → Text → AgentAcl → AgentAcl
add_a2a caller target acl = record acl { a2a = add_to caller target acl.a2a }

-- The arm for `lhs->rhs`, both sides trimmed.
unfoldable pub parse_edge : Text → Text → AgentAcl → AgentAcl
unfolding add_to
parse_edge lhs rhs acl =
    if is_empty lhs || is_empty rhs then acl else elim (strip_prefix (codes "user:") lhs) [
      | some rest ↦
          let uid = trim rest in
          if is_empty uid || (text_eq uid wildcard || text_eq rhs wildcard)
          then acl
          else record acl { wechat_users = add_to uid rhs acl.wechat_users }
      | none ↦ add_a2a lhs rhs acl
    ]

-- The arm for an entry without an arrow.
unfoldable pub parse_single : Text → AgentAcl → AgentAcl
unfolding add_to set_insert
parse_single entry acl =
    if text_eq entry wildcard
    then add_a2a wildcard wildcard acl
    else elim (strip_prefix (codes "user:") entry) [
      | some uid ↦ acl
      | none ↦ record acl { wechat_public = set_insert entry acl.wechat_public }
    ]

-- The body of the loop.
unfoldable pub parse_entry : Text → AgentAcl → AgentAcl
unfolding parse_edge parse_single
parse_entry raw acl =
    let entry = trim raw in
    if is_empty entry then acl else elim (split_once (codes "->") entry) [
      | some (lhs, rhs) ↦ parse_edge (trim lhs) (trim rhs) (record acl { spec_present = true })
      | none ↦ parse_single entry (record acl { spec_present = true })
    ]

unfoldable pub parse_entries : List Text → AgentAcl → AgentAcl
unfolding parse_entry
parse_entries [] acl = acl
parse_entries (raw ∷ rest) acl = parse_entries rest (parse_entry raw acl)

unfoldable pub parse : Text → AgentAcl
unfolding parse_entries
parse spec = parse_entries (split b',' spec) no_acl

-- `from_env`, of the variable's value.
unfoldable pub from_env : Option Text → AgentAcl
unfolding parse
from_env none = no_acl
from_env (some spec) = if is_empty (trim spec) then no_acl else parse spec

unfoldable pub grants : Text → Option (List Text) → Bool
grants target none = false
grants target (some targets) = contains target targets || contains wildcard targets

unfoldable pub allows_a2a : AgentAcl → Text → Text → Bool
unfolding grants
allows_a2a acl caller target =
    grants target (lookup caller acl.a2a) || grants target (lookup wildcard acl.a2a)

-- The inner loop over the targets of one key; `none` is the early return.
unfoldable pub collect : List Text → List Text → Option (List Text)
collect visible [] = some visible
collect visible (t ∷ ts) =
    let rest = collect (set_insert t visible) ts in if text_eq t wildcard then none else rest

unfoldable pub visible_targets_for_agent : AgentAcl → Text → Option (List Text)
unfolding collect set_insert
visible_targets_for_agent acl caller = elim (collect [] (get_or (lookup caller acl.a2a) [])) [
  | none ↦ none
  | some visible ↦ collect visible (get_or (lookup wildcard acl.a2a) [])
]

abbrev pub extend : List Text → List Text → List Text
extend visible [] = visible
extend visible (t ∷ ts) = extend (set_insert t visible) ts

abbrev pub nothing : List Text → Bool
nothing [] = true
nothing (x ∷ xs) = false

abbrev pub no_users : Map (List Text) → Bool
no_users [] = true
no_users (e ∷ m) = false

-- The public backends and those of the user, as far as they are registered.
unfoldable pub visible_names : AgentAcl → Text → List Text → List Text
unfolding set_insert
visible_names acl user_id registered =
    filter_by (λ name. contains name registered)
      (extend acl.wechat_public (get_or (lookup user_id acl.wechat_users) []))

unfoldable pub wechat_visible : AgentAcl → Text → List Text → Option (List Text)
unfolding visible_names
wechat_visible acl user_id registered =
    if nothing acl.wechat_public && no_users acl.wechat_users
    then none
    else some (visible_names acl user_id registered)
