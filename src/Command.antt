-- ===== src/Command.antt =====
-- src/hub/router.rs: the commands that a WeChat user types to the hub. `now` stands for the time
-- that the `chrono` crate prints as `%Y%m%d-%H%M%S`.
pub mod Parsing
mod Examples
use ilink_hub.Base.{
  ℕ, Text, codes, is_empty, List, [], ◌∷◌, ◌++◌, Option, none, some, Bool, true, false, ◌||◌,
  if◌then◌else◌,
}
use mathlib.Core.Option
use ilink_hub.Base.Strings.{trim, split_once, strip_prefix, eq_ignore_ascii_case}

pub data HubCommand : Type 0 where
  list : HubCommand
  use_client : Text → HubCommand
  broadcast : Text → HubCommand
  status : HubCommand
  help : HubCommand
  session_list : HubCommand
  session_new : Text → Text → HubCommand
  session_use : Text → HubCommand
  session_delete : Text → HubCommand

abbrev pub or_else {ℓ} : {A : Type ℓ} → Option A → Option A → Option A
or_else none later = later
or_else (some a) later = some a

-- A chain of `eq_ignore_ascii_case`.
unfoldable pub is_any : List Text → Text → Bool
is_any [] text = false
is_any (word ∷ words) text = eq_ignore_ascii_case text word || is_any words text

-- A chain of `strip_prefix`.
unfoldable pub strip_any : List Text → Text → Option Text
strip_any [] text = none
strip_any (prefix ∷ prefixes) text = or_else (strip_prefix prefix text) (strip_any prefixes text)

-- The commands without an argument, in the first three tests.
unfoldable pub parse_plain : Text → Option HubCommand
unfolding is_any
parse_plain text =
    if is_any (codes "/list" ∷ codes "/ls" ∷ []) text
    then some list
    else if is_any (codes "/status" ∷ codes "/s" ∷ []) text
    then some status
    else if is_any (codes "/help" ∷ codes "/?" ∷ codes "/h" ∷ []) text
    then some help
    else none

unfoldable pub parse_use : Text → Option HubCommand
unfolding strip_any
parse_use text = elim (strip_any (codes "/use " ∷ codes "/u " ∷ codes "/switch " ∷ []) text) [
  | none ↦ none
  | some rest ↦ some (use_client (trim rest))
]

unfoldable pub parse_broadcast : Text → Option HubCommand
unfolding strip_any
parse_broadcast text = elim (strip_any (codes "/broadcast " ∷ codes "/all " ∷ []) text) [
  | none ↦ none
  | some rest ↦ some (broadcast (trim rest))
]

unfoldable pub parse_session_list : Text → Option HubCommand
unfolding is_any
parse_session_list text =
    if is_any (codes "/session list" ∷ codes "/session ls" ∷ codes "/sl" ∷ []) text
    then some session_list
    else none

-- The name and the identifier after `/session new`; a missing name is made from the time.
abbrev session_name : Text → Text → Text
session_name now name = if is_empty name then codes "session-" ++ now else name

unfoldable pub new_session : Text → Text → HubCommand
new_session now rest = elim (split_once (codes " ") rest) [
  | none ↦ session_new (session_name now (trim rest)) (trim [])
  | some (name, uuid) ↦ session_new (session_name now (trim name)) (trim uuid)
]

-- What follows `/session new` or `/sn`, which may stand alone.
unfoldable pub session_new_rest : Text → Option Text
unfolding strip_any is_any
session_new_rest text =
    or_else (strip_any (codes "/session new " ∷ codes "/sn " ∷ []) text)
      (if is_any (codes "/session new" ∷ codes "/sn" ∷ []) text then some [] else none)

unfoldable pub parse_session_new : Text → Text → Option HubCommand
parse_session_new now text =
    Option.map (λ rest. new_session now (trim rest)) (session_new_rest text)

-- A trimmed text, unless it is empty.
unfoldable pub non_empty : Text → Option Text
non_empty rest = let name = trim rest in if is_empty name then none else some name

-- The name that follows one of the prefixes, unless it is empty.
unfoldable pub named : List Text → Text → Option Text
unfolding strip_any
named prefixes text = elim (strip_any prefixes text) [ none ↦ none | some rest ↦ non_empty rest ]

unfoldable pub parse_session_use : Text → Option HubCommand
unfolding named
parse_session_use text =
    Option.map session_use (named (codes "/session use " ∷ codes "/su " ∷ []) text)

unfoldable pub parse_session_delete : Text → Option HubCommand
unfolding named
parse_session_delete text = Option.map session_delete (
    named
      (codes "/session delete " ∷ codes "/session rm " ∷ codes "/session del " ∷ codes "/sd " ∷ [])
      text)

unfoldable pub parse_hub_command : Text → Text → Option HubCommand
parse_hub_command now raw =
    let text = trim raw in
    or_else (parse_plain text) (
      or_else (parse_use text) (
        or_else (parse_broadcast text) (
          or_else (parse_session_list text) (
            or_else (parse_session_new now text)
              (or_else (parse_session_use text) (parse_session_delete text))))))
