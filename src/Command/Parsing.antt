-- ===== src/Command/Parsing.antt =====
-- What the parser of commands in src/hub/router.rs makes of a text.
use ilink_hub.Base.{
  ◌≡◌, refl, ◌∙◌, ap, Text, codes, is_empty, [], ◌∷◌, ◌++◌, Option, none, some, Bool, true, false,
  arith, not, Option-cases, inl, inr,
}
use mathlib.Core.Path.{subst}
use mathlib.Core.Option
use ilink_hub.Base.Strings.{
  trim, trim_start, trim_end, split_once, strip_prefix, eq_ignore_ascii_case, is_whitespace,
}
use ilink_hub.Base.Trim.{
  trim_start_fixed, trim_end_fixed, trim_end-append, trim_start-append, trim_trimmed,
}
use ilink_hub.Command.{
  HubCommand, use_client, session_new, session_use, session_delete, or_else, strip_any, is_any,
  parse_plain, parse_use, parse_broadcast, parse_session_list, new_session, session_new_rest,
  parse_session_new, named, non_empty, parse_session_use, parse_session_delete, parse_hub_command,
}

-- A command with a trimmed argument is trimmed as well.
trim-command :
    (word name : Text)
    → trim_start (word ++ name) ≡ word ++ name
    → trim name ≡ name
    → is_empty name ≡ false
    → trim (word ++ name) ≡ word ++ name
unfolding trim
trim-command word name start trimmed full =
    let end = trim_end_fixed name trimmed in ground (arith, start, end, trim_end-append word name)

-- `/use`, `/u` and `/switch` select the client that the rest of the line names, whatever trimmed
-- and non-empty name that is.
pub parse_hub_command-use_client :
    (now name : Text)
    → trim name ≡ name
    → is_empty name ≡ false
    → (parse_hub_command now (codes "/use " ++ name) ≡ some (use_client name))
      × (parse_hub_command now (codes "/u " ++ name) ≡ some (use_client name))
      × (parse_hub_command now (codes "/switch " ++ name) ≡ some (use_client name))
unfolding parse_hub_command parse_plain parse_use is_any strip_any strip_prefix eq_ignore_ascii_case
    trim_start is_whitespace
parse_hub_command-use_client now name trimmed full = (
  rw (trim-command (codes "/use ") name refl trimmed full, trimmed) refl,
  rw (trim-command (codes "/u ") name refl trimmed full, trimmed) refl,
  rw (trim-command (codes "/switch ") name refl trimmed full, trimmed) refl,
)

split_once-append :
    (name rest : Text)
    → split_once (codes " ") name ≡ none
    → split_once (codes " ") (name ++ (b' ' ∷ rest)) ≡ some (name, rest)
unfolding split_once strip_prefix
split_once-append [] rest h = refl
split_once-append (c ∷ name) rest h = ground (arith, h, split_once-append name rest)

nonempty-append : (a : Text) (b : Text) → is_empty a ≡ false → is_empty (a ++ b) ≡ false
unfolding is_empty
nonempty-append [] b h = cc
nonempty-append (c ∷ a) b h = refl

-- Two trimmed words and the space between them are trimmed.
trim-words :
    (name uuid : Text)
    → trim name ≡ name
    → is_empty name ≡ false
    → trim uuid ≡ uuid
    → is_empty uuid ≡ false
    → trim (name ++ (b' ' ∷ uuid)) ≡ name ++ (b' ' ∷ uuid)
unfolding is_empty
trim-words name uuid trimmed full uuid_trimmed uuid_full =
    let end = trim_end_fixed uuid uuid_trimmed in
    let tail : trim_end (b' ' ∷ uuid) ≡ b' ' ∷ uuid =
      ground (arith, end, uuid_full, trim_end-append (codes " ") uuid) in
    trim_trimmed (name ++ (b' ' ∷ uuid))
      (trim_start-append name (b' ' ∷ uuid) full (trim_start_fixed name trimmed))
      (trim_end-append name (b' ' ∷ uuid) (rw tail refl) ∙ ap (name ++◌) tail)

new_session-words :
    (now name uuid : Text)
    → trim name ≡ name
    → is_empty name ≡ false
    → split_once (codes " ") name ≡ none
    → trim uuid ≡ uuid
    → new_session now (name ++ (b' ' ∷ uuid)) ≡ session_new name uuid
unfolding new_session
new_session-words now name uuid trimmed full single uuid_trimmed =
    rw (split_once-append name uuid single, new_session, trimmed, full, uuid_trimmed) refl

non_empty_lem :
    (name : Text) → trim name ≡ name → is_empty name ≡ false → non_empty name ≡ some name
unfolding non_empty
non_empty_lem name trimmed full = rw (trimmed, full) refl

-- For a name without a space and an identifier, both trimmed and not empty: `/session new` and
-- `/sn` read back the two with a space between them, and `/session use`, `/su`, `/session delete`
-- and `/sd` read back the name.
pub parse_hub_command-session :
    (now name uuid : Text)
    → trim name ≡ name
    → is_empty name ≡ false
    → split_once (codes " ") name ≡ none
    → trim uuid ≡ uuid
    → is_empty uuid ≡ false
    → (parse_hub_command now (codes "/session new " ++ (name ++ (b' ' ∷ uuid)))
        ≡ some (session_new name uuid))
      × (parse_hub_command now (codes "/sn " ++ (name ++ (b' ' ∷ uuid)))
          ≡ some (session_new name uuid))
      × (parse_hub_command now (codes "/session use " ++ name) ≡ some (session_use name))
      × (parse_hub_command now (codes "/su " ++ name) ≡ some (session_use name))
      × (parse_hub_command now (codes "/session delete " ++ name) ≡ some (session_delete name))
      × (parse_hub_command now (codes "/sd " ++ name) ≡ some (session_delete name))
unfolding parse_hub_command parse_plain parse_use parse_broadcast parse_session_list
    parse_session_new session_new_rest parse_session_use parse_session_delete named is_any strip_any
    strip_prefix eq_ignore_ascii_case trim_start is_whitespace
parse_hub_command-session now name uuid trimmed full single uuid_trimmed uuid_full =
    let words = trim-words name uuid trimmed full uuid_trimmed uuid_full in
    let some_words = nonempty-append name (b' ' ∷ uuid) full in
    let created = new_session-words now name uuid trimmed full single uuid_trimmed in
    let kept = non_empty_lem name trimmed full in
    (
      rw
          (
            trim-command (codes "/session new ") (name ++ (b' ' ∷ uuid)) refl words some_words,
            words,
            created,
          )
          refl,
      rw (trim-command (codes "/sn ") (name ++ (b' ' ∷ uuid)) refl words some_words, words, created)
          refl,
      rw (trim-command (codes "/session use ") name refl trimmed full)
          (ap (λ o. or_else (Option.map session_use o) none) kept),
      rw (trim-command (codes "/su ") name refl trimmed full)
          (ap (λ o. or_else (Option.map session_use o) none) kept),
      rw (trim-command (codes "/session delete ") name refl trimmed full)
          (ap (Option.map session_delete) kept),
      rw (trim-command (codes "/sd ") name refl trimmed full) (ap (Option.map session_delete) kept),
    )

-- The name that a session command carries is not empty.
abbrev pub carries_name : HubCommand → Bool
carries_name (session_new name uuid) = not (is_empty name)
carries_name (session_use name) = not (is_empty name)
carries_name (session_delete name) = not (is_empty name)
carries_name cmd = true

abbrev if_any : Option HubCommand → Bool
if_any none = true
if_any (some cmd) = carries_name cmd

if_any-or_else :
    (a b : Option HubCommand) → if_any a ≡ true → if_any b ≡ true → if_any (or_else a b) ≡ true
if_any-or_else none b p q = q
if_any-or_else (some cmd) b p q = p

parse_plain-named : (text : Text) → if_any (parse_plain text) ≡ true
unfolding parse_plain
parse_plain-named text = ground arith

parse_use-named : (text : Text) → if_any (parse_use text) ≡ true
unfolding parse_use
parse_use-named text = ground arith

parse_broadcast-named : (text : Text) → if_any (parse_broadcast text) ≡ true
unfolding parse_broadcast
parse_broadcast-named text = ground arith

parse_session_list-named : (text : Text) → if_any (parse_session_list text) ≡ true
unfolding parse_session_list
parse_session_list-named text = ground arith

new_session-named : (now rest : Text) → carries_name (new_session now rest) ≡ true
unfolding new_session is_empty
new_session-named now rest = ground arith

parse_session_new-named : (now text : Text) → if_any (parse_session_new now text) ≡ true
unfolding parse_session_new
parse_session_new-named now text = elim (Option-cases (session_new_rest text)) [
  | inl e ↦ rw (e, parse_session_new)
  | inr (rest, e) ↦ rw (e, parse_session_new) (new_session-named now (trim rest))
]

parse_session_use-named : (text : Text) → if_any (parse_session_use text) ≡ true
unfolding parse_session_use named non_empty
parse_session_use-named text = ground arith

parse_session_delete-named : (text : Text) → if_any (parse_session_delete text) ≡ true
unfolding parse_session_delete named non_empty
parse_session_delete-named text = ground arith

-- Whatever a user types, a session command that comes of it has a name that is not empty.
pub parse_hub_command-named :
    (now raw : Text) (cmd : HubCommand)
    → parse_hub_command now raw ≡ some cmd
    → carries_name cmd ≡ true
unfolding parse_hub_command
parse_hub_command-named now raw cmd h =
    let text = trim raw in
    let all_named = if_any-or_else _ _ (parse_plain-named text) (
      if_any-or_else _ _ (parse_use-named text) (
        if_any-or_else _ _ (parse_broadcast-named text) (
          if_any-or_else _ _ (parse_session_list-named text) (
            if_any-or_else _ _ (parse_session_new-named now text) (
              if_any-or_else _ _ (parse_session_use-named text)
                (parse_session_delete-named text)))))) in
    subst (λ c. if_any c ≡ true) h all_named
