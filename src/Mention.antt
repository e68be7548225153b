-- ===== src/Mention.antt =====
-- src/hub/router.rs: `parse_at_mention`, a message to the backend that it names.
pub mod Printing
mod Examples
use ilink_hub.Base.{
  ℕ, Text, codes, is_empty, [], ◌∷◌, Option, none, some, Bool, true, false, ◌||◌, not, leb,
  if◌then◌else◌,
}
use ilink_hub.Base.Strings.{is_whitespace, trim, trim_start, strip_prefix}

abbrev pub is_ascii : ℕ → Bool
is_ascii c = leb c 127

abbrev pub ends_name : ℕ → Bool
ends_name c = is_whitespace c || not (is_ascii c)

-- The text before the first character that ends an ASCII name, and the text from there on.
unfoldable pub span_name : Text → Text × Text
span_name [] = ([], [])
span_name (c ∷ cs) =
    let (name, rest) = span_name cs in if ends_name c then ([], c ∷ cs) else (c ∷ name, rest)

-- `split_once(char::is_whitespace)`, with the whole text and an empty one if there is no whitespace.
unfoldable pub split_whitespace : Text → Text × Text
split_whitespace [] = ([], [])
split_whitespace (c ∷ cs) =
    let (name, rest) = split_whitespace cs in if is_whitespace c then ([], cs) else (c ∷ name, rest)

unfoldable pub starts_with_ascii : Text → Bool
starts_with_ascii [] = false
starts_with_ascii (c ∷ cs) = is_ascii c

unfoldable pub name_and_message : Text → Text × Text
unfolding span_name split_whitespace starts_with_ascii
name_and_message rest =
    if starts_with_ascii rest
    then (let (name, message) = span_name rest in (name, trim_start message))
    else split_whitespace rest

unfoldable pub parse_at_mention : Text → Option (Text × Text)
unfolding name_and_message
parse_at_mention text = elim (strip_prefix (codes "@") (trim_start text)) [
  | none ↦ none
  | some rest ↦
      let (name, message) = name_and_message rest in
      if is_empty (trim name) then none else some (trim name, trim message)
]
