-- ===== src/QuoteRoute/Footer.antt =====
-- src/hub/quote_route.rs: `parse_footer_from_quoted_text`, the backend and the session that the
-- footer of a quoted message names.
use ilink_hub.Base.{
  ℕ, zero, suc, ◌-◌, Text, codes, is_empty, List, [], ◌∷◌, ◌++◌, Option, none, some, Bool, ◌||◌,
  is_some, if◌then◌else◌, length,
}
use ilink_hub.Base.Strings.{trim, strip_prefix}

-- What follows the last occurrence of a text, as `rfind` and a slice give it.
unfoldable pub after_last : Text → Text → Option Text
after_last sep [] = strip_prefix sep []
after_last sep (c ∷ cs) =
    let later = after_last sep cs in
    elim later [ none ↦ strip_prefix sep (c ∷ cs) | some rest ↦ some rest ]

abbrev pub ruler : Text
ruler = b'\n' ∷ codes "---" ++ b'\n' ∷ []

-- U+2014, the dash of the old footers.
abbrev pub em_dash : ℕ
em_dash = 0x2014

-- The old format's slice starts at the space behind the dash.
unfoldable pub footer_line : Text → Option Text
footer_line text = elim (after_last ruler text) [
  | some rest ↦ some (trim rest)
  | none ↦ elim (after_last (b'\n' ∷ em_dash ∷ b' ' ∷ []) text) [
    | some rest ↦ some (trim (b' ' ∷ rest))
    | none ↦ elim (strip_prefix (em_dash ∷ b' ' ∷ []) (trim text)) [
      | none ↦ none
      | some rest ↦ some (trim rest)
    ]
  ]
]

abbrev pub to_first : ℕ → List Text → List Text
to_first c [] = (c ∷ []) ∷ []
to_first c (t ∷ ts) = (c ∷ t) ∷ ts

-- `str::split` by a text; the number is how much of a separator is still to be passed over.
unfoldable pub split_text : Text → ℕ → Text → List Text
split_text sep k [] = [] ∷ []
split_text sep (suc k) (c ∷ cs) = split_text sep k cs
split_text sep zero (c ∷ cs) = elim (strip_prefix sep (c ∷ cs)) [
  | none ↦ to_first c (split_text sep zero cs)
  | some rest ↦ [] ∷ split_text sep (length sep - 1) cs
]

-- U+00B7 between two spaces.
abbrev pub dot_separator : Text
dot_separator = b' ' ∷ 0xb7 ∷ b' ' ∷ []

unfoldable pub is_session : Text → Bool
is_session part =
    is_some (strip_prefix (codes "at-") part) || is_some (strip_prefix (codes "session-") part)

-- The last part that looks like a session.
unfoldable pub last_session : List Text → Option Text
last_session [] = none
last_session (p ∷ ps) =
    let later = last_session ps in
    elim later [ some s ↦ some s | none ↦ if is_session (trim p) then some (trim p) else none ]

-- The parts, of which the first is the name.
unfoldable pub read_parts : List Text → Option (Text × Option Text)
read_parts [] = none
read_parts (p ∷ ps) = if is_empty (trim p) then none else some (trim p, last_session (p ∷ ps))

unfoldable pub parse_footer_from_quoted_text : Text → Option (Text × Option Text)
parse_footer_from_quoted_text text = elim (footer_line text) [
  | none ↦ none
  | some line ↦ if is_empty line then none else read_parts (split_text dot_separator 0 line)
]
