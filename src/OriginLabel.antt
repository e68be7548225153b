-- ===== src/OriginLabel.antt =====
-- src/hub/outbound_label.rs: the persona header and the origin footer of replies.
pub mod Footer
pub mod Examples
use ilink_hub.Base.{
  ℕ, Text, codes, List, [], ◌∷◌, ◌++◌, map, Bool, true, false, ◌&&◌, ◌||◌, Option, none, some,
  if◌then◌else◌, ltb, not, get_or, text_eq, is_empty,
}
use ilink_hub.Base.Strings.{trim, to_ascii_lowercase}
use ilink_hub.Message.{WeixinMessage, MessageItem, TextItem}

abbrev is_one_of : Text → Text → Text → Text → Text → Bool
is_one_of a b c d v = text_eq v a || text_eq v b || text_eq v c || text_eq v d

-- `map(str::trim).filter(|s| !s.is_empty())`.
abbrev pub trimmed : Option Text → Option Text
trimmed none = none
trimmed (some t) = if is_empty (trim t) then none else some (trim t)

unfoldable pub should_append_outbound_origin_label : ℕ → Option Text → Bool
should_append_outbound_origin_label online_client_count env_val = elim (trimmed env_val) [
  | none ↦ ltb 1 online_client_count
  | some v ↦
      let v' = map to_ascii_lowercase v in
      if is_one_of (codes "0") (codes "false") (codes "no") (codes "off") v'
      then false
      else if is_one_of (codes "1") (codes "true") (codes "yes") (codes "on") v'
      then true
      else ltb 1 online_client_count
]

-- U+00B7 between two spaces.
abbrev pub separator : Text
separator = b' ' ∷ 0xb7 ∷ b' ' ∷ []

unfoldable pub format_outbound_origin_line : Text → Option Text → Text
format_outbound_origin_line name label = elim (trimmed label) [
  | some l ↦ if text_eq l name then name else name ++ (separator ++ l)
  | none ↦ name
]

-- `filter(|s| !s.is_empty() && *s != "default")` on the trimmed name.
unfoldable pub shown_session : Option Text → Option Text
shown_session session_name = elim (trimmed session_name) [
  | none ↦ none
  | some s ↦ if text_eq s (codes "default") then none else some s
]

unfoldable pub format_outbound_footer : Text → Option Text → Option Text → Text
unfolding format_outbound_origin_line
format_outbound_footer name label session_name =
    let workspace = format_outbound_origin_line name label in
    elim (shown_session session_name) [ some s ↦ workspace ++ (separator ++ s) | none ↦ workspace ]

abbrev stars : Text
stars = codes "**"

unfoldable pub build_persona_header : Option Text → Option Text → Option Text
build_persona_header persona_name persona_emoji = elim (trimmed persona_name) [
  | none ↦ none
  | some name ↦
      let bold = stars ++ name ++ stars in
      let display = elim (trimmed persona_emoji) as (λ _. Text) [
        | some e ↦ e ++ b' ' ∷ bold
        | none ↦ bold
      ] in
      some (display ++ b'\n' ∷ b'\n' ∷ [])
]

unfoldable pub build_session_only_footer : Option Text → Option Text
build_session_only_footer session_name = shown_session session_name

-- Between a text and its footer.
abbrev pub rule : Text
rule = b'\n' ∷ b'\n' ∷ codes "---" ++ b'\n' ∷ []

unfoldable pub with_footer : Text → Text → Text
with_footer t line = t ++ (rule ++ line)

-- The text of the first item under its header and footer.
unfoldable pub apply_persona_and_footer :
    Option Text → Option Text → Text → Option Text → Option Text → Text → Text
apply_persona_and_footer persona_name persona_emoji client_name label session_name t =
    elim (trimmed persona_name) [
      | some name ↦
          let body = get_or (build_persona_header persona_name persona_emoji) [] ++ t in
          elim (build_session_only_footer session_name) as (λ _. Text) [
            | some session ↦ with_footer body session
            | none ↦ body
          ]
      | none ↦ with_footer t (format_outbound_footer client_name label session_name)
    ]

module _ {J : Type 0} where
  -- The change of the first item's text, where there is one.
  abbrev on_item : (Text → Text) → MessageItem J → MessageItem J
  on_item f item = elim item.text_item [
    | none ↦ item
    | some ti ↦ elim ti.text [
      | none ↦ item
      | some t ↦ record item { text_item = some (record { text = some (f t) }) }
    ]
  ]

  abbrev on_first_item : (Text → Text) → List (MessageItem J) → List (MessageItem J)
  on_first_item f [] = []
  on_first_item f (x ∷ xs) = on_item f x ∷ xs

  unfoldable pub on_first_text : (Text → Text) → WeixinMessage J → WeixinMessage J
  on_first_text f msg = elim msg.item_list [
    | none ↦ msg
    | some items ↦ record msg { item_list = some (on_first_item f items) }
  ]

  unfoldable pub apply_persona_and_footer_to_first_text_item :
      Option Text
      → Option Text
      → Text
      → Option Text
      → Option Text
      → WeixinMessage J
      → WeixinMessage J
  unfolding on_first_text apply_persona_and_footer
  apply_persona_and_footer_to_first_text_item persona_name persona_emoji client_name label
        session_name msg =
      on_first_text
        (apply_persona_and_footer persona_name persona_emoji client_name label session_name) msg

  unfoldable pub append_outbound_origin_footer_to_first_text_item :
      Text → Option Text → Option Text → WeixinMessage J → WeixinMessage J
  unfolding on_first_text format_outbound_footer with_footer
  append_outbound_origin_footer_to_first_text_item name label session_name msg =
      on_first_text (λ t. with_footer t (format_outbound_footer name label session_name)) msg
