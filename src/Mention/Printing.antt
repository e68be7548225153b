-- ===== src/Mention/Printing.antt =====
-- What `parse_at_mention` of src/hub/router.rs reads back of a mention.
use ilink_hub.Base.{
  ◌≡◌, refl, ap, Text, codes, is_empty, [], ◌∷◌, ◌++◌, some, Bool, true, false, arith, All,
}
use ilink_hub.Base.Strings.{is_whitespace, trim, trim_start, trim_end, strip_prefix}
use ilink_hub.Mention.{
  is_ascii, ends_name, span_name, starts_with_ascii, name_and_message, parse_at_mention,
}

-- Whether a message may stand right behind a name.
unfoldable pub begins_message : Text → Bool
begins_message [] = true
begins_message (c ∷ cs) = ends_name c

abbrev pub IsName : Text → Type 0
IsName name = All (λ c. ends_name c ≡ false) name

span_name-append :
    (name message : Text)
    → IsName name
    → begins_message message ≡ true
    → span_name (name ++ message) ≡ (name, message)
unfolding span_name begins_message
span_name-append [] [] ok h = refl
span_name-append [] (c ∷ cs) ok h = rw h refl
span_name-append (c ∷ name) message ok h = rw (span_name-append name message ok.1 h, ok.0) refl

trim_start_plain : (name : Text) → IsName name → trim_start name ≡ name
unfolding trim_start
trim_start_plain [] ok = refl
trim_start_plain (c ∷ name) ok = ground (arith, ok.0)

trim_end_plain : (name : Text) → IsName name → trim_end name ≡ name
unfolding trim_end
trim_end_plain [] ok = refl
trim_end_plain (c ∷ name) ok = ground (arith, ok.0, trim_end_plain name ok.1)

trim_plain : (name : Text) → IsName name → trim name ≡ name
unfolding trim
trim_plain name ok = rw (trim_start_plain name ok) (trim_end_plain name ok)

trim_start_twice : (t : Text) → trim_start (trim_start t) ≡ trim_start t
unfolding trim_start
trim_start_twice [] = refl
trim_start_twice (c ∷ cs) = ground (arith, trim_start_twice cs)

trim-trim_start : (t : Text) → trim (trim_start t) ≡ trim t
unfolding trim
trim-trim_start t = ap trim_end (trim_start_twice t)

name_and_message-append :
    (name message : Text)
    → IsName name
    → is_empty name ≡ false
    → begins_message message ≡ true
    → name_and_message (name ++ message) ≡ (name, trim_start message)
unfolding name_and_message starts_with_ascii is_empty
name_and_message-append [] message ok full h = cc
name_and_message-append (c ∷ name) message ok full h =
    let ascii : is_ascii c ≡ true = ground (arith, ok.0) in
    let inner : is_whitespace c ≡ false = ground (arith, ok.0) in
    rw (ascii, name_and_message, inner, span_name-append name message ok.1 h) refl

-- A mention is read back as the name and the trimmed message, when the name is not empty, ASCII
-- and without whitespace, and the message is empty or starts with whitespace or beyond ASCII:
-- no space is needed there.
pub parse_at_mention_lem :
    (name message : Text)
    → IsName name
    → is_empty name ≡ false
    → begins_message message ≡ true
    → parse_at_mention (codes "@" ++ (name ++ message)) ≡ some (name, trim message)
unfolding parse_at_mention trim_start is_whitespace strip_prefix
parse_at_mention_lem name message ok full h =
    rw
      (
        name_and_message-append name message ok full h,
        trim_plain name ok,
        full,
        trim-trim_start message,
      )
      refl
