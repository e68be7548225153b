-- ===== src/OriginLabel/Footer.antt =====
-- Footers that the hub writes under a reply, read back from the quoted reply.
use ilink_hub.Base.{
  ℕ, Text, codes, List, [], ◌∷◌, ◌++◌, Bool, true, false, ◌&&◌, Option, none, some, ◌≡◌, refl, ◌∙◌,
  arith, if◌then◌else◌, not, get_or, ◌==◌, is_empty, Option-cases, inl, inr,
}
use ilink_hub.Base.Strings.{trim, trim_end, strip_prefix}
use ilink_hub.Base.Trim.{
  trim_start_fixed, trim_end_fixed, trim_end-append, trim_start-append, trim_trimmed,
}
use ilink_hub.QuoteRoute.Footer.{
  after_last, ruler, footer_line, split_text, is_session, last_session, read_parts,
  parse_footer_from_quoted_text,
}
use ilink_hub.OriginLabel.{
  separator, format_outbound_origin_line, format_outbound_footer, shown_session, with_footer, rule,
  apply_persona_and_footer, build_session_only_footer, build_persona_header,
}

-- A text without a character.
unfoldable pub lacks : ℕ → Text → Bool
lacks c [] = true
lacks c (x ∷ xs) = not (x == c) && lacks c xs

lacks-append : (c : ℕ) (a b : Text) → lacks c (a ++ b) ≡ (lacks c a && lacks c b)
unfolding lacks
lacks-append c [] b = refl
lacks-append c (x ∷ a) b = ground (arith, lacks-append c a b)

-- The ruler ends with a line break.
dashes_none : (t : Text) → lacks b'\n' t ≡ true → strip_prefix (codes "---" ++ b'\n' ∷ []) t ≡ none
unfolding lacks strip_prefix
dashes_none [] h = refl
dashes_none (a ∷ []) h = ground arith
dashes_none (a ∷ b ∷ []) h = ground arith
dashes_none (a ∷ b ∷ c ∷ []) h = ground arith
dashes_none (a ∷ b ∷ c ∷ d ∷ t) h = ground arith

after_last-none : (t : Text) → lacks b'\n' t ≡ true → after_last ruler t ≡ none
unfolding lacks after_last strip_prefix
after_last-none [] h = refl
after_last-none (c ∷ t) h = ground (arith, after_last-none t)

after_last-ruler : (t : Text) → lacks b'\n' t ≡ true → after_last ruler (ruler ++ t) ≡ some t
unfolding after_last strip_prefix
after_last-ruler t h = ground (arith, after_last-none t h, dashes_none t h)

after_last-append :
    (a s r : Text) → after_last ruler s ≡ some r → after_last ruler (a ++ s) ≡ some r
unfolding after_last
after_last-append [] s r e = e
after_last-append (c ∷ a) s r e = rw (after_last-append a s r e)

footer_line-with_footer :
    (t line : Text) → lacks b'\n' line ≡ true → footer_line (with_footer t line) ≡ some (trim line)
unfolding footer_line with_footer
footer_line-with_footer t line h =
    let found : after_last ruler (t ++ (rule ++ line)) ≡ some line =
      after_last-append t (rule ++ line) line
        (after_last-append (b'\n' ∷ []) (ruler ++ line) line (after_last-ruler line h)) in
    ground (arith, found)

separator-none :
    (c : ℕ) (a b : Text)
    → lacks 0xb7 (c ∷ a) ≡ true
    → strip_prefix separator (c ∷ a ++ (separator ++ b)) ≡ none
unfolding lacks strip_prefix
separator-none c [] b h = ground arith
separator-none c (x ∷ a) b h = ground arith

separator-none_end :
    (c : ℕ) (a : Text) → lacks 0xb7 (c ∷ a) ≡ true → strip_prefix separator (c ∷ a) ≡ none
unfolding lacks strip_prefix
separator-none_end c [] h = ground arith
separator-none_end c (x ∷ a) h = ground arith

split_text-here :
    (b : Text) → split_text separator 0 (separator ++ b) ≡ [] ∷ split_text separator 0 b
unfolding split_text strip_prefix
split_text-here b = refl

split_text-separator :
    (a b : Text)
    → lacks 0xb7 a ≡ true
    → split_text separator 0 (a ++ (separator ++ b)) ≡ a ∷ split_text separator 0 b
unfolding split_text lacks
split_text-separator [] b h = split_text-here b
split_text-separator (c ∷ a) b h = ground (arith, separator-none c a b h, split_text-separator a b)

split_text-one : (a : Text) → lacks 0xb7 a ≡ true → split_text separator 0 a ≡ a ∷ []
unfolding split_text lacks
split_text-one [] h = refl
split_text-one (c ∷ a) h = ground (arith, separator-none_end c a h, split_text-one a)

-- A piece of a footer: no line break and no middle dot, not blank and trimmed.
pub record IsPiece (t : Text) : Type 0 where
  pub one_line : lacks b'\n' t ≡ true
  pub no_dot : lacks 0xb7 t ≡ true
  pub full : is_empty t ≡ false
  pub bare : trim t ≡ t

-- What is shown of a session, as the parser looks for it.
abbrev pub recovered : Option Text → Option Text
recovered none = none
recovered (some s) = if is_session s then some s else none

read_one :
    (name : Text)
    → IsPiece name
    → is_session name ≡ false
    → read_parts (name ∷ []) ≡ some (name, none)
unfolding read_parts last_session
read_one name p n = ground arith

read_two :
    (name s : Text)
    → IsPiece name
    → is_session name ≡ false
    → IsPiece s
    → read_parts (name ∷ s ∷ []) ≡ some (name, recovered (some s))
unfolding read_parts last_session
read_two name s p n q = ground arith

separator_full : (s : Text) → is_empty (separator ++ s) ≡ false
unfolding is_empty
separator_full s = refl

line_full : (name s : Text) → IsPiece name → is_empty (name ++ (separator ++ s)) ≡ false
unfolding is_empty
line_full [] s p = refl
line_full (c ∷ name) s p = refl

line_one :
    (name s : Text) → IsPiece name → IsPiece s → lacks b'\n' (name ++ (separator ++ s)) ≡ true
unfolding lacks
line_one name s p q = lacks-append b'\n' name (separator ++ s) ∙ rw (p.one_line, q.one_line)

line_bare :
    (name s : Text)
    → IsPiece name
    → IsPiece s
    → trim (name ++ (separator ++ s)) ≡ name ++ (separator ++ s)
line_bare name s p q =
    let end : trim_end s ≡ s = trim_end_fixed s q.bare in
    let tail : trim_end (separator ++ s) ≡ separator ++ s =
      trim_end-append separator s (rw end q.full) ∙ rw end in
    trim_trimmed (name ++ (separator ++ s))
      (trim_start-append name (separator ++ s) p.full (trim_start_fixed name p.bare))
      (trim_end-append name (separator ++ s) (rw tail (separator_full s)) ∙ rw tail)

parse_line :
    (t line : Text) (parts : List Text) (result : Text × Option Text)
    → lacks b'\n' line ≡ true
    → trim line ≡ line
    → is_empty line ≡ false
    → split_text separator 0 line ≡ parts
    → read_parts parts ≡ some result
    → parse_footer_from_quoted_text (with_footer t line) ≡ some result
unfolding parse_footer_from_quoted_text
parse_line t line parts result one bare full split read =
    ground (arith, footer_line-with_footer t line one)

footer_hidden :
    (name : Text) (session : Option Text)
    → shown_session session ≡ none
    → format_outbound_footer name none session ≡ name
unfolding format_outbound_footer format_outbound_origin_line
footer_hidden name session e = ground arith

footer_shown :
    (name s : Text) (session : Option Text)
    → shown_session session ≡ some s
    → format_outbound_footer name none session ≡ name ++ (separator ++ s)
unfolding format_outbound_footer format_outbound_origin_line
footer_shown name s session e = ground arith

-- The footer of a reply by a client with no persona and no label, under any text: from the quoted
-- reply the parser reads the client's name, and the session that the footer shows if its name
-- starts with `at-` or `session-`, else none. Both names are trimmed, not blank and have no line
-- break or middle dot, and the client's name does not start like a session.
pub parse_footer-format_outbound_footer :
    (t name : Text) (session : Option Text)
    → IsPiece name
    → is_session name ≡ false
    → ((s : Text) → shown_session session ≡ some s → IsPiece s)
    → parse_footer_from_quoted_text (with_footer t (format_outbound_footer name none session))
      ≡ some (name, recovered (shown_session session))
parse_footer-format_outbound_footer t name session p n pieces =
    elim (Option-cases (shown_session session)) [
      | inl hidden ↦
          rw (footer_hidden name session hidden, hidden)
            (parse_line t name (name ∷ []) (name, none) p.one_line p.bare p.full
              (split_text-one name p.no_dot) (read_one name p n))
      | inr (s, shown) ↦
          let q = pieces s shown in
          rw (footer_shown name s session shown, shown)
            (parse_line t (name ++ (separator ++ s)) (name ∷ s ∷ []) (name, recovered (some s))
              (line_one name s p q) (line_bare name s p q) (line_full name s p)
              (split_text-separator name s p.no_dot ∙ rw (split_text-one s q.no_dot))
              (read_two name s p n q))
    ]

read_session : (s : Text) → IsPiece s → read_parts (s ∷ []) ≡ some (s, recovered (some s))
unfolding read_parts last_session
read_session s q = ground arith

persona_footer :
    (persona : Text) (emoji label session : Option Text) (name t s : Text)
    → is_empty (trim persona) ≡ false
    → shown_session session ≡ some s
    → apply_persona_and_footer (some persona) emoji name label session t
      ≡ with_footer (get_or (build_persona_header (some persona) emoji) [] ++ t) s
unfolding apply_persona_and_footer build_session_only_footer
persona_footer persona emoji label session name t s p shown = ground arith

-- The footer of a reply by a client with a persona shows the session alone, which the parser then
-- reads as the client's name, and also as the session if it starts with `at-` or `session-`. The
-- session shown is trimmed, not blank and has no line break or middle dot.
pub parse_footer-apply_persona_and_footer :
    (persona : Text) (emoji label session : Option Text) (name t s : Text)
    → is_empty (trim persona) ≡ false
    → shown_session session ≡ some s
    → IsPiece s
    → parse_footer_from_quoted_text
        (apply_persona_and_footer (some persona) emoji name label session t)
      ≡ some (s, recovered (some s))
parse_footer-apply_persona_and_footer persona emoji label session name t s p shown q =
    rw (persona_footer persona emoji label session name t s p shown) (
      parse_line (get_or (build_persona_header (some persona) emoji) [] ++ t) s (s ∷ [])
        (s, recovered (some s)) q.one_line q.bare q.full (split_text-one s q.no_dot)
        (read_session s q))
