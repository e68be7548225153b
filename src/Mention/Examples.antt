-- ===== src/Mention/Examples.antt =====
-- `parse_at_mention` of src/hub/router.rs on a mention without a space.
use ilink_hub.Base.{◌≡◌, refl, Text, codes, is_empty, [], ◌∷◌, ◌++◌, some}
use ilink_hub.Base.Strings.{is_whitespace, trim}
use ilink_hub.Mention.{parse_at_mention}
use ilink_hub.Mention.Printing.{begins_message, parse_at_mention_lem}

-- Two Chinese characters.
abbrev greeting : Text
greeting = 0x4f60 ∷ 0x597d ∷ []

parse_at_mention_lem_example :
    parse_at_mention (codes "@" ++ (codes "pc" ++ greeting)) ≡ some (codes "pc", trim greeting)
unfolding is_whitespace begins_message is_empty
parse_at_mention_lem_example =
    parse_at_mention_lem (codes "pc") greeting (refl, (refl, tt)) refl refl
