-- ===== src/Command/Examples.antt =====
-- The commands of src/hub/router.rs at concrete texts.
use ilink_hub.Base.{◌≡◌, refl, Text, codes, is_empty, [], ◌∷◌, ◌++◌, some}
use ilink_hub.Base.Strings.{
  trim, trim_start, trim_end, is_whitespace, split_once, strip_prefix, eq_ignore_ascii_case,
}
use ilink_hub.Command.{
  session_new, session_use, session_delete, parse_hub_command, parse_plain, parse_use,
  parse_broadcast, parse_session_list, parse_session_new, session_new_rest, new_session, is_any,
  strip_any,
}
use ilink_hub.Command.Parsing.{parse_hub_command-session}

abbrev now : Text
now = codes "20260101-000000"

name_trimmed : trim (codes "mac") ≡ codes "mac"
unfolding trim trim_start trim_end is_whitespace is_empty
name_trimmed = refl

parse_hub_command-session_example :
    (parse_hub_command now (codes "/session new " ++ (codes "mac" ++ (b' ' ∷ codes "mac")))
      ≡ some (session_new (codes "mac") (codes "mac")))
    × (parse_hub_command now (codes "/sn " ++ (codes "mac" ++ (b' ' ∷ codes "mac")))
        ≡ some (session_new (codes "mac") (codes "mac")))
    × (parse_hub_command now (codes "/session use " ++ codes "mac")
        ≡ some (session_use (codes "mac")))
    × (parse_hub_command now (codes "/su " ++ codes "mac") ≡ some (session_use (codes "mac")))
    × (parse_hub_command now (codes "/session delete " ++ codes "mac")
        ≡ some (session_delete (codes "mac")))
    × (parse_hub_command now (codes "/sd " ++ codes "mac") ≡ some (session_delete (codes "mac")))
unfolding is_empty split_once strip_prefix
parse_hub_command-session_example =
    parse_hub_command-session now (codes "mac") (codes "mac") name_trimmed refl refl name_trimmed
      refl

bare_new :
    parse_hub_command now (codes " /sn ") ≡ some (session_new (codes "session-20260101-000000") [])
unfolding parse_hub_command parse_plain parse_use parse_broadcast parse_session_list
    parse_session_new session_new_rest new_session is_any strip_any strip_prefix
    eq_ignore_ascii_case trim trim_start trim_end is_whitespace is_empty split_once
bare_new = refl
