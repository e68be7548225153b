-- ===== src/OriginLabel/Examples.antt =====
-- A concrete name and session for the footer of a reply.
use mathlib.Core.Path.{subst}
use ilink_hub.Base.{false, Text, codes, some, ◌≡◌, refl, is_empty, text_eq}
use ilink_hub.Base.Strings.{trim, trim_start, trim_end, is_whitespace, strip_prefix}
use ilink_hub.QuoteRoute.Footer.{is_session}
use ilink_hub.OriginLabel.{shown_session}
use ilink_hub.OriginLabel.Footer.{IsPiece, lacks}

abbrev pub name : Text
name = codes "claude"

abbrev pub session : Text
session = codes "session-2"

pub name-IsPiece : IsPiece name
unfolding lacks is_empty trim trim_start trim_end is_whitespace
name-IsPiece = record { one_line = refl; no_dot = refl; full = refl; bare = refl }

session-IsPiece : IsPiece session
unfolding lacks is_empty trim trim_start trim_end is_whitespace
session-IsPiece = record { one_line = refl; no_dot = refl; full = refl; bare = refl }

session_shown : shown_session (some session) ≡ some session
unfolding shown_session is_empty text_eq trim trim_start trim_end is_whitespace
session_shown = refl

pub no_session : is_session name ≡ false
unfolding is_session strip_prefix
no_session = refl

pub shown-IsPiece : (s : Text) → shown_session (some session) ≡ some s → IsPiece s
shown-IsPiece s e =
    let same : session ≡ s = cc (session_shown) in subst IsPiece same session-IsPiece
