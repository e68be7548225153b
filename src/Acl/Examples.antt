-- ===== src/Acl/Examples.antt =====
-- The allowlist of src/hub/acl.rs at concrete texts.
use ilink_hub.Base.{◌≡◌, Text, codes, [], ◌∷◌}
use ilink_hub.Base.Strings.{split}
use ilink_hub.Acl.{AgentAcl, allows_a2a, parse, visible_targets_for_agent, no_acl}
use ilink_hub.Acl.Grants.{any_permits, parse-grants}
use ilink_hub.Acl.Visibility.{may_see, visible-allows_a2a}

abbrev spec : Text
spec = codes "a->b, *->c,user:u1->b , d"

parse-grants_example :
    allows_a2a (parse spec) (codes "a") (codes "b")
    ≡ any_permits (split b',' spec) (codes "a") (codes "b")
parse-grants_example = parse-grants spec (codes "a") (codes "b")

abbrev two_edges : AgentAcl
two_edges = record no_acl {
  a2a = (codes "a", codes "b" ∷ []) ∷ (codes "*", codes "c" ∷ []) ∷ [];
  wechat_users = (codes "u1", codes "b" ∷ []) ∷ [];
  wechat_public = codes "d" ∷ [];
}

visible-allows_a2a_example :
    may_see (visible_targets_for_agent two_edges (codes "a")) (codes "c")
    ≡ allows_a2a two_edges (codes "a") (codes "c")
visible-allows_a2a_example = visible-allows_a2a two_edges (codes "a") (codes "c")
