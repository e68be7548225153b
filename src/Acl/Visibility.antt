-- ===== src/Acl/Visibility.antt =====
-- What an agent and a WeChat user see under an allowlist of src/hub/acl.rs.
use ilink_hub.Base.{
  ◌≡◌, refl, Text, text_eq, text_eq_iff, text_eq_refl, List, [], ◌∷◌, Option, none, some, Bool,
  true, ◌||◌, ◌&&◌, get_or, arith, Option-cases, Bool-cases, inl, inr, filter_by,
}
use ilink_hub.Base.Map.{lookup}
use ilink_hub.Base.Order.{contains}
use ilink_hub.Acl.{
  AgentAcl, wildcard, set_insert, grants, allows_a2a, collect, visible_targets_for_agent,
  wechat_visible, visible_names, extend, nothing, no_users,
}
use ilink_hub.Acl.Grants.{contains-set_insert}

-- Whether a set of visible names, of which `none` is all of them, has a name in it.
abbrev pub may_see : Option (List Text) → Text → Bool
may_see none name = true
may_see (some names) name = contains name names

may_see-collect :
    (visible targets : List Text) (name : Text)
    → may_see (collect visible targets) name
      ≡ (contains wildcard targets || (contains name targets || contains name visible))
unfolding collect contains
may_see-collect visible [] name = refl
may_see-collect visible (t ∷ ts) name =
    ground
      (arith, may_see-collect (set_insert t visible) ts name, contains-set_insert name t visible)

may_see-collect_own :
    (targets : List Text) (name : Text)
    → may_see (collect [] targets) name ≡ (contains wildcard targets || contains name targets)
unfolding contains
may_see-collect_own targets name = ground (arith, may_see-collect [] targets name)

grants-get_or :
    (name : Text) (targets : Option (List Text))
    → grants name targets
      ≡ (contains name (get_or targets []) || contains wildcard (get_or targets []))
unfolding grants contains
grants-get_or name none = refl
grants-get_or name (some targets) = refl

-- The targets an agent is shown, all of them when there is no list, are those that it may reach.
pub visible-allows_a2a :
    (acl : AgentAcl) (caller target : Text)
    → may_see (visible_targets_for_agent acl caller) target ≡ allows_a2a acl caller target
unfolding visible_targets_for_agent allows_a2a
visible-allows_a2a acl caller target =
    let own = get_or (lookup caller acl.a2a) [] in
    let shared = get_or (lookup wildcard acl.a2a) [] in
    let first = may_see-collect_own own target in
    let own_grants = grants-get_or target (lookup caller acl.a2a) in
    let shared_grants = grants-get_or target (lookup wildcard acl.a2a) in
    elim (Option-cases (collect [] own)) [
      | inl all ↦ rw (all, may_see) (ground (arith, all, first, own_grants))
      | inr (visible, e) ↦
          rw (e, may_see)
            (ground
              (arith, e, first, own_grants, shared_grants, may_see-collect visible shared target))
    ]

contains-extend :
    (name : Text) (visible more : List Text)
    → contains name (extend visible more) ≡ (contains name visible || contains name more)
unfolding contains
contains-extend name visible [] = ground arith
contains-extend name visible (t ∷ ts) =
    ground
      (arith, contains-extend name (set_insert t visible) ts, contains-set_insert name t visible)

contains-filter_by :
    (name : Text) (keep : Text → Bool) (names : List Text)
    → contains name (filter_by keep names) ≡ (keep name && contains name names)
unfolding contains
contains-filter_by name keep [] = ground arith
contains-filter_by name keep (t ∷ ts) = elim (Bool-cases (text_eq t name)) [
  | inl same ↦
      rw ((text_eq_iff t name).0 same)
        (ground (arith, contains-filter_by name keep ts, text_eq_refl name))
  | inr other ↦ ground (arith, other, contains-filter_by name keep ts)
]

-- A WeChat user sees a backend exactly when the allowlist has no entry for WeChat at all, or the
-- backend is registered and either public or the user's own.
pub wechat_visible_lem :
    (acl : AgentAcl) (user_id name : Text) (registered : List Text)
    → may_see (wechat_visible acl user_id registered) name ≡ (
        nothing acl.wechat_public && no_users acl.wechat_users
        || (contains name registered
            && (contains name acl.wechat_public
                || contains name (get_or (lookup user_id acl.wechat_users) []))))
unfolding wechat_visible visible_names
wechat_visible_lem acl user_id name registered =
    let users = get_or (lookup user_id acl.wechat_users) [] in
    ground (
      arith,
      contains-extend name acl.wechat_public users,
      contains-filter_by name (λ name. contains name registered) (extend acl.wechat_public users),
    )
