-- ===== src/Acl/Grants.antt =====
-- Whom an allowlist of src/hub/acl.rs lets through, read off its entries.
use ilink_hub.Base.{
  ◌≡◌, refl, Text, codes, text_eq, text_eq_iff, is_empty, List, [], ◌∷◌, Option, none, some, Bool,
  true, false, ◌||◌, ◌&&◌, if◌then◌else◌, get_or, arith, Bool-cases, Option-cases, inl, inr,
}
use ilink_hub.Base.Map.{Map, lookup, lookup-insert}
use ilink_hub.Base.Order.{contains}
use ilink_hub.Base.Strings.{trim, split, split_once, strip_prefix}
use ilink_hub.Acl.{
  AgentAcl, no_acl, wildcard, set_insert, add_to, add_a2a, parse_edge, parse_single, parse_entry,
  parse_entries, parse, grants, allows_a2a,
}

pub contains-set_insert :
    (x y : Text) (xs : List Text) → contains x (set_insert y xs) ≡ (text_eq y x || contains x xs)
unfolding contains set_insert
contains-set_insert x y xs = ground (arith, text_eq_iff y x)

grants-add_to :
    (target k x j : Text) (m : Map (List Text))
    → grants target (lookup j (add_to k x m))
      ≡ (text_eq k j && (text_eq x target || text_eq x wildcard) || grants target (lookup j m))
unfolding grants add_to contains
grants-add_to target k x j m = ground (
  arith,
  text_eq_iff k j,
  lookup-insert k j (set_insert x (get_or (lookup k m) [])) m,
  contains-set_insert target x (get_or (lookup k m) []),
  contains-set_insert wildcard x (get_or (lookup k m) []),
)

-- What an edge from `caller'` to `target'` permits.
abbrev pub permits : Text → Text → Text → Text → Bool
permits caller' target' caller target =
    (text_eq caller' caller || text_eq caller' wildcard)
    && (text_eq target' target || text_eq target' wildcard)

allows_a2a-add_a2a :
    (caller' target' caller target : Text) (acl : AgentAcl)
    → allows_a2a (add_a2a caller' target' acl) caller target
      ≡ (permits caller' target' caller target || allows_a2a acl caller target)
unfolding allows_a2a
allows_a2a-add_a2a caller' target' caller target acl = ground (
  arith,
  grants-add_to target caller' target' caller acl.a2a,
  grants-add_to target caller' target' wildcard acl.a2a,
)

-- The edge that an entry states, if it states one: two non-empty sides round the first arrow, of
-- which the left is no WeChat user, or the bare wildcard.
sides : Text → Text → Option (Text × Text)
sides lhs rhs =
    if is_empty lhs || is_empty rhs
    then none
    else elim (strip_prefix (codes "user:") lhs) [ some _ ↦ none | none ↦ some (lhs, rhs) ]

pub edge_of : Text → Option (Text × Text)
unfolding sides
edge_of raw =
    if text_eq (trim raw) wildcard
    then some (wildcard, wildcard)
    else elim (split_once (codes "->") (trim raw)) [
      | none ↦ none
      | some (lhs, rhs) ↦ sides (trim lhs) (trim rhs)
    ]

abbrev pub permitted_by : Option (Text × Text) → Text → Text → Bool
permitted_by none caller target = false
permitted_by (some (caller', target')) caller target = permits caller' target' caller target

pub any_permits : List Text → Text → Text → Bool
any_permits [] caller target = false
any_permits (raw ∷ rest) caller target =
    any_permits rest caller target || permitted_by (edge_of raw) caller target

-- The WeChat side of an allowlist has no say over agents.
allows_a2a-wechat :
    (users : Map (List Text)) (names : List Text) (flag : Bool) (caller target : Text)
    (acl : AgentAcl)
    → allows_a2a
        (record acl { wechat_users = users; wechat_public = names; spec_present = flag })
        caller
        target
      ≡ allows_a2a acl caller target
unfolding allows_a2a
allows_a2a-wechat users names flag caller target acl = refl

parse_edge-grants :
    (lhs rhs caller target : Text) (acl : AgentAcl)
    → allows_a2a (parse_edge lhs rhs acl) caller target
      ≡ (permitted_by (sides lhs rhs) caller target || allows_a2a acl caller target)
unfolding parse_edge sides
parse_edge-grants lhs rhs caller target acl = elim (Bool-cases (is_empty lhs || is_empty rhs)) [
  | inl bad ↦ rw bad
  | inr good ↦ elim (Option-cases (strip_prefix (codes "user:") lhs)) [
    | inl edge ↦ rw (good, edge) (allows_a2a-add_a2a lhs rhs caller target acl)
    | inr (user, e) ↦
        elim (Bool-cases
          (is_empty (trim user) || (text_eq (trim user) wildcard || text_eq rhs wildcard))) [
            | inl bad ↦ rw (good, e, bad)
            | inr fine ↦
                rw (good, e, fine)
                  (allows_a2a-wechat (add_to (trim user) rhs acl.wechat_users) acl.wechat_public
                    acl.spec_present caller target acl)
          ]
  ]
]

parse_single-grants :
    (entry caller target : Text) (acl : AgentAcl)
    → allows_a2a (parse_single entry acl) caller target ≡ (
        permitted_by
          (if text_eq entry wildcard then some (wildcard, wildcard) else none)
          caller
          target
        || allows_a2a acl caller target)
unfolding parse_single
parse_single-grants entry caller target acl = elim (Bool-cases (text_eq entry wildcard)) [
  | inl star ↦ rw star (allows_a2a-add_a2a wildcard wildcard caller target acl)
  | inr plain ↦ elim (Option-cases (strip_prefix (codes "user:") entry)) [
    | inl e ↦
        rw (plain, e)
          (allows_a2a-wechat acl.wechat_users (set_insert entry acl.wechat_public) acl.spec_present
            caller target acl)
    | inr (user, e) ↦ rw (plain, e)
  ]
]

-- A wildcard has no arrow in it.
wildcard-split_once :
    (entry : Text) → text_eq entry wildcard ≡ true → split_once (codes "->") entry ≡ none
unfolding split_once strip_prefix
wildcard-split_once entry h = rw ((text_eq_iff entry wildcard).0 h) refl

empty-split_once : (entry : Text) → is_empty entry ≡ true → split_once (codes "->") entry ≡ none
unfolding split_once strip_prefix is_empty
empty-split_once [] h = refl
empty-split_once (c ∷ cs) h = ground (arith, h)

empty-wildcard : (entry : Text) → is_empty entry ≡ true → text_eq entry wildcard ≡ false
unfolding text_eq is_empty
empty-wildcard [] h = refl
empty-wildcard (c ∷ cs) h = ground (arith, h)

parse_entry-grants :
    (raw caller target : Text) (acl : AgentAcl)
    → allows_a2a (parse_entry raw acl) caller target
      ≡ (permitted_by (edge_of raw) caller target || allows_a2a acl caller target)
unfolding parse_entry edge_of
parse_entry-grants raw caller target acl =
    let marked : AgentAcl = record acl { spec_present = true } in
    let same : allows_a2a marked caller target ≡ allows_a2a acl caller target =
      allows_a2a-wechat acl.wechat_users acl.wechat_public true caller target acl in
    elim (Bool-cases (is_empty (trim raw))) [
      | inl e ↦ rw (e, empty-wildcard (trim raw) e, empty-split_once (trim raw) e) refl
      | inr full ↦ elim (Option-cases (split_once (codes "->") (trim raw))) [
        | inl bare ↦ rw (full, bare, parse_single-grants (trim raw) caller target marked, same) refl
        | inr ((lhs, rhs), e) ↦ elim (Bool-cases (text_eq (trim raw) wildcard)) [
          | inl star ↦ ground (arith, star, e, wildcard-split_once (trim raw) star)
          | inr other ↦
              rw
                (full, e, other, parse_edge-grants (trim lhs) (trim rhs) caller target marked, same)
                refl
        ]
      ]
    ]

parse_entries-grants :
    (raws : List Text) (caller target : Text) (acl : AgentAcl)
    → allows_a2a (parse_entries raws acl) caller target
      ≡ (any_permits raws caller target || allows_a2a acl caller target)
unfolding parse_entries any_permits
parse_entries-grants [] caller target acl = refl
parse_entries-grants (raw ∷ rest) caller target acl = ground (
  arith,
  parse_entries-grants rest caller target (parse_entry raw acl),
  parse_entry-grants raw caller target acl,
)

no_acl-allows : (caller target : Text) → allows_a2a no_acl caller target ≡ false
unfolding allows_a2a grants lookup
no_acl-allows caller target = refl

-- An agent may reach another exactly when an entry of the comma-separated text permits it; a
-- text without such an entry lets nobody through.
pub parse-grants :
    (spec caller target : Text)
    → allows_a2a (parse spec) caller target ≡ any_permits (split b',' spec) caller target
unfolding parse
parse-grants spec caller target = ground (
  arith,
  parse_entries-grants (split b',' spec) caller target no_acl,
  no_acl-allows caller target,
)
