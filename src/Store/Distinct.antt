-- ===== src/Store/Distinct.antt =====
-- The rows of context_token_map while its keys are distinct.
use ilink_hub.Base.{
  Text, List, [], ◌∷◌, ◌++◌, Bool, true, false, none, some, ◌≡◌, refl, ◌∙◌, arith, if◌then◌else◌,
  text_eq, text_eq_iff, text_eq_refl, is_empty, Bool-cases, inl, inr,
}
use ilink_hub.Base.Rows.{
  any, find, update, update_none, any-update_same, any-of_find, any-append_one, find-holds,
}
use ilink_hub.Store.{ContextToken, by_vctx}
use ilink_hub.Store.Context.{by_peer, full_of}
use ilink_hub.Store.Keys.{text_eq_comm}

-- The keys of the table: no two rows of one virtual context, and none of one scope that is not
-- empty.
abbrev pub Distinct : List ContextToken → Type 0
Distinct [] = Unit
Distinct (c ∷ cs) =
    (any (by_vctx c.vctx) cs ≡ false)
    × (is_empty c.peer_user_id ≡ false → any (by_peer c.peer_user_id) cs ≡ false)
    × Distinct cs

abbrev pub with_real : Text → ContextToken → ContextToken
with_real real_ctx c = record c { real_ctx = real_ctx }

pub Distinct-update :
    (p : ContextToken → Bool) (real : Text) (cs : List ContextToken)
    → Distinct cs
    → Distinct (update p (with_real real) cs)
unfolding update by_vctx by_peer
Distinct-update p real [] d = d
Distinct-update p real (c ∷ cs) d = elim (Bool-cases (p c)) [
  | inl hit ↦ rw hit (
    any-update_same (by_vctx c.vctx) p (with_real real) (λ r. refl) cs ∙ d.0,
    λ e. any-update_same (by_peer c.peer_user_id) p (with_real real) (λ r. refl) cs ∙ d.1 e,
    Distinct-update p real cs d.2,
  )
  | inr miss ↦ rw miss (
    any-update_same (by_vctx c.vctx) p (with_real real) (λ r. refl) cs ∙ d.0,
    λ e. any-update_same (by_peer c.peer_user_id) p (with_real real) (λ r. refl) cs ∙ d.1 e,
    Distinct-update p real cs d.2,
  )
]

pub Distinct-append :
    (cs : List ContextToken) (new : ContextToken)
    → Distinct cs
    → any (by_vctx new.vctx) cs ≡ false
    → (is_empty new.peer_user_id ≡ false → any (by_peer new.peer_user_id) cs ≡ false)
    → Distinct (cs ++ new ∷ [])
unfolding any by_vctx by_peer
Distinct-append [] new d v p = (refl, λ e. refl, tt)
Distinct-append (c ∷ cs) new d v p = (
  ground (arith, any-append_one (by_vctx c.vctx) cs new, text_eq_comm c.vctx new.vctx),
  λ e. ground (
    arith,
    d.1 e,
    any-append_one (by_peer c.peer_user_id) cs new,
    text_eq_iff c.peer_user_id new.peer_user_id,
    text_eq_iff new.peer_user_id c.peer_user_id,
    p,
  ),
  Distinct-append cs new d.2 (ground (arith, Bool-cases (text_eq c.vctx new.vctx)))
      (λ e. ground (arith, p e, Bool-cases (text_eq c.peer_user_id new.peer_user_id))),
)

-- The row of a scope is the row of its virtual context.
pub found_row :
    (key : Text) (cs : List ContextToken) (c : ContextToken)
    → Distinct cs
    → find (by_peer key) cs ≡ some c
    → find (by_vctx c.vctx) cs ≡ some c
unfolding find by_vctx
found_row key [] c d e = absurd (cc)
found_row key (x ∷ cs) c d e = ground (
  arith,
  text_eq_refl c.vctx,
  text_eq_iff x.vctx c.vctx,
  found_row key cs c d.2,
  any-of_find (by_vctx c.vctx) (by_peer key) cs c,
  Bool-cases (by_peer key x),
)

pub find-update_vctx :
    (v w real : Text) (cs : List ContextToken)
    → full_of (find (by_vctx w) (update (by_vctx v) (with_real real) cs)) ≡ (
        if text_eq v w
        then elim (find (by_vctx v) cs) [ none ↦ none | some c ↦ some (real, c.peer_user_id) ]
        else full_of (find (by_vctx w) cs))
unfolding find update by_vctx
find-update_vctx v w real [] = ground arith
find-update_vctx v w real (x ∷ cs) = ground (
  arith,
  find-update_vctx v w real cs,
  text_eq_iff v w,
  text_eq_iff x.vctx v,
  text_eq_iff x.vctx w,
)

pub update_row :
    (key real : Text) (cs : List ContextToken) (c : ContextToken)
    → Distinct cs
    → is_empty key ≡ false
    → find (by_peer key) cs ≡ some c
    → update (by_peer key) (with_real real) cs ≡ update (by_vctx c.vctx) (with_real real) cs
unfolding find update by_vctx by_peer
update_row key real [] c d n e = absurd (cc)
update_row key real (x ∷ cs) c d n e = elim (Bool-cases (text_eq x.peer_user_id key)) [
  | inl hit ↦
      let same : x.peer_user_id ≡ key = (text_eq_iff x.peer_user_id key).0 hit in
      let first : x ≡ c = ground arith in
      let peers : any (by_peer key) cs ≡ false = rw (← same) (d.1 (rw same n)) in
      let contexts : any (by_vctx c.vctx) cs ≡ false = rw (← first) d.0 in
      ground (
        arith,
        text_eq_refl c.vctx,
        update_none (by_peer key) (with_real real) cs peers,
        update_none (by_vctx c.vctx) (with_real real) cs contexts,
      )
  | inr miss ↦ ground (
    arith,
    update_row key real cs c d.2 n,
    text_eq_iff x.vctx c.vctx,
    text_eq_refl c.vctx,
    any-of_find (by_vctx c.vctx) (by_peer key) cs c,
  )
]

pub row_vctx :
    (v : Text) (cs : List ContextToken) (c : ContextToken)
    → find (by_vctx v) cs ≡ some c
    → text_eq c.vctx v ≡ true
unfolding by_vctx
row_vctx v cs c e = find-holds (by_vctx v) cs c e

-- The row of a virtual context is the row of its scope, if it has one.
pub scope_row :
    (v : Text) (cs : List ContextToken) (c : ContextToken)
    → Distinct cs
    → is_empty c.peer_user_id ≡ false
    → find (by_vctx v) cs ≡ some c
    → find (by_peer c.peer_user_id) cs ≡ some c
unfolding find by_peer
scope_row v [] c d n e = absurd (cc)
scope_row v (x ∷ cs) c d n e = elim (Bool-cases (by_vctx v x)) [
  | inl hit ↦ ground (arith, text_eq_refl c.peer_user_id)
  | inr miss ↦ elim (Bool-cases (text_eq x.peer_user_id c.peer_user_id)) [
    | inl same ↦
        let peers : x.peer_user_id ≡ c.peer_user_id =
          (text_eq_iff x.peer_user_id c.peer_user_id).0 same in
        let later : find (by_vctx v) cs ≡ some c = ground arith in
        let scope : by_peer x.peer_user_id c ≡ true = rw peers (text_eq_refl c.peer_user_id) in
        ground (
          arith,
          d.1 (rw peers n),
          any-of_find (by_peer x.peer_user_id) (by_vctx v) cs c later scope,
        )
    | inr other ↦ ground (arith, scope_row v cs c d.2 n)
  ]
]
