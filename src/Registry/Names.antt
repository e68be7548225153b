-- ===== src/Registry/Names.antt =====
-- Renaming, removal and lookup by name or number in src/hub/registry.rs.
use ilink_hub.Base.{
  ℕ, zero, suc, ◌≡◌, ◌≢◌, refl, ap, sym, ◌∙◌, Text, text_eq, text_eq_iff, text_eq_refl, List, [],
  ◌∷◌, Option, none, some, Bool, true, false, arith, Bool-cases, Option-cases, inl, inr, filter_by,
  get_elem?, All,
}
use ilink_hub.Base.Map.{
  lookup, insert, remove, modify, lookup-insert, lookup-remove, lookup-modify, values,
}
use ilink_hub.Base.Order.{sort_by, place, parse_usize}
use ilink_hub.Registry.{
  ClientInfo, ClientRegistry, ok, err, name_taken, get_by_name, get_by_vtoken, update_client,
  remove_client, rename, is_visible, all_clients_in, nth_visible, get_by_alias_in,
}
use ilink_hub.Registry.Consistency.{IsConsistent}
use ilink_hub.Registry.Rotation.{get_by_name-some}

-- Removing a registered client: neither its name nor its token leads to a client afterwards.
pub remove_client_lem :
    (name : Text) (info : ClientInfo) (r : ClientRegistry)
    → IsConsistent r
    → get_by_name name r ≡ some info
    → ((remove_client name r).1 ≡ true)
      × (get_by_name name (remove_client name r).0 ≡ none)
      × (get_by_vtoken info.vtoken (remove_client name r).0 ≡ none)
unfolding remove_client get_by_name get_by_vtoken
remove_client_lem name info r v known =
    let (vt, e, held) = get_by_name-some name info r known in
    let own = (v.tokens vt info held).0 in
    let left = lookup-remove name name r.by_name in
    let left' = lookup-remove vt vt r.by_vtoken in
    rw (e, own, remove_client)
      (refl, ground (arith, text_eq_refl name), ground (arith, text_eq_refl vt))

abbrev renamed : Text → Text → Text → Option Text → ClientRegistry → ClientRegistry
renamed old new vt label r = record {
  by_vtoken = modify vt (rename new label) r.by_vtoken;
  by_name = insert new vt (remove old r.by_name);
}

update_client-renamed :
    (old new vt : Text) (label : Option Text) (info : ClientInfo) (r : ClientRegistry)
    → lookup old r.by_name ≡ some vt
    → lookup vt r.by_vtoken ≡ some info
    → lookup new r.by_name ≡ none
    → update_client old new label r ≡ (renamed old new vt label r, ok vt)
unfolding update_client
update_client-renamed old new vt label info r e held free =
    let apart : text_eq new old ≡ false = ground (arith, text_eq_iff new old) in
    rw (e, apart, free, held, apart, update_client)

renamed-lookup :
    (old new n vt : Text) (label : Option Text) (info : ClientInfo) (r : ClientRegistry)
    → IsConsistent r
    → lookup old r.by_name ≡ some vt
    → lookup vt r.by_vtoken ≡ some info
    → lookup new r.by_name ≡ none
    → n ≢ old
    → n ≢ new
    → (get_by_name new (renamed old new vt label r) ≡ some (rename new label info))
      × (get_by_name old (renamed old new vt label r) ≡ none)
      × (get_by_name n (renamed old new vt label r) ≡ get_by_name n r)
unfolding get_by_name
renamed-lookup old new n vt label info r v e held free n_old n_new =
    let own = (v.tokens vt info held) in
    let at_new = lookup-insert new new vt (remove old r.by_name) in
    let at_old = lookup-insert new old vt (remove old r.by_name) in
    let at_n = lookup-insert new n vt (remove old r.by_name) in
    let left = lookup-remove old old r.by_name in
    let left_n = lookup-remove old n r.by_name in
    let changed : lookup vt (modify vt (rename new label) r.by_vtoken)
        ≡ some (rename new label info) =
      lookup-modify vt vt (rename new label) r.by_vtoken ∙ rw (text_eq_refl vt, held) refl in
    (
      ground (arith, text_eq_refl new),
      ground (arith, text_eq_iff new old, text_eq_refl old),
      elim (Option-cases (lookup n r.by_name)) [
        | inl none_n ↦ ground (arith, text_eq_iff new n, text_eq_iff old n)
        | inr (t, e_n) ↦
            let (i, found, called) = v.names n t e_n in
            let (o, found', called') = v.names old vt e in
            let apart : text_eq vt t ≡ false = ground (arith, text_eq_iff vt t) in
            let same : lookup t (modify vt (rename new label) r.by_vtoken) ≡ lookup t r.by_vtoken =
              lookup-modify vt t (rename new label) r.by_vtoken ∙ rw apart refl in
            ground (arith, text_eq_iff new n, text_eq_iff old n)
      ],
    )

-- Renaming a registered client to a free name: the call returns its token, the new name leads to
-- the renamed client, the old name to nobody, and every third name where it led.
pub update_client-rename :
    (old new n : Text) (label : Option Text) (info : ClientInfo) (r : ClientRegistry)
    → IsConsistent r
    → get_by_name old r ≡ some info
    → lookup new r.by_name ≡ none
    → n ≢ old
    → n ≢ new
    → ((update_client old new label r).1 ≡ ok info.vtoken)
      × (get_by_name new (update_client old new label r).0 ≡ some (rename new label info))
      × (get_by_name old (update_client old new label r).0 ≡ none)
      × (get_by_name n (update_client old new label r).0 ≡ get_by_name n r)
update_client-rename old new n label info r v known free n_old n_new =
    let (vt, e, held) = get_by_name-some old info r known in
    let own : info.vtoken ≡ vt = (v.tokens vt info held).0 in
    let found = renamed-lookup old new n vt label info r v e held free n_old n_new in
    rw (update_client-renamed old new vt label info r e held free)
      (ap ok (sym own), found.0, found.1, found.2)

-- A rename to a name that another client has is refused and changes nothing.
pub update_client-name_taken :
    (old new : Text) (label : Option Text) (info other : ClientInfo) (r : ClientRegistry)
    → get_by_name old r ≡ some info
    → get_by_name new r ≡ some other
    → old ≢ new
    → update_client old new label r ≡ (r, err name_taken)
unfolding update_client
update_client-name_taken old new label info other r known taken apart =
    let (vt, e, held) = get_by_name-some old info r known in
    let (vt', e', held') = get_by_name-some new other r taken in ground (arith, text_eq_iff new old)

module _ {ℓ κ} {A : Type ℓ} (P : A → Type κ) where
  All-filter_by :
      (p : A → Bool) (xs : List A) → ((x : A) → p x ≡ true → P x) → All P (filter_by p xs)
  All-filter_by p [] h = tt
  All-filter_by p (x ∷ xs) h = elim (Bool-cases (p x)) [
    | inl yes' ↦ rw yes' (h x yes', All-filter_by p xs h)
    | inr no' ↦ rw no' (All-filter_by p xs h)
  ]

  All-place : (le : A → A → Bool) (a : A) (xs : List A) → P a → All P xs → All P (place le a xs)
  unfolding place
  All-place le a [] h all = (h, tt)
  All-place le a (x ∷ xs) h all = elim (Bool-cases (le a x)) [
    | inl here ↦ rw here (h, all)
    | inr there ↦ rw there (all.0, All-place le a xs h all.1)
  ]

  All-sort_by : (le : A → A → Bool) (xs : List A) → All P xs → All P (sort_by le xs)
  unfolding sort_by
  All-sort_by le [] all = tt
  All-sort_by le (x ∷ xs) all = All-place le x (sort_by le xs) all.0 (All-sort_by le xs all.1)

  get_elem?-All : (xs : List A) (i : ℕ) (a : A) → All P xs → get_elem? xs i ≡ some a → P a
  get_elem?-All [] i a all h = absurd (ground arith)
  get_elem?-All (x ∷ xs) zero a all h = let e : x ≡ a = ground arith in rw (← e) all.0
  get_elem?-All (x ∷ xs) (suc i) a all h = get_elem?-All xs i a all.1 h

abbrev IsVisible : Option (List Text) → ClientInfo → Type 0
IsVisible allowed c = is_visible allowed c.name ≡ true

nth_visible-IsVisible :
    (n : ℕ) (allowed : Option (List Text)) (r : ClientRegistry) (c : ClientInfo)
    → nth_visible n allowed r ≡ some c
    → IsVisible allowed c
unfolding nth_visible all_clients_in
nth_visible-IsVisible zero allowed r c h = absurd (ground arith)
nth_visible-IsVisible (suc n) allowed r c h =
    get_elem?-All (IsVisible allowed) _ n c
      (All-sort_by (IsVisible allowed) _ _
        (All-filter_by (IsVisible allowed) _ (values r.by_vtoken) (λ x e. e)))
      h

-- Whatever a user writes, a name or a number, a client that the lookup returns is one that the
-- user may see.
pub get_by_alias_in-visible :
    (name : Text) (allowed : Option (List Text)) (r : ClientRegistry) (c : ClientInfo)
    → get_by_alias_in name allowed r ≡ some c
    → is_visible allowed c.name ≡ true
unfolding get_by_alias_in
get_by_alias_in-visible name allowed r c h = elim (Option-cases (get_by_name name r)) [
  | inl e ↦ elim (Option-cases (parse_usize name)) [
    | inl e' ↦ absurd (ground arith)
    | inr (n, e') ↦ nth_visible-IsVisible n allowed r c (ground arith)
  ]
  | inr (c', e) ↦ ground arith
]
