-- ===== src/Registry/Consistency.antt =====
-- The two maps of src/hub/registry.rs describe one set of clients.
use ilink_hub.Base.{
  ◌≡◌, refl, ◌∙◌, Text, text_eq, text_eq_iff, text_eq_refl, Option, none, some, false, arith,
  Bool-cases, Option-cases, inl, inr,
}
use ilink_hub.Base.Map.{lookup, insert, remove, modify, lookup-insert, lookup-remove, lookup-modify}
use ilink_hub.Registry.{ClientInfo, ClientRegistry, enter, rename}

-- Every name leads to the client of that name, and every client is found by its token and by its
-- name.
pub record IsConsistent (r : ClientRegistry) : Type 0 where
  pub names :
      (n t : Text)
      → lookup n r.by_name ≡ some t
      → (info : ClientInfo) × (lookup t r.by_vtoken ≡ some info) × (info.name ≡ n)
  pub tokens :
      (t : Text) (info : ClientInfo)
      → lookup t r.by_vtoken ≡ some info
      → (info.vtoken ≡ t) × (lookup info.name r.by_name ≡ some t)

pub enter-IsConsistent :
    (info : ClientInfo) (r : ClientRegistry)
    → lookup info.name r.by_name ≡ none
    → lookup info.vtoken r.by_vtoken ≡ none
    → IsConsistent r
    → IsConsistent (enter info.name info r)
unfolding enter
enter-IsConsistent info r new_name new_token v = record {
  names = λ n t e.
      let by_name = lookup-insert info.name n info.vtoken r.by_name in
      let by_token = lookup-insert info.vtoken t info r.by_vtoken in
      elim (Bool-cases (text_eq info.name n)) [
        | inl same ↦ (
          info,
          ground (arith, text_eq_iff info.vtoken t),
          ground (arith, text_eq_iff info.name n),
        )
        | inr other ↦
            let (i, found, named) = v.names n t (ground arith) in
            (i, ground (arith, text_eq_iff info.vtoken t), named)
      ];
  tokens = λ t i e.
      let by_token = lookup-insert info.vtoken t info r.by_vtoken in
      let by_name = lookup-insert info.name i.name info.vtoken r.by_name in
      elim (Bool-cases (text_eq info.vtoken t)) [
        | inl same ↦ (
          ground (arith, text_eq_iff info.vtoken t),
          ground (arith, text_eq_iff info.vtoken t, text_eq_iff info.name i.name),
        )
        | inr other ↦
            let (own, named) = v.tokens t i (ground arith) in
            (own, ground (arith, text_eq_iff info.name i.name))
      ];
}

pub modify-IsConsistent :
    (k : Text) (f : ClientInfo → ClientInfo) (r : ClientRegistry)
    → ((c : ClientInfo) → ((f c).name ≡ c.name) × ((f c).vtoken ≡ c.vtoken))
    → IsConsistent r
    → IsConsistent (record r { by_vtoken = modify k f r.by_vtoken })
modify-IsConsistent k f r keeps v = record {
  names = λ n t e.
      let (i, found, named) = v.names n t e in
      let changed = lookup-modify k t f r.by_vtoken in
      elim (Bool-cases (text_eq k t)) [
        | inl same ↦ (f i, changed ∙ rw (same, found) refl, (keeps i).0 ∙ named)
        | inr other ↦ (i, changed ∙ rw other found, named)
      ];
  tokens = λ t i e.
      let changed = lookup-modify k t f r.by_vtoken in
      elim (Option-cases (lookup t r.by_vtoken)) [
        | inl gone ↦ absurd (ground arith)
        | inr (c, found) ↦
            let (own, named) = v.tokens t c found in
            let same = keeps c in
            elim (Bool-cases (text_eq k t)) [
              | inl here ↦
                  let stored : lookup t (modify k f r.by_vtoken) ≡ some (f c) =
                    changed ∙ rw (here, found) refl in
                  let e' : f c ≡ i = cc in rw (← e', same.0, same.1) (own, named)
              | inr other ↦ let e' : c ≡ i = ground arith in rw (← e') (own, named)
            ]
      ];
}

-- Removing a client takes its name and its token out together.
pub remove-IsConsistent :
    (name vtoken : Text) (r : ClientRegistry)
    → lookup name r.by_name ≡ some vtoken
    → IsConsistent r
    → IsConsistent
        (record { by_vtoken = remove vtoken r.by_vtoken; by_name = remove name r.by_name })
remove-IsConsistent name vtoken r known v = record {
  names = λ n t e.
      let (own, owned, called) = v.names name vtoken known in
      let left = lookup-remove name n r.by_name in
      let (i, found, named) = v.names n t (ground arith) in
      let left' = lookup-remove vtoken t r.by_vtoken in
      (i, ground (arith, text_eq_iff vtoken t, text_eq_iff name n), named);
  tokens = λ t i e.
      let left' = lookup-remove vtoken t r.by_vtoken in
      let (own, named) = v.tokens t i (ground arith) in
      let left = lookup-remove name i.name r.by_name in
      (own, ground (arith, text_eq_iff name i.name, text_eq_iff vtoken t));
}

-- Renaming a client to a free name moves its name and leaves its token.
pub rename-IsConsistent :
    (old_name new_name vtoken : Text) (label : Option Text) (r : ClientRegistry)
    → lookup old_name r.by_name ≡ some vtoken
    → lookup new_name r.by_name ≡ none
    → IsConsistent r
    → IsConsistent (record {
      by_vtoken = modify vtoken (rename new_name label) r.by_vtoken;
      by_name = insert new_name vtoken (remove old_name r.by_name);
    })
rename-IsConsistent old_name new_name vtoken label r known free v =
    let (own, owned, called) = v.names old_name vtoken known in
    record {
      names = λ n t e.
          let put = lookup-insert new_name n vtoken (remove old_name r.by_name) in
          let left = lookup-remove old_name n r.by_name in
          let changed = lookup-modify vtoken t (rename new_name label) r.by_vtoken in
          elim (Bool-cases (text_eq new_name n)) [
            | inl same ↦
                let e' : vtoken ≡ t = ground arith in
                (
                  rename new_name label own,
                  changed ∙ rw (← e', text_eq_refl vtoken, owned) refl,
                  (text_eq_iff new_name n).0 same,
                )
            | inr other ↦
                let (i, found, named) = v.names n t (ground arith) in
                let apart : text_eq vtoken t ≡ false =
                  ground (arith, text_eq_iff vtoken t, text_eq_iff old_name n) in
                (i, changed ∙ rw apart found, named)
          ];
      tokens = λ t i e.
          let changed = lookup-modify vtoken t (rename new_name label) r.by_vtoken in
          elim (Bool-cases (text_eq vtoken t)) [
            | inl same ↦
                let e' : vtoken ≡ t = (text_eq_iff vtoken t).0 same in
                let stored : lookup t (modify vtoken (rename new_name label) r.by_vtoken)
                    ≡ some (rename new_name label own) =
                  changed ∙ rw (same, ← e', owned) refl in
                let i' : rename new_name label own ≡ i = cc in
                let put = lookup-insert new_name new_name vtoken (remove old_name r.by_name) in
                rw (← i')
                  ((v.tokens vtoken own owned).0 ∙ e', ground (arith, text_eq_refl new_name))
            | inr other ↦
                let found : lookup t r.by_vtoken ≡ some i = ground arith in
                let (own', named) = v.tokens t i found in
                let put = lookup-insert new_name i.name vtoken (remove old_name r.by_name) in
                let left = lookup-remove old_name i.name r.by_name in
                (
                  own',
                  ground (
                    arith,
                    text_eq_iff vtoken t,
                    text_eq_iff old_name i.name,
                    text_eq_iff new_name i.name,
                  ),
                )
          ];
    }
