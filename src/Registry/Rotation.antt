-- ===== src/Registry/Rotation.antt =====
-- `rotate_vtoken` of src/hub/registry.rs.
use ilink_hub.Base.{
  ℕ, ◌≡◌, refl, ◌∙◌, Text, text_eq, text_eq_iff, text_eq_refl, List, none, some, false,
  if◌then◌else◌, arith, Bool-cases, Option-cases, inl, inr,
}
use ilink_hub.Base.Map.{lookup, insert, remove, lookup-insert, lookup-remove}
use ilink_hub.VtokenHash.{hash_vtoken}
use ilink_hub.Registry.{
  ClientInfo, ClientRegistry, plain_vtoken, rotate_vtoken, get_by_name, get_by_vtoken,
}
use ilink_hub.Registry.Consistency.{IsConsistent}

-- The client of a rotated token, and the registry that holds it.
abbrev pub moved : Text → ClientInfo → ClientInfo
moved new_hash info = record info { vtoken = new_hash; online = false }

abbrev pub rotated : Text → Text → Text → ClientInfo → ClientRegistry → ClientRegistry
rotated name old_hash new_hash info r = record {
  by_vtoken = insert new_hash (moved new_hash info) (remove old_hash r.by_vtoken);
  by_name = insert name new_hash r.by_name;
}

pub rotated-IsConsistent :
    (name old_hash new_hash : Text) (info : ClientInfo) (r : ClientRegistry)
    → lookup name r.by_name ≡ some old_hash
    → lookup old_hash r.by_vtoken ≡ some info
    → lookup new_hash r.by_vtoken ≡ none
    → IsConsistent r
    → IsConsistent (rotated name old_hash new_hash info r)
rotated-IsConsistent name old_hash new_hash info r known held fresh v =
    let (own, owned, called) = v.names name old_hash known in
    let same_info : own ≡ info = ground arith in
    let named : info.name ≡ name = rw (← same_info) called in
    record {
      names = λ n t e.
          let put = lookup-insert name n new_hash r.by_name in
          let put' = lookup-insert new_hash t (moved new_hash info) (remove old_hash r.by_vtoken) in
          let left = lookup-remove old_hash t r.by_vtoken in
          elim (Bool-cases (text_eq name n)) [
            | inl same ↦ (
              moved new_hash info,
              ground (arith, text_eq_iff new_hash t),
              named ∙ (text_eq_iff name n).0 same,
            )
            | inr other ↦
                let (i, found, called') = v.names n t (ground arith) in
                (
                  i,
                  ground
                      (arith, text_eq_iff new_hash t, text_eq_iff old_hash t, text_eq_iff name n),
                  called',
                )
          ];
      tokens = λ t i e.
          let put' = lookup-insert new_hash t (moved new_hash info) (remove old_hash r.by_vtoken) in
          let left = lookup-remove old_hash t r.by_vtoken in
          let put = lookup-insert name i.name new_hash r.by_name in
          elim (Bool-cases (text_eq new_hash t)) [
            | inl same ↦ (
              ground (arith, text_eq_iff new_hash t),
              ground (arith, text_eq_iff new_hash t, text_eq_iff name i.name),
            )
            | inr other ↦
                let found : lookup t r.by_vtoken ≡ some i = ground arith in
                let (own', named') = v.tokens t i found in
                (own', ground (arith, text_eq_iff old_hash t, text_eq_iff name i.name))
          ];
    }

pub get_by_name-some :
    (name : Text) (info : ClientInfo) (r : ClientRegistry)
    → get_by_name name r ≡ some info
    → (t : Text) × (lookup name r.by_name ≡ some t) × (lookup t r.by_vtoken ≡ some info)
unfolding get_by_name
get_by_name-some name info r h = elim (Option-cases (lookup name r.by_name)) [
  | inl gone ↦ absurd (ground arith)
  | inr (t, e) ↦ (t, e, ground arith)
]

pub rotate_vtoken-rotated :
    (sha256 : List ℕ → List ℕ) (name uuid old : Text) (info : ClientInfo) (r : ClientRegistry)
    → lookup name r.by_name ≡ some old
    → lookup old r.by_vtoken ≡ some info
    → rotate_vtoken sha256 name uuid r ≡ (
      rotated name old (hash_vtoken sha256 (plain_vtoken uuid)) info r,
      some (plain_vtoken uuid, hash_vtoken sha256 (plain_vtoken uuid)),
    )
unfolding rotate_vtoken
rotate_vtoken-rotated sha256 name uuid old info r e held = rw (e, held, rotate_vtoken)

rotated-lookup :
    (name old new_hash t : Text) (info : ClientInfo) (r : ClientRegistry)
    → text_eq new_hash old ≡ false
    → (get_by_vtoken old (rotated name old new_hash info r) ≡ none)
      × (get_by_vtoken new_hash (rotated name old new_hash info r) ≡ some (moved new_hash info))
      × (get_by_name name (rotated name old new_hash info r) ≡ some (moved new_hash info))
      × (get_by_vtoken t (rotated name old new_hash info r) ≡ (
          if text_eq new_hash t
          then some (moved new_hash info)
          else if text_eq old t
          then none
          else get_by_vtoken t r))
unfolding get_by_name get_by_vtoken
rotated-lookup name old new_hash t info r apart =
    let at_old = lookup-insert new_hash old (moved new_hash info) (remove old r.by_vtoken) in
    let at_new = lookup-insert new_hash new_hash (moved new_hash info) (remove old r.by_vtoken) in
    let at_t = lookup-insert new_hash t (moved new_hash info) (remove old r.by_vtoken) in
    let name' = lookup-insert name name new_hash r.by_name in
    let self = text_eq_refl new_hash in
    let self' = text_eq_refl name in
    let self'' = text_eq_refl old in
    let gone = lookup-remove old old r.by_vtoken in
    let gone' = lookup-remove old t r.by_vtoken in
    (ground arith, ground arith, ground arith, ground arith)

-- Rotating the token of a registered client to a hash that no client has: the old hash
-- authenticates nobody, the new one and the name lead to the same client, now offline and
-- otherwise unchanged, and every other token leads where it led.
pub rotate_vtoken_lem :
    (sha256 : List ℕ → List ℕ) (name uuid t : Text) (info : ClientInfo) (r : ClientRegistry)
    → IsConsistent r
    → get_by_name name r ≡ some info
    → lookup (hash_vtoken sha256 (plain_vtoken uuid)) r.by_vtoken ≡ none
    → let new_hash = hash_vtoken sha256 (plain_vtoken uuid) in
      let after = (rotate_vtoken sha256 name uuid r).0 in
      ((rotate_vtoken sha256 name uuid r).1 ≡ some (plain_vtoken uuid, new_hash))
      × (get_by_vtoken info.vtoken after ≡ none)
      × (get_by_vtoken new_hash after ≡ some (moved new_hash info))
      × (get_by_name name after ≡ some (moved new_hash info))
      × (get_by_vtoken t after ≡ (
          if text_eq new_hash t
          then some (moved new_hash info)
          else if text_eq info.vtoken t
          then none
          else get_by_vtoken t r))
rotate_vtoken_lem sha256 name uuid t info r v known fresh =
    let new_hash : Text = hash_vtoken sha256 (plain_vtoken uuid) in
    let (old, e, held) = get_by_name-some name info r known in
    let own : info.vtoken ≡ old = (v.tokens old info held).0 in
    let apart : text_eq new_hash old ≡ false = ground (arith, text_eq_iff new_hash old) in
    rw (rotate_vtoken-rotated sha256 name uuid old info r e held, own)
      (let found = rotated-lookup name old new_hash t info r apart in
        (refl, found.0, found.1, found.2, found.3))
