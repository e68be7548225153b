-- ===== src/Registry/Runs.antt =====
-- The calls of src/hub/registry.rs keep its two maps consistent.
use ilink_hub.Base.{
  ℕ, ◌≡◌, refl, Text, text_eq, List, [], ◌∷◌, Option, none, some, Bool-cases, Option-cases, inl,
  inr,
}
use ilink_hub.Base.Map.{lookup}
use ilink_hub.VtokenHash.{hash_vtoken}
use ilink_hub.Registry.{
  ClientRegistry, new_client, plain_vtoken, with_hashed_vtoken, refresh, register,
  register_with_vtoken, register_confirmed, rotate_vtoken, update_metadata, set_persona,
  set_description, mark_online, mark_offline, remove_client, update_client, or_keep,
}
use ilink_hub.Registry.Consistency.{
  IsConsistent, enter-IsConsistent, modify-IsConsistent, remove-IsConsistent, rename-IsConsistent,
}
use ilink_hub.Registry.Rotation.{rotated-IsConsistent}

pub data Call : Type 0 where
  registers : Text → Option Text → Option Text → Text → ℕ → Call
  loads : Text → Option Text → Option Text → Option Text → Text → ℕ → Call
  confirms : Text → Option Text → Option Text → Text → ℕ → Call
  rotates : Text → Text → Call
  describes : Text → Option Text → Option Text → Option Text → Option Text → Call
  personas : Text → Option Text → Option Text → Call
  descriptions : Text → Option Text → Call
  onlines : Text → Call
  offlines : Text → Call
  removes : Text → Call
  updates : Text → Text → Option Text → Call

module _ (sha256 : List ℕ → List ℕ) where
  unfoldable pub step : ClientRegistry → Call → ClientRegistry
  step r (registers n l d uuid now) = (register sha256 n l d uuid now r).0
  step r (loads n l d vt uuid now) = (register_with_vtoken sha256 n l d vt uuid now r).0
  step r (confirms n l d hash now) = (register_confirmed n l d hash now r).0
  step r (rotates n uuid) = (rotate_vtoken sha256 n uuid r).0
  step r (describes vt l d p e) = update_metadata vt l d p e r
  step r (personas vt p e) = set_persona vt p e r
  step r (descriptions vt d) = set_description vt d r
  step r (onlines vt) = mark_online vt r
  step r (offlines vt) = mark_offline vt r
  step r (removes n) = (remove_client n r).0
  step r (updates old new l) = (update_client old new l r).0

  abbrev pub Unused : Text → ClientRegistry → Type 0
  Unused hash r = lookup hash r.by_vtoken ≡ none

  -- The hash that a call may give to a client is no client's yet: drawn identifiers and stored
  -- hashes are distinct.
  abbrev pub IsFresh : ClientRegistry → Call → Type 0
  IsFresh r (registers n l d uuid now) = Unused (hash_vtoken sha256 (plain_vtoken uuid)) r
  IsFresh r (loads n l d none uuid now) = Unused (hash_vtoken sha256 (plain_vtoken uuid)) r
  IsFresh r (loads n l d (some hash) uuid now) = Unused hash r
  IsFresh r (confirms n l d hash now) = Unused hash r
  IsFresh r (rotates n uuid) = Unused (hash_vtoken sha256 (plain_vtoken uuid)) r
  IsFresh r _ = Unit {0}

  abbrev pub AllFresh : ClientRegistry → List Call → Type 0
  AllFresh r [] = Unit {0}
  AllFresh r (c ∷ cs) = IsFresh r c × AllFresh (step r c) cs

  unfoldable pub run : ClientRegistry → List Call → ClientRegistry
  run r [] = r
  run r (c ∷ cs) = run (step r c) cs

  register-IsConsistent :
      (n : Text) (l d : Option Text) (uuid : Text) (now : ℕ) (r : ClientRegistry)
      → Unused (hash_vtoken sha256 (plain_vtoken uuid)) r
      → IsConsistent r
      → IsConsistent (register sha256 n l d uuid now r).0
  unfolding register
  register-IsConsistent n l d uuid now r fresh v = elim (Option-cases (lookup n r.by_name)) [
    | inl e ↦ rw (e, register) (enter-IsConsistent (new_client sha256 n l d uuid now).0 r e fresh v)
    | inr (old, e) ↦
        rw (e, register) (modify-IsConsistent old (refresh l d) r (λ c. (refl, refl)) v)
  ]

  load-IsConsistent :
      (n : Text) (l d vt : Option Text) (uuid : Text) (now : ℕ) (r : ClientRegistry)
      → IsFresh r (loads n l d vt uuid now)
      → IsConsistent r
      → IsConsistent (register_with_vtoken sha256 n l d vt uuid now r).0
  unfolding register_with_vtoken
  load-IsConsistent n l d none uuid now r fresh v = elim (Option-cases (lookup n r.by_name)) [
    | inl e ↦
        rw (e, register_with_vtoken)
          (enter-IsConsistent (new_client sha256 n l d uuid now).0 r e fresh v)
    | inr (old, e) ↦
        rw (e, register_with_vtoken) (modify-IsConsistent old (refresh l d) r (λ c. (refl, refl)) v)
  ]
  load-IsConsistent n l d (some hash) uuid now r fresh v =
      elim (Option-cases (lookup n r.by_name)) [
        | inl e ↦
            rw (e, register_with_vtoken)
              (enter-IsConsistent (with_hashed_vtoken n l d hash now) r e fresh v)
        | inr (old, e) ↦
            rw (e, register_with_vtoken)
              (modify-IsConsistent old (refresh l d) r (λ c. (refl, refl)) v)
      ]

  confirm-IsConsistent :
      (n : Text) (l d : Option Text) (hash : Text) (now : ℕ) (r : ClientRegistry)
      → Unused hash r
      → IsConsistent r
      → IsConsistent (register_confirmed n l d hash now r).0
  unfolding register_confirmed
  confirm-IsConsistent n l d hash now r fresh v = elim (Option-cases (lookup n r.by_name)) [
    | inl e ↦
        rw (e, register_confirmed)
          (enter-IsConsistent (with_hashed_vtoken n l d hash now) r e fresh v)
    | inr (old, e) ↦ rw (e, register_confirmed) v
  ]

  rotate-IsConsistent :
      (n uuid : Text) (r : ClientRegistry)
      → Unused (hash_vtoken sha256 (plain_vtoken uuid)) r
      → IsConsistent r
      → IsConsistent (rotate_vtoken sha256 n uuid r).0
  unfolding rotate_vtoken
  rotate-IsConsistent n uuid r fresh v = elim (Option-cases (lookup n r.by_name)) [
    | inl e ↦ rw (e, rotate_vtoken) v
    | inr (old, e) ↦
        let (info, held, _) = v.names n old e in
        rw (e, held, rotate_vtoken)
          (rotated-IsConsistent n old (hash_vtoken sha256 (plain_vtoken uuid)) info r e held fresh
            v)
  ]

  remove_client-IsConsistent :
      (n : Text) (r : ClientRegistry) → IsConsistent r → IsConsistent (remove_client n r).0
  unfolding remove_client
  remove_client-IsConsistent n r v = elim (Option-cases (lookup n r.by_name)) [
    | inl e ↦ rw (e, remove_client) v
    | inr (vt, e) ↦ rw (e, remove_client) (remove-IsConsistent n vt r e v)
  ]

  update_client-IsConsistent :
      (old new : Text) (l : Option Text) (r : ClientRegistry)
      → IsConsistent r
      → IsConsistent (update_client old new l r).0
  unfolding update_client
  update_client-IsConsistent old new l r v = elim (Option-cases (lookup old r.by_name)) [
    | inl e ↦ rw (e, update_client) v
    | inr (vt, e) ↦
        let (info, held, _) = v.names old vt e in
        elim (Bool-cases (text_eq new old)) [
          | inl same ↦
              rw (e, same, held, same, update_client)
                (modify-IsConsistent vt (λ c. record c { label = or_keep l c.label }) r
                  (λ c. (refl, refl)) v)
          | inr other ↦ elim (Option-cases (lookup new r.by_name)) [
            | inl free ↦
                rw (e, other, free, held, other, update_client)
                  (rename-IsConsistent old new vt l r e free v)
            | inr (taken, e') ↦ rw (e, other, e', update_client) v
          ]
        ]
  ]

  step-IsConsistent :
      (c : Call) (r : ClientRegistry) → IsFresh r c → IsConsistent r → IsConsistent (step r c)
  unfolding step update_metadata set_persona set_description mark_online mark_offline
  step-IsConsistent (registers n l d uuid now) r f v = register-IsConsistent n l d uuid now r f v
  step-IsConsistent (loads n l d vt uuid now) r f v = load-IsConsistent n l d vt uuid now r f v
  step-IsConsistent (confirms n l d hash now) r f v = confirm-IsConsistent n l d hash now r f v
  step-IsConsistent (rotates n uuid) r f v = rotate-IsConsistent n uuid r f v
  step-IsConsistent (describes vt l d p e) r f v = modify-IsConsistent vt _ r (λ c. (refl, refl)) v
  step-IsConsistent (personas vt p e) r f v = modify-IsConsistent vt _ r (λ c. (refl, refl)) v
  step-IsConsistent (descriptions vt d) r f v = modify-IsConsistent vt _ r (λ c. (refl, refl)) v
  step-IsConsistent (onlines vt) r f v = modify-IsConsistent vt _ r (λ c. (refl, refl)) v
  step-IsConsistent (offlines vt) r f v = modify-IsConsistent vt _ r (λ c. (refl, refl)) v
  step-IsConsistent (removes n) r f v = remove_client-IsConsistent n r v
  step-IsConsistent (updates old new l) r f v = update_client-IsConsistent old new l r v

  -- Any sequence of calls whose new hashes are unused when they come keeps the maps consistent:
  -- every name leads to a client of that name, and every client is found by the token and the
  -- name that it carries.
  pub run-IsConsistent :
      (cs : List Call) (r : ClientRegistry)
      → AllFresh r cs
      → IsConsistent r
      → IsConsistent (run r cs)
  unfolding run
  run-IsConsistent [] r f v = v
  run-IsConsistent (c ∷ cs) r f v = run-IsConsistent cs (step r c) f.1 (step-IsConsistent c r f.0 v)
