-- ===== src/Registry/Examples.antt =====
-- The registry of src/hub/registry.rs with one client.
use ilink_hub.Base.{
  ℕ, ◌≡◌, ◌≢◌, refl, Text, codes, text_eq, text_eq_iff, arith, List, [], ◌∷◌, none, some, false,
  if◌then◌else◌,
}
use ilink_hub.Base.Map.{lookup, insert}
use ilink_hub.Base.Order.{contains, sort_by, parse_usize}
use ilink_hub.VtokenHash.{hash_vtoken, hex_lower}
use ilink_hub.Registry.{
  ClientInfo, ClientRegistry, empty, enter, with_hashed_vtoken, plain_vtoken, rotate_vtoken,
  get_by_vtoken, get_by_name, get_by_alias_in, nth_visible, all_clients_in,
}
use ilink_hub.Registry.Consistency.{IsConsistent, enter-IsConsistent}
use ilink_hub.Registry.Rotation.{moved, rotate_vtoken_lem}
use ilink_hub.Registry.Runs.{Call, registers, removes, onlines, updates, run, run-IsConsistent}

differs : (a b : Text) → text_eq a b ≡ false → a ≢ b
differs a b h = ground (arith, h, text_eq_iff a b)

-- A stand-in for the digest.
abbrev digest : List ℕ → List ℕ
digest bytes = []

empty-IsConsistent : IsConsistent empty
unfolding lookup
empty-IsConsistent = record { names = λ n t e. cc; tokens = λ t i e. cc }

abbrev mac : ClientInfo
mac = with_hashed_vtoken (codes "mac") none none (codes "h1") 0

abbrev one_client : ClientRegistry
one_client = record { by_vtoken = (codes "h1", mac) ∷ []; by_name = (codes "mac", codes "h1") ∷ [] }

one_client-IsConsistent : IsConsistent one_client
unfolding lookup enter insert
one_client-IsConsistent = enter-IsConsistent mac empty refl refl empty-IsConsistent

found : get_by_name (codes "mac") one_client ≡ some mac
unfolding get_by_name lookup text_eq
found = refl

abbrev calls : List Call
calls =
    registers (codes "mac") none none (codes "1") 0
    ∷ onlines (codes "h1")
    ∷ updates (codes "mac") (codes "pc") none
    ∷ removes (codes "pc")
    ∷ []

run-IsConsistent_example : IsConsistent (run digest empty calls)
unfolding lookup
run-IsConsistent_example =
    run-IsConsistent digest calls empty (refl, (tt, (tt, (tt, tt)))) empty-IsConsistent

rotate_vtoken_lem_example :
    let new_hash = hash_vtoken digest (plain_vtoken (codes "2")) in
    let after = (rotate_vtoken digest (codes "mac") (codes "2") one_client).0 in
    ((rotate_vtoken digest (codes "mac") (codes "2") one_client).1
      ≡ some (plain_vtoken (codes "2"), new_hash))
    × (get_by_vtoken mac.vtoken after ≡ none)
    × (get_by_vtoken new_hash after ≡ some (moved new_hash mac))
    × (get_by_name (codes "mac") after ≡ some (moved new_hash mac))
    × (get_by_vtoken (codes "h3") after ≡ (
        if text_eq new_hash (codes "h3")
        then some (moved new_hash mac)
        else if text_eq mac.vtoken (codes "h3")
        then none
        else get_by_vtoken (codes "h3") one_client))
unfolding lookup text_eq hash_vtoken hex_lower
rotate_vtoken_lem_example =
    rotate_vtoken_lem digest (codes "mac") (codes "2") (codes "h3") mac one_client
      one_client-IsConsistent found refl

by_number : get_by_alias_in (codes "1") (some (codes "mac" ∷ [])) one_client ≡ some mac
unfolding get_by_alias_in get_by_name lookup text_eq parse_usize nth_visible sort_by all_clients_in
    contains
by_number = refl
