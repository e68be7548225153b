-- ===== src/Store/Listing.antt =====
-- The listing of a pair's backend sessions names all of them.
use ilink_hub.Base.{
  Text, List, [], ◌∷◌, map, Bool, false, ◌||◌, ◌≡◌, refl, ◌∙◌, arith, text_eq, is_some, Bool-cases,
  Option-cases,
}
use ilink_hub.Base.Rows.{any, find, select, any-find}
use ilink_hub.Base.Order.{sort_by, place, text_le}
use ilink_hub.Store.{Store, BackendSession, backend_key, backend_pair}
use ilink_hub.Store.Sessions.{get_backend_session, list_backend_sessions}

-- Whether a name is among the rows.
unfoldable pub listed : Text → List (Text × Text) → Bool
listed name [] = false
listed name ((k, id) ∷ rows) = text_eq k name || listed name rows

module _ {ℓ} {A : Type ℓ} (p : A → Bool) (le : A → A → Bool) where
  any-place : (a : A) (xs : List A) → any p (place le a xs) ≡ (p a || any p xs)
  unfolding any place
  any-place a [] = refl
  any-place a (x ∷ xs) = ground (arith, any-place a xs, Bool-cases (p a), Bool-cases (p x))

  any-sort_by : (xs : List A) → any p (sort_by le xs) ≡ any p xs
  unfolding any sort_by
  any-sort_by [] = refl
  any-sort_by (x ∷ xs) = ground (arith, any-place x (sort_by le xs), any-sort_by xs)

listed-map :
    (name : Text) (rs : List BackendSession)
    → listed name (map (λ r. (r.session_name, r.backend_session_id)) rs)
      ≡ any (λ r. text_eq r.session_name name) rs
unfolding listed any
listed-map name [] = refl
listed-map name (r ∷ rs) = ground (arith, listed-map name rs)

any-select :
    (vctx vtoken name : Text) (rs : List BackendSession)
    → any (λ r. text_eq r.session_name name) (select (backend_pair vctx vtoken) rs)
      ≡ any (backend_key vctx vtoken name) rs
unfolding any select backend_pair backend_key
any-select vctx vtoken name [] = refl
any-select vctx vtoken name (r ∷ rs) =
    ground (arith, any-select vctx vtoken name rs, Bool-cases (text_eq r.session_name name))

-- A name is listed exactly when the pair has a session of it.
pub listed-list_backend_sessions :
    (vctx vtoken name : Text) (s : Store)
    → listed name (list_backend_sessions vctx vtoken s)
      ≡ is_some (get_backend_session vctx vtoken name s)
unfolding get_backend_session list_backend_sessions
listed-list_backend_sessions vctx vtoken name s =
    let rs = select (backend_pair vctx vtoken) s.backend_sessions in
    listed-map name (sort_by (λ (a b : BackendSession). text_le a.session_name b.session_name) rs)
    ∙ any-sort_by (λ r. text_eq r.session_name name)
        (λ (a b : BackendSession). text_le a.session_name b.session_name) rs
    ∙ any-select vctx vtoken name s.backend_sessions
    ∙ any-find (backend_key vctx vtoken name) s.backend_sessions
    ∙ ground (arith, Option-cases (find (backend_key vctx vtoken name) s.backend_sessions))
