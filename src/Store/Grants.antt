-- ===== src/Store/Grants.antt =====
-- Who may speak in a conversation: grants, their expiry and their revocation.
use ilink_hub.Base.{
  ℕ, Text, List, [], ◌∷◌, Bool, true, false, ◌&&◌, ◌||◌, none, some, ◌≡◌, ◌≢◌, refl, ap, ◌∙◌, arith,
  if◌then◌else◌, ltb, is_some, get_or, text_eq, text_eq_iff, text_eq_refl, Bool-cases, Option-cases,
  inl, inr,
}
use ilink_hub.Base.Rows.{
  any, find, delete, any-find, any-delete, find-delete_other, any-delete_other, find-delete,
  any-upsert,
}
use ilink_hub.Store.{
  Store, ActiveSession, BackendSession, ContextToken, active_key, backend_pair, grant_expires_at,
  by_vctx,
}
use ilink_hub.Store.Sessions.{
  ActiveCtxInfo, active_ctx, newest, active_name, default_session, get_active_ctx_for_vtoken,
  set_active_session_with_depth, revoke_authorizations_for_vtoken,
}
use ilink_hub.Store.Context.{
  full_of, live_key, owns, resolve_send_context, vtoken_owns_vctx, resolve_context_token_full,
}
use ilink_hub.Store.Clients.{get_route, by_user}
use ilink_hub.Store.Keys.{live_key_token, backend_pair_token}

-- The lookup for `sendmessage` succeeds exactly when the conversation is known and the client
-- owns it by the test of `vtoken_owns_vctx`.
pub resolve_send_context-is_some :
    (now : ℕ) (vctx vtoken : Text) (s : Store)
    → is_some (resolve_send_context now vctx vtoken s)
      ≡ (is_some (resolve_context_token_full vctx s) && vtoken_owns_vctx now vctx vtoken s)
unfolding resolve_send_context resolve_context_token_full vtoken_owns_vctx
resolve_send_context-is_some now vctx vtoken s = ground (
  arith,
  Option-cases (find (by_vctx vctx) s.context_tokens),
  Bool-cases (owns now vctx vtoken s),
)

revoked_live :
    (now : ℕ) (vctx vtoken : Text) (rs : List ActiveSession)
    → any (live_key now vctx vtoken) (delete (λ r. text_eq r.vtoken vtoken) rs) ≡ false
revoked_live now vctx vtoken rs =
    any-delete (live_key now vctx vtoken) (λ r. text_eq r.vtoken vtoken)
      (λ r e. live_key_token now vctx vtoken vtoken r e ∙ text_eq_refl vtoken) rs

revoked_backend :
    (vctx vtoken : Text) (rs : List BackendSession)
    → any (backend_pair vctx vtoken) (delete (λ r. text_eq r.vtoken vtoken) rs) ≡ false
revoked_backend vctx vtoken rs =
    any-delete (backend_pair vctx vtoken) (λ r. text_eq r.vtoken vtoken)
      (λ r e. backend_pair_token vctx vtoken vtoken r e ∙ text_eq_refl vtoken) rs

kept_live :
    (now : ℕ) (vctx vtoken revoked : Text) (rs : List ActiveSession)
    → text_eq vtoken revoked ≡ false
    → find (live_key now vctx vtoken) (delete (λ r. text_eq r.vtoken revoked) rs)
      ≡ find (live_key now vctx vtoken) rs
kept_live now vctx vtoken revoked rs d =
    find-delete_other (live_key now vctx vtoken) (λ r. text_eq r.vtoken revoked)
      (λ r e. live_key_token now vctx vtoken revoked r e ∙ d) rs

kept_backend :
    (vctx vtoken revoked : Text) (rs : List BackendSession)
    → text_eq vtoken revoked ≡ false
    → any (backend_pair vctx vtoken) (delete (λ r. text_eq r.vtoken revoked) rs)
      ≡ any (backend_pair vctx vtoken) rs
kept_backend vctx vtoken revoked rs d =
    any-delete_other (backend_pair vctx vtoken) (λ r. text_eq r.vtoken revoked)
      (λ r e. backend_pair_token vctx vtoken revoked r e ∙ d) rs

revoked-owns :
    (now : ℕ) (vctx vtoken : Text) (s : Store)
    → owns now vctx vtoken (revoke_authorizations_for_vtoken vtoken s) ≡ false
unfolding owns revoke_authorizations_for_vtoken
revoked-owns now vctx vtoken s =
    rw (
      revoked_live now vctx vtoken s.active_sessions,
      revoked_backend vctx vtoken s.backend_sessions,
    )

kept-owns :
    (now : ℕ) (vctx vtoken revoked : Text) (s : Store)
    → text_eq vtoken revoked ≡ false
    → owns now vctx vtoken (revoke_authorizations_for_vtoken revoked s) ≡ owns now vctx vtoken s
unfolding owns revoke_authorizations_for_vtoken
kept-owns now vctx vtoken revoked s d = rw (
  kept_backend vctx vtoken revoked s.backend_sessions d,
  any-find (live_key now vctx vtoken) s.active_sessions,
  any-find (live_key now vctx vtoken) (delete (λ r. text_eq r.vtoken revoked) s.active_sessions),
  kept_live now vctx vtoken revoked s.active_sessions d,
)

-- A revoked token can send in no conversation any more, at any time; what every other token may
-- send, and under which session name, stays as it was.
pub revoke_authorizations-resolve_send_context :
    (now : ℕ) (vctx vtoken revoked : Text) (s : Store)
    → resolve_send_context now vctx vtoken (revoke_authorizations_for_vtoken revoked s)
      ≡ (if text_eq vtoken revoked then none else resolve_send_context now vctx vtoken s)
unfolding resolve_send_context revoke_authorizations_for_vtoken
revoke_authorizations-resolve_send_context now vctx vtoken revoked s =
    elim (Bool-cases (text_eq vtoken revoked)) [
      | inl same ↦
          let shut : owns now vctx vtoken (revoke_authorizations_for_vtoken revoked s) ≡ false =
            rw ((text_eq_iff vtoken revoked).0 same) (revoked-owns now vctx revoked s) in
          ground (arith, Option-cases (find (by_vctx vctx) s.context_tokens))
      | inr d ↦ ground (
        arith,
        Option-cases (find (by_vctx vctx) s.context_tokens),
        kept-owns now vctx vtoken revoked s d,
        kept_live now vctx vtoken revoked s.active_sessions d,
      )
    ]

pub set_active_session_with_depth-live :
    (later now stamp : ℕ) (vctx vtoken name : Text) (depth : ℕ) (s : Store)
    → any
        (live_key later vctx vtoken)
        (set_active_session_with_depth now stamp vctx vtoken name depth s).active_sessions
      ≡ ltb later (grant_expires_at now s)
unfolding set_active_session_with_depth live_key active_key
set_active_session_with_depth-live later now stamp vctx vtoken name depth s =
    any-upsert (active_key vctx vtoken) (λ r. ltb later r.expires_at) _ _ _
      (rw (text_eq_refl vctx, text_eq_refl vtoken)) refl (λ r e. e) (λ r. refl) s.active_sessions

-- A grant makes its token an owner of the conversation until it expires, `grant_ttl_secs` after
-- the clock reading of the grant; from then on only a named backend session makes it one.
pub set_active_session_with_depth-vtoken_owns_vctx :
    (later now stamp : ℕ) (vctx vtoken name : Text) (depth : ℕ) (s : Store)
    → vtoken_owns_vctx later vctx vtoken
        (set_active_session_with_depth now stamp vctx vtoken name depth s)
      ≡ (ltb later (grant_expires_at now s) || any (backend_pair vctx vtoken) s.backend_sessions)
unfolding vtoken_owns_vctx owns set_active_session_with_depth
set_active_session_with_depth-vtoken_owns_vctx later now stamp vctx vtoken name depth s =
    ap (λ (b : Bool). b || any (backend_pair vctx vtoken) s.backend_sessions)
      (set_active_session_with_depth-live later now stamp vctx vtoken name depth s)

-- What a row that the query joins says of the token's rights.
active_ctx-holds :
    (now : ℕ) (vtoken : Text) (tokens : List ContextToken) (r : ActiveSession) (i : ActiveCtxInfo)
    → active_ctx now vtoken tokens r ≡ some i
    → (live_key now i.vctx vtoken r ≡ true)
      × (full_of (find (by_vctx i.vctx) tokens) ≡ some (i.real_ctx, i.peer_user_id))
unfolding active_ctx live_key active_key
active_ctx-holds now vtoken tokens r i e =
    ground (arith, Option-cases (find (by_vctx r.vctx) tokens), text_eq_refl r.vctx)

newest-holds :
    (now : ℕ) (vtoken : Text) (tokens : List ContextToken) (rs : List ActiveSession) (t : ℕ)
    (i : ActiveCtxInfo)
    → newest (active_ctx now vtoken tokens) rs ≡ some (t, i)
    → (any (live_key now i.vctx vtoken) rs ≡ true)
      × (full_of (find (by_vctx i.vctx) tokens) ≡ some (i.real_ctx, i.peer_user_id))
unfolding newest any
newest-holds now vtoken tokens [] t i e = absurd (cc)
newest-holds now vtoken tokens (r ∷ rs) t i e =
    let head = active_ctx-holds now vtoken tokens r i in
    let tail = newest-holds now vtoken tokens rs in
    elim (Option-cases (active_ctx now vtoken tokens r)) [
      | inl skipped ↦ ground (arith, tail t i, Bool-cases (live_key now i.vctx vtoken r))
      | inr (j, joined) ↦ elim (Option-cases (newest (active_ctx now vtoken tokens) rs)) [
        | inl last ↦ ground (arith, head)
        | inr ((u, k), more) ↦
            ground (arith, head, tail u k, Bool-cases (live_key now i.vctx vtoken r))
      ]
    ]

-- The conversation that `call_agent` takes for its caller is one that the caller may send in at
-- that time, with the same real token and scope.
pub get_active_ctx_for_vtoken-resolve_send_context :
    (now : ℕ) (vtoken : Text) (s : Store) (i : ActiveCtxInfo)
    → get_active_ctx_for_vtoken now vtoken s ≡ some i
    → (name : Text) × (resolve_send_context now i.vctx vtoken s
        ≡ some (i.real_ctx, i.peer_user_id, name))
unfolding get_active_ctx_for_vtoken resolve_send_context owns
get_active_ctx_for_vtoken-resolve_send_context now vtoken s i e =
    elim (Option-cases (newest (active_ctx now vtoken s.context_tokens) s.active_sessions)) [
      | inl nothing ↦ absurd (ground arith)
      | inr ((t, j), found) ↦
          let (live, known) =
            newest-holds now vtoken s.context_tokens s.active_sessions t i (ground arith) in
          (
            get_or (active_name (find (live_key now i.vctx vtoken) s.active_sessions))
                default_session,
            ground (arith, Option-cases (find (by_vctx i.vctx) s.context_tokens)),
          )
    ]

-- A revoked token has no active conversation, and no user's route leads to it.
pub revoke_authorizations-get_active_ctx_for_vtoken :
    (now : ℕ) (vtoken from_user : Text) (s : Store)
    → (get_active_ctx_for_vtoken now vtoken (revoke_authorizations_for_vtoken vtoken s) ≡ none)
      × (get_route from_user (revoke_authorizations_for_vtoken vtoken s) ≢ some vtoken)
unfolding get_route revoke_authorizations_for_vtoken
revoke_authorizations-get_active_ctx_for_vtoken now vtoken from_user s = (
  elim (Option-cases
      (get_active_ctx_for_vtoken now vtoken (revoke_authorizations_for_vtoken vtoken s))) [
        | inl nothing ↦ nothing
        | inr (i, found) ↦
            let (name, sends) =
              get_active_ctx_for_vtoken-resolve_send_context now vtoken
                (revoke_authorizations_for_vtoken vtoken s) i found in
            absurd (
              ground (
                arith,
                text_eq_refl vtoken,
                revoke_authorizations-resolve_send_context now i.vctx vtoken vtoken s,
              ))
      ],
  λ routed.
      elim (Option-cases (
        find (by_user from_user) (delete (λ r. text_eq r.active_vtoken vtoken) s.routing_states))) [
          | inl nothing ↦ ground arith
          | inr (r, found) ↦ ground (
            arith,
            text_eq_refl vtoken,
            find-delete (by_user from_user) (λ r. text_eq r.active_vtoken vtoken) s.routing_states r
                found,
          )
        ],
)
