-- ===== src/Mcp/Depth.antt =====
-- The depth of the conversations that agents are found in.
use ilink_hub.Base.{ℕ, ◌≤◌, Text, List, [], Bool, false, Option, some, ◌≡◌, leb}
use ilink_hub.Store.{Store, ActiveSession}
use ilink_hub.Store.Sessions.{
  ActiveCtxInfo, get_active_ctx_for_vtoken, set_active_session_name, set_active_session_with_depth,
  revoke_authorizations_for_vtoken,
}
use ilink_hub.Mcp.Grant.{
  ReleaseFails, max_a2a_depth, prev_active, target_depth, lend, release_a2a_grant,
}

abbrev Shallow : ActiveSession → Type 0
Shallow r = r.a2a_depth ≤ max_a2a_depth

-- Stores that the hub's operations on grants lead to: the dispatch of a user's message, the
-- choice of a session, the calls of agents through the guard of `handle_tools_call`, their
-- releases and revocations.
pub data Reached : Store → Type 0 where
  start : (s : Store) → s.active_sessions ≡ [] → Reached s
  dispatched :
      (now stamp : ℕ) (vctx vtoken name : Text) {s : Store}
      → Reached s
      → Reached (set_active_session_with_depth now stamp vctx vtoken name 0 s)
  chosen :
      (now stamp : ℕ) (vctx vtoken name : Text) {s : Store}
      → Reached s
      → Reached (set_active_session_name now stamp vctx vtoken name s)
  called :
      (fails : Bool) (now stamp : ℕ) (caller target key : Text) (info : ActiveCtxInfo) {s : Store}
      → get_active_ctx_for_vtoken now caller s ≡ some info
      → leb max_a2a_depth info.a2a_depth ≡ false
      → Reached s
      → Reached (lend fails now stamp info.vctx target key (target_depth info.a2a_depth) s)
  released :
      (fails : ReleaseFails) (fails_row : Bool) (now stamp : ℕ) (vctx target key : Text)
      (pre : Option (List Text)) {before s : Store}
      → Reached before
      → Reached s
      → Reached (
          release_a2a_grant fails now stamp vctx target key
            (prev_active fails_row vctx target before)
            pre
            s)
  revoked :
      (vtoken : Text) {s : Store} → Reached s → Reached (revoke_authorizations_for_vtoken vtoken s)
