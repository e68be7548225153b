-- ===== src/Mcp/Chain.antt =====
-- Chains of calls between agents in one conversation: each agent is called by the one before it.
use ilink_hub.Base.{ℕ, suc, ◌≤◌, Text, List, false, some, ◌≡◌, leb}
use ilink_hub.Base.Rows.{select}
use ilink_hub.Store.{Store, ActiveSession, active_key}
use ilink_hub.Store.Sessions.{ActiveCtxInfo, get_active_ctx_for_vtoken}
use ilink_hub.Mcp.Grant.{max_a2a_depth, target_depth, lend}

-- The rows of a pair, of which the primary key allows one.
abbrev pub rows_of : Text → Text → Store → List ActiveSession
rows_of vctx vtoken s = select (active_key vctx vtoken) s.active_sessions

-- An agent at the end of a chain of so many calls in a conversation. The chain starts in any
-- store. An agent calls on when the guard of `handle_tools_call` lets it and it is found in this
-- conversation, and the store takes the grant. Between two calls the store may change, but for the
-- row of the agent in the conversation.
pub data Chain (vctx : Text) : ℕ → Text → Store → Type 0 where
  begins : (agent : Text) (s : Store) → Chain vctx 0 agent s
  calls :
      (now stamp : ℕ) (caller target key : Text) (info : ActiveCtxInfo) {n : ℕ} {s : Store}
      → Chain vctx n caller s
      → get_active_ctx_for_vtoken now caller s ≡ some info
      → info.vctx ≡ vctx
      → leb max_a2a_depth info.a2a_depth ≡ false
      → Chain vctx
          (suc n)
          target
          (lend false now stamp info.vctx target key (target_depth info.a2a_depth) s)
  others :
      (agent : Text) (t : Store) {n : ℕ} {s : Store}
      → Chain vctx n agent s
      → rows_of vctx agent t ≡ rows_of vctx agent s
      → Chain vctx n agent t

abbrev Deep : ℕ → ActiveSession → Type 0
Deep n r = n ≤ r.a2a_depth
