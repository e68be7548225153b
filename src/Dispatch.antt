-- ===== src/Dispatch.antt =====
-- src/hub/dispatch/pipeline.rs: where `dispatch_message` sends a message of a user. What it then does
-- there (the queue, the command handlers, the extension of the message) is not part of it.
use ilink_hub.Base.{Text, [], List, map, Bool, false, Option, none, some, if◌then◌else◌, get_or}
use ilink_hub.Base.Int.{ℤ, pos, int_eq}
use ilink_hub.Message.{WeixinMessage, text}
use ilink_hub.Mention.{parse_at_mention}
use ilink_hub.Registry.{ClientInfo, ClientRegistry, all_clients, get_by_alias_in}
use ilink_hub.Acl.{AgentAcl, wechat_visible}
use ilink_hub.Router.{RoutingDecision, Router, route}
use ilink_hub.Store.{Store}
use ilink_hub.Store.Messages.{Message}
use ilink_hub.QuoteRoute.{QuoteOrigin, merge_routing_with_quote}
use ilink_hub.QuoteRoute.Quoted.{Json, resolve_quote_from_msg_id}
use ilink_hub.QuoteRoute.Searches.{resolve_quote_from_timestamp, resolve_quote_from_db}
use ilink_hub.QuoteRoute.Fallback.{resolve_quote_from_footer}

pub data Decision : Type 0 where
  dropped : Decision
  -- The token of the backend, the name it was called by and the text for it.
  mentioned : Text → Text → Text → Decision
  routed : RoutingDecision → Decision

-- What the pipeline reads: the parts of the hub's state, and which queries fail or are out of time.
pub record View : Type 0 where
  pub acl : AgentAcl
  pub registry : ClientRegistry
  pub router : Router
  pub store : Store
  pub messages : List Message
  pub fails_id : Bool
  pub fails_time : Bool
  pub fails_content : Bool
  pub fails_scope : Bool
  pub fails_session : Bool

-- `commands::wechat_visible`, the backends that a user sees.
unfoldable pub visible_to : AgentAcl → ClientRegistry → Text → Option (List Text)
visible_to acl registry from_user_id =
    wechat_visible acl from_user_id (map (λ (c : ClientInfo). c.name) (all_clients registry))

abbrev pub is_two : Option ℤ → Bool
is_two none = false
is_two (some n) = int_eq n (pos 2)

-- The first answer that there is.
abbrev pub or_else : Option QuoteOrigin → Option QuoteOrigin → Option QuoteOrigin
or_else none next = next
or_else (some q) next = some q

abbrev pub addressed : Text → Text → Option ClientInfo → Option (Text × Text × Text)
addressed name payload none = none
addressed name payload (some c) = some (c.vtoken, name, payload)

module _ {J : Type 0} where
  -- The copy of a message that the hub sent itself.
  unfoldable pub is_echo : WeixinMessage J → Bool
  is_echo msg = is_two msg.message_type

  -- The backend that a message mentions, if there is one that its sender sees.
  unfoldable pub mention_of :
      AgentAcl → ClientRegistry → WeixinMessage J → Option (Text × Text × Text)
  mention_of acl registry msg = elim (text msg) [
    | none ↦ none
    | some t ↦ elim (parse_at_mention t) [
      | none ↦ none
      | some (name, payload) ↦
          addressed name payload
            (get_by_alias_in name (visible_to acl registry (get_or msg.from_user_id [])) registry)
    ]
  ]

  -- The origin of the quoted message: by its id, its time, its content and its footer.
  unfoldable pub quoted_origin : Json J → View → WeixinMessage J → Option QuoteOrigin
  quoted_origin json v msg =
      or_else (resolve_quote_from_msg_id json v.fails_id v.messages v.registry msg) (
        or_else (resolve_quote_from_timestamp json v.fails_time v.messages v.registry msg) (
          or_else (resolve_quote_from_db json v.fails_content v.messages v.registry msg)
            (resolve_quote_from_footer json v.fails_scope v.fails_session v.store v.registry msg)))

  unfoldable pub decide : Json J → Text → View → WeixinMessage J → Decision
  decide json now v msg = if is_echo msg then dropped else elim (mention_of v.acl v.registry msg) [
    | some (vtoken, name, payload) ↦ mentioned vtoken name payload
    | none ↦ routed (merge_routing_with_quote (route now v.router msg) (quoted_origin json v msg))
  ]
