-- ===== src/Lib.antt =====
-- The core of iLink Hub: what the hub keeps of its clients, and how it takes messages in and
-- hands them out.
--
-- A WeChat message that the upstream service delivers is parsed for a command or a mention
-- (Command, Mention), is given a route (Router), which a quoted message may change (QuoteRoute
-- and Dispatch), and is pushed to the queue of the chosen client (Queue), which that client
-- polls. Clients are kept in a registry under the hash of their token (Registry, VtokenHash),
-- and get that token by pairing (Pairing). An allowlist says whom an agent may call and whom a
-- user sees (Acl). Limits on concurrent polls and on events guard the server (PollTracker,
-- RateLimiter), and tickets its event streams (SseTicket).
--
-- Which file models which code:
--   Message       src/ilink/types.rs: `WeixinMessage`, its items and `text`
--   Outbound      src/ilink/types.rs: the builders of replies, `ensure_outbound`, the message ids
--   Queue         src/hub/queue.rs: `PerClientSlot` (with its `SlotState`), `InMemoryQueue`
--   Pairing       src/hub/pairing.rs: `PairingRegistry`, and `PairingSession` in Pairing.Session
--   VtokenHash    src/hub/vtoken_hash.rs
--   Registry      src/hub/registry.rs: `ClientRegistry`, and `ClientInfo` in Registry.Client
--   Acl           src/hub/acl.rs: `AgentAcl`
--   Command       src/hub/router.rs: `HubCommand`, `parse_hub_command`
--   Mention       src/hub/router.rs: `parse_at_mention`
--   Router        src/hub/router.rs: `Router`, `RoutingDecision`
--   QuoteRoute    src/hub/quote_route.rs: `QuoteOrigin`, `merge_routing_with_quote`, and
--                 `parse_footer_from_quoted_text` in QuoteRoute.Footer; QuoteRoute.Quoted,
--                 QuoteRoute.Searches and QuoteRoute.Fallback model the resolvers of
--                 src/hub/dispatch/quote.rs: by id, by time and content, and by footer
--   Dispatch      src/hub/dispatch/pipeline.rs: where `dispatch_message` sends a message
--   OriginLabel   src/hub/outbound_label.rs
--   Store         src/store/: the tables; Store.Sessions, Store.Context, Store.Clients and
--                 Store.Messages model sessions.rs, context.rs, clients.rs and messages.rs
--   Hub           src/hub/state.rs, and src/hub/dispatch/hub_ext.rs and queue.rs
--   Mcp           src/mcp/waiter.rs; Mcp.Grant and Mcp.Call model tools.rs and the arm
--                 `call_agent` of router.rs
--   Bot           src/server/routes/: Bot.Auth models auth.rs, Bot.Send `sendmessage` of bot.rs,
--                 and Bot.History the row that it stores
--   PollTracker   src/hub/state.rs: `PollTracker`, `EnterOutcome`, `PollGuard`
--   RateLimiter   src/relay/ratelimit.rs
--   SseTicket     src/server/sse_ticket.rs
--   Base          texts, maps, lists and numbers, which all parts share
--
-- A method that changes its object is a function that returns the new object, beside its
-- result. A `HashMap` or `DashMap` keyed by strings is an association list whose operations are
-- those of the map; a `HashSet` is a list of distinct texts, and where the code iterates over
-- one, the list's order stands for the arbitrary order of the set. A string is the list of its
-- code points. What the code draws or reads from outside (the clock, random bytes, `uuid`, the
-- digest of `ring`, the variable of the environment) is an argument of the function that uses
-- it; an instant is a number of nanoseconds, and a difference of instants stops at zero, as
-- `Instant` does.
--
-- A table of the database is the list of its rows in the order of insertion, and a statement of
-- SQL is the change of the rows that it makes (Base.Rows); the engine and the driver are taken
-- to do what SQL says. A call of the store that fails or times out changes nothing; the
-- handlers take an argument for each call that says whether it does. The effects of a handler
-- on the world outside (the message for the upstream service, the row for the history, the
-- notice in the chat) are part of its result. A JSON value is a parameter, and so are the calls
-- of `serde_json` on it that find what is quoted. Texts of errors are constructors that
-- carry what the text names.
--
-- Widths: an expiry is an `i64` that is not negative and saturates, a call depth a `u8`.
-- `next_seq` of a queue is a `u64` that wraps, and theorems on runs ask that fewer than 2^63
-- messages are pushed, since the code also reads the number as an `i64`. `total` of a poll
-- tracker is a `usize` of 64 bits that wraps, and the theorems ask for fewer than 2^64
-- requests. A message id is an `i64`. No function runs on fuel: every loop is structural.
--
-- Not modelled: the listings of the message history, migrations, encryption and retention
-- of the store; the HTTP handlers but `sendmessage`, the web sockets, the upstream client and
-- logging; what the dispatch pipeline does once it has decided, the command handlers and the
-- relay's devices. Mutexes are taken for what they protect: a call under one lock is one step,
-- and so is each statement of the database. Only for the poll tracker, which also uses atomics,
-- are the steps of several requests interleaved; the theorems on calls of agents let any store
-- come between the begin of a call and its end.
pub mod Base
pub mod Message
pub mod Queue
pub mod Pairing
pub mod VtokenHash
pub mod Registry
pub mod Acl
pub mod Command
pub mod Bot
pub mod Hub
pub mod Mcp
pub mod Mention
pub mod Router
pub mod PollTracker
pub mod OriginLabel
pub mod Outbound
pub mod RateLimiter
pub mod Store
pub mod SseTicket
pub mod QuoteRoute
pub mod Dispatch
