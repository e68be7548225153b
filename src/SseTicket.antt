-- ===== src/SseTicket.antt =====
-- src/server/sse_ticket.rs: single-use tickets for event streams. Instants are nanoseconds; `issue`
-- is given the 16 bytes that it draws.
pub mod Redemption
mod Examples
use ilink_hub.Base.{
  ℕ, ◌+◌, ◌*◌, ◌^◌, Text, is_empty, List, [], ◌∷◌, Option, none, some, Bool, true, false, ltb,
  if◌then◌else◌,
}
use ilink_hub.Base.Map.{Map, lookup, insert, remove, retain}
use ilink_hub.VtokenHash.{hex_lower}

abbrev pub ticket_ttl : ℕ
ticket_ttl = 30 * 10 ^ 9

-- `ticket -> expiry instant`.
abbrev pub SseTicketStore : Type 0
SseTicketStore = Map ℕ

-- `format!("{b:02x}")` of every byte.
abbrev pub ticket_of : List ℕ → Text
ticket_of = hex_lower

unfoldable pub issue : ℕ → List ℕ → SseTicketStore → SseTicketStore × Text
issue now bytes store =
    let ticket = ticket_of bytes in
    (insert ticket (now + ticket_ttl) (retain (λ exp. ltb now exp) store), ticket)

unfoldable pub consume : ℕ → Text → SseTicketStore → SseTicketStore × Bool
consume now ticket store = if is_empty ticket then (store, false) else elim (lookup ticket store) [
  | none ↦ (remove ticket store, false)
  | some exp ↦ (remove ticket store, ltb now exp)
]
