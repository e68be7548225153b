-- ===== src/SseTicket/Redemption.antt =====
-- When a ticket of src/server/sse_ticket.rs is accepted.
use ilink_hub.Base.{
  ℕ, ◌+◌, ◌≡◌, ◌≤◌, Text, text_eq, text_eq_refl, is_empty, List, none, some, Bool, false, ltb,
  arith,
}
use ilink_hub.Base.Map.{lookup, retain, lookup-insert, lookup-remove, lookup-retain}
use ilink_hub.SseTicket.{SseTicketStore, ticket_ttl, ticket_of, issue, consume}

-- Whether a ticket is good at a time.
abbrev pub is_good : ℕ → Text → SseTicketStore → Bool
is_good now ticket store = elim (lookup ticket store) [ none ↦ false | some exp ↦ ltb now exp ]

-- A call that consumes the ticket of the call before it is refused, whatever the clock says.
pub consume_twice :
    (now later : ℕ) (ticket : Text) (store : SseTicketStore)
    → (consume later ticket (consume now ticket store).0).1 ≡ false
unfolding consume
consume_twice now later ticket store =
    ground (arith, text_eq_refl ticket, lookup-remove ticket ticket store)

-- Consuming one ticket leaves every other ticket as good as it was.
pub consume-is_good :
    (now later : ℕ) (ticket other : Text) (store : SseTicketStore)
    → text_eq ticket other ≡ false
    → is_good later other (consume now ticket store).0 ≡ is_good later other store
unfolding consume
consume-is_good now later ticket other store apart =
    ground (arith, apart, lookup-remove ticket other store)

-- A ticket that is not empty is accepted, next after it is issued, less than 30 seconds later and not after that; issuing leaves every
-- other ticket as good as it was at that time and later, the pruned ones included.
pub issue-consume :
    (now later : ℕ) (bytes : List ℕ) (other : Text) (store : SseTicketStore)
    → now ≤ later
    → is_empty (ticket_of bytes) ≡ false
    → text_eq (ticket_of bytes) other ≡ false
    → ((consume later (ticket_of bytes) (issue now bytes store).0).1 ≡ ltb later (now + ticket_ttl))
      × (is_good later other (issue now bytes store).0 ≡ is_good later other store)
unfolding issue consume
issue-consume now later bytes other store order full apart =
    let kept = retain (λ exp. ltb now exp) store in
    (
      ground (
        arith,
        full,
        text_eq_refl (ticket_of bytes),
        lookup-insert (ticket_of bytes) (ticket_of bytes) (now + ticket_ttl) kept,
      ),
      ground (
        arith,
        order,
        apart,
        lookup-insert (ticket_of bytes) other (now + ticket_ttl) kept,
        lookup-retain (λ exp. ltb now exp) other store,
      ),
    )
