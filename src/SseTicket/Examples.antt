-- ===== src/SseTicket/Examples.antt =====
-- The tickets of src/server/sse_ticket.rs at concrete draws.
use ilink_hub.Base.{◌+◌, ◌≡◌, refl, codes, text_eq, is_empty, [], ◌∷◌, ltb, arith}
use ilink_hub.VtokenHash.{hex_lower}
use ilink_hub.SseTicket.{SseTicketStore, ticket_ttl, ticket_of, issue, consume}
use ilink_hub.SseTicket.Redemption.{is_good, issue-consume}

abbrev store : SseTicketStore
store = (codes "00ff", 40) ∷ (codes "01", 3) ∷ []

issue-consume_example :
    ((consume 9 (ticket_of (2 ∷ [])) (issue 7 (2 ∷ []) store).0).1 ≡ ltb 9 (7 + ticket_ttl))
    × (is_good 9 (codes "00ff") (issue 7 (2 ∷ []) store).0 ≡ is_good 9 (codes "00ff") store)
unfolding hex_lower is_empty text_eq
issue-consume_example = issue-consume 7 9 (2 ∷ []) (codes "00ff") store (omega arith) refl refl
