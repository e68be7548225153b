-- ===== src/Outbound/Ids.antt =====
-- The message ids that src/ilink/types.rs makes up.
use ilink_hub.Base.{ℕ, ◌+◌, ◌*◌, ◌%◌, ◌<◌, ◌≡◌, ◌↔◌, arith}
use ilink_hub.Base.Int.{pos}
use ilink_hub.Outbound.{new_outbound_msg_id}

-- The id is a number of `i64` that is not negative and has the time and the counter as its digits.
new_outbound_msg_id-pos :
    (millis counter : ℕ)
    → millis < 9223372036854
    → new_outbound_msg_id millis counter ≡ pos (millis * 1000000 + counter % 1000000)
unfolding new_outbound_msg_id
new_outbound_msg_id-pos millis counter h = ground (arith, h)

-- Up to the year 2262 two outbound ids are equal exactly if they are made in the same millisecond
-- and their counters agree modulo a million.
pub new_outbound_msg_id_iff :
    (millis millis' counter counter' : ℕ)
    → millis < 9223372036854
    → millis' < 9223372036854
    → (new_outbound_msg_id millis counter ≡ new_outbound_msg_id millis' counter')
      ↔ ((millis ≡ millis') × (counter % 1000000 ≡ counter' % 1000000))
new_outbound_msg_id_iff millis millis' counter counter' h h' =
    let e = new_outbound_msg_id-pos millis counter h in
    let e' = new_outbound_msg_id-pos millis' counter' h' in
    (λ same. ground (arith, e, e', same), λ same. ground (arith, e, e', same))
