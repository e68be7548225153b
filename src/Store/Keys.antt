-- ===== src/Store/Keys.antt =====
-- The tests of the keys: rows of one key are no rows of another.
use ilink_hub.Base.{ℕ, Text, true, ◌≡◌, arith, text_eq, text_eq_iff}
use ilink_hub.Store.{ActiveSession, BackendSession, active_key, backend_pair}
use ilink_hub.Store.Context.{live_key}

pub text_eq_comm : (a b : Text) → text_eq a b ≡ text_eq b a
text_eq_comm a b = ground (arith, text_eq_iff a b, text_eq_iff b a)

pub text_eq_trans : (a b c : Text) → text_eq a b ≡ true → text_eq a c ≡ text_eq b c
text_eq_trans a b c e = ground (arith, text_eq_iff a b, text_eq_iff a c, text_eq_iff b c)

-- Which of two tokens a row of an active session belongs to.
pub active_key_token :
    (vctx vtoken other : Text) (r : ActiveSession)
    → active_key vctx vtoken r ≡ true
    → text_eq r.vtoken other ≡ text_eq vtoken other
unfolding active_key
active_key_token vctx vtoken other r e = ground (arith, text_eq_trans r.vtoken vtoken other)

pub active_key_ctx :
    (vctx vtoken other : Text) (r : ActiveSession)
    → active_key vctx vtoken r ≡ true
    → text_eq r.vctx other ≡ text_eq vctx other
unfolding active_key
active_key_ctx vctx vtoken other r e = ground (arith, text_eq_trans r.vctx vctx other)

pub live_key_token :
    (now : ℕ) (vctx vtoken other : Text) (r : ActiveSession)
    → live_key now vctx vtoken r ≡ true
    → text_eq r.vtoken other ≡ text_eq vtoken other
unfolding live_key active_key
live_key_token now vctx vtoken other r e = ground (arith, text_eq_trans r.vtoken vtoken other)

pub live_key_active :
    (now : ℕ) (vctx vtoken : Text) (r : ActiveSession)
    → live_key now vctx vtoken r ≡ true
    → active_key vctx vtoken r ≡ true
unfolding live_key
live_key_active now vctx vtoken r e = ground arith

pub backend_pair_token :
    (vctx vtoken other : Text) (r : BackendSession)
    → backend_pair vctx vtoken r ≡ true
    → text_eq r.vtoken other ≡ text_eq vtoken other
unfolding backend_pair
backend_pair_token vctx vtoken other r e = ground (arith, text_eq_trans r.vtoken vtoken other)
