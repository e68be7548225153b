-- ===== src/Mcp/Waiter.antt =====
-- A call receives the first reply and no other, whatever happens to other calls.
use ilink_hub.Base.{
  Text, List, [], ◌∷◌, Bool, true, false, none, some, ◌≡◌, ◌∙◌, arith, if◌then◌else◌, text_eq,
  text_eq_iff, text_eq_refl,
}
use ilink_hub.Base.Map.{lookup, lookup-insert, lookup-remove}
use ilink_hub.Mcp.{A2aWaiter, register, send, resolve, cancel, drop_receiver, reply, received}

-- What the hub does to the waiter while calls are pending.
pub data Event : Type 0 where
  registered : Text → Event
  resolved : Text → Text → Event
  cancelled : Text → Event
  dropped : Text → Event

unfoldable pub step : Event → A2aWaiter → A2aWaiter
step (registered call_id) w = register call_id w
step (resolved call_id text) w = (resolve call_id text w).0
step (cancelled call_id) w = cancel call_id w
step (dropped call_id) w = drop_receiver call_id w

unfoldable pub run : List Event → A2aWaiter → A2aWaiter
run [] w = w
run (e ∷ es) w = run es (step e w)

-- The call id is not registered again, and its receiver is kept.
unfoldable pub spares : Text → List Event → Bool
spares id [] = true
spares id (registered k ∷ es) = if text_eq k id then false else spares id es
spares id (dropped k ∷ es) = if text_eq k id then false else spares id es
spares id (resolved k text ∷ es) = spares id es
spares id (cancelled k ∷ es) = spares id es

-- No event on the call.
unfoldable pub ignores : Text → List Event → Bool
ignores id [] = true
ignores id (registered k ∷ es) = if text_eq k id then false else ignores id es
ignores id (dropped k ∷ es) = if text_eq k id then false else ignores id es
ignores id (resolved k text ∷ es) = if text_eq k id then false else ignores id es
ignores id (cancelled k ∷ es) = if text_eq k id then false else ignores id es

-- The sender is used up and the reply stands in the channel.
abbrev Answered : Text → Text → A2aWaiter → Type 0
Answered id text w = (lookup id w.pending ≡ none) × (lookup id w.receivers ≡ some (some text))

abbrev Pending : Text → A2aWaiter → Type 0
Pending id w = (lookup id w.pending ≡ some tt) × (lookup id w.receivers ≡ some none)

step-Answered :
    (id text : Text) (e : Event) (w : A2aWaiter)
    → spares id (e ∷ []) ≡ true
    → Answered id text w
    → Answered id text (step e w)
unfolding spares step register resolve send cancel drop_receiver
step-Answered id text (registered k) w s a =
    ground (arith, lookup-insert k id tt w.pending, lookup-insert k id none w.receivers)
step-Answered id text (resolved k t) w s a =
    ground (
      arith,
      text_eq_iff k id,
      lookup-remove k id w.pending,
      lookup-insert k id (some t) w.receivers,
    )
step-Answered id text (cancelled k) w s a = ground (arith, lookup-remove k id w.pending)
step-Answered id text (dropped k) w s a = ground (arith, lookup-remove k id w.receivers)

step-Pending :
    (id : Text) (e : Event) (w : A2aWaiter)
    → ignores id (e ∷ []) ≡ true
    → Pending id w
    → Pending id (step e w)
unfolding ignores step register resolve send cancel drop_receiver
step-Pending id (registered k) w s a =
    ground (arith, lookup-insert k id tt w.pending, lookup-insert k id none w.receivers)
step-Pending id (resolved k t) w s a =
    ground (arith, lookup-remove k id w.pending, lookup-insert k id (some t) w.receivers)
step-Pending id (cancelled k) w s a = ground (arith, lookup-remove k id w.pending)
step-Pending id (dropped k) w s a = ground (arith, lookup-remove k id w.receivers)

spares-cons :
    (id : Text) (e : Event) (es : List Event)
    → spares id (e ∷ es) ≡ true
    → (spares id (e ∷ []) ≡ true) × (spares id es ≡ true)
unfolding spares
spares-cons id (registered k) es s = ground arith
spares-cons id (resolved k t) es s = ground arith
spares-cons id (cancelled k) es s = ground arith
spares-cons id (dropped k) es s = ground arith

ignores-cons :
    (id : Text) (e : Event) (es : List Event)
    → ignores id (e ∷ es) ≡ true
    → (ignores id (e ∷ []) ≡ true) × (ignores id es ≡ true)
unfolding ignores
ignores-cons id (registered k) es s = ground arith
ignores-cons id (resolved k t) es s = ground arith
ignores-cons id (cancelled k) es s = ground arith
ignores-cons id (dropped k) es s = ground arith

run-Answered :
    (id text : Text) (es : List Event) (w : A2aWaiter)
    → spares id es ≡ true
    → Answered id text w
    → Answered id text (run es w)
unfolding run
run-Answered id text [] w s a = a
run-Answered id text (e ∷ es) w s a =
    let (one, rest) = spares-cons id e es s in
    run-Answered id text es (step e w) rest (step-Answered id text e w one a)

run-Pending :
    (id : Text) (es : List Event) (w : A2aWaiter)
    → ignores id es ≡ true
    → Pending id w
    → Pending id (run es w)
unfolding run
run-Pending id [] w s a = a
run-Pending id (e ∷ es) w s a =
    let (one, rest) = ignores-cons id e es s in
    run-Pending id es (step e w) rest (step-Pending id e w one a)

register-Pending : (id : Text) (w : A2aWaiter) → Pending id (register id w)
unfolding register
register-Pending id w = (
  lookup-insert id id tt w.pending ∙ rw (text_eq_refl id),
  lookup-insert id id none w.receivers ∙ rw (text_eq_refl id),
)

resolve-Answered :
    (id text : Text) (w : A2aWaiter)
    → Pending id w
    → ((resolve id text w).1 ≡ true) × Answered id text (resolve id text w).0
unfolding resolve send
resolve-Answered id text w p = ground (
  arith,
  text_eq_refl id,
  lookup-remove id id w.pending,
  lookup-insert id id (some text) w.receivers,
)

-- A registered call on which nothing happens while other calls come and go takes the first reply,
-- and the caller receives exactly that reply after any later events but a new registration of the
-- same id or the end of the wait: later replies and a cancellation change nothing.
pub register-resolve :
    (id text : Text) (before after : List Event) (w : A2aWaiter)
    → ignores id before ≡ true
    → spares id after ≡ true
    → ((resolve id text (run before (register id w))).1 ≡ true)
      × (received id (run after (resolve id text (run before (register id w))).0) ≡ reply text)
unfolding received
register-resolve id text before after w i s =
    let (taken, answered) =
      resolve-Answered id text (run before (register id w))
        (run-Pending id before (register id w) i (register-Pending id w)) in
    let (_, got) =
      run-Answered id text after (resolve id text (run before (register id w))).0 s answered in
    (taken, ground arith)

-- After a reply or a cancellation the next reply to the same call is refused and changes nothing.
pub resolve_twice :
    (id text again : Text) (w : A2aWaiter)
    → (resolve id again (resolve id text w).0 ≡ ((resolve id text w).0, false))
      × (resolve id again (cancel id w) ≡ (cancel id w, false))
unfolding resolve send cancel
resolve_twice id text again w = ground (arith, text_eq_refl id, lookup-remove id id w.pending)
