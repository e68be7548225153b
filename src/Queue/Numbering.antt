-- ===== src/Queue/Numbering.antt =====
-- Lists whose delivery ids are consecutive, and what retiring a prefix of them leaves.
use native.Mathlib.Nat.{zero-add, suc-add, add-suc}
use ilink_hub.Base.{
  ℕ, zero, suc, ◌+◌, ◌-◌, ◌<◌, ◌≡◌, drop-nil, dec_lt, refl, List, [], ◌∷◌, ◌++◌, some, arith,
  length, drop,
}
use ilink_hub.Base.Int.{pos}
use ilink_hub.Message.{WeixinMessage}
use ilink_hub.Queue.{retire, last_seq}

module _ {J : Type 0} where
  -- The ids of the messages are `b`, `b + 1` and so on.
  abbrev pub Numbered : ℕ → List (WeixinMessage J) → Type 0
  Numbered b [] = Unit {0}
  Numbered b (m ∷ ms) = (m.seq ≡ some (pos b)) × Numbered (suc b) ms

  pub Numbered-append_one :
      (b : ℕ) (ms : List (WeixinMessage J)) (m : WeixinMessage J)
      → m.seq ≡ some (pos (b + length ms))
      → Numbered b ms
      → Numbered b (ms ++ m ∷ [])
  Numbered-append_one b [] m e h = (ground arith, tt)
  Numbered-append_one b (x ∷ ms) m e h = (h.0, Numbered-append_one (suc b) ms m (ground arith) h.1)

  pub Numbered-drop :
      (n b : ℕ) (ms : List (WeixinMessage J)) → Numbered b ms → Numbered (n + b) (drop n ms)
  Numbered-drop zero b ms h = rw zero-add h
  Numbered-drop (suc n) b [] h = tt
  Numbered-drop (suc n) b (m ∷ ms) h = rw suc-add (rw (← add-suc) (Numbered-drop n (suc b) ms h.1))

  retire_past : (w b : ℕ) (ms : List (WeixinMessage J)) → Numbered b ms → w < b → retire w ms ≡ ms
  unfolding retire
  retire_past w b [] h lt = refl
  retire_past w b (m ∷ ms) h lt = ground arith

  -- Retiring up to the id `w` drops the messages numbered `b` to `w`.
  pub retire-drop :
      (w b : ℕ) (ms : List (WeixinMessage J)) → Numbered b ms → retire w ms ≡ drop (suc w - b) ms
  unfolding retire
  retire-drop w b [] h = rw drop-nil
  retire-drop w b (m ∷ ms) h = elim (dec_lt w b) [
    | yes lt ↦ let e : suc w - b ≡ 0 = omega arith in rw e (retire_past w b (m ∷ ms) h lt)
    | no ge ↦
        let e : suc w - b ≡ suc (suc w - suc b) = omega arith in
        rw e (ground (arith, retire-drop w (suc b) ms h.1))
  ]

  -- The last id of a numbered list that is not empty.
  pub last_seq-Numbered :
      (b : ℕ) (m : WeixinMessage J) (ms : List (WeixinMessage J))
      → Numbered b (m ∷ ms)
      → last_seq (m ∷ ms) ≡ some (b + length ms)
  unfolding last_seq
  last_seq-Numbered b m [] h = ground arith
  last_seq-Numbered b m (x ∷ ms) h = ground (arith, last_seq-Numbered (suc b) x ms h.1)
