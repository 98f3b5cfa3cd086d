-- ===== src/Connection/Doubling.antt =====
-- The doubling of the vector of accumulated bytes.
use financial_exchange.Common.{
  ℕ, zero, suc, ◌+◌, ◌*◌, ◌^◌, ◌≤◌, ◌<◌, ◌≡◌, refl, sym, ap, ◌∙◌, arith, ◌⊎◌, inl, inr, Bool-cases,
  ltb, ltb→lt, ltb→le, lt→ltb, le→ltb,
}
use financial_exchange.Connection.Read.{grow_loop, grow}

pub grow_loop-done : (rounds size needed : ℕ) → needed ≤ size → grow_loop rounds size needed ≡ size
unfolding grow_loop
grow_loop-done zero size needed h = refl
grow_loop-done (suc rounds) size needed h = rw (grow_loop, le→ltb size needed h) refl

pub grow_loop-step :
    (rounds size needed : ℕ)
    → size < needed
    → needed ≤ 2 ^ 63
    → grow_loop (suc rounds) size needed ≡ grow_loop rounds (size * 2) needed
unfolding grow_loop
grow_loop-step rounds size needed h small =
    rw (grow_loop, lt→ltb size needed h)
      (ap (λ n. grow_loop rounds n needed) (omega (arith, h, small)))

-- Every round of the doubling comes nearer by one at least.
grow_loop-enough :
    (rounds size needed : ℕ)
    → 1 ≤ size
    → needed ≤ size + rounds
    → needed ≤ 2 ^ 63
    → (needed ≤ grow_loop rounds size needed)
      × (size ≤ grow_loop rounds size needed)
      × ((grow_loop rounds size needed ≡ size) ⊎ (grow_loop rounds size needed < 2 * needed))
grow_loop-enough zero size needed pos near small =
    let e = grow_loop-done zero size needed (omega arith) in
    rw e (omega arith, omega arith, inl refl)
grow_loop-enough (suc rounds) size needed pos near small = elim (Bool-cases (ltb size needed)) [
  | inl e ↦
      let less = ltb→lt size needed e in
      let ih = grow_loop-enough rounds (size * 2) needed (omega arith) (omega arith) small in
      rw (grow_loop-step rounds size needed less small)
        (ih.0, omega (arith, ih.1), inr (below _ less ih.2))
  | inr e ↦
      let more = ltb→le size needed e in
      rw (grow_loop-done (suc rounds) size needed more) (more, omega arith, inl refl)
]
  where
    below : (n : ℕ) → size < needed → (n ≡ size * 2) ⊎ (n < 2 * needed) → n < 2 * needed
    below n less (inl e) = omega (arith, e)
    below n less (inr e) = e

grow_loop-more :
    (f g size needed : ℕ)
    → 1 ≤ size
    → needed ≤ size + f
    → needed ≤ size + g
    → needed ≤ 2 ^ 63
    → grow_loop f size needed ≡ grow_loop g size needed
grow_loop-more zero g size needed pos h k small =
    grow_loop-done zero size needed (omega arith) ∙ sym (grow_loop-done g size needed (omega arith))
grow_loop-more (suc f) zero size needed pos h k small =
    grow_loop-done (suc f) size needed (omega arith)
    ∙ sym (grow_loop-done zero size needed (omega arith))
grow_loop-more (suc f) (suc g) size needed pos h k small = elim (Bool-cases (ltb size needed)) [
  | inl e ↦
      let less = ltb→lt size needed e in
      grow_loop-step f size needed less small
      ∙ grow_loop-more f g (size * 2) needed (omega arith) (omega arith) (omega arith) small
      ∙ sym (grow_loop-step g size needed less small)
  | inr e ↦
      let more = ltb→le size needed e in
      grow_loop-done (suc f) size needed more ∙ sym (grow_loop-done (suc g) size needed more)
]

pub grow-enough :
    (size needed : ℕ)
    → 1 ≤ size
    → needed ≤ 2 ^ 63
    → (needed ≤ grow size needed)
      × (size ≤ grow size needed)
      × ((grow size needed ≡ size) ⊎ (grow size needed < 2 * needed))
      × ((rounds : ℕ) → needed ≤ rounds → grow_loop rounds size needed ≡ grow size needed)
unfolding grow
grow-enough size needed pos small = elim (Bool-cases (ltb size needed)) [
  | inl e ↦
      let end = grow_loop-enough needed size needed pos (omega arith) small in
      rw e (
        end.0,
        end.1,
        end.2,
        λ rounds h. grow_loop-more rounds needed size needed pos (omega arith) (omega arith) small,
      )
  | inr e ↦
      let more = ltb→le size needed e in
      rw e (more, omega arith, inl refl, λ rounds h. grow_loop-done rounds size needed more)
]
