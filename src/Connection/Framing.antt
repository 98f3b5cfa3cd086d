-- ===== src/Connection/Framing.antt =====
-- Frames in a stream of bytes: one that is written is found again, and bytes that come later leave
-- those that are there whole as they are.
use financial_exchange.Common.{
  ℕ, zero, suc, ◌/◌, ◌%◌, ◌^◌, ◌≤◌, ◌<◌, ◌≡◌, refl, sym, ap, ◌∙◌, none, some, List, [], ◌∷◌, ◌++◌,
  arith, length, take, drop, ltb, lt→ltb, le→ltb, ltb→lt, ltb→le, length-append, length-take,
  length-drop, take-append, drop-append, Bool-cases, inl, inr, some-eq, ◌⊎◌,
}
use financial_exchange.Connection.Frame.{frame, next_frame, read_u16_be, write_u16_be}

pub next_frame-take :
    (message_type high low : ℕ) (rest : List ℕ)
    → read_u16_be high low ≤ length rest
    → next_frame (message_type ∷ high ∷ low ∷ rest)
      ≡ some (
        message_type,
        read_u16_be high low,
        take (read_u16_be high low) rest,
        drop (read_u16_be high low) rest,
      )
unfolding next_frame
next_frame-take t high low rest h = rw (le→ltb (length rest) (read_u16_be high low) h)

next_frame-short :
    (message_type high low : ℕ) (rest : List ℕ)
    → length rest < read_u16_be high low
    → next_frame (message_type ∷ high ∷ low ∷ rest) ≡ none
unfolding next_frame
next_frame-short t high low rest h = rw (lt→ltb (length rest) (read_u16_be high low) h)

-- What there is where a frame is found.
pub next_frame_cases :
    (bytes : List ℕ)
    → ((next_frame bytes ≡ none)
        × ((length bytes < 3)
            ⊎ ((t : ℕ) × (high : ℕ) × (low : ℕ) × (rest : List ℕ) × (bytes ≡ t ∷ high ∷ low ∷ rest)
                × (length rest < read_u16_be high low))))
      ⊎ ((t : ℕ) × (high : ℕ) × (low : ℕ) × (rest : List ℕ) × (bytes ≡ t ∷ high ∷ low ∷ rest)
          × (read_u16_be high low ≤ length rest))
unfolding next_frame
next_frame_cases [] = inl (refl, inl (omega arith))
next_frame_cases (t ∷ []) = inl (refl, inl (omega arith))
next_frame_cases (t ∷ high ∷ []) = inl (refl, inl (omega arith))
next_frame_cases (t ∷ high ∷ low ∷ rest) =
    elim (Bool-cases (ltb (length rest) (read_u16_be high low))) [
      | inl e ↦ inl (rw e refl, inr (t, high, low, rest, refl, ltb→lt _ _ e))
      | inr e ↦ inr (t, high, low, rest, refl, ltb→le _ _ e)
    ]

take_within {ℓ} :
    {A : Type ℓ} (n : ℕ) (xs ys : List A) → n ≤ length xs → take n (xs ++ ys) ≡ take n xs
take_within zero xs ys h = refl
take_within (suc n) [] ys h = absurd (omega arith)
take_within (suc n) (x ∷ xs) ys h = ap (λ t. x ∷ t) (take_within n xs ys (omega arith))

drop_within {ℓ} :
    {A : Type ℓ} (n : ℕ) (xs ys : List A) → n ≤ length xs → drop n (xs ++ ys) ≡ drop n xs ++ ys
drop_within zero xs ys h = refl
drop_within (suc n) [] ys h = absurd (omega arith)
drop_within (suc n) (x ∷ xs) ys h = drop_within n xs ys (omega arith)

-- A frame that is there whole is the first frame also with more bytes behind, and it is not empty.
pub next_frame-append :
    (a b : List ℕ) (t size : ℕ) (payload rest : List ℕ)
    → next_frame a ≡ some (t, size, payload, rest)
    → (next_frame (a ++ b) ≡ some (t, size, payload, rest ++ b)) × (length rest < length a)
next_frame-append a b t size payload rest e = elim (next_frame_cases a) [
  | inl n ↦ absurd (none_some _ (sym n.0 ∙ e))
  | inr (t', high, low, more, whole, fits) ↦
      let n = read_u16_be high low in
      let here =
        some-eq (sym (next_frame-take t' high low more fits) ∙ sym (ap next_frame whole) ∙ e) in
      let later = next_frame-take t' high low (more ++ b) (omega (arith, length-append more b)) in
      (
        ap (λ k. next_frame (k ++ b)) whole
            ∙ later
            ∙ ap (λ k. some (t', n, k, drop n (more ++ b))) (take_within n more b fits)
            ∙ ap (λ k. some (t', n, take n more, k)) (drop_within n more b fits)
            ∙ ap (λ k. some (k.0, k.1, k.2, k.3 ++ b)) here,
        omega (arith, ap (λ k. length (k.3)) here, ap length whole, length-drop n more),
      )
]
  where
    none_some : (k : ℕ × ℕ × List ℕ × List ℕ) → none ≡ some k → ⊥
    none_some k e = ground arith

read-write : (v : ℕ) → v < 2 ^ 16 → read_u16_be (v / 256 % 256) (v % 256) ≡ v
unfolding read_u16_be
read-write v h = omega arith

-- A frame that is written is read: its type, its size, its payload, and the bytes behind it.
pub next_frame-frame :
    (t size : ℕ) (payload rest : List ℕ)
    → size < 2 ^ 16
    → size ≤ length payload
    → next_frame (frame t size payload ++ rest) ≡ some (t, size, take size payload, rest)
unfolding frame write_u16_be
next_frame-frame t size payload rest small enough =
    let body = take size payload in
    let n = read-write size small in
    let len = length-take size payload enough in
    next_frame-take t (size / 256 % 256) (size % 256) (body ++ rest)
      (omega (arith, n, len, length-append body rest))
    ∙ ap (λ k. some (t, k, take k (body ++ rest), drop k (body ++ rest))) n
    ∙ ap (λ k. some (t, size, take k (body ++ rest), drop k (body ++ rest))) (sym len)
    ∙ ap (λ k. some (t, size, k, drop (length body) (body ++ rest))) (take-append body rest)
    ∙ ap (λ k. some (t, size, body, k)) (drop-append body rest)
