-- ===== src/Spsc/Fifo.antt =====
-- The queue as a bounded first-in first-out list.
use financial_exchange.Common.{
  leb→le, leb→lt, ℕ, suc, ◌+◌, ◌-◌, ◌*◌, ◌/◌, ◌%◌, ◌^◌, ◌≤◌, ◌<◌, ◌≡◌, refl, sym, ap, subst, ◌∙◌,
  ◌≢◌, ◌⊎◌, inl, inr, true, false, none, some, List, [], ◌∷◌, ◌++◌, leb, update, dec_lt, Bool-cases,
  eq→==, update_self, update_ne, length, length-append, arith, ne→==,
}
use native.Mathlib.Nat.{mod-mod_of_dvd, dvd_of_mod-eq-zero, mul-add, mul-le-mul_left, div-add-mod}
use financial_exchange.Spsc.Queue.{
  SpscQueue, new_queue, try_push, try_pop, peek, consume_one, size_approx, add64, sub64,
}

-- A power of two of at least 2 that `size_t` holds.
abbrev pub IsCapacity : ℕ → Type 0
IsCapacity capacity = (2 ≤ capacity) × (capacity < 2 ^ 64) × (2 ^ 64 % capacity ≡ 0)

same_slot : (n d capacity : ℕ) → 0 < d → d < capacity → (n % capacity) ≢ ((n + d) % capacity)
same_slot n d capacity pos h e =
    apart (n / capacity) ((n + d) / capacity) (div-add-mod n capacity)
      (div-add-mod (n + d) capacity)
  where
    apart :
        (a b : ℕ) → capacity * a + n % capacity ≡ n → capacity * b + (n + d) % capacity ≡ n + d → ⊥
    apart a b p q = elim (dec_lt a b) [
      | yes l ↦
          omega
            (arith, e, p, q, mul-le-mul_left {m = suc a} {n = b} capacity l, mul-add capacity a 1)
      | no l ↦ omega (arith, e, p, q, mul-le-mul_left {m = b} {n = a} capacity (omega arith))
    ]

le_antisymm : (a b : ℕ) → b ≤ a → a ≤ b → b ≡ a
le_antisymm a b h k = omega arith

-- The `size_t` difference of the counters is the number of elements.
count : (n l : ℕ) → l < 2 ^ 64 → sub64 ((n + l) % 2 ^ 64) (n % 2 ^ 64) ≡ l
unfolding sub64
count n l h = omega arith

same_counter : (n l : ℕ) → l < 2 ^ 64 → 0 < l → (n % 2 ^ 64) ≢ ((n + l) % 2 ^ 64)
same_counter n l h pos e = omega arith

next : (n : ℕ) → add64 (n % 2 ^ 64) 1 ≡ suc n % 2 ^ 64
unfolding add64
next n = omega arith

-- The slot of a wrapped counter.
slot_of :
    (capacity : ℕ) → IsCapacity capacity → (n c : ℕ) → c ≡ n % 2 ^ 64 → c % capacity ≡ n % capacity
slot_of capacity valid n c e =
    ap (λ i. i % capacity) e ∙ mod-mod_of_dvd capacity n (dvd_of_mod-eq-zero capacity valid.2)

module _ {ℓ} {A : Type ℓ} (capacity : ℕ) where
  -- The elements stand in the slots from the `n`-th on, counted round the ring.
  abbrev pub Stored : ℕ → List A → (ℕ → A) → Type ℓ
  Stored n [] buffer = Unit
  Stored n (x ∷ xs) buffer = (buffer (n % capacity) ≡ x) × Stored (suc n) xs buffer

  -- `n` elements were taken in all; `xs` are those that were pushed and not taken.
  abbrev pub Holds : SpscQueue A → List A → Type ℓ
  Holds q xs =
      (n : ℕ) × (q.tail ≡ n % 2 ^ 64)
      × (q.head ≡ (n + length xs) % 2 ^ 64)
      × (length xs ≤ capacity)
      × Stored n xs q.buffer

  Stored-snoc :
      (n : ℕ) (xs : List A) (x : A) (buffer : ℕ → A)
      → Stored n xs buffer
      → buffer ((n + length xs) % capacity) ≡ x
      → Stored n (xs ++ (x ∷ [])) buffer
  Stored-snoc n [] x buffer s e = (ap (λ i. buffer (i % capacity)) (omega arith) ∙ e, tt)
  Stored-snoc n (y ∷ xs) x buffer s e =
      (s.0, Stored-snoc (suc n) xs x buffer s.1 (ap (λ i. buffer (i % capacity)) (omega arith) ∙ e))

  -- A write behind the elements leaves them as they are.
  Stored-update :
      (n : ℕ) (xs : List A) (k : ℕ) (x : A) (buffer : ℕ → A)
      → Stored n xs buffer
      → n + length xs ≤ k
      → k < n + capacity
      → Stored n xs (update buffer (k % capacity) x)
  Stored-update n [] k x buffer s a b = tt
  Stored-update n (y ∷ xs) k x buffer s a b = (
    update_ne buffer (k % capacity) (n % capacity) x (λ e.
          same_slot n (k - n) capacity (omega arith) (omega arith)
            (e ∙ ap (λ i. i % capacity) (omega arith)))
        ∙ s.0,
    Stored-update (suc n) xs k x buffer s.1 (omega arith) (omega arith),
  )

  module _ (valid : IsCapacity capacity) where
    -- On a queue that holds a list of elements, `size_approx` is their number, also after the counters
    -- have wrapped.
    pub size_approx_lem : (q : SpscQueue A) (xs : List A) → Holds q xs → size_approx q ≡ length xs
    unfolding size_approx
    size_approx_lem q xs (n, t, h, l, s) =
        subst (λ i. sub64 q.head i ≡ length xs) (sym t)
          (subst (λ i. sub64 i (n % 2 ^ 64) ≡ length xs) (sym h)
            (count n (length xs) (omega (arith, l, valid.1))))

    try_push-room :
        (item : A) (q : SpscQueue A) (xs : List A) (n : ℕ)
        → q.head ≡ (n + length xs) % 2 ^ 64
        → length xs < capacity
        → Stored n xs q.buffer
        → (add64 q.head 1 ≡ (n + length (xs ++ (item ∷ []))) % 2 ^ 64)
          × (length (xs ++ (item ∷ [])) ≤ capacity)
          × Stored n (xs ++ (item ∷ [])) (update q.buffer (q.head % capacity) item)
    try_push-room item q xs n h room s = (
      ap (λ i. add64 i 1) h
          ∙ next (n + length xs)
          ∙ ap (λ i. i % 2 ^ 64) (omega (arith, length-append xs (item ∷ []))),
      omega (arith, length-append xs (item ∷ [])),
      subst (λ i. Stored n (xs ++ (item ∷ [])) (update q.buffer i item))
          (sym (slot_of capacity valid (n + length xs) q.head h))
          (Stored-snoc n xs item (update q.buffer ((n + length xs) % capacity) item)
            (Stored-update n xs (n + length xs) item q.buffer s (omega arith) (omega arith))
            (update_self q.buffer ((n + length xs) % capacity) item)),
    )

    -- `try_push` on a queue that holds a list of elements refuses exactly when they are `capacity` many,
    -- and changes nothing then; otherwise it puts the element behind the others.
    pub try_push-Holds :
        (item : A) (q : SpscQueue A) (xs : List A)
        → Holds q xs
        → ((length xs ≡ capacity) × (try_push capacity item q ≡ (q, false)))
          ⊎ ((length xs < capacity)
              × Holds (try_push capacity item q).0 (xs ++ (item ∷ []))
              × ((try_push capacity item q).1 ≡ true))
    unfolding try_push size_approx
    try_push-Holds item q xs (n, t, h, l, s) =
        elim (Bool-cases (leb capacity (sub64 q.head q.tail))) [
          | inl e ↦ inl (
            le_antisymm capacity (length xs) l
                (subst (λ i. capacity ≤ i) (size_approx_lem q xs (n, t, h, l, s)) (leb→le _ _ e)),
            rw e refl,
          )
          | inr e ↦
              let room =
                subst (λ i. i < capacity) (size_approx_lem q xs (n, t, h, l, s)) (leb→lt _ _ e) in
              let push = try_push-room item q xs n h room s in
              inr (room, rw e (n, t, push.0, push.1, push.2), rw e refl)
        ]

    -- On a queue that holds a list of elements: the reads of an empty one find nothing and change
    -- nothing; `peek` and `try_pop` of any other find its first element, and `try_pop` and
    -- `consume_one` take it away.
    pub try_pop-Holds :
        (q : SpscQueue A) (xs : List A)
        → Holds q xs
        → ((xs ≡ [])
            × (try_pop capacity q ≡ (q, none))
            × (peek capacity q ≡ none)
            × (consume_one q ≡ (q, false)))
          ⊎ ((x : A) × (ys : List A) × (xs ≡ x ∷ ys)
              × Holds (try_pop capacity q).0 ys
              × ((try_pop capacity q).1 ≡ some x)
              × (peek capacity q ≡ some x)
              × (consume_one q ≡ ((try_pop capacity q).0, true)))
    unfolding try_pop peek consume_one
    try_pop-Holds q [] (n, t, h, l, s) =
        let e = eq→== q.tail q.head (t ∙ ap (λ i. i % 2 ^ 64) (omega arith) ∙ sym h) in
        inl (refl, rw e refl, rw e refl, rw e refl)
    try_pop-Holds q (x ∷ ys) (n, t, h, l, s) =
        let e =
          ne→== q.tail q.head
            (λ e. same_counter n (suc (length ys)) (omega arith) (omega arith) (sym t ∙ e ∙ h)) in
        inr (
          x,
          ys,
          refl,
          rw e (
            suc n,
            ap (λ i. add64 i 1) t ∙ next n,
            h ∙ ap (λ i. i % 2 ^ 64) (omega arith),
            omega arith,
            s.1,
          ),
          rw e (ap some (ap q.buffer (slot_of capacity valid n q.tail t) ∙ s.0)),
          rw e (ap some (ap q.buffer (slot_of capacity valid n q.tail t) ∙ s.0)),
          rw e refl,
        )

  -- A queue as it is made holds nothing.
  pub new_queue-Holds : (blank : A) → Holds (new_queue blank) []
  unfolding new_queue
  new_queue-Holds blank = (0, refl, refl, omega arith, tt)
