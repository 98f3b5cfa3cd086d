-- ===== src/Exchange/Subscribers.antt =====
-- The list of subscribers.
use financial_exchange.Common.{
  ℕ, ◌+◌, ◌≡◌, refl, ◌⊎◌, inl, inr, false, List, [], ◌∷◌, ◌==◌, if◌then◌else◌, arith, Bool-cases,
  ==→eq, ap, sym,
}
use financial_exchange.Exchange.Engine.{swap_out, split_last}

-- How many times an id occurs.
-- 1 where the ids are the same.
pub one_if : ℕ → ℕ → ℕ
one_if x j = if x == j then 1 else 0

abbrev pub count : ℕ → List ℕ → ℕ
count j [] = 0
count j (x ∷ xs) = one_if x j + count j xs

one_if_ne : (x j : ℕ) → (x == j) ≡ false → one_if x j ≡ 0
unfolding one_if
one_if_ne x j e = rw e refl

count-split_last :
    (j x : ℕ) (xs : List ℕ) → count j ((split_last x xs).1 ∷ (split_last x xs).0) ≡ count j (x ∷ xs)
unfolding split_last
count-split_last j x [] = refl
count-split_last j x (y ∷ ys) = omega (arith, count-split_last j y ys)

-- Removing an id that is not in the list changes nothing; otherwise one of its occurrences goes, and
-- every id occurs as often as before in what is left with that one put back.
pub swap_out_cases :
    (id : ℕ) (xs : List ℕ)
    → ((count id xs ≡ 0) × (swap_out id xs ≡ xs))
      ⊎ ((j : ℕ) → count j (id ∷ swap_out id xs) ≡ count j xs)
unfolding swap_out
swap_out_cases id [] = inl (refl, refl)
swap_out_cases id (x ∷ []) = elim (Bool-cases (x == id)) [
  | inl e ↦ inr (λ j. rw e (ap (λ k. one_if k j + 0) (sym (==→eq x id e))))
  | inr e ↦ inl (omega (arith, one_if_ne x id e), rw e refl)
]
swap_out_cases id (x ∷ y ∷ ys) = elim (Bool-cases (x == id)) [
  | inl e ↦
      inr (λ j. rw e (omega (arith, count-split_last j y ys, ap (λ k. one_if k j) (==→eq x id e))))
  | inr e ↦ elim (swap_out_cases id (y ∷ ys)) [
    | inl (none_there, same) ↦
        inl (omega (arith, none_there, one_if_ne x id e), rw e (ap (λ t. x ∷ t) same))
    | inr f ↦ inr (λ j. rw e (omega (arith, f j)))
  ]
]
