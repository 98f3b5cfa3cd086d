-- ===== src/Spsc/Tests.antt =====
-- A queue of four places: the theorems at inputs that meet their hypotheses.
use financial_exchange.Common.{
  ℕ, ◌+◌, ◌<◌, ◌≡◌, ◌⊎◌, refl, true, false, none, some, List, [], ◌∷◌, ◌++◌, arith, length,
}
use financial_exchange.Spsc.Queue.{
  SpscQueue, new_queue, try_push, try_pop, peek, consume_one, size_approx,
}
use financial_exchange.Spsc.Fifo.{
  IsCapacity, Holds, new_queue-Holds, size_approx_lem, try_push-Holds, try_pop-Holds,
}

four : IsCapacity 4
four = (omega arith, omega arith, refl)

-- The counters are about to wrap; two elements stand in the last slot and the first.
abbrev wrapping : SpscQueue ℕ
wrapping = record { head = 1; tail = 18_446_744_073_709_551_615; buffer = λ i. i + 10 }

wrapping-Holds : Holds 4 wrapping (13 ∷ 10 ∷ [])
wrapping-Holds = (18_446_744_073_709_551_615, refl, refl, omega arith, (refl, (refl, tt)))

size_approx_lem_example : size_approx wrapping ≡ length {A = ℕ} (13 ∷ 10 ∷ [])
size_approx_lem_example = size_approx_lem 4 four wrapping (13 ∷ 10 ∷ []) wrapping-Holds

try_push-Holds_example :
    let xs : List ℕ = 13 ∷ 10 ∷ [] in
    ((length xs ≡ 4) × (try_push 4 5 wrapping ≡ (wrapping, false)))
    ⊎ ((length xs < 4)
        × Holds 4 (try_push 4 5 wrapping).0 (xs ++ (5 ∷ []))
        × ((try_push 4 5 wrapping).1 ≡ true))
try_push-Holds_example = try_push-Holds 4 four 5 wrapping (13 ∷ 10 ∷ []) wrapping-Holds

try_pop-Holds_example :
    let xs : List ℕ = 13 ∷ 10 ∷ [] in
    ((xs ≡ [])
      × (try_pop 4 wrapping ≡ (wrapping, none))
      × (peek 4 wrapping ≡ none)
      × (consume_one wrapping ≡ (wrapping, false)))
    ⊎ ((x : ℕ) × (ys : List ℕ) × (xs ≡ x ∷ ys)
        × Holds 4 (try_pop 4 wrapping).0 ys
        × ((try_pop 4 wrapping).1 ≡ some x)
        × (peek 4 wrapping ≡ some x)
        × (consume_one wrapping ≡ ((try_pop 4 wrapping).0, true)))
try_pop-Holds_example = try_pop-Holds 4 four wrapping (13 ∷ 10 ∷ []) wrapping-Holds

new_queue-Holds_example : Holds {A = ℕ} 4 (new_queue 0) []
new_queue-Holds_example = new_queue-Holds 4 0
