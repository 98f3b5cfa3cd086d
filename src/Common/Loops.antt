-- ===== src/Common/Loops.antt =====
-- `while` on a number of rounds, with the rule by which every loop below is proved.
use Prim.Native.Nat.{ℕ, zero, suc, ◌<◌}
use mathlib.Core.Path.{◌≡◌}
use mathlib.Core.Logic.{inl, inr}
use mathlib.Core.Bool.{Bool, true, false}
use native.Mathlib.Omega.{arith}
use financial_exchange.Common.Tests.{Bool-cases}

module _ {ℓ} {S : Type ℓ} (test : S → Bool) (body : S → S) where
  unfoldable pub while : ℕ → S → S
  while zero s = s
  while (suc rounds) s = elim (test s) [ true ↦ while rounds (body s) | false ↦ s ]

  -- Where every round that starts in `P` stays in `P` and lowers `left`, more rounds than `left`
  -- are never used up: the loop stops by its test, still in `P`.
  pub while-stops {κ} :
      (left : S → ℕ) (P : S → Type κ)
      → ((s : S) → test s ≡ true → P s → (left (body s) < left s) × P (body s))
      → (rounds : ℕ) (s : S) → P s
      → left s < rounds
      → (test (while rounds s) ≡ false) × P (while rounds s)
  unfolding while
  while-stops left P round zero s p enough = absurd (omega arith)
  while-stops left P round (suc rounds) s p enough = elim (Bool-cases (test s)) [
    | inr stop ↦ rw (stop, while) (stop, p)
    | inl go ↦
        let (lower, next) = round s go p in
        rw (go, while) (while-stops left P round rounds (body s) next (omega (arith, lower)))
  ]

  -- What every round keeps, the loop keeps.
  pub while_keeps {κ} :
      (P : S → Type κ)
      → ((s : S) → P s → P (body s))
      → (rounds : ℕ) (s : S) → P s
      → P (while rounds s)
  unfolding while
  while_keeps P keep zero s h = h
  while_keeps P keep (suc rounds) s h = elim (Bool-cases (test s)) [
    | inr stop ↦ rw (stop, while) h
    | inl go ↦ rw (go, while) (while_keeps P keep rounds (body s) (keep s h))
  ]
