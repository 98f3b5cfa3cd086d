-- ===== src/Shadow/Levels.antt =====
-- The `std::map` from prices to volumes, as its entries in the order of the prices.
use financial_exchange.Common.{
  ℕ, ◌≡◌, refl, ap, Bool, true, false, not, ◌&&◌, Option, none, some, List, [], ◌∷◌, All, arith,
  ltb, if◌then◌else◌, ltb→le, ℤ, pos, negsuc,
}

unfoldable pub less : ℤ → ℤ → Bool
less (pos a) (pos b) = ltb a b
less (pos a) (negsuc b) = false
less (negsuc a) (pos b) = true
less (negsuc a) (negsuc b) = ltb b a

-- What the map takes for the same key.
unfoldable pub same_price : ℤ → ℤ → Bool
unfolding less
same_price p q = not (less p q) && not (less q p)

abbrev pub Levels : Type 0
Levels = List (ℤ × ℕ)

unfoldable pub find_level : ℤ → Levels → Option ℕ
find_level p [] = none
find_level p (e ∷ rest) = if same_price p e.0 then some e.1 else find_level p rest

-- `levels[p] = v`
unfoldable pub set_level : ℤ → ℕ → Levels → Levels
set_level p v [] = (p, v) ∷ []
set_level p v (e ∷ rest) =
    let later = set_level p v rest in
    if less p e.0 then (p, v) ∷ e ∷ rest else if less e.0 p then e ∷ later else (p, v) ∷ rest

unfoldable pub erase_level : ℤ → Levels → Levels
erase_level p [] = []
erase_level p (e ∷ rest) =
    let later = erase_level p rest in if same_price p e.0 then rest else e ∷ later

pub less_trans : (p q r : ℤ) → less p q ≡ true → less q r ≡ true → less p r ≡ true
unfolding less
less_trans (pos a) (pos b) (pos c) h k = ground arith
less_trans (pos a) (pos b) (negsuc c) h k = k
less_trans (pos a) (negsuc b) r h k = ground arith
less_trans (negsuc a) q (pos c) h k = refl
less_trans (negsuc a) (pos b) (negsuc c) h k = ground arith
less_trans (negsuc a) (negsuc b) (negsuc c) h k = ground arith

pub less_total : (p q : ℤ) → less p q ≡ false → less q p ≡ false → p ≡ q
unfolding less
less_total (pos a) (pos b) h k = ap pos (omega (arith, ltb→le a b h, ltb→le b a k))
less_total (pos a) (negsuc b) h k = ground arith
less_total (negsuc a) (pos b) h k = ground arith
less_total (negsuc a) (negsuc b) h k = ap negsuc (omega (arith, ltb→le b a h, ltb→le a b k))

pub less_irrefl : (p : ℤ) → less p p ≡ false
unfolding less
less_irrefl (pos a) = ground arith
less_irrefl (negsuc a) = ground arith

pub same_price_eq : (p q : ℤ) → same_price p q ≡ true → p ≡ q
unfolding same_price
same_price_eq p q h = less_total p q (ground arith) (ground arith)

pub same_price_refl : (p : ℤ) → same_price p p ≡ true
unfolding same_price
same_price_refl p = rw (less_irrefl p) refl

pub less_apart : (p q : ℤ) → less p q ≡ true → (same_price p q ≡ false) × (same_price q p ≡ false)
unfolding same_price
less_apart p q h = (rw h refl, ground arith)

-- The entries are in the order of the prices, each price once.
abbrev pub IsLevels : Levels → Type 0
IsLevels [] = Unit
IsLevels (e ∷ rest) = All (λ f. less e.0 f.0 ≡ true) rest × IsLevels rest
