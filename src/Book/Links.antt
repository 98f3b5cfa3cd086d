-- ===== src/Book/Links.antt =====
-- The doubly linked queues of src/order.hpp and src/pricelevel.hpp as segments of the slots: the
-- laws by which the proofs read `first_`, `last_`, `next_` and `previous_`.
use financial_exchange.Common.{
  ℕ, ◌≡◌, refl, sym, ◌∙◌, subst, Option, none, some, List, [], ◌∷◌, ◌++◌, update, update_self,
  update_ne, NotIn, Distinct, NotIn-append, Distinct-append, Apart-NotIn, snoc_cases, inl, inr,
}

-- From `p` the links `next` lead through `xs` to `q`; the links `previous` lead back, from `prev`
-- before the first entry. `last` is the last entry, or `prev` if there is none.
abbrev pub Segment :
    (next previous : ℕ → Option ℕ) (prev p : Option ℕ) → List ℕ → (last q : Option ℕ) → Type 0
Segment next previous prev p [] last q = (p ≡ q) × (prev ≡ last)
Segment next previous prev p (x ∷ xs) last q =
    (p ≡ some x) × (previous x ≡ prev) × Segment next previous (some x) (next x) xs last q

pub Segment-next :
    (next previous : ℕ → Option ℕ) (prev p : Option ℕ) (xs : List ℕ) (last q : Option ℕ) (k : ℕ)
    (v : Option ℕ)
    → NotIn k xs
    → Segment next previous prev p xs last q
    → Segment (update next k v) previous prev p xs last q
Segment-next next previous prev p [] last q k v h s = s
Segment-next next previous prev p (x ∷ xs) last q k v h s = (
  s.0,
  s.1,
  rw (update_ne next k x v h.0)
      (Segment-next next previous (some x) (next x) xs last q k v h.1 s.2),
)

pub Segment-previous :
    (next previous : ℕ → Option ℕ) (prev p : Option ℕ) (xs : List ℕ) (last q : Option ℕ) (k : ℕ)
    (v : Option ℕ)
    → NotIn k xs
    → Segment next previous prev p xs last q
    → Segment next (update previous k v) prev p xs last q
Segment-previous next previous prev p [] last q k v h s = s
Segment-previous next previous prev p (x ∷ xs) last q k v h s = (
  s.0,
  update_ne previous k x v h.0 ∙ s.1,
  Segment-previous next previous (some x) (next x) xs last q k v h.1 s.2,
)

-- Two segments that meet.
pub Segment-append :
    (next previous : ℕ → Option ℕ) (prev p : Option ℕ) (xs ys : List ℕ) (m r last q : Option ℕ)
    → Segment next previous prev p xs m r
    → Segment next previous m r ys last q
    → Segment next previous prev p (xs ++ ys) last q
Segment-append next previous prev p [] ys m r last q s t = rw (s.0, s.1) t
Segment-append next previous prev p (x ∷ xs) ys m r last q s t =
    (s.0, s.1, Segment-append next previous (some x) (next x) xs ys m r last q s.2 t)

pub Segment-split :
    (next previous : ℕ → Option ℕ) (prev p : Option ℕ) (xs ys : List ℕ) (last q : Option ℕ)
    → Segment next previous prev p (xs ++ ys) last q
    → (m : Option ℕ) × (r : Option ℕ) × Segment next previous prev p xs m r
      × Segment next previous m r ys last q
Segment-split next previous prev p [] ys last q s = (prev, p, (refl, refl), s)
Segment-split next previous prev p (x ∷ xs) ys last q s =
    let (m, r, a, b) = Segment-split next previous (some x) (next x) xs ys last q s.2 in
    (m, r, (s.0, s.1, a), b)

-- The link of a queue's end to the new entry.
abbrev pub link_end : (next : ℕ → Option ℕ) → Option ℕ → ℕ → ℕ → Option ℕ
link_end next last o = elim last [ some l ↦ update next l (some o) | none ↦ next ]

abbrev pub new_front : Option ℕ → Option ℕ → ℕ → Option ℕ
new_front first last o = elim last [ some l ↦ first | none ↦ some o ]

-- A queue with the links of its level, `first_` and `last_`.
abbrev pub Queue : (next previous : ℕ → Option ℕ) (first last : Option ℕ) → List ℕ → Type 0
Queue next previous first last xs = Segment next previous none first xs last none

push_snoc :
    (next previous : ℕ → Option ℕ) (first last : Option ℕ) (ys : List ℕ) (l o : ℕ)
    → NotIn o (ys ++ (l ∷ []))
    → Distinct (ys ++ (l ∷ []))
    → Queue next previous first last (ys ++ (l ∷ []))
    → Queue
        (link_end (update next o none) last o)
        (update previous o last)
        (new_front first last o)
        (some o)
        ((ys ++ (l ∷ [])) ++ (o ∷ []))
push_snoc next previous first last ys l o new d s =
    let fresh = NotIn-append o ys (l ∷ []) new in
    let l_new : NotIn l ys = Apart-NotIn ys l [] (Distinct-append ys (l ∷ []) d).2 in
    let (m, r, a, b) = Segment-split next previous none first ys (l ∷ []) last none s in
    let next' = update (update next o none) l (some o) in
    let previous' = update previous o (some l) in
    let e : last ≡ some l = sym b.2.1 in
    let front : Segment next' previous' none first ys m (some l) =
      Segment-next _ previous' none first ys m (some l) l (some o) l_new (
        Segment-next next previous' none first ys m (some l) o none fresh.0 (
          Segment-previous next previous none first ys m (some l) o (some l) fresh.0
            (subst (Segment next previous none first ys m) b.0 a))) in
    let back : Segment next' previous' m (some l) (l ∷ []) (some l) (some o) = (
      refl,
      update_ne previous o l (some l) fresh.1.0 ∙ b.1,
      (update_self (update next o none) l (some o), refl),
    ) in
    let end : Segment next' previous' (some l) (some o) (o ∷ []) (some o) none = (
      refl,
      update_self previous o (some l),
      (
        update_ne (update next o none) l o (some o) (λ p. fresh.1.0 (sym p))
            ∙ update_self next o none,
        refl,
      ),
    ) in
    rw e (
      Segment-append next' previous' none first (ys ++ (l ∷ [])) (o ∷ []) (some l) (some o) (some o)
        none
        (Segment-append next' previous' none first ys (l ∷ []) m (some l) (some l) (some o) front
          back)
        end)

-- `add_order` on the links: the queue grows by its new last entry.
pub Queue-push :
    (next previous : ℕ → Option ℕ) (first last : Option ℕ) (xs : List ℕ) (o : ℕ)
    → NotIn o xs
    → Distinct xs
    → Queue next previous first last xs
    → Queue
        (link_end (update next o none) last o)
        (update previous o last)
        (new_front first last o)
        (some o)
        (xs ++ (o ∷ []))
Queue-push next previous first last [] o new d s =
    rw (← s.1) (refl, update_self previous o none, (update_self next o none, refl))
Queue-push next previous first last (x ∷ xs) o new d s = elim (snoc_cases (x ∷ xs)) [
  | inl e ↦ cc
  | inr (ys, l, e) ↦
      subst
        (λ zs.
          Queue (link_end (update next o none) last o) (update previous o last)
            (new_front first last o) (some o) (zs ++ (o ∷ [])))
        (sym e)
        (push_snoc next previous first last ys l o (subst (NotIn o) e new) (subst Distinct e d)
          (subst (Queue next previous first last) e s))
]

-- `match_loop` on the links: the first entry leaves a queue with a second one.
pub Queue-pop :
    (next previous : ℕ → Option ℕ) (first last : Option ℕ) (x n : ℕ) (xs : List ℕ)
    → Distinct (x ∷ n ∷ xs)
    → Queue next previous first last (x ∷ n ∷ xs)
    → (next x ≡ some n) × Queue next (update previous n none) (some n) last (n ∷ xs)
Queue-pop next previous first last x n xs d s = (
  s.2.0,
  (
    refl,
    update_self previous n none,
    Segment-previous next previous (some n) (next n) xs last none n none d.1.0 s.2.2,
  ),
)

-- The entries behind `next_` of the only entry: none.
pub Queue-pop_last :
    (next previous : ℕ → Option ℕ) (first last : Option ℕ) (x : ℕ)
    → Queue next previous first last (x ∷ [])
    → next x ≡ none
Queue-pop_last next previous first last x s = s.2.0
