-- ===== src/Connection/Growth.antt =====
-- The vector of a connection's accumulated bytes: how far it grows, and that a read fits.
use financial_exchange.Common.{
  ℕ, zero, suc, ◌+◌, ◌*◌, ◌^◌, ◌≤◌, ◌<◌, ◌≡◌, refl, sym, ap, ◌∙◌, subst, Bool, true, false, Option,
  none, some, List, [], ◌∷◌, All, All-append, arith, length, drop, length-append, ◌⊎◌, inl, inr,
  Option-cases, le→ltb, if◌then◌else◌, some-eq, dec_lt,
}
use financial_exchange.Connection.Frame.{next_frame, read_u16_be}
use financial_exchange.Connection.State.{Connection, perform, start_read, read_size}
use financial_exchange.Connection.Read.{
  handle_frame, parse_loop, parse_accumulator, grow, accumulate, handle_read, bytes_read,
}
use financial_exchange.Connection.Framing.{next_frame_cases, next_frame-append, next_frame-take}
use financial_exchange.Connection.Chunks.{
  parse, go_on, with_accum, parse_loop-none, parse_loop-some, parse_loop-with,
}
use financial_exchange.Connection.Ending.{parse_loop-Ended}
use financial_exchange.Connection.Receive.{finish, parse_accumulator-finish}
use financial_exchange.Connection.Doubling.{grow_loop-done, grow_loop-step, grow-enough}

abbrev pub IsByte : ℕ → Type 0
IsByte b = b < 256

drop-All {ℓ} : {A : Type ℓ} (P : A → Type 0) (n : ℕ) (xs : List A) → All P xs → All P (drop n xs)
drop-All P zero xs h = h
drop-All P (suc n) [] h = tt
drop-All P (suc n) (x ∷ xs) h = drop-All P n xs h.1

no_tuple : (k : ℕ × ℕ × List ℕ × List ℕ) → none ≡ some k → ⊥
no_tuple k e = ground arith

-- Bytes that hold no whole frame are fewer than the longest frame's.
next_frame-short_of :
    (bytes : List ℕ) → All IsByte bytes → next_frame bytes ≡ none → length bytes < 65_538
unfolding read_u16_be
next_frame-short_of bytes ok e = elim (next_frame_cases bytes) [
  | inl (k, inl short) ↦ omega (arith, short)
  | inl (k, inr (t, high, low, rest, whole, short)) ↦ omega (
    arith,
    ap length whole,
    short,
    (subst (All IsByte) whole ok).1.0,
    (subst (All IsByte) whole ok).1.1.0,
  )
  | inr (t, high, low, rest, whole, fits) ↦
      absurd (no_tuple _ (sym e ∙ ap next_frame whole ∙ next_frame-take t high low rest fits))
]

next_frame-IsByte :
    (bytes : List ℕ) (t size : ℕ) (payload rest : List ℕ)
    → All IsByte bytes
    → next_frame bytes ≡ some (t, size, payload, rest)
    → All IsByte rest
next_frame-IsByte bytes t size payload rest ok e = elim (next_frame_cases bytes) [
  | inl k ↦ absurd (no_tuple _ (sym k.0 ∙ e))
  | inr (t', high, low, more, whole, fits) ↦
      let same =
        some-eq (sym (next_frame-take t' high low more fits) ∙ sym (ap next_frame whole) ∙ e) in
      subst (All IsByte) (ap (λ k. k.3) same)
        (drop-All IsByte (read_u16_be high low) more ((subst (All IsByte) whole ok).1.1.1))
]

no_bytes : (rest : List ℕ) → ◌≡◌ {A = Option (List ℕ)} none (some rest) → ⊥
no_bytes rest e = ground arith

-- The loop leaves bytes that were there.
parse_loop-IsByte :
    (f : ℕ) (bytes rest : List ℕ) (c : Connection)
    → All IsByte bytes
    → (parse_loop f bytes c).1 ≡ some rest
    → All IsByte rest × (length rest ≤ length bytes)
unfolding parse_loop
parse_loop-IsByte zero bytes rest c ok e =
    subst (λ k. All IsByte k × (length k ≤ length bytes)) (some-eq e) (ok, omega arith)
parse_loop-IsByte (suc f) bytes rest c ok e = elim (Option-cases (next_frame bytes)) [
  | inl k ↦
      subst (λ k. All IsByte k × (length k ≤ length bytes))
        (some-eq (sym (ap (λ k. k.1) (parse_loop-none (suc f) bytes c k)) ∙ e)) (ok, omega arith)
  | inr ((t, size, payload, more), k) ↦
      let handled = handle_frame t size payload c in
      let less = (next_frame-append bytes [] t size payload more k).1 in
      let end =
        follow handled more
          (λ e.
            parse_loop-IsByte f more rest handled.0
              (next_frame-IsByte bytes t size payload more ok k) e)
          (sym (ap (λ k. k.1) (parse_loop-some f bytes c t size payload more k)) ∙ e) in
      (end.0, omega (arith, end.1, less))
]
  where
    follow :
        (handled : Connection × Bool) (more : List ℕ)
        → ((parse_loop f more handled.0).1 ≡ some rest
            → All IsByte rest × (length rest ≤ length more))
        → (go_on f more handled).1 ≡ some rest
        → All IsByte rest × (length rest ≤ length more)
    follow (c', true) more ih e = ih e
    follow (c', false) more ih e = absurd (no_bytes rest e)

grow_once :
    (size needed : ℕ)
    → 1 ≤ size
    → size < needed
    → needed ≤ size * 2
    → needed ≤ 2 ^ 63
    → grow size needed ≡ size * 2
grow_once size needed pos less fits small =
    sym ((grow-enough size needed pos small).3 (suc needed) (omega arith))
    ∙ grow_loop-step needed size needed less small
    ∙ grow_loop-done needed (size * 2) needed fits

grow_none : (size needed : ℕ) → needed ≤ size → grow size needed ≡ size
unfolding grow
grow_none size needed h = rw (le→ltb size needed h) refl

-- The vector has its first size or twice that, and bytes are in it.
abbrev pub IsRoomy : Connection → Type 0
IsRoomy c =
    ((c.accum_size ≡ 2 * read_size) ⊎ (c.accum_size ≡ 4 * read_size))
    × (length c.in_accum ≤ c.accum_size)
    × All IsByte c.in_accum

accumulate-fits :
    (bytes : List ℕ) (c : Connection)
    → IsRoomy c
    → next_frame c.in_accum ≡ none
    → length bytes ≤ read_size
    → (length c.in_accum + length bytes ≤ (accumulate bytes c).accum_size)
      × (((accumulate bytes c).accum_size ≡ 2 * read_size)
          ⊎ ((accumulate bytes c).accum_size ≡ 4 * read_size))
unfolding accumulate
accumulate-fits bytes c ok waits few =
    let old = next_frame-short_of c.in_accum ok.2 waits in
    let needed = length c.in_accum + length bytes in
    (
      (grow-enough c.accum_size needed (positive ok.0) (omega (arith, old, few))).0,
      elim (dec_lt c.accum_size needed) [
        | yes less ↦ elim (ok.0) [
          | inl e ↦ inr (
              grow_once c.accum_size needed (positive ok.0) less (omega (arith, e, old, few))
                (omega (arith, old, few))
              ∙ ap (λ n. n * 2) e)
          | inr e ↦ absurd (omega (arith, e))
        ]
        | no more ↦
            subst (λ n. (n ≡ 2 * read_size) ⊎ (n ≡ 4 * read_size))
              (sym (grow_none c.accum_size needed (omega arith))) ok.0
      ],
    )
  where
    positive : {n : ℕ} → (n ≡ 2 * read_size) ⊎ (n ≡ 4 * read_size) → 1 ≤ n
    positive (inl e) = omega (arith, e)
    positive (inr e) = omega (arith, e)

-- What parsing leaves of the accumulator of a connection.
abbrev Kept : Connection → Connection → Type 0
Kept c after =
    (after.accum_size ≡ c.accum_size)
    × (length after.in_accum ≤ length c.in_accum)
    × All IsByte after.in_accum
    × ((after.disconnect_notified ≡ true) ⊎ (next_frame after.in_accum ≡ none))

parse_accumulator-Kept : (c : Connection) → All IsByte c.in_accum → Kept c (parse_accumulator c)
parse_accumulator-Kept c ok =
    let bytes = c.in_accum in
    let parsed = parse bytes c in
    let same = parse_loop-with (suc (length bytes)) bytes c.accum_size bytes c in
    subst (Kept c) (sym (parse_accumulator-finish c ∙ ap finish same))
      (elim (parse_loop-Ended (suc (length bytes)) bytes c (omega arith)) [
        | inl k ↦ gave_up parsed k.0 k.1
        | inr k ↦ left parsed k.0 k.1 (parse_loop-IsByte _ bytes k.0 c ok k.1) k.3
      ])
  where
    end : Connection × Option (List ℕ) → Connection
    end parsed = finish (with_accum c.accum_size c.in_accum parsed.0, parsed.1)

    gave_up :
        (parsed : Connection × Option (List ℕ))
        → parsed.1 ≡ none
        → parsed.0.disconnect_notified ≡ true
        → Kept c (end parsed)
    gave_up parsed e told = rw e (refl, omega arith, ok, inl told)

    left :
        (parsed : Connection × Option (List ℕ)) (rest : List ℕ)
        → parsed.1 ≡ some rest
        → All IsByte rest × (length rest ≤ length c.in_accum)
        → next_frame rest ≡ none
        → Kept c (end parsed)
    left parsed rest e fewer waits = rw e (refl, fewer.1, fewer.0, inr waits)

-- For a connection whose accumulated bytes hold no whole frame and fit its vector, and for a read of at
-- most `read_size` bytes: the bytes read fit the vector that they are copied to, which has its first
-- size or twice that. So it is after the read, where the connection is given up or the bytes left hold
-- no whole frame.
pub handle_read-IsRoomy :
    (bytes : List ℕ) (c : Connection)
    → IsRoomy c
    → next_frame c.in_accum ≡ none
    → length bytes ≤ read_size
    → All IsByte bytes
    → let after = handle_read (bytes_read bytes) c in
      (length c.in_accum + length bytes ≤ (accumulate bytes c).accum_size)
      × IsRoomy after
      × ((after.disconnect_notified ≡ true) ⊎ (next_frame after.in_accum ≡ none))
unfolding handle_read perform accumulate
handle_read-IsRoomy bytes c ok waits few good =
    let fits = accumulate-fits bytes c ok waits few in
    let start = accumulate bytes c in
    let after = parse_accumulator start in
    let kept = parse_accumulator-Kept start (good_after) in
    let end : Settled after = (
      (
        subst (λ n. (n ≡ 2 * read_size) ⊎ (n ≡ 4 * read_size)) (sym kept.0) fits.1,
        omega (arith, kept.0, kept.1, fits.0, grown),
        kept.2,
      ),
      kept.3,
    ) in
    let last = next_read after.disconnect_notified after end in (fits.0, last.0, last.1)
  where
    Settled : Connection → Type 0
    Settled after =
        IsRoomy after × ((after.disconnect_notified ≡ true) ⊎ (next_frame after.in_accum ≡ none))

    good_after : All IsByte (accumulate bytes c).in_accum
    good_after = All-append IsByte c.in_accum bytes ok.2 good

    grown : length (accumulate bytes c).in_accum ≡ length c.in_accum + length bytes
    grown = length-append c.in_accum bytes

    next_read :
        (b : Bool) (after : Connection)
        → Settled after
        → Settled (if b then after else perform start_read after)
    next_read true after k = k
    next_read false after k = k
