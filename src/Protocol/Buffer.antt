-- ===== src/Protocol/Buffer.antt =====
-- `write_message_to_buffer`, `parse_message` and `parse_message_full` of src/protocol.hpp. A buffer
-- or a payload is the list of its bytes from the pointer on.
use financial_exchange.Common.{
  length-drop, le→ltb, ℕ, zero, suc, ◌+◌, ◌≤◌, ◌<◌, ◌≡◌, refl, ap, sym, subst, ◌∙◌, Bool, true,
  false, Option, none, some, List, [], ◌∷◌, ◌++◌, arith, ltb, ◌==◌, if◌then◌else◌, length, take,
  drop, ne→==, length-append, ◌⊎◌, inl, inr, ◌≢◌, Option-cases,
}
use financial_exchange.Protocol.MessageType.{
  MessageType, code, of_code, payload_size_for_type, connect, confirm_connected, price_level_update,
}

-- The buffer after the call and the number of bytes written.
unfoldable pub write_message_to_buffer : List ℕ → MessageType → List ℕ → List ℕ × ℕ
write_message_to_buffer buf t payload =
    let psize = payload_size_for_type t in
    if ltb (length buf) (1 + psize)
    then (buf, 0)
    else (code t ∷ take psize payload ++ drop (1 + psize) buf, 1 + psize)

parse_typed : MessageType → List ℕ → Option (MessageType × List ℕ)
parse_typed t rest =
    let psize = payload_size_for_type t in
    if psize == 0
    then none
    else if ltb (suc (length rest)) (1 + psize)
    then none
    else some (t, rest)

-- The type and the bytes from `out_payload` on. A type byte that the enumeration does not name has
-- payload size 0, so it is refused like those of that size.
unfoldable pub parse_message : List ℕ → Option (MessageType × List ℕ)
unfolding parse_typed
parse_message [] = none
parse_message (b ∷ rest) = elim (of_code b) [ none ↦ none | some t ↦ parse_typed t rest ]

-- The types that the `switch` of `parse_message_full` names.
unfoldable pub has_struct : MessageType → Bool
has_struct connect = false
has_struct confirm_connected = false
has_struct price_level_update = false
has_struct _ = true

unfoldable pub parse_message_full : List ℕ → Option (MessageType × List ℕ)
parse_message_full buf = elim (parse_message buf) [
  | none ↦ none
  | some (t, payload) ↦ if has_struct t then some (t, payload) else none
]

pub of_code-code : (t : MessageType) → of_code (code t) ≡ some t
unfolding of_code code
of_code-code connect = refl
of_code-code _ = refl

take_self {ℓ} : {A : Type ℓ} (xs : List A) (n : ℕ) → length xs ≡ n → take n xs ≡ xs
take_self [] zero e = refl
take_self [] (suc n) e = refl
take_self (x ∷ xs) zero e = absurd (omega arith)
take_self (x ∷ xs) (suc n) e = ap (λ t. x ∷ t) (take_self xs n (omega arith))

length-take_drop :
    (k : ℕ) (xs ys : List ℕ)
    → suc (length xs) ≡ k
    → k ≤ length ys
    → suc (length (xs ++ drop k ys)) ≡ length ys
length-take_drop k xs ys e h = omega (arith, length-append xs (drop k ys), length-drop k ys)

parse_typed_lem :
    (t : MessageType) (rest : List ℕ)
    → 0 < payload_size_for_type t
    → payload_size_for_type t ≤ length rest
    → parse_typed t rest ≡ some (t, rest)
unfolding parse_typed
parse_typed_lem t rest pos room =
    rw (ne→== (payload_size_for_type t) 0 (λ e. omega arith))
      (rw (le→ltb (suc (length rest)) (1 + payload_size_for_type t) (omega arith)) refl)

parse_message-of_code :
    (b : ℕ) (t : MessageType) (rest : List ℕ)
    → of_code b ≡ some t
    → parse_message (b ∷ rest) ≡ parse_typed t rest
unfolding parse_message
parse_message-of_code b t rest e = rw (e, parse_message) refl

-- A message with a payload of its type's size, which is not 0, written to a buffer with room for it is
-- read back: the type, the payload, and behind it what the buffer held there. The call returns the
-- number of bytes written, and the buffer keeps its length.
pub parse-write :
    (buf : List ℕ) (t : MessageType) (payload : List ℕ)
    → length payload ≡ payload_size_for_type t
    → 0 < payload_size_for_type t
    → 1 + payload_size_for_type t ≤ length buf
    → ((write_message_to_buffer buf t payload).1 ≡ 1 + payload_size_for_type t)
      × (length (write_message_to_buffer buf t payload).0 ≡ length buf)
      × (parse_message (write_message_to_buffer buf t payload).0
          ≡ some (t, payload ++ drop (1 + payload_size_for_type t) buf))
unfolding write_message_to_buffer
parse-write buf t payload size pos room =
    rw
      (
        le→ltb (length buf) (1 + payload_size_for_type t) room,
        take_self payload (payload_size_for_type t) size,
      )
      (
        refl,
        length-take_drop (1 + payload_size_for_type t) payload buf (omega arith) room,
        parse_message-of_code (code t) t (payload ++ drop (1 + payload_size_for_type t) buf)
              (of_code-code t)
            ∙ parse_typed_lem t (payload ++ drop (1 + payload_size_for_type t) buf) pos
                (omega (arith, length-append payload (drop (1 + payload_size_for_type t) buf))),
      )

parse_message-none : (b : ℕ) (rest : List ℕ) → of_code b ≡ none → parse_message (b ∷ rest) ≡ none
unfolding parse_message
parse_message-none b rest e = rw (e, parse_message) refl

none-some {ℓ} : {A : Type ℓ} (a : A) → none ≢ some a
none-some a e = ground arith

has_struct_cases :
    (t : MessageType)
    → (payload_size_for_type t ≡ 0)
      ⊎ ((t ≡ price_level_update) × (has_struct t ≡ false))
      ⊎ ((t ≢ price_level_update) × (has_struct t ≡ true))
unfolding has_struct payload_size_for_type
has_struct_cases connect = inl refl
has_struct_cases confirm_connected = inl refl
has_struct_cases price_level_update = inr (inl (refl, refl))
has_struct_cases _ = inr (inr (ground arith, refl))

parse_typed-size :
    (t u : MessageType) (rest payload : List ℕ)
    → parse_typed t rest ≡ some (u, payload)
    → (t ≡ u) × (payload_size_for_type t ≢ 0)
unfolding parse_typed
parse_typed-size t u rest payload e = (ground arith, ground arith)

parse_message-size :
    (buf : List ℕ) (t : MessageType) (payload : List ℕ)
    → parse_message buf ≡ some (t, payload)
    → payload_size_for_type t ≢ 0
unfolding parse_message
parse_message-size [] t payload e = absurd (none-some (t, payload) e)
parse_message-size (b ∷ rest) t payload e = elim (Option-cases (of_code b)) [
  | inl f ↦ absurd (none-some (t, payload) (sym (parse_message-none b rest f) ∙ e))
  | inr (u, f) ↦
      let q = parse_typed-size u t rest payload (sym (parse_message-of_code b u rest f) ∙ e) in
      subst (λ v. payload_size_for_type v ≢ 0) (q.0) (q.1)
]

-- `parse_message_full` agrees with `parse_message` on every buffer but those of one type: a price level
-- update that `parse_message` reads is refused by `parse_message_full`.
pub parse_message_full_cases :
    (buf : List ℕ)
    → ((parse_message buf ≡ none) × (parse_message_full buf ≡ none))
      ⊎ ((t : MessageType) × (payload : List ℕ) × (parse_message buf ≡ some (t, payload))
          × (((t ≡ price_level_update) × (parse_message_full buf ≡ none))
              ⊎ ((t ≢ price_level_update) × (parse_message_full buf ≡ some (t, payload)))))
unfolding parse_message_full
parse_message_full_cases buf = elim (Option-cases (parse_message buf)) [
  | inl e ↦ inl (e, rw (e, parse_message_full) refl)
  | inr ((t, payload), e) ↦ inr (
    t,
    payload,
    e,
    elim (has_struct_cases t) [
      | inl z ↦ absurd (parse_message-size buf t payload e z)
      | inr (inl f) ↦ inl (f.0, rw (e, parse_message_full) (rw (f.1) refl))
      | inr (inr f) ↦ inr (f.0, rw (e, parse_message_full) (rw (f.1) refl))
    ],
  )
]
