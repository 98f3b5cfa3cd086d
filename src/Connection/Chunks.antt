-- ===== src/Connection/Chunks.antt =====
-- How the stream is cut into reads does not matter.
use financial_exchange.Common.{
  ℕ, zero, suc, ◌<◌, ◌≡◌, refl, sym, ap, ◌∙◌, Bool, true, false, Option, none, some, List, [], ◌++◌,
  arith, length, Bool-cases, Option-cases, inl, inr, if◌then◌else◌, ltb, leb,
}
use financial_exchange.Connection.Frame.{next_frame, inbound_q_cap}
use financial_exchange.Connection.State.{
  Connection, perform, call_large_message, notify_disconnect_once, notify_inbound_ready,
}
use financial_exchange.Connection.Read.{handle_frame, inbound_message, parse_loop}
use financial_exchange.Connection.Framing.{next_frame-append}
use financial_exchange.Protocol.MessageType.{max_payload_size, max_payload_size_buffer}
use financial_exchange.Spsc.Queue.{try_push}

-- `parse_loop` with enough rounds.
abbrev pub parse : List ℕ → Connection → Connection × Option (List ℕ)
parse bytes c = parse_loop (suc (length bytes)) bytes c

pub parse_loop-none :
    (f : ℕ) (bytes : List ℕ) (c : Connection)
    → next_frame bytes ≡ none
    → parse_loop f bytes c ≡ (c, some bytes)
unfolding parse_loop
parse_loop-none zero bytes c e = refl
parse_loop-none (suc f) bytes c e = rw (e, parse_loop) refl

-- What the loop does after a frame that it has handled.
abbrev pub go_on : ℕ → List ℕ → Connection × Bool → Connection × Option (List ℕ)
go_on f rest handled = elim (handled.1) [
  | true ↦ parse_loop f rest handled.0
  | false ↦ (handled.0, none)
]

pub parse_loop-some :
    (f : ℕ) (bytes : List ℕ) (c : Connection) (t size : ℕ) (payload rest : List ℕ)
    → next_frame bytes ≡ some (t, size, payload, rest)
    → parse_loop (suc f) bytes c ≡ go_on f rest (handle_frame t size payload c)
unfolding parse_loop
parse_loop-some f bytes c t size payload rest e = rw (e, parse_loop) refl

-- More rounds than bytes are never used up.
parse_loop-enough :
    (f g : ℕ) (bytes : List ℕ) (c : Connection)
    → length bytes < f
    → length bytes < g
    → parse_loop f bytes c ≡ parse_loop g bytes c
parse_loop-enough zero g bytes c h k = absurd (omega arith)
parse_loop-enough (suc f) zero bytes c h k = absurd (omega arith)
parse_loop-enough (suc f) (suc g) bytes c h k = elim (Option-cases (next_frame bytes)) [
  | inl e ↦ parse_loop-none (suc f) bytes c e ∙ sym (parse_loop-none (suc g) bytes c e)
  | inr ((t, size, payload, rest), e) ↦
      let handled = handle_frame t size payload c in
      let less = (next_frame-append bytes [] t size payload rest e).1 in
      let ih = parse_loop-enough f g rest handled.0 (omega arith) (omega arith) in
      parse_loop-some f bytes c t size payload rest e
      ∙ ap
          (λ k. elim (handled.1) as (λ x. Connection × Option (List ℕ)) [
            | true ↦ k
            | false ↦ (handled.0, none)
          ])
          ih
      ∙ sym (parse_loop-some g bytes c t size payload rest e)
]

-- What is done with more bytes after a run of the loop: nothing where it returned early.
abbrev pub resume : List ℕ → Connection × Option (List ℕ) → Connection × Option (List ℕ)
resume more parsed = elim (parsed.1) [
  | none ↦ (parsed.0, none)
  | some rest ↦ parse (rest ++ more) parsed.0
]

pub parse_loop-append :
    (f : ℕ) (a b : List ℕ) (c : Connection)
    → length a < f
    → parse (a ++ b) c ≡ resume b (parse_loop f a c)
parse_loop-append zero a b c h = absurd (omega arith)
parse_loop-append (suc f) a b c h = elim (Option-cases (next_frame a)) [
  | inl e ↦ ap (resume b) (sym (parse_loop-none (suc f) a c e))
  | inr ((t, size, payload, rest), e) ↦
      let handled = handle_frame t size payload c in
      let later = next_frame-append a b t size payload rest e in
      let whole = next_frame-append (a ++ b) [] t size payload (rest ++ b) later.0 in
      parse_loop-some (length (a ++ b)) (a ++ b) c t size payload (rest ++ b) later.0
      ∙ follow handled rest whole.1 (parse_loop-append f rest b handled.0 (omega (arith, later.1)))
      ∙ ap (resume b) (sym (parse_loop-some f a c t size payload rest e))
]
  where
    follow :
        (handled : Connection × Bool) (rest : List ℕ)
        → length (rest ++ b) < length (a ++ b)
        → parse (rest ++ b) handled.0 ≡ resume b (parse_loop f rest handled.0)
        → go_on (length (a ++ b)) (rest ++ b) handled ≡ resume b (go_on f rest handled)
    follow (c', true) rest fewer ih =
        parse_loop-enough (length (a ++ b)) (suc (length (rest ++ b))) (rest ++ b) c' fewer
          (omega arith)
        ∙ ih
    follow (c', false) rest fewer ih = refl

-- The loop neither reads nor writes the accumulator.
abbrev pub with_accum : ℕ → List ℕ → Connection → Connection
with_accum size bytes c = record c { accum_size = size; in_accum = bytes }

notify_disconnect-with :
    (n : ℕ) (bs : List ℕ) (c : Connection)
    → notify_disconnect_once (with_accum n bs c) ≡ with_accum n bs (notify_disconnect_once c)
unfolding notify_disconnect_once
notify_disconnect-with n bs c = ground arith

notify_inbound-with :
    (n : ℕ) (bs : List ℕ) (c : Connection)
    → notify_inbound_ready (with_accum n bs c) ≡ with_accum n bs (notify_inbound_ready c)
unfolding notify_inbound_ready
notify_inbound-with n bs c = ground arith

handle_frame-with :
    (t size : ℕ) (payload : List ℕ) (n : ℕ) (bs : List ℕ) (c : Connection)
    → handle_frame t size payload (with_accum n bs c)
      ≡ (with_accum n bs (handle_frame t size payload c).0, (handle_frame t size payload c).1)
unfolding handle_frame perform
handle_frame-with t size payload n bs c = elim (Bool-cases (ltb max_payload_size size)) [
  | inl e ↦ rw e (ap (λ k. (k, false)) (notify_disconnect-with n bs c))
  | inr e ↦ elim (Bool-cases (leb size max_payload_size_buffer)) [
    | inl f ↦
        let m = inbound_message c.id t size payload in
        let pushed = try_push inbound_q_cap m c.inbound_to_engine in
        elim (Bool-cases (pushed.1)) [
          | inl g ↦
              rw (e, f, g)
                (ap (λ k. (k, true))
                  (notify_inbound-with n bs (record c { inbound_to_engine = pushed.0 })))
          | inr g ↦ rw (e, f, g) (ap (λ k. (k, false)) (notify_disconnect-with n bs c))
        ]
    | inr f ↦ rw (e, f) (large c.has_large_message)
  ]
]
  where
    large :
        (b : Bool)
        → ◌≡◌ {A = Connection × Bool}
            (if b
              then (perform (call_large_message t payload) (with_accum n bs c), true)
              else (with_accum n bs c, true))
            (
              with_accum n bs
                  (if◌then◌else◌ {A = Connection × Bool} b
                    (perform (call_large_message t payload) c, true)
                    (c, true)).0,
              (if◌then◌else◌ {A = Connection × Bool} b
                  (perform (call_large_message t payload) c, true)
                  (c, true)).1,
            )
    large true = refl
    large false = refl

pub parse_loop-with :
    (f : ℕ) (bytes : List ℕ) (n : ℕ) (bs : List ℕ) (c : Connection)
    → parse_loop f bytes (with_accum n bs c)
      ≡ (with_accum n bs (parse_loop f bytes c).0, (parse_loop f bytes c).1)
unfolding parse_loop
parse_loop-with zero bytes n bs c = refl
parse_loop-with (suc f) bytes n bs c = elim (Option-cases (next_frame bytes)) [
  | inl e ↦ rw (e, parse_loop) refl
  | inr ((t, size, payload, rest), e) ↦
      parse_loop-some f bytes (with_accum n bs c) t size payload rest e
      ∙ ap (go_on f rest) (handle_frame-with t size payload n bs c)
      ∙ follow (handle_frame t size payload c) rest
          (parse_loop-with f rest n bs (handle_frame t size payload c).0)
      ∙ ap (λ k. (with_accum n bs k.0, k.1)) (sym (parse_loop-some f bytes c t size payload rest e))
]
  where
    follow :
        (handled : Connection × Bool) (rest : List ℕ)
        → parse_loop f rest (with_accum n bs handled.0)
          ≡ (with_accum n bs (parse_loop f rest handled.0).0, (parse_loop f rest handled.0).1)
        → go_on f rest (with_accum n bs handled.0, handled.1)
          ≡ (with_accum n bs (go_on f rest handled).0, (go_on f rest handled).1)
    follow (c', true) rest ih = ih
    follow (c', false) rest ih = refl
