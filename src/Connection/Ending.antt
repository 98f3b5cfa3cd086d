-- ===== src/Connection/Ending.antt =====
-- How a run of the loop of `parse_accumulator_` ends.
use financial_exchange.Common.{
  ℕ, zero, suc, ◌<◌, ◌≡◌, refl, sym, subst, Bool, true, false, Option, none, some, List, [], arith,
  length, Bool-cases, Option-cases, ◌⊎◌, inl, inr,
}
use financial_exchange.Connection.Frame.{next_frame}
use financial_exchange.Connection.State.{
  Connection, notify_disconnect_once, notify_inbound_ready, perform, close,
}
use financial_exchange.Connection.Read.{handle_frame, parse_loop}
use financial_exchange.Connection.Handling.{handle_frame_cases}
use financial_exchange.Connection.Framing.{next_frame-append}
use financial_exchange.Connection.Chunks.{go_on, parse_loop-none, parse_loop-some}

pub notify_disconnect-told :
    (c : Connection) → (notify_disconnect_once c).disconnect_notified ≡ true
unfolding notify_disconnect_once close perform
notify_disconnect-told c = elim (Bool-cases (c.disconnect_notified)) [
  | inl e ↦ rw e refl
  | inr e ↦ elim (Bool-cases (c.has_disconnected)) [
    | inl f ↦ rw (e, f) refl
    | inr f ↦ rw (e, f) refl
  ]
]

pub notify_inbound-told :
    (c : Connection) → (notify_inbound_ready c).disconnect_notified ≡ c.disconnect_notified
unfolding notify_inbound_ready perform
notify_inbound-told c = ground arith

-- The loop goes on where the connection is not given up.
handle_frame-told :
    (t size : ℕ) (payload : List ℕ) (c : Connection)
    → (((handle_frame t size payload c).1 ≡ true)
        × ((handle_frame t size payload c).0.disconnect_notified ≡ c.disconnect_notified))
      ⊎ (((handle_frame t size payload c).1 ≡ false)
          × ((handle_frame t size payload c).0.disconnect_notified ≡ true))
unfolding perform
handle_frame-told t size payload c = elim (handle_frame_cases t size payload c) [
  | inl k ↦ inr (rw (k.1) refl, rw (k.1) (notify_disconnect-told c))
  | inr (inl k) ↦ inl (rw (k.3) refl, rw (k.3) (notify_inbound-told _))
  | inr (inr (inl k)) ↦ inr (rw (k.3) refl, rw (k.3) (notify_disconnect-told c))
  | inr (inr (inr k)) ↦ inl (
    rw (k.2) refl,
    rw (k.2) (elim (Bool-cases (c.has_large_message)) [ inl e ↦ rw e refl | inr e ↦ rw e refl ]),
  )
]

-- How a run of the loop ends.
abbrev pub Ended : Bool → Connection × Option (List ℕ) → Type 0
Ended told parsed =
    ((parsed.1 ≡ none) × (parsed.0.disconnect_notified ≡ true))
    ⊎ ((rest : List ℕ) × (parsed.1 ≡ some rest)
        × (parsed.0.disconnect_notified ≡ told)
        × (next_frame rest ≡ none))

pub parse_loop-Ended :
    (f : ℕ) (bytes : List ℕ) (c : Connection)
    → length bytes < f
    → Ended c.disconnect_notified (parse_loop f bytes c)
parse_loop-Ended zero bytes c enough = absurd (omega arith)
parse_loop-Ended (suc f) bytes c enough = elim (Option-cases (next_frame bytes)) [
  | inl e ↦
      subst (Ended c.disconnect_notified) (sym (parse_loop-none (suc f) bytes c e))
        (inr (bytes, refl, refl, e))
  | inr ((t, size, payload, rest), e) ↦
      let less = (next_frame-append bytes [] t size payload rest e).1 in
      let handled = handle_frame t size payload c in
      subst (Ended c.disconnect_notified) (sym (parse_loop-some f bytes c t size payload rest e)) (
        follow handled rest (handle_frame-told t size payload c)
          (parse_loop-Ended f rest handled.0 (omega arith)))
]
  where
    follow :
        (handled : Connection × Bool) (rest : List ℕ)
        → ((handled.1 ≡ true) × (handled.0.disconnect_notified ≡ c.disconnect_notified))
          ⊎ ((handled.1 ≡ false) × (handled.0.disconnect_notified ≡ true))
        → Ended handled.0.disconnect_notified (parse_loop f rest handled.0)
        → Ended c.disconnect_notified (go_on f rest handled)
    follow handled rest (inl k) ih =
        rw (k.0) (subst (λ b. Ended b (parse_loop f rest handled.0)) k.1 ih)
    follow handled rest (inr k) ih = rw (k.0) (inl (refl, k.1))
