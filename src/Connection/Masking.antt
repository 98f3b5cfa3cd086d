-- ===== src/Connection/Masking.antt =====
-- A connection seen without its accumulator and without the notifications to the engine: handling
-- frames does not depend on what is left out.
use financial_exchange.Common.{
  ℕ, zero, suc, ◌≡◌, refl, sym, ap, ◌∙◌, Bool, true, false, not, none, some, List, [], ◌∷◌, ◌++◌,
  arith, Bool-cases, Option-cases, inl, inr, if◌then◌else◌, ltb, leb, append_assoc, append-nil,
  if_both, ◌&&◌,
}
use financial_exchange.Connection.Frame.{next_frame, inbound_q_cap}
use financial_exchange.Connection.State.{
  Action, start_read, start_write, write_unbuffered, post_drain, post_inbound_ready, close_socket,
  call_disconnected, call_inbound_ready, call_large_message, Connection, perform, close,
  notify_disconnect_once, notify_inbound_ready, run_inbound_ready,
}
use financial_exchange.Connection.Read.{handle_frame, inbound_message, parse_loop}
use financial_exchange.Connection.Chunks.{go_on, parse_loop-some}
use financial_exchange.Protocol.MessageType.{max_payload_size, max_payload_size_buffer}
use financial_exchange.Spsc.Queue.{try_push}

-- How often a read is begun and the engine is notified is left out.
abbrev pub lasting_action : Action → List Action
lasting_action start_read = []
lasting_action post_inbound_ready = []
lasting_action call_inbound_ready = []
lasting_action (start_write bytes) = start_write bytes ∷ []
lasting_action (write_unbuffered bytes) = write_unbuffered bytes ∷ []
lasting_action post_drain = post_drain ∷ []
lasting_action close_socket = close_socket ∷ []
lasting_action call_disconnected = call_disconnected ∷ []
lasting_action (call_large_message t payload) = call_large_message t payload ∷ []

abbrev pub lasting : List Action → List Action
lasting [] = []
lasting (a ∷ done) = lasting_action a ++ lasting done

-- A connection as it is seen, with these accumulated bytes.
abbrev pub seen : List ℕ → Connection → Connection
seen bytes c = record c {
  accum_size = 0;
  in_accum = bytes;
  inbound_ready_pending = false;
  performed = lasting c.performed;
}

lasting_twice : (done : List Action) → lasting (lasting done) ≡ lasting done
lasting_twice [] = refl
lasting_twice (start_read ∷ done) = lasting_twice done
lasting_twice (post_inbound_ready ∷ done) = lasting_twice done
lasting_twice (call_inbound_ready ∷ done) = lasting_twice done
lasting_twice (start_write bytes ∷ done) = ap (λ k. start_write bytes ∷ k) (lasting_twice done)
lasting_twice (write_unbuffered bytes ∷ done) =
    ap (λ k. write_unbuffered bytes ∷ k) (lasting_twice done)
lasting_twice (post_drain ∷ done) = ap (λ k. post_drain ∷ k) (lasting_twice done)
lasting_twice (close_socket ∷ done) = ap (λ k. close_socket ∷ k) (lasting_twice done)
lasting_twice (call_disconnected ∷ done) = ap (λ k. call_disconnected ∷ k) (lasting_twice done)
lasting_twice (call_large_message t payload ∷ done) =
    ap (λ k. call_large_message t payload ∷ k) (lasting_twice done)

lasting-append : (done more : List Action) → lasting (done ++ more) ≡ lasting done ++ lasting more
lasting-append [] more = refl
lasting-append (a ∷ done) more =
    ap (λ k. lasting_action a ++ k) (lasting-append done more)
    ∙ sym (append_assoc (lasting_action a) (lasting done) (lasting more))

-- An action made after others, some of them left out before.
lasting-more : (done more : List Action) → lasting (done ++ more) ≡ lasting (lasting done ++ more)
lasting-more done more =
    lasting-append done more
    ∙ ap (λ k. k ++ lasting more) (sym (lasting_twice done))
    ∙ sym (lasting-append (lasting done) more)

seen-lasting :
    (c : Connection) {done done' : List Action}
    → done ≡ done'
    → record (seen [] c) { performed = done } ≡ record (seen [] c) { performed = done' }
seen-lasting c e = ap (λ k. record (seen [] c) { performed = k }) e

seen-perform :
    (a : Action) (c : Connection) → seen [] (perform a c) ≡ seen [] (perform a (seen [] c))
unfolding perform
seen-perform a c = seen-lasting c (lasting-more c.performed (a ∷ []))

-- A notification of the engine is not seen.
pub unseen :
    (a : Action) (c : Connection) → lasting_action a ≡ [] → seen [] (perform a c) ≡ seen [] c
unfolding perform
unseen a c e = seen-lasting c (
    lasting-append c.performed (a ∷ [])
    ∙ ap (λ k. lasting c.performed ++ (k ++ [])) e
    ∙ append-nil (lasting c.performed))

pub seen_twice : (c : Connection) → seen [] (seen [] c) ≡ seen [] c
seen_twice c = seen-lasting c (lasting_twice c.performed)

pub notify_inbound-unseen : (c : Connection) → seen [] (notify_inbound_ready c) ≡ seen [] c
unfolding notify_inbound_ready
notify_inbound-unseen c = elim (Bool-cases (not c.has_inbound_ready)) [
  | inl e ↦ rw e refl
  | inr e ↦ elim (Bool-cases (c.inbound_ready_pending)) [
    | inl f ↦ rw (e, f) refl
    | inr f ↦ rw (e, f) (unseen post_inbound_ready (record c { inbound_ready_pending = true }) refl)
  ]
]

pub run_inbound-unseen : (c : Connection) → seen [] (run_inbound_ready c) ≡ seen [] c
unfolding run_inbound_ready
run_inbound-unseen c = by_flag _
  where
    by_flag :
        (b : Bool)
        → seen [] (
            if b
            then perform call_inbound_ready (record c { inbound_ready_pending = false })
            else (record c { inbound_ready_pending = false }))
          ≡ seen [] c
    by_flag true = unseen call_inbound_ready (record c { inbound_ready_pending = false }) refl
    by_flag false = refl

lasting_more_two :
    (done : List Action) (a b : Action)
    → lasting ((done ++ (a ∷ [])) ++ (b ∷ [])) ≡ lasting ((lasting done ++ (a ∷ [])) ++ (b ∷ []))
lasting_more_two done a b =
    ap lasting (append_assoc done (a ∷ []) (b ∷ []))
    ∙ lasting-more done (a ∷ b ∷ [])
    ∙ ap lasting (sym (append_assoc (lasting done) (a ∷ []) (b ∷ [])))

-- `notify_disconnect_once` by its two tests.
abbrev tell : Bool → Bool → Connection → Connection
tell told has c =
    if told
    then c
    else let closed = close (record c { disconnect_notified = true }) in
      if has then perform call_disconnected closed else closed

tell-seen :
    (told has : Bool) (c : Connection)
    → seen [] (tell told has c) ≡ seen [] (tell told has (seen [] c))
unfolding close perform
tell-seen true has c = sym (seen_twice c)
tell-seen false true c =
    seen-lasting (record c { disconnect_notified = true })
      (lasting_more_two c.performed close_socket call_disconnected)
tell-seen false false c =
    seen-lasting (record c { disconnect_notified = true })
      (lasting-more c.performed (close_socket ∷ []))

notify_disconnect-seen :
    (c : Connection)
    → seen [] (notify_disconnect_once c) ≡ seen [] (notify_disconnect_once (seen [] c))
unfolding notify_disconnect_once
notify_disconnect-seen c = tell-seen c.disconnect_notified c.has_disconnected c

-- The outcome of a frame or of the loop, as it is seen.
abbrev pub seen_with {ℓ} : {A : Type ℓ} → Connection × A → Connection × A
seen_with r = (seen [] r.0, r.1)

pub handle_frame-seen :
    (t size : ℕ) (payload : List ℕ) (c : Connection)
    → seen_with (handle_frame t size payload c)
      ≡ seen_with (handle_frame t size payload (seen [] c))
unfolding handle_frame
handle_frame-seen t size payload c = elim (Bool-cases (ltb max_payload_size size)) [
  | inl e ↦ rw e (ap (λ k. (k, false)) (notify_disconnect-seen c))
  | inr e ↦ elim (Bool-cases (leb size max_payload_size_buffer)) [
    | inl f ↦
        let m = inbound_message c.id t size payload in
        let pushed = try_push inbound_q_cap m c.inbound_to_engine in
        let queued : Connection = record c { inbound_to_engine = pushed.0 } in
        elim (Bool-cases (pushed.1)) [
          | inl g ↦
              rw (e, f, g)
                (ap (λ k. (k, true))
                  (notify_inbound-unseen queued
                    ∙ sym (seen_twice queued)
                    ∙ sym (notify_inbound-unseen (seen [] queued))))
          | inr g ↦ rw (e, f, g) (ap (λ k. (k, false)) (notify_disconnect-seen c))
        ]
    | inr f ↦ rw (e, f) (large c.has_large_message)
  ]
]
  where
    large :
        (b : Bool)
        → seen_with {A = Bool}
            (if b then (perform (call_large_message t payload) c, true) else (c, true))
          ≡ seen_with {A = Bool} (
              if b
              then (perform (call_large_message t payload) (seen [] c), true)
              else (seen [] c, true))
    large true = ap (λ k. (k, true)) (seen-perform (call_large_message t payload) c)
    large false = ap (λ k. (k, true)) (sym (seen_twice c))

differ : true ≡ false → ⊥
differ e = ground arith

pub parse_loop-seen :
    (f : ℕ) (bytes : List ℕ) (c : Connection)
    → seen_with (parse_loop f bytes c) ≡ seen_with (parse_loop f bytes (seen [] c))
unfolding parse_loop
parse_loop-seen zero bytes c = ap (λ k. (k, some bytes)) (sym (seen_twice c))
parse_loop-seen (suc f) bytes c = elim (Option-cases (next_frame bytes)) [
  | inl e ↦ rw (e, parse_loop) (ap (λ k. (k, some bytes)) (sym (seen_twice c)))
  | inr ((t, size, payload, rest), e) ↦
      ap seen_with (parse_loop-some f bytes c t size payload rest e)
      ∙ follow rest (handle_frame t size payload c) (handle_frame t size payload (seen [] c))
          (parse_loop-seen f rest (handle_frame t size payload c).0)
          (parse_loop-seen f rest (handle_frame t size payload (seen [] c)).0)
          (handle_frame-seen t size payload c)
      ∙ ap seen_with (sym (parse_loop-some f bytes (seen [] c) t size payload rest e))
]
  where
    follow :
        (rest : List ℕ) (one two : Connection × Bool)
        → seen_with (parse_loop f rest one.0) ≡ seen_with (parse_loop f rest (seen [] one.0))
        → seen_with (parse_loop f rest two.0) ≡ seen_with (parse_loop f rest (seen [] two.0))
        → seen_with one ≡ seen_with two
        → seen_with (go_on f rest one) ≡ seen_with (go_on f rest two)
    follow rest (c1, true) (c2, true) ih1 ih2 same =
        ih1 ∙ ap (λ k. seen_with (parse_loop f rest k.0)) same ∙ sym ih2
    follow rest (c1, false) (c2, false) ih1 ih2 same = ap (λ k. (k.0, none)) same
    follow rest (c1, true) (c2, false) ih1 ih2 same = absurd (differ (ap (λ k. k.1) same))
    follow rest (c1, false) (c2, true) ih1 ih2 same = absurd (differ (sym (ap (λ k. k.1) same)))

pub run_inbound-told :
    (c : Connection)
    → ((run_inbound_ready c).disconnect_notified ≡ c.disconnect_notified)
      × ((run_inbound_ready c).in_accum ≡ c.in_accum)
unfolding run_inbound_ready perform
run_inbound-told c =
    if_both
      (λ (d : Connection).
        (d.disconnect_notified ≡ c.disconnect_notified) × (d.in_accum ≡ c.in_accum))
      (c.has_inbound_ready && not c.disconnect_notified) (refl, refl) (refl, refl)
