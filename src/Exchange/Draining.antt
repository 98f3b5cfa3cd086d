-- ===== src/Exchange/Draining.antt =====
-- The drain of the inbox.
use Prim.Native.String.{String}
use financial_exchange.Common.{
  ℕ, zero, suc, ◌≡◌, refl, sym, ap, ◌∙◌, subst, Bool, true, false, not, ◌&&◌, none, some, List, [],
  ◌∷◌, ◌++◌, arith, length, drop, ◌⊎◌, inl, inr, if◌then◌else◌, if_false, ◌==◌, ne→==,
}
use financial_exchange.Book.Api.{Times}
use financial_exchange.Spsc.Queue.{try_pop, size_approx}
use financial_exchange.Spsc.Fifo.{Holds, try_pop-Holds, size_approx_lem}
use financial_exchange.Connection.Frame.{InboundMessage, inbound_q_cap}
use financial_exchange.Connection.Deliver.{inbound_q_cap-IsCapacity}
use financial_exchange.Connection.Drain.{opposite}
use financial_exchange.Exchange.Messages.{Exchange, Output}
use financial_exchange.Exchange.Engine.{dispatch}
use financial_exchange.Exchange.Server.{
  Server, ask, post_engine_drain, schedule_engine_drain, engine_budget, run_inbox, engine_drain,
}

-- The end of a drain.
wake :
    (b : Bool) (t : Server)
    → t.engine_drain_scheduled ≡ false
    → let u = if b then schedule_engine_drain t else t in
      (u.exchange ≡ t.exchange)
      × (u.inbox ≡ t.inbox)
      × (((b ≡ true)
            × (u.engine_drain_scheduled ≡ true)
            × (u.asked ≡ t.asked ++ (post_engine_drain ∷ [])))
          ⊎ ((b ≡ false) × (u.engine_drain_scheduled ≡ false) × (u.asked ≡ t.asked)))
unfolding schedule_engine_drain ask
wake true t e =
    let go = if_false {A = Server} t.engine_drain_scheduled _ _ e in
    (
      ap (λ k. k.exchange) go,
      ap (λ k. k.inbox) go,
      inl (refl, ap (λ k. k.engine_drain_scheduled) go, ap (λ k. k.asked) go),
    )
wake false t e = (refl, refl, inr (refl, e, refl))

asleep :
    (running : Bool) (size : ℕ) (xs : List InboundMessage)
    → (running && not (size == 0)) ≡ false
    → size ≡ length xs
    → (running ≡ false) ⊎ (xs ≡ [])
asleep false size xs e k = inl refl
asleep true size [] e k = inr refl
asleep true size (x ∷ xs) e k =
    absurd (opposite (sym (ap not (sym (ne→== size 0 (omega (arith, k)))) ∙ e)))

module _ (text : String → List ℕ) where
  -- The messages handled one after the other, `budget` of them at most.
  unfoldable pub dispatch_each :
      ℕ → (ℕ → Times) → List InboundMessage → Exchange → Exchange × List Output
  dispatch_each zero now ms x = (x, [])
  dispatch_each (suc budget) now [] x = (x, [])
  dispatch_each (suc budget) now (m ∷ ms) x =
      let done = dispatch text m (now budget) x in
      let rest = dispatch_each budget now ms done.0 in (rest.0, done.1 ++ rest.1)

  -- The loop, as the messages that the inbox holds.
  abbrev Ran : ℕ → (ℕ → Times) → List InboundMessage → Server → Server × List Output → Type 0
  Ran budget now xs s r =
      (r.0 ≡ record s { exchange = (dispatch_each budget now xs s.exchange).0; inbox = r.0.inbox })
      × (r.1 ≡ (dispatch_each budget now xs s.exchange).1)
      × Holds inbound_q_cap r.0.inbox (drop budget xs)

  run_inbox-none :
      (budget : ℕ) (now : ℕ → Times) (s : Server)
      → (try_pop inbound_q_cap s.inbox).1 ≡ none
      → run_inbox text (suc budget) now s ≡ (s, [])
  unfolding run_inbox
  run_inbox-none budget now s e = rw (run_inbox, e) refl

  abbrev took : ℕ → (ℕ → Times) → InboundMessage → Server → Server
  took budget now m s = record s {
    inbox = (try_pop inbound_q_cap s.inbox).0;
    exchange = (dispatch text m (now budget) s.exchange).0;
  }

  run_inbox-some :
      (budget : ℕ) (now : ℕ → Times) (s : Server) (m : InboundMessage)
      → (try_pop inbound_q_cap s.inbox).1 ≡ some m
      → run_inbox text (suc budget) now s ≡ (
        (run_inbox text budget now (took budget now m s)).0,
        (dispatch text m (now budget) s.exchange).1
            ++ (run_inbox text budget now (took budget now m s)).1,
      )
  unfolding run_inbox
  run_inbox-some budget now s m e = rw (run_inbox, e) refl

  run_inbox-Ran :
      (budget : ℕ) (now : ℕ → Times) (xs : List InboundMessage) (s : Server)
      → Holds inbound_q_cap s.inbox xs
      → Ran budget now xs s (run_inbox text budget now s)
  unfolding dispatch_each run_inbox
  run_inbox-Ran zero now xs s h = (refl, refl, h)
  run_inbox-Ran (suc budget) now xs s h =
      elim (try_pop-Holds inbound_q_cap inbound_q_cap-IsCapacity s.inbox xs h) [
        | inl k ↦
            subst (λ l. Ran (suc budget) now l s (run_inbox text (suc budget) now s)) (sym k.0)
              (subst (Ran (suc budget) now [] s)
                (sym (run_inbox-none budget now s (ap (λ p. p.1) k.1)))
                (refl, refl, subst (Holds inbound_q_cap s.inbox) k.0 h))
        | inr (m, more, e, popped, first, _, _) ↦
            let ih = run_inbox-Ran budget now more (took budget now m s) popped in
            subst (λ l. Ran (suc budget) now l s (run_inbox text (suc budget) now s)) (sym e)
              (subst (Ran (suc budget) now (m ∷ more) s) (sym (run_inbox-some budget now s m first))
                (ih.0, ap (λ l. (dispatch text m (now budget) s.exchange).1 ++ l) ih.1, ih.2))
      ]

  -- For an inbox that holds `xs`: a drain handles the first messages, up to its budget and in order,
  -- just as `dispatch_` does one after the other, and leaves the others in the inbox. Either the next
  -- drain is posted, or none is and nothing waits or the exchange has been stopped.
  pub engine_drain_lem :
      (now : ℕ → Times) (xs : List InboundMessage) (s : Server)
      → Holds inbound_q_cap s.inbox xs
      → let r = engine_drain text now s in
        let each = dispatch_each engine_budget now xs s.exchange in
        (r.0.exchange ≡ each.0)
        × (r.1 ≡ each.1)
        × Holds inbound_q_cap r.0.inbox (drop engine_budget xs)
        × (((r.0.engine_drain_scheduled ≡ true) × (r.0.asked ≡ s.asked ++ (post_engine_drain ∷ [])))
            ⊎ ((r.0.engine_drain_scheduled ≡ false)
                × (r.0.asked ≡ s.asked)
                × ((s.running ≡ false) ⊎ (drop engine_budget xs ≡ []))))
  unfolding engine_drain
  engine_drain_lem now xs s h =
      let awake : Server = record s { engine_drain_scheduled = false } in
      let ran = run_inbox-Ran engine_budget now xs awake h in
      let drained = run_inbox text engine_budget now awake in
      let b = s.running && not (size_approx drained.0.inbox == 0) in
      let woken = wake b drained.0 (ap (λ k. k.engine_drain_scheduled) ran.0) in
      (
        woken.0 ∙ ap (λ k. k.exchange) ran.0,
        ran.1,
        subst (λ q. Holds inbound_q_cap q (drop engine_budget xs)) (sym woken.1) ran.2,
        elim (woken.2) [
          | inl k ↦ inl (k.1, k.2 ∙ ap (λ k. k.asked ++ (post_engine_drain ∷ [])) ran.0)
          | inr k ↦ inr (
            k.1,
            k.2 ∙ ap (λ k. k.asked) ran.0,
            asleep s.running (size_approx drained.0.inbox) (drop engine_budget xs) k.0 (
                size_approx_lem inbound_q_cap inbound_q_cap-IsCapacity drained.0.inbox
                  (drop engine_budget xs) ran.2),
          )
        ],
      )
