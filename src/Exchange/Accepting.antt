-- ===== src/Exchange/Accepting.antt =====
-- The table of connections, as clients come.
use financial_exchange.Common.{
  ℕ, zero, suc, ◌^◌, ◌≤◌, ◌<◌, ◌≡◌, ◌≢◌, refl, sym, ap, ◌∙◌, Bool, true, false, ◌&&◌, [], ◌∷◌, ◌++◌,
  arith, Bool-cases, inl, inr, ltb, leb, if◌then◌else◌, if_true, if_false, update, update_self,
  update_ne, add32, add32_lem, ℕ_discrete, leb→le, leb→lt,
}
use financial_exchange.Exchange.Messages.{max_connections}
use financial_exchange.Exchange.Server.{
  Server, ask, begin_accept, begin_read, make_connection, destroy_connection, accepted,
  accept_again, publish_connection, on_accepted, member,
}

-- `n` clients come, one after the other.
unfoldable pub accept_each : ℕ → Server → Server
accept_each zero s = s
accept_each (suc n) s = on_accepted accepted (accept_each n s)

-- What is true after `n` clients: the table has the first of them, up to its size.
abbrev pub Accepted : ℕ → Server → Type 0
Accepted n s =
    (s.next_connection_id ≡ n)
    × ((id : ℕ) → s.exchange.connected id ≡ (ltb id n && ltb id max_connections))

again :
    (P : Server → Type 0) (s : Server)
    → ((t : Server) → P t → P (ask begin_accept t))
    → P s
    → P (accept_again s)
unfolding accept_again
again P s keep h = by_flag s.acceptor_open
  where
    by_flag : (b : Bool) → P (if b then ask begin_accept s else s)
    by_flag true = keep s h
    by_flag false = h

dropped :
    (P : Server → Type 0) (b : Bool) (id : ℕ) (s : Server)
    → ((t : Server) → P t → P (ask (destroy_connection id) t))
    → P s
    → P (if b then ask (destroy_connection id) s else s)
dropped P true id s keep h = keep s h
dropped P false id s keep h = h

publish_connection-connected :
    (id j : ℕ) (s : Server)
    → (publish_connection id s).exchange.connected j ≡ (
        if leb max_connections id
        then s.exchange.connected j
        else update s.exchange.connected id true j)
unfolding publish_connection
publish_connection-connected id j s = by_flag (leb max_connections id)
  where
    by_flag :
        (b : Bool)
        → (if b then s else (record s {
          clients = if member id s.clients then s.clients else id ∷ s.clients;
          exchange = record s.exchange { connected = update s.exchange.connected id true };
        })).exchange.connected
            j
          ≡ (if b then s.exchange.connected j else update s.exchange.connected id true j)
    by_flag true = refl
    by_flag false = refl

past_end : (n j : ℕ) → 32 ≤ n → (ltb j n && ltb j 32) ≡ (ltb j (suc n) && ltb j 32)
past_end n j h = ground arith

newest : (n : ℕ) → n < 32 → true ≡ (ltb n (suc n) && ltb n 32)
newest n h = ground arith

older : (n j : ℕ) → j ≢ n → (ltb j n && ltb j 32) ≡ (ltb j (suc n) && ltb j 32)
older n j h = ground arith

next_id :
    (id : ℕ) (t : Server) → (publish_connection id t).next_connection_id ≡ t.next_connection_id
unfolding publish_connection
next_id id t = by_flag (leb max_connections id)
  where
    by_flag :
        (b : Bool)
        → (if b then t else (record t {
          clients = if member id t.clients then t.clients else id ∷ t.clients;
          exchange = record t.exchange { connected = update t.exchange.connected id true };
        })).next_connection_id
          ≡ t.next_connection_id
    by_flag true = refl
    by_flag false = refl

-- A client more.
on_accepted-Accepted :
    (n : ℕ) (s : Server) → suc n < 2 ^ 32 → Accepted n s → Accepted (suc n) (on_accepted accepted s)
unfolding on_accepted ask
on_accepted-Accepted n s few ok =
    let id = s.next_connection_id in
    let made : Server = record s {
      next_connection_id = add32 id 1;
      asked = (s.asked ++ (make_connection id ∷ [])) ++ (begin_read id ∷ []);
    } in
    dropped (Accepted (suc n)) (leb max_connections id) id _ (λ t h. h)
      (again (Accepted (suc n)) (publish_connection id made) (λ t h. h)
        (
          next_id id made
              ∙ ap (λ k. add32 k 1) ok.0
              ∙ add32_lem n 1 (omega (arith, few))
              ∙ omega arith,
          λ j.
              publish_connection-connected id j made
              ∙ ap
                  (λ k.
                    if leb 32 k
                    then s.exchange.connected j
                    else update s.exchange.connected k true j)
                  ok.0
              ∙ table j,
        ))
  where
    table :
        (j : ℕ)
        → (if leb 32 n then s.exchange.connected j else update s.exchange.connected n true j)
          ≡ (ltb j (suc n) && ltb j 32)
    table j = elim (Bool-cases (leb 32 n)) [
      | inl e ↦ if_true _ _ _ e ∙ ok.1 j ∙ past_end n j (leb→le _ _ e)
      | inr e ↦ if_false _ _ _ e ∙ elim (ℕ_discrete j n) [
        | yes d ↦
            ap (update s.exchange.connected n true) d
            ∙ update_self s.exchange.connected n true
            ∙ newest n (leb→lt _ _ e)
            ∙ ap (λ k. ltb k (suc n) && ltb k 32) (sym d)
        | no d ↦ update_ne s.exchange.connected n j true d ∙ ok.1 j ∙ older n j d
      ]
    ]

-- For an exchange that has given no connection id yet and whose table is empty: after any number of
-- clients below 2 ^ 32, the next id is that number, and the table has the clients with ids below it and
-- below 32, and no other.
pub accept_each-Accepted :
    (n : ℕ) (s : Server) → n < 2 ^ 32 → Accepted 0 s → Accepted n (accept_each n s)
unfolding accept_each
accept_each-Accepted zero s few ok = ok
accept_each-Accepted (suc n) s few ok =
    on_accepted-Accepted n (accept_each n s) few (accept_each-Accepted n s (omega (arith, few)) ok)
