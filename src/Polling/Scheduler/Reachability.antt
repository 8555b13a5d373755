-- ===== src/Polling/Scheduler/Reachability.antt =====
-- What holds in every state that the scheduler reaches.
use webitel_emails.Prelude.{
  ℕ, ◌+◌, ◌≡◌, ◌∙◌, inl, inr, refl, sym, ap, subst, nat_eq, ltb, none, some, List, ◌∷◌, contains,
  Bool-cases, arith,
}
use webitel_emails.Polling.Scheduler.Keyed.{keep}
use webitel_emails.Polling.Scheduler.{
  Capacity, State, initial, try_start, end_run, free_slot, close_done, acquire_conn_slot,
  close_all_sessions, Step, starts, ends, frees, closes_idle, evicts, drops, touches, opens,
  gives_up, acquires, fails, connects, closed, closes_all,
}
use webitel_emails.Polling.Scheduler.Permits.{
  Workers, Connections, from_some, acquired, free-opening, Step-Workers,
}
use webitel_emails.Polling.Scheduler.Connections.{
  closes_idle-Connections, evicts-Connections, drops-Connections, touches-Connections,
  gives_up-Connections, fails-Connections, connects-Connections, acquires-Connections,
  opens-Connections,
}

-- The states that the steps reach from the initial one.
pub data Reachable (capacity : Capacity) : State → Type 0 where
  start : Reachable capacity initial
  next : {s s' : State} → Reachable capacity s → Step capacity s s' → Reachable capacity s'

module _ (capacity : Capacity) where
  -- The connections of a state stay when only its workers change.
  same-Connections :
      (s : State) (running : List ℕ) (slots finishing : ℕ)
      → Connections capacity s
      → Connections capacity (record s { running = running; slots = slots; finishing = finishing })
  same-Connections s running slots finishing w = record {
    sessions_distinct = w.sessions_distinct;
    opening_distinct = w.opening_distinct;
    apart = w.apart;
    held = w.held;
    bound = w.bound;
  }

  starts-Connections :
      (id : ℕ) (s s' : State)
      → try_start capacity id s ≡ some s'
      → Connections capacity s
      → Connections capacity s'
  unfolding try_start
  starts-Connections id s s' e w = elim (Bool-cases (contains s.running id)) [
    | inl r ↦ absurd (let q : try_start capacity id s ≡ none = rw (r, try_start) refl in cc)
    | inr r ↦ elim (Bool-cases (ltb s.slots capacity.max_concurrency)) [
      | inr f ↦ absurd (let q : try_start capacity id s ≡ none = rw (r, f, try_start) refl in cc)
      | inl f ↦
          let q : try_start capacity id s
              ≡ some (record s { running = id ∷ s.running; slots = s.slots + 1 }) =
            rw (r, f, try_start) refl in
          subst (Connections capacity) (ap (from_some s) (sym q ∙ e))
            (same-Connections s (id ∷ s.running) (s.slots + 1) s.finishing w)
    ]
  ]

  Step-Connections :
      {s s' : State}
      → Step capacity s s'
      → Workers capacity s
      → Connections capacity s
      → Connections capacity s'
  unfolding end_run free_slot close_done close_all_sessions acquire_conn_slot contains
  Step-Connections (starts {s = s} {s' = s'} id e) v w = starts-Connections id s s' e w
  Step-Connections (ends {s = s} id f) v w = same-Connections s _ _ _ w
  Step-Connections (frees {s = s} h) v w = same-Connections s _ _ _ w
  Step-Connections (closes_idle {s = s} now) v w = closes_idle-Connections capacity now s w
  Step-Connections (evicts {s = s}) v w = evicts-Connections capacity s w
  Step-Connections (drops {s = s} id graceful f) v w = drops-Connections capacity id graceful s w
  Step-Connections (touches {s = s} id now) v w = touches-Connections capacity id now s w
  Step-Connections (opens {s = s} id f n) v w =
      opens-Connections capacity id s (free-opening id s v.distinct f) n w
  Step-Connections (gives_up {s = s} id o) v w = gives_up-Connections capacity id s o w
  Step-Connections (acquires {s = s} {s' = s'} id o e) v w =
      elim (Bool-cases (ltb s.conn_slots capacity.max_open_connections)) [
        | inr f ↦
            absurd (
              let q : acquire_conn_slot capacity id s ≡ none = rw (f, acquire_conn_slot) refl in cc)
        | inl f ↦
            subst (Connections capacity) (ap (from_some s) (sym (acquired capacity id s f) ∙ e))
              (acquires-Connections capacity id s o f w)
      ]
  Step-Connections (fails {s = s} id o) v w = fails-Connections capacity id s o w
  Step-Connections (connects {s = s} id current o) v w =
      connects-Connections capacity id current s o w
  Step-Connections (closed {s = s} h) v w = record {
    sessions_distinct = w.sessions_distinct;
    opening_distinct = w.opening_distinct;
    apart = w.apart;
    held = omega (arith, w.held, h);
    bound = omega (arith, w.bound);
  }
  Step-Connections (closes_all {s = s}) v w = record {
    sessions_distinct = tt;
    opening_distinct = w.opening_distinct;
    apart = λ j. inr refl;
    held = omega (arith, w.held);
    bound = w.bound;
  }

  initial-Workers : Workers capacity initial
  initial-Workers = record { distinct = tt; held = refl; bound = omega arith }

  initial-Connections : Connections capacity initial
  unfolding keep contains
  initial-Connections = record {
    sessions_distinct = tt;
    opening_distinct = tt;
    apart = λ j. inr refl;
    held = refl;
    bound = omega arith;
  }

  -- In every state that interleaved steps of the loop, the workers and the logouts reach from the
  -- start, a profile has at most one worker, each worker holds a slot, and the slots are no more
  -- than the capacity.
  pub Reachable-Workers : {s : State} → Reachable capacity s → Workers capacity s
  Reachable-Workers start = initial-Workers
  Reachable-Workers (next r x) = Step-Workers capacity x (Reachable-Workers r)

  -- In every state that interleaved steps of the loop, the workers and the logouts reach from the
  -- start, a profile has at most one connection that is cached or being opened, the logout of an
  -- earlier one apart; the permits are as many as the cached connections, those being opened with
  -- a permit and those being closed; and they are no more than the capacity.
  pub Reachable-Connections : {s : State} → Reachable capacity s → Connections capacity s
  Reachable-Connections start = initial-Connections
  Reachable-Connections (next r x) =
      Step-Connections x (Reachable-Workers r) (Reachable-Connections r)
