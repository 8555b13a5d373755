-- ===== src/Polling/Scheduler/Permits.antt =====
-- The slots and the permits of the scheduler are never more than their channels hold.
use webitel_emails.Prelude.{
  ℕ, ◌+◌, ◌≤◌, ◌≡◌, ◌⊎◌, ◌∙◌, inl, inr, refl, sym, ap, subst, Bool, true, false, ◌==◌, nat_eq,
  nat_beq_iff, ltb, Option, none, some, List, [], ◌∷◌, length, contains, Distinct, Bool-cases,
  Option-cases, arith,
}
use webitel_emails.Polling.Scheduler.Keyed.{
  has, keys, delete, count, times-contains, times-absent, Distinct-times,
}
use webitel_emails.Polling.Scheduler.{
  Capacity, State, has_free_worker, try_start, without, end_run, free_slot, close_session,
  close_done, drop_session, close_idle_sessions, least_recent, evict_for_capacity,
  acquire_conn_slot, connect_failed, connect_done, touch_session, close_all_sessions, Step, starts,
  ends, frees, closes_idle, evicts, drops, touches, opens, gives_up, acquires, fails, connects,
  closed, closes_all,
}

-- The workers: a profile has one at most, and each of them holds a slot.
pub record Workers (capacity : Capacity) (s : State) : Type 0 where
  pub distinct : Distinct s.running
  pub held : s.slots ≡ length s.running + s.finishing
  pub bound : s.slots ≤ capacity.max_concurrency

-- The connections: a profile has one at most, cached or being opened, and each of them, with those
-- that a logout still closes, holds a permit.
pub record Connections (capacity : Capacity) (s : State) : Type 0 where
  pub sessions_distinct : Distinct (keys s.sessions)
  pub opening_distinct : Distinct (keys s.opening)
  pub apart : (j : ℕ) → (has j s.opening ≡ false) ⊎ (has j s.sessions ≡ false)
  pub held : s.conn_slots ≡ length s.sessions + count (λ e. e.1) s.opening + s.closing
  pub bound : s.conn_slots ≤ capacity.max_open_connections

without-has : (id j : ℕ) (js : List ℕ) → contains js j ≡ false → contains (without id js) j ≡ false
unfolding without contains
without-has id j [] h = h
without-has id j (k ∷ js) h = let r = without-has id j js in ground arith

without-Distinct : (id : ℕ) (js : List ℕ) → Distinct js → Distinct (without id js)
unfolding without
without-Distinct id [] d = d
without-Distinct id (k ∷ js) d = elim (Bool-cases (k == id)) [
  | inl e ↦ rw (e, without) (without-Distinct id js d.1)
  | inr e ↦ rw (e, without) (without-has id k js d.0, without-Distinct id js d.1)
]

without-absent :
    (id : ℕ) (js : List ℕ) → contains js id ≡ false → length (without id js) ≡ length js
unfolding without contains
without-absent id [] h = refl
without-absent id (k ∷ js) h = let r = without-absent id js in ground arith

without-length :
    (id : ℕ) (js : List ℕ)
    → Distinct js
    → contains js id ≡ true
    → length (without id js) + 1 ≡ length js
unfolding without contains
without-length id [] d h = absurd (cc)
without-length id (k ∷ js) d h = elim (Bool-cases (k == id)) [
  | inl e ↦
      let i = (nat_beq_iff k id).0 e in
      let a = without-absent id js (subst (λ j. contains js j ≡ false) i d.0) in ground arith
  | inr e ↦ let r = without-length id js d.1 in ground arith
]

abbrev pub from_some : State → Option State → State
from_some s none = s
from_some s (some t) = t

pub free-running : (id : ℕ) (s : State) → has_free_worker id s ≡ true → contains s.running id ≡ true
free-running id s f = times-contains id s.running (ground arith)

-- With one worker at most, a free one means that the profile has no connection being opened.
pub free-opening :
    (id : ℕ) (s : State)
    → Distinct s.running
    → has_free_worker id s ≡ true
    → has id s.opening ≡ false
free-opening id s d f =
    let one = Distinct-times id s.running d in times-absent id (keys s.opening) (ground arith)

module _ (capacity : Capacity) where
  close_session-Workers :
      (graceful : Bool) (s : State)
      → Workers capacity s
      → Workers capacity (close_session graceful s)
  unfolding close_session
  close_session-Workers true s w = record { distinct = w.distinct; held = w.held; bound = w.bound }
  close_session-Workers false s w = record { distinct = w.distinct; held = w.held; bound = w.bound }

  pub acquired :
      (id : ℕ) (s : State)
      → ltb s.conn_slots capacity.max_open_connections ≡ true
      → acquire_conn_slot capacity id s
        ≡ some
            (record s { opening = (id, true) ∷ delete id s.opening; conn_slots = s.conn_slots + 1 })
  unfolding acquire_conn_slot
  acquired id s f = rw (f, acquire_conn_slot) refl

  pub Step-Workers : {s s' : State} → Step capacity s s' → Workers capacity s → Workers capacity s'
  unfolding try_start end_run free_slot close_idle_sessions evict_for_capacity drop_session
      close_session touch_session acquire_conn_slot connect_failed connect_done close_done
      close_all_sessions
  Step-Workers (starts {s = s} {s' = s'} id e) w = elim (Bool-cases (contains s.running id)) [
    | inl r ↦ absurd (let q : try_start capacity id s ≡ none = rw (r, try_start) refl in cc)
    | inr r ↦ elim (Bool-cases (ltb s.slots capacity.max_concurrency)) [
      | inr f ↦ absurd (let q : try_start capacity id s ≡ none = rw (r, f, try_start) refl in cc)
      | inl f ↦
          let q : try_start capacity id s
              ≡ some (record s { running = id ∷ s.running; slots = s.slots + 1 }) =
            rw (r, f, try_start) refl in
          subst (Workers capacity) (ap (from_some s) (sym q ∙ e)) (record {
            distinct = (r, w.distinct);
            held = omega (arith, w.held);
            bound = ground arith;
          })
    ]
  ]
  Step-Workers (ends {s = s} id f) w =
      let l = without-length id s.running w.distinct (free-running id s f) in
      record {
        distinct = without-Distinct id s.running w.distinct;
        held = omega (arith, w.held, l);
        bound = w.bound;
      }
  Step-Workers (frees {s = s} h) w = record {
    distinct = w.distinct;
    held = omega (arith, w.held, h);
    bound = omega (arith, w.bound);
  }
  Step-Workers (closes_idle now) w = record {
    distinct = w.distinct;
    held = w.held;
    bound = w.bound;
  }
  Step-Workers (evicts {s = s}) w = elim (Option-cases (least_recent s.running none s.sessions)) [
    | inl e ↦ rw (e, evict_for_capacity) w
    | inr (t, e) ↦
        rw (e, evict_for_capacity)
          (record { distinct = w.distinct; held = w.held; bound = w.bound })
  ]
  Step-Workers (drops {s = s} id graceful f) w = elim (Bool-cases (has id s.sessions)) [
    | inr e ↦ rw (e, drop_session) w
    | inl e ↦
        rw (e, drop_session)
          (close_session-Workers graceful _
            (record { distinct = w.distinct; held = w.held; bound = w.bound }))
  ]
  Step-Workers (touches id now) w = record { distinct = w.distinct; held = w.held; bound = w.bound }
  Step-Workers (opens id f n) w = record { distinct = w.distinct; held = w.held; bound = w.bound }
  Step-Workers (gives_up id o) w = record { distinct = w.distinct; held = w.held; bound = w.bound }
  Step-Workers (acquires {s = s} {s' = s'} id o e) w =
      elim (Bool-cases (ltb s.conn_slots capacity.max_open_connections)) [
        | inr f ↦
            absurd (
              let q : acquire_conn_slot capacity id s ≡ none = rw (f, acquire_conn_slot) refl in cc)
        | inl f ↦
            subst (Workers capacity) (ap (from_some s) (sym (acquired id s f) ∙ e))
              (record { distinct = w.distinct; held = w.held; bound = w.bound })
      ]
  Step-Workers (fails id o) w = record { distinct = w.distinct; held = w.held; bound = w.bound }
  Step-Workers (connects id current o) w = record {
    distinct = w.distinct;
    held = w.held;
    bound = w.bound;
  }
  Step-Workers (closed h) w = record { distinct = w.distinct; held = w.held; bound = w.bound }
  Step-Workers closes_all w = record { distinct = w.distinct; held = w.held; bound = w.bound }
