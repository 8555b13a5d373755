-- ===== src/Polling/Scheduler/Connections.antt =====
-- Every open connection holds one permit.
use webitel_emails.Prelude.{
  ℕ, ◌+◌, ◌≡◌, ◌⊎◌, ◌∙◌, inl, inr, sym, ap, subst, Bool, true, false, not, ◌==◌, nat_eq,
  nat_beq_iff, ltb, Option, none, some, List, [], ◌∷◌, length, contains, Distinct, Bool-cases,
  Option-cases, arith,
}
use webitel_emails.Model.Runtime.{Time}
use webitel_emails.Polling.Scheduler.Keyed.{
  keep, has, keys, delete, count-split, delete-absent, length-update_key, delete-length, keep-key,
  keep-all, delete-other_count, keep-has, keep-Distinct, delete-has, delete-count, update_key-keys,
}
use webitel_emails.Polling.Scheduler.{
  Session, Capacity, State, close_session, drop_session, is_idle, close_idle_sessions, is_older,
  least_recent, evict_for_capacity, connect_failed, connect_done, touch_session,
}
use webitel_emails.Polling.Scheduler.Permits.{Connections}

abbrev key_of : ℕ → Option (ℕ × Session) → ℕ
key_of d none = d
key_of d (some t) = t.0

later :
    {best : Option (ℕ × Session)} (l : List (ℕ × Session)) {t : ℕ × Session} (x : ℕ × Session)
    → (best ≡ some t) ⊎ (has t.0 l ≡ true)
    → (best ≡ some t) ⊎ (has t.0 (x ∷ l) ≡ true)
unfolding contains
later l x (inl q) = inl q
later l x (inr y) = inr (ground arith)

least_recent-has :
    (running : List ℕ) (best : Option (ℕ × Session)) (l : List (ℕ × Session)) (t : ℕ × Session)
    → least_recent running best l ≡ some t
    → (best ≡ some t) ⊎ (has t.0 l ≡ true)
unfolding least_recent contains
least_recent-has running best [] t e = inl e
least_recent-has running best ((id, c) ∷ l) t e = elim (Bool-cases (contains running id)) [
  | inl r ↦ later l (id, c) (least_recent-has running best l t (rw (r, least_recent) at e))
  | inr r ↦ elim (Bool-cases (is_older c best)) [
    | inr o ↦ later l (id, c) (least_recent-has running best l t (rw (r, o, least_recent) at e))
    | inl o ↦ elim (least_recent-has running (some (id, c)) l t (rw (r, o, least_recent) at e)) [
      | inl q ↦ inr (let k : id ≡ t.0 = ap (key_of id) q in ground arith)
      | inr y ↦ inr (ground arith)
    ]
  ]
]

module _ (capacity : Capacity) where
  -- A cached session is deleted and closed.
  pub closed-Connections :
      (id : ℕ) (graceful : Bool) (s : State)
      → has id s.sessions ≡ true
      → Connections capacity s
      → Connections capacity (close_session graceful (record s { sessions = delete id s.sessions }))
  unfolding close_session
  closed-Connections id true s h w =
      let l = delete-length id s.sessions w.sessions_distinct h in
      record {
        sessions_distinct = keep-Distinct _ s.sessions w.sessions_distinct;
        opening_distinct = w.opening_distinct;
        apart = λ j. elim (w.apart j) [ inl x ↦ inl x | inr y ↦ inr (keep-has _ s.sessions j y) ];
        held = omega (arith, w.held, l);
        bound = w.bound;
      }
  closed-Connections id false s h w =
      let l = delete-length id s.sessions w.sessions_distinct h in
      record {
        sessions_distinct = keep-Distinct _ s.sessions w.sessions_distinct;
        opening_distinct = w.opening_distinct;
        apart = λ j. elim (w.apart j) [ inl x ↦ inl x | inr y ↦ inr (keep-has _ s.sessions j y) ];
        held = omega (arith, w.held, l);
        bound = omega (arith, w.bound);
      }

  pub closes_idle-Connections :
      (now : Time) (s : State)
      → Connections capacity s
      → Connections capacity (close_idle_sessions now s)
  unfolding close_idle_sessions
  closes_idle-Connections now s w = record {
    sessions_distinct = keep-Distinct _ s.sessions w.sessions_distinct;
    opening_distinct = w.opening_distinct;
    apart = λ j. elim (w.apart j) [ inl x ↦ inl x | inr y ↦ inr (keep-has _ s.sessions j y) ];
    held = omega (arith, w.held, count-split (is_idle now s.running) s.sessions);
    bound = w.bound;
  }

  pub evicts-Connections :
      (s : State) → Connections capacity s → Connections capacity (evict_for_capacity s)
  unfolding evict_for_capacity
  evicts-Connections s w = elim (Option-cases (least_recent s.running none s.sessions)) [
    | inl e ↦ rw (e, evict_for_capacity) w
    | inr (t, e) ↦
        rw (e, evict_for_capacity)
          (closed-Connections t.0 true s
            (elim (least_recent-has s.running none s.sessions t e) [
              | inl x ↦ absurd (cc)
              | inr x ↦ x
            ])
            w)
  ]

  pub drops-Connections :
      (id : ℕ) (graceful : Bool) (s : State)
      → Connections capacity s
      → Connections capacity (drop_session id graceful s)
  unfolding drop_session
  drops-Connections id graceful s w = elim (Bool-cases (has id s.sessions)) [
    | inr e ↦ rw (e, drop_session) w
    | inl e ↦ rw (e, drop_session) (closed-Connections id graceful s e w)
  ]

  pub touches-Connections :
      (id : ℕ) (now : Time) (s : State)
      → Connections capacity s
      → Connections capacity (touch_session id now s)
  unfolding touch_session
  touches-Connections id now s w =
      let same = update_key-keys id (λ c. record c { last_used = now }) s.sessions in
      record {
        sessions_distinct = subst Distinct (sym same) w.sessions_distinct;
        opening_distinct = w.opening_distinct;
        apart = λ j. elim (w.apart j) [
          | inl x ↦ inl x
          | inr y ↦ inr (ap (λ ks. contains ks j) same ∙ y)
        ];
        held =
            omega
              (arith, w.held, length-update_key id (λ c. record c { last_used = now }) s.sessions);
        bound = w.bound;
      }

  pub gives_up-Connections :
      (id : ℕ) (s : State)
      → contains (keys (keep (λ e. not e.1) s.opening)) id ≡ true
      → Connections capacity s
      → Connections capacity (record s { opening = delete id s.opening })
  gives_up-Connections id s o w = record {
    sessions_distinct = w.sessions_distinct;
    opening_distinct = keep-Distinct _ s.opening w.opening_distinct;
    apart = λ j. elim (w.apart j) [ inl x ↦ inl (keep-has _ s.opening j x) | inr y ↦ inr y ];
    held = omega (arith, w.held, delete-other_count id s.opening w.opening_distinct (λ e. e.1) o);
    bound = w.bound;
  }

  pub fails-Connections :
      (id : ℕ) (s : State)
      → contains (keys (keep (λ e. e.1) s.opening)) id ≡ true
      → Connections capacity s
      → Connections capacity (connect_failed id s)
  unfolding connect_failed
  fails-Connections id s o w = record {
    sessions_distinct = w.sessions_distinct;
    opening_distinct = keep-Distinct _ s.opening w.opening_distinct;
    apart = λ j. elim (w.apart j) [ inl x ↦ inl (keep-has _ s.opening j x) | inr y ↦ inr y ];
    held = omega (arith, w.held, delete-count id (λ e. e.1) s.opening w.opening_distinct o);
    bound = omega (arith, w.bound);
  }

  -- The profile of a worker that opens a connection has none in the cache.
  opening-absent :
      (id : ℕ) (s : State)
      → has id s.opening ≡ true
      → Connections capacity s
      → has id s.sessions ≡ false
  opening-absent id s o w = elim (w.apart id) [ inl x ↦ absurd (cc) | inr y ↦ y ]

  pub connects-Connections :
      (id : ℕ) (current : Session) (s : State)
      → contains (keys (keep (λ e. e.1) s.opening)) id ≡ true
      → Connections capacity s
      → Connections capacity (connect_done id current s)
  unfolding connect_done contains
  connects-Connections id current s o w =
      let n = opening-absent id s (keep-key id s.opening w.opening_distinct (λ e. e.1) o) w in
      record {
        sessions_distinct =
            (delete-has id s.sessions, keep-Distinct _ s.sessions w.sessions_distinct);
        opening_distinct = keep-Distinct _ s.opening w.opening_distinct;
        apart = λ j. elim (Bool-cases (id == j)) [
          | inl e ↦ inl (
              subst (λ k. has k (delete id s.opening) ≡ false) ((nat_beq_iff id j).0 e)
                (delete-has id s.opening))
          | inr e ↦ elim (w.apart j) [
            | inl x ↦ inl (keep-has _ s.opening j x)
            | inr y ↦ inr (let k = keep-has (λ x. not (x.0 == id)) s.sessions j y in ground arith)
          ]
        ];
        held = omega (
          arith,
          w.held,
          delete-count id (λ e. e.1) s.opening w.opening_distinct o,
          delete-absent id (λ x. true) s.sessions n,
          ap length (keep-all s.sessions),
          ap length (keep-all (delete id s.sessions)),
        );
        bound = w.bound;
      }

  pub acquires-Connections :
      (id : ℕ) (s : State)
      → contains (keys (keep (λ e. not e.1) s.opening)) id ≡ true
      → ltb s.conn_slots capacity.max_open_connections ≡ true
      → Connections capacity s
      → Connections capacity
          (record s { opening = (id, true) ∷ delete id s.opening; conn_slots = s.conn_slots + 1 })
  unfolding keep contains
  acquires-Connections id s o f w =
      let n = opening-absent id s (keep-key id s.opening w.opening_distinct (λ e. not e.1) o) w in
      record {
        sessions_distinct = w.sessions_distinct;
        opening_distinct = (delete-has id s.opening, keep-Distinct _ s.opening w.opening_distinct);
        apart = λ j. elim (Bool-cases (id == j)) [
          | inl e ↦ inr (subst (λ k. has k s.sessions ≡ false) ((nat_beq_iff id j).0 e) n)
          | inr e ↦ elim (w.apart j) [
            | inl x ↦ inl (let k = keep-has (λ x. not (x.0 == id)) s.opening j x in ground arith)
            | inr y ↦ inr y
          ]
        ];
        held =
            omega (arith, w.held, delete-other_count id s.opening w.opening_distinct (λ e. e.1) o);
        bound = ground arith;
      }

  pub opens-Connections :
      (id : ℕ) (s : State)
      → has id s.opening ≡ false
      → has id s.sessions ≡ false
      → Connections capacity s
      → Connections capacity (record s { opening = (id, false) ∷ s.opening })
  unfolding keep contains
  opens-Connections id s o n w = record {
    sessions_distinct = w.sessions_distinct;
    opening_distinct = (o, w.opening_distinct);
    apart = λ j. elim (Bool-cases (id == j)) [
      | inl e ↦ inr (subst (λ k. has k s.sessions ≡ false) ((nat_beq_iff id j).0 e) n)
      | inr e ↦ elim (w.apart j) [ inl x ↦ inl (ground arith) | inr y ↦ inr y ]
    ];
    held = w.held;
    bound = w.bound;
  }
