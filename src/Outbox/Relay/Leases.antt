-- ===== src/Outbox/Relay/Leases.antt =====
-- The leases of the relay: which rows it may still hold between two rounds.
use webitel_emails.Prelude.{
  ℕ, zero, suc, ◌+◌, ◌≡◌, ◌⊎◌, ◌∙◌, ap, sym, inl, inr, refl, true, false, not, ◌||◌, nat_eq, ltb,
  Option, none, some, List, [], ◌∷◌, length, done, Bool-cases, Option-cases, Outcome-cases, In,
}
use webitel_emails.Model.Runtime.{Time}
use webitel_emails.Outbox.Event.{OutboxEvent}
use webitel_emails.Outbox.Relay.{
  RelayConfig, RelayEnv, Term, Round, new_term, check, max_publish_duration, event_ids, release,
  pause, stop_batch, publish, after_publish, claim_and_publish, declare_and_publish, cycle, cycles,
  paused,
}
use webitel_emails.Outbox.Relay.Leasing.{Leasing}

module _ {E W : Type 0} (env : RelayEnv E W) (config : RelayConfig) (holds : W → ℕ → Type 0)
    (laws : Leasing env config.owner holds) where
  -- Every row that is leased to the relay is one of these.
  abbrev pub Within : W → List ℕ → Type 0
  Within w ids = (j : ℕ) → holds w j → In j ids

  -- No row is leased to the relay, unless its next round frees its own leases first.
  abbrev pub Idle : Term → W → Type 0
  Idle t w = (t.recovered ≡ false) ⊎ ((j : ℕ) → ¬ holds w j)

  release-recovered :
      (t : Term) (rows : List OutboxEvent) (at : Time) (w : W)
      → t.recovered ≡ false
      → (release env config t rows at w).0.recovered ≡ false
  unfolding release
  release-recovered t [] at w h = h
  release-recovered t (row ∷ rows) at w h =
      elim (Option-cases (env.release config.owner (event_ids (row ∷ rows)) at w).0) [
        | inl p ↦ rw (p, release) h
        | inr (e, p) ↦ rw (p, release) refl
      ]

  release-Idle :
      (t : Term) (rows : List OutboxEvent) (at : Time) (w : W)
      → Within w (event_ids rows)
      → let r = release env config t rows at w in Idle r.0 r.1
  unfolding release
  release-Idle t [] at w h = inr λ j x. h j x
  release-Idle t (row ∷ rows) at w h =
      elim (Option-cases (env.release config.owner (event_ids (row ∷ rows)) at w).0) [
        | inl p ↦
            rw (p, release)
              (inr
                λ j x. let y = laws.given_back (event_ids (row ∷ rows)) at w j p x in y.1 (h j y.0))
        | inr (e, p) ↦ rw (p, release) (inl refl)
      ]

  stop_batch-recovered :
      (t : Term) (rest : List OutboxEvent) (o : Option E) (w : W)
      → (stop_batch env config t rest o w).term.recovered ≡ false
  unfolding stop_batch pause
  stop_batch-recovered t rest none w = release-recovered _ rest _ w refl
  stop_batch-recovered t rest (some e) w = elim (Bool-cases (env.canceled w)) [
    | inl p ↦ rw (p, stop_batch, pause) (release-recovered _ rest _ w refl)
    | inr p ↦ rw (p, stop_batch, pause) (release-recovered _ rest _ w refl)
  ]

  pause-recovered : (t : Term) (w : W) → (pause env config t w).0.recovered ≡ t.recovered
  unfolding pause
  pause-recovered t w = elim (Bool-cases (env.canceled w)) [
    | inl p ↦ rw (p, pause) refl
    | inr p ↦ rw (p, pause) refl
  ]

  -- The row `id` was recorded, so it is not among the rows of the relay.
  Within-rest :
      (id : ℕ) (rest : List ℕ) (w w' : W)
      → ((j : ℕ) → holds w' j → holds w j × ¬ (j ≡ id))
      → Within w (id ∷ rest)
      → Within w' rest
  Within-rest id rest w w' f h j x = elim (h j (f j x).0) [
    | inl e ↦ absurd ((f j x).1 e)
    | inr y ↦ y
  ]

  publish-Idle :
      (t : Term) (rows : List OutboxEvent) (deadline : Time) (w : W)
      → Within w (event_ids rows)
      → let r = publish env config t rows deadline w in Idle r.term r.world
  unfolding publish
  publish-Idle t [] deadline w h = inr λ j x. h j x
  publish-Idle t (row ∷ rest) deadline w h =
      elim (Bool-cases (env.canceled w || ltb deadline (env.now w + max_publish_duration config))) [
        | inl p ↦ rw (p, publish) (release-Idle t (row ∷ rest) (env.now w) w h)
        | inr p ↦ elim (Option-cases (check config row)) [
          | inr (reason, q) ↦
              elim (Outcome-cases (env.mark_failed config.owner row.event_id reason w)) [
                | inr (e, w', c) ↦
                    rw (p, q, c, publish) (inl (stop_batch-recovered t rest (some e) w'))
                | inl (false, w', c) ↦
                    rw (p, q, c, publish) (inl (stop_batch-recovered t rest none w'))
                | inl (true, w', c) ↦
                    rw (p, q, c, publish)
                      (publish-Idle t rest deadline w' (
                        Within-rest row.event_id (event_ids rest) w w'
                          (λ j x. laws.given_up row.event_id reason w w' j c x) h))
              ]
          | inl q ↦
              let w1 = (env.publish row w).1 in
              let h1 : Within w1 (event_ids (row ∷ rest)) =
                λ j x. h j (laws.publish_apart row w j x) in
              elim (Option-cases (env.publish row w).0) [
                | inr (e, s) ↦ elim (Bool-cases (env.canceled w1)) [
                  | inl k ↦
                      rw (p, q, s, k, publish) (release-Idle t (row ∷ rest) (env.now w1) w1 h1)
                  | inr k ↦ rw (p, q, s, k, publish) (release-Idle _ (row ∷ rest) _ w1 h1)
                ]
                | inl s ↦ elim (Outcome-cases (env.mark_published config.owner row.event_id w1)) [
                  | inr (e, w', c) ↦
                      rw (p, q, s, c, publish) (inl (stop_batch-recovered t rest (some e) w'))
                  | inl (false, w', c) ↦
                      rw (p, q, s, c, publish) (inl (stop_batch-recovered t rest none w'))
                  | inl (true, w', c) ↦
                      rw (p, q, s, c, publish)
                        (publish-Idle t rest deadline w' (
                          Within-rest row.event_id (event_ids rest) w1 w'
                            (λ j x. laws.published row.event_id w1 w' j c x) h1))
                ]
              ]
        ]
      ]

  paused-Idle :
      (t : Term) (w : W)
      → Idle t w
      → let r = paused env config w (pause env config t w) in Idle r.term r.world
  paused-Idle t w h = elim h [ inl e ↦ inl (pause-recovered t w ∙ e) | inr f ↦ inr f ]

  after_publish-Idle :
      (n : ℕ) (r : Round W)
      → Idle r.term r.world
      → let s = after_publish env config n r in Idle s.term s.world
  unfolding after_publish
  after_publish-Idle n r h = elim (Bool-cases r.finished) [
    | inl e ↦ rw (e, after_publish) h
    | inr e ↦ rw (e, after_publish) h
  ]

  claim_and_publish-Idle :
      (t : Term) (w : W)
      → ((j : ℕ) → ¬ holds w j)
      → let r = claim_and_publish env config t w in Idle r.term r.world
  unfolding claim_and_publish
  claim_and_publish-Idle t w h =
      elim (Outcome-cases (env.claim config.owner config.batch_size config.lease_duration w)) [
        | inr (e, w', c) ↦
            rw (c, claim_and_publish)
              (paused-Idle t w' (inr λ j x. h j (laws.claim_failed _ _ w w' e j c x)))
        | inl (rows, w', c) ↦
            rw (c, claim_and_publish)
              (after_publish-Idle (length rows) _ (
                publish-Idle t rows _ w' λ j x. elim (laws.claim_done _ _ w w' rows j c x) [
                  | inl y ↦ absurd (h j y)
                  | inr y ↦ y
                ]))
      ]

  declare_and_publish-Idle :
      (t : Term) (w : W)
      → ((j : ℕ) → ¬ holds w j)
      → let r = declare_and_publish env config t w in Idle r.term r.world
  unfolding declare_and_publish
  declare_and_publish-Idle t w h =
      let w1 = (env.declare_topology w).1 in
      let h1 : (j : ℕ) → ¬ holds w1 j = λ j x. h j (laws.declare_apart w j x) in
      elim (Bool-cases t.declared) [
        | inl d ↦ rw (d, declare_and_publish) (claim_and_publish-Idle t w h)
        | inr d ↦ elim (Option-cases (env.declare_topology w).0) [
          | inr (e, p) ↦ rw (d, p, declare_and_publish) (paused-Idle t w1 (inr h1))
          | inl p ↦ rw (d, p, declare_and_publish) (claim_and_publish-Idle _ w1 h1)
        ]
      ]

  -- After the recovery at the start of a round nothing is leased to the relay.
  recovered-NotHeld :
      (t : Term) (w w' : W) (n : ℕ)
      → Idle t w
      → env.recover_leases config.owner (not t.recovered) w ≡ done n w'
      → (j : ℕ) → ¬ holds w' j
  recovered-NotHeld t w w' n h c j x = elim (Bool-cases t.recovered) [
    | inl r ↦ elim h [
      | inl e ↦ absurd (cc)
      | inr f ↦ f j (
          laws.recover_old w w' n j
            (ap (λ b. env.recover_leases config.owner (not b) w) (sym r) ∙ c) x)
    ]
    | inr r ↦
        laws.recover_own w w' n j (ap (λ b. env.recover_leases config.owner (not b) w) (sym r) ∙ c)
          x
  ]

  -- If no row is leased to the relay or its next round frees its own leases first, the same holds
  -- after the round, whatever the store, the broker, the clock and the context answer in it:
  -- every row that the round claimed was recorded, was given back or waits for that recovery.
  pub cycle-Idle :
      (t : Term) (w : W) → Idle t w → let r = cycle env config t w in Idle r.term r.world
  unfolding cycle
  cycle-Idle t w h = elim (Outcome-cases (env.recover_leases config.owner (not t.recovered) w)) [
    | inr (e, w', c) ↦
        rw (c, cycle)
          (paused-Idle t w' (elim h [
            | inl r ↦ inl r
            | inr f ↦ inr λ j x. f j (laws.recover_failed _ w w' e j c x)
          ]))
    | inl (n, w', c) ↦
        rw (c, cycle) (declare_and_publish-Idle _ w' (recovered-NotHeld t w w' n h c))
  ]

  cycles_from-Idle :
      (n : ℕ) (t : Term) (w : W) → Idle t w → let r = cycles env config n t w in Idle r.0 r.1
  unfolding cycles
  cycles_from-Idle zero t w h = h
  cycles_from-Idle (suc n) t w h = cycles_from-Idle n _ _ (cycle-Idle t w h)

  -- After any number of rounds of a new term, from any world, no row is leased to the relay,
  -- unless its next round frees its own leases before it claims.
  pub cycles-Idle : (n : ℕ) (w : W) → let r = cycles env config n new_term w in Idle r.0 r.1
  cycles-Idle n w = cycles_from-Idle n new_term w (inl refl)
