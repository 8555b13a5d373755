-- ===== src/Outbox/Relay/Finished.antt =====
-- Rounds whose batch is finished.
use webitel_emails.Prelude.{
  ℕ, ◌+◌, ◌≡◌, ◌⊎◌, inl, inr, refl, Bool, true, false, not, ◌||◌, ltb, Option, none, some, List, [],
  ◌∷◌, length, Bool-cases, Option-cases, Outcome-cases,
}
use webitel_emails.Model.Runtime.{Time}
use webitel_emails.Outbox.Event.{OutboxEvent}
use webitel_emails.Outbox.Relay.{
  RelayConfig, RelayEnv, Term, Round, check, max_publish_duration, pause, stop_batch, publish,
  after_publish, claim_and_publish, declare_and_publish, cycle,
}
use webitel_emails.Outbox.Relay.Leasing.{Leasing}
use webitel_emails.Outbox.Relay.Leases.{Idle, cycle-Idle}

module _ {E W : Type 0} (env : RelayEnv E W) (config : RelayConfig) where
  -- The round stopped early, or it kept the flag `recovered`.
  abbrev pub Keeps : Bool → Round W → Type 0
  Keeps recovered r = (r.finished ≡ false) ⊎ (r.term.recovered ≡ recovered)

  stop_batch-finished :
      (t : Term) (rest : List OutboxEvent) (o : Option E) (w : W)
      → (stop_batch env config t rest o w).finished ≡ false
  unfolding stop_batch pause
  stop_batch-finished t rest none w = refl
  stop_batch-finished t rest (some e) w = refl

  publish-Keeps :
      (t : Term) (rows : List OutboxEvent) (deadline : Time) (w : W)
      → Keeps t.recovered (publish env config t rows deadline w)
  unfolding publish
  publish-Keeps t [] deadline w = inr refl
  publish-Keeps t (row ∷ rest) deadline w =
      elim (Bool-cases (env.canceled w || ltb deadline (env.now w + max_publish_duration config))) [
        | inl p ↦ rw (p, publish) (inl refl)
        | inr p ↦ elim (Option-cases (check config row)) [
          | inr (reason, q) ↦
              elim (Outcome-cases (env.mark_failed config.owner row.event_id reason w)) [
                | inr (e, w', c) ↦
                    rw (p, q, c, publish) (inl (stop_batch-finished t rest (some e) w'))
                | inl (false, w', c) ↦
                    rw (p, q, c, publish) (inl (stop_batch-finished t rest none w'))
                | inl (true, w', c) ↦ rw (p, q, c, publish) (publish-Keeps t rest deadline w')
              ]
          | inl q ↦ elim (Option-cases (env.publish row w).0) [
            | inr (e, s) ↦ elim (Bool-cases (env.canceled (env.publish row w).1)) [
              | inl k ↦ rw (p, q, s, k, publish) (inl refl)
              | inr k ↦ rw (p, q, s, k, publish) (inl refl)
            ]
            | inl s ↦
                elim (Outcome-cases
                  (env.mark_published config.owner row.event_id (env.publish row w).1)) [
                    | inr (e, w', c) ↦
                        rw (p, q, s, c, publish) (inl (stop_batch-finished t rest (some e) w'))
                    | inl (false, w', c) ↦
                        rw (p, q, s, c, publish) (inl (stop_batch-finished t rest none w'))
                    | inl (true, w', c) ↦
                        rw (p, q, s, c, publish) (publish-Keeps t rest deadline w')
                  ]
          ]
        ]
      ]

  after_publish-Keeps :
      (b : Bool) (n : ℕ) (r : Round W) → Keeps b r → Keeps b (after_publish env config n r)
  unfolding after_publish
  after_publish-Keeps b n r h = elim (Bool-cases r.finished) [
    | inl e ↦ elim h [ inl x ↦ absurd (cc) | inr x ↦ rw (e, after_publish) (inr x) ]
    | inr e ↦ rw (e, after_publish) (inl refl)
  ]

  claim_and_publish-Keeps :
      (t : Term) (w : W) → Keeps t.recovered (claim_and_publish env config t w)
  unfolding claim_and_publish
  claim_and_publish-Keeps t w =
      elim (Outcome-cases (env.claim config.owner config.batch_size config.lease_duration w)) [
        | inr (e, w', c) ↦ rw (c, claim_and_publish) (inl refl)
        | inl (rows, w', c) ↦
            rw (c, claim_and_publish)
              (after_publish-Keeps t.recovered (length rows) _ (publish-Keeps t rows _ w'))
      ]

  declare_and_publish-Keeps :
      (t : Term) (w : W) → Keeps t.recovered (declare_and_publish env config t w)
  unfolding declare_and_publish
  declare_and_publish-Keeps t w = elim (Bool-cases t.declared) [
    | inl d ↦ rw (d, declare_and_publish) (claim_and_publish-Keeps t w)
    | inr d ↦ elim (Option-cases (env.declare_topology w).0) [
      | inr (e, p) ↦ rw (d, p, declare_and_publish) (inl refl)
      | inl p ↦
          rw (d, p, declare_and_publish) (claim_and_publish-Keeps _ (env.declare_topology w).1)
    ]
  ]

  cycle-Keeps : (t : Term) (w : W) → Keeps true (cycle env config t w)
  unfolding cycle
  cycle-Keeps t w = elim (Outcome-cases (env.recover_leases config.owner (not t.recovered) w)) [
    | inr (e, w', c) ↦ rw (c, cycle) (inl refl)
    | inl (n, w', c) ↦ rw (c, cycle) (declare_and_publish-Keeps _ w')
  ]

  -- On a table that keeps the laws of leases: a round that starts with no row leased to the relay,
  -- or with its own leases still to be freed, and that finishes its batch leaves no row leased to
  -- the relay.
  pub cycle_finished-released :
      (holds : W → ℕ → Type 0) (laws : Leasing env config.owner holds) (t : Term) (w : W)
      → Idle env config holds laws t w
      → (cycle env config t w).finished ≡ true
      → (j : ℕ) → ¬ holds (cycle env config t w).world j
  cycle_finished-released holds laws t w h f = elim (cycle-Keeps t w) [
    | inl x ↦ absurd (cc)
    | inr x ↦ elim (cycle-Idle env config holds laws t w h) [ inl y ↦ absurd (cc) | inr y ↦ y ]
  ]
