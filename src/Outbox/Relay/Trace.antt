-- ===== src/Outbox/Relay/Trace.antt =====
-- The calls that one batch makes to the broker and to MarkPublished, in their order.
use webitel_emails.Prelude.{
  ℕ, ◌+◌, ◌*◌, ◌≤◌, ◌≡◌, ◌∙◌, ap, subst, sym, inl, inr, refl, String, true, false, ◌||◌, ltb,
  Option, none, some, List, [], ◌∷◌, ◌++◌, Outcome, done, failed, arith, Bool-cases, Option-cases,
  Outcome-cases,
}
use webitel_emails.Model.Runtime.{Time}
use webitel_emails.Outbox.Event.{OutboxEvent}
use webitel_emails.Outbox.Relay.{
  RelayConfig, RelayEnv, Term, Round, check, max_publish_duration, event_ids, release, pause,
  stop_batch, publish,
}

-- A call: `sent` is one of Publish with the time before it, `recorded` one of MarkPublished.
pub data Act : Type 0 where
  sent : OutboxEvent → Time → Act
  recorded : ℕ → Act

abbrev pub traced_outcome : {E W A : Type 0} → List Act → Outcome E W A → Outcome E (W × List Act) A
traced_outcome log (done a w) = done a (w, log)
traced_outcome log (failed e w) = failed e (w, log)

abbrev pub traced_error : {E W : Type 0} → List Act → Option E × W → Option E × (W × List Act)
traced_error log (o, w) = (o, (w, log))

-- The same environment, with a world that also holds the calls made so far.
abbrev pub traced : {E W : Type 0} → RelayEnv E W → RelayEnv E (W × List Act)
traced env = record {
  canceled = λ w. env.canceled w.0;
  now = λ w. env.now w.0;
  recover_leases = λ owner own w. traced_outcome w.1 (env.recover_leases owner own w.0);
  claim = λ owner limit lease w. traced_outcome w.1 (env.claim owner limit lease w.0);
  mark_published =
      λ owner id w. traced_outcome (w.1 ++ recorded id ∷ []) (env.mark_published owner id w.0);
  mark_failed = λ owner id reason w. traced_outcome w.1 (env.mark_failed owner id reason w.0);
  release = λ owner ids at w. traced_error w.1 (env.release owner ids at w.0);
  declare_topology = λ w. traced_error w.1 (env.declare_topology w.0);
  publish = λ row w. traced_error (w.1 ++ sent row (env.now w.0) ∷ []) (env.publish row w.0);
}

-- The calls go through the rows in their order: a row that no retry can publish is passed over,
-- any other is sent while twice the publish timeout fits before the deadline, and its result is
-- recorded before the next one is sent. The batch may stop at any point.
pub data Follows (config : RelayConfig) (deadline : Time)
    : List OutboxEvent → List Act → Type 0 where
  stopped : {rows : List OutboxEvent} → Follows config deadline rows []
  passed_over :
      {row : OutboxEvent} {rest : List OutboxEvent} {acts : List Act} (reason : String)
      → check config row ≡ some reason
      → Follows config deadline rest acts
      → Follows config deadline (row ∷ rest) acts
  unconfirmed :
      {row : OutboxEvent} {rest : List OutboxEvent} (at : Time)
      → check config row ≡ none
      → at + 2 * config.publish_timeout ≤ deadline
      → Follows config deadline (row ∷ rest) (sent row at ∷ [])
  confirmed :
      {row : OutboxEvent} {rest : List OutboxEvent} {acts : List Act} (at : Time)
      → check config row ≡ none
      → at + 2 * config.publish_timeout ≤ deadline
      → Follows config deadline rest acts
      → Follows config deadline (row ∷ rest) (sent row at ∷ recorded row.event_id ∷ acts)

append-append : (xs ys zs : List Act) → (xs ++ ys) ++ zs ≡ xs ++ (ys ++ zs)
append-append [] ys zs = refl
append-append (x ∷ xs) ys zs = ap (λ l. x ∷ l) (append-append xs ys zs)

append-nil : (xs : List Act) → xs ≡ xs ++ []
append-nil [] = refl
append-nil (x ∷ xs) = ap (λ l. x ∷ l) (append-nil xs)

module _ {E W : Type 0} (env : RelayEnv E W) (config : RelayConfig) where
  release-silent :
      (t : Term) (rows : List OutboxEvent) (at : Time) (w : W × List Act)
      → (release (traced env) config t rows at w).1.1 ≡ w.1
  unfolding release
  release-silent t [] at w = refl
  release-silent t (row ∷ rows) at w =
      elim (Option-cases (env.release config.owner (event_ids (row ∷ rows)) at w.0).0) [
        | inl p ↦ rw (p, release) refl
        | inr (e, p) ↦ rw (p, release) refl
      ]

  stop_batch-silent :
      (t : Term) (rest : List OutboxEvent) (o : Option E) (w : W × List Act)
      → (stop_batch (traced env) config t rest o w).world.1 ≡ w.1
  unfolding stop_batch pause
  stop_batch-silent t rest none w = release-silent _ rest _ w
  stop_batch-silent t rest (some e) w = elim (Bool-cases (env.canceled w.0)) [
    | inl p ↦ rw (p, stop_batch, pause) (release-silent _ rest _ w)
    | inr p ↦ rw (p, stop_batch, pause) (release-silent _ rest _ w)
  ]

  -- `r` added calls to `log` that follow `rows`.
  abbrev pub Adds : Time → List OutboxEvent → List Act → Round (W × List Act) → Type 0
  Adds deadline rows log r =
      (acts : List Act) × (r.world.1 ≡ log ++ acts) × Follows config deadline rows acts

  -- A row that can be published, with time left.
  send-Adds :
      (t : Term) (row : OutboxEvent) (rest : List OutboxEvent) (deadline : Time) (w : W × List Act)
      → (env.canceled w.0 || ltb deadline (env.now w.0 + max_publish_duration config)) ≡ false
      → check config row ≡ none
      → ((w' : W × List Act)
          → Adds deadline rest w'.1 (publish (traced env) config t rest deadline w'))
      → Adds deadline (row ∷ rest) w.1 (publish (traced env) config t (row ∷ rest) deadline w)
  unfolding publish max_publish_duration
  send-Adds t row rest deadline w p q ih =
      let at = env.now w.0 in
      let log = w.1 ++ sent row at ∷ [] in
      let both = sent row at ∷ recorded row.event_id ∷ [] in
      let grown = append-append w.1 (sent row at ∷ []) (recorded row.event_id ∷ []) in
      let ended = log ++ recorded row.event_id ∷ [] in
      let fits : at + 2 * config.publish_timeout ≤ deadline = ground arith in
      let w1 = (env.publish row w.0).1 in
      elim (Option-cases (env.publish row w.0).0) [
        | inr (e, s) ↦ elim (Bool-cases (env.canceled w1)) [
          | inl k ↦
              rw (p, q, s, k, publish)
                (sent row at ∷ [], release-silent t _ _ (w1, log), unconfirmed at q fits)
          | inr k ↦
              rw (p, q, s, k, publish)
                (sent row at ∷ [], release-silent _ _ _ (w1, log), unconfirmed at q fits)
        ]
        | inl s ↦ elim (Outcome-cases (env.mark_published config.owner row.event_id w1)) [
          | inr (e, w', c) ↦
              rw (p, q, s, c, publish)
                (
                  both,
                  stop_batch-silent t rest (some e) (w', ended) ∙ grown,
                  confirmed at q fits stopped,
                )
          | inl (false, w', c) ↦
              rw (p, q, s, c, publish)
                (
                  both,
                  stop_batch-silent t rest none (w', ended) ∙ grown,
                  confirmed at q fits stopped,
                )
          | inl (true, w', c) ↦
              let r = ih (w', ended) in
              rw (p, q, s, c, publish)
                (
                  sent row at ∷ recorded row.event_id ∷ r.0,
                  r.1 ∙ ap (λ l. l ++ r.0) grown ∙ append-append w.1 both r.0,
                  confirmed at q fits r.2,
                )
        ]
      ]

  publish-Adds :
      (t : Term) (rows : List OutboxEvent) (deadline : Time) (w : W × List Act)
      → Adds deadline rows w.1 (publish (traced env) config t rows deadline w)
  unfolding publish max_publish_duration
  publish-Adds t [] deadline w = ([], append-nil w.1, stopped)
  publish-Adds t (row ∷ rest) deadline w =
      elim (Bool-cases
        (env.canceled w.0 || ltb deadline (env.now w.0 + max_publish_duration config))) [
          | inl p ↦ rw (p, publish) ([], release-silent t _ _ w ∙ append-nil w.1, stopped)
          | inr p ↦ elim (Option-cases (check config row)) [
            | inr (reason, q) ↦
                elim (Outcome-cases (env.mark_failed config.owner row.event_id reason w.0)) [
                  | inr (e, w', c) ↦
                      rw (p, q, c, publish)
                        ([], stop_batch-silent t rest (some e) (w', w.1) ∙ append-nil w.1, stopped)
                  | inl (false, w', c) ↦
                      rw (p, q, c, publish)
                        ([], stop_batch-silent t rest none (w', w.1) ∙ append-nil w.1, stopped)
                  | inl (true, w', c) ↦
                      let r = publish-Adds t rest deadline (w', w.1) in
                      rw (p, q, c, publish) (r.0, r.1, passed_over reason q r.2)
                ]
            | inl q ↦ send-Adds t row rest deadline w p q (publish-Adds t rest deadline)
          ]
        ]

  -- One batch, from any term and world, whatever the broker, the store, the clock and the context
  -- answer: the calls of Publish and MarkPublished that it makes go through the rows in their
  -- order, leaving out only rows that no retry can publish; each row is sent at most once, at a
  -- time from which twice the publish timeout ends by the deadline; and MarkPublished is called
  -- for a row right after that row was sent, and before the next one is.
  pub publish-Follows :
      (t : Term) (rows : List OutboxEvent) (deadline : Time) (w : W)
      → Follows config deadline rows (publish (traced env) config t rows deadline (w, [])).world.1
  publish-Follows t rows deadline w =
      let r = publish-Adds t rows deadline (w, []) in
      subst (λ l. Follows config deadline rows l) (sym r.1) r.2
