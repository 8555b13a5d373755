-- ===== src/Outbox/Relay.antt =====
-- internal/outbox/relay.go: one leadership term of the relay. The store, the broker, the clock and
-- the context are a parameter; each call takes the state of the world and gives the next one.
pub mod Leasing
pub mod Leases
pub mod Finished
pub mod Backoff
pub mod Trace
use webitel_emails.Prelude.{
  ℕ, zero, suc, ◌+◌, ◌*◌, String, Bool, true, false, not, ◌||◌, ◌==◌, nat_eq, ltb, if◌then◌else◌,
  Option, none, some, List, [], ◌∷◌, map, length, min, max, Outcome, done, failed,
}
use webitel_emails.Model.Runtime.{Time}
use webitel_emails.Outbox.Event.{OutboxEvent, validate}

-- config.OutboxConfig, with the payload limit and the owner of the leases. Durations are in
-- nanoseconds.
pub record RelayConfig : Type 0 where
  pub batch_size : ℕ
  pub poll_interval : ℕ
  pub lease_duration : ℕ
  pub publish_timeout : ℕ
  pub retry_initial_interval : ℕ
  pub retry_max_interval : ℕ
  pub max_payload_size : ℕ
  pub owner : String

-- OutboxRelayStore, Publisher, the clock and the context, as a term calls them.
pub record RelayEnv (E W : Type 0) : Type 0 where
  pub canceled : W → Bool
  pub now : W → Time
  pub recover_leases : String → Bool → W → Outcome E W ℕ
  pub claim : String → ℕ → ℕ → W → Outcome E W (List OutboxEvent)
  pub mark_published : String → ℕ → W → Outcome E W Bool
  pub mark_failed : String → ℕ → String → W → Outcome E W Bool
  pub release : String → List ℕ → Time → W → Option E × W
  pub declare_topology : W → Option E × W
  pub publish : OutboxEvent → W → Option E × W

-- The fields of term that change.
pub record Term : Type 0 where
  pub recovered : Bool
  pub declared : Bool
  pub backoff : ℕ

-- newTerm
abbrev pub new_term : Term
new_term = record { recovered = false; declared = false; backoff = 0 }

-- A pause before the next round; `finished` is false where the batch stopped early.
pub record Round (W : Type 0) : Type 0 where
  pub wait : ℕ
  pub finished : Bool
  pub term : Term
  pub world : W

unfoldable pub next_backoff : RelayConfig → ℕ → ℕ
next_backoff config backoff =
    min (max (2 * backoff) config.retry_initial_interval) config.retry_max_interval

-- (*term).check: why no retry can publish the row
unfoldable pub check : RelayConfig → OutboxEvent → Option String
check config row = elim (validate row) [
  | some reason ↦ some reason
  | none ↦
      if ltb config.max_payload_size (length row.payload)
      then some "payload exceeds the limit"
      else none
]

-- 2 * PublishTimeout
unfoldable pub max_publish_duration : RelayConfig → ℕ
max_publish_duration config = 2 * config.publish_timeout

abbrev pub event_ids : List OutboxEvent → List ℕ
event_ids = map λ row. row.event_id

module _ {E W : Type 0} (env : RelayEnv E W) (config : RelayConfig) where
  -- (*term).pause: the new term and the pause
  unfoldable pub pause : Term → W → Term × ℕ
  unfolding next_backoff
  pause t w =
      if env.canceled w
      then (t, 0)
      else (record t { backoff = next_backoff config t.backoff }, next_backoff config t.backoff)

  -- What a failed release changes.
  abbrev pub released : Term → Option E × W → Term × W
  released t (none, w) = (t, w)
  released t (some e, w) = (record t { recovered = false }, w)

  unfoldable pub release : Term → List OutboxEvent → Time → W → Term × W
  release t [] at w = (t, w)
  release t (row ∷ rows) at w = released t (env.release config.owner (event_ids (row ∷ rows)) at w)

  -- The batch stops after `rows` are given back.
  abbrev pub stopped : ℕ → Term × W → Round W
  stopped wait (t, w) = record { wait = wait; finished = false; term = t; world = w }

  -- stopBatch: the result of a row could not be recorded, `none` being a lost lease
  unfoldable pub stop_batch : Term → List OutboxEvent → Option E → W → Round W
  unfolding release pause
  stop_batch t rest none w = stopped 0 (release (record t { recovered = false }) rest (env.now w) w)
  stop_batch t rest (some e) w =
      let (t', wait) = pause (record t { recovered = false }) w in
      stopped wait (release t' rest (env.now w + wait) w)

  -- The loop of publish over the rows that are left.
  unfoldable pub publish : Term → List OutboxEvent → Time → W → Round W
  publish t [] deadline w = record { wait = 0; finished = true; term = t; world = w }
  publish t (row ∷ rest) deadline w =
      elim (env.canceled w || ltb deadline (env.now w + max_publish_duration config)) [
        | true ↦ stopped 0 (release t (row ∷ rest) (env.now w) w)
        | false ↦ elim (check config row) [
          | some reason ↦ elim (env.mark_failed config.owner row.event_id reason w) [
            | failed e w' ↦ stop_batch t rest (some e) w'
            | done false w' ↦ stop_batch t rest none w'
            | done true w' ↦ publish t rest deadline w'
          ]
          | none ↦
              let sent = env.publish row w in
              elim sent.0 [
                | some e ↦ elim (env.canceled sent.1) [
                  | true ↦ stopped 0 (release t (row ∷ rest) (env.now sent.1) sent.1)
                  | false ↦
                      let (t', wait) = pause t sent.1 in
                      stopped wait (
                        release (record t' { declared = false }) (row ∷ rest)
                          (env.now sent.1 + wait) sent.1)
                ]
                | none ↦ elim (env.mark_published config.owner row.event_id sent.1) [
                  | failed e w' ↦ stop_batch t rest (some e) w'
                  | done false w' ↦ stop_batch t rest none w'
                  | done true w' ↦ publish t rest deadline w'
                ]
              ]
        ]
      ]

  abbrev pub paused : W → Term × ℕ → Round W
  paused w (t, wait) = record { wait = wait; finished = false; term = t; world = w }

  -- How cycle ends after publish.
  unfoldable pub after_publish : ℕ → Round W → Round W
  after_publish claimed r =
      if r.finished
      then record r {
        wait = if claimed == config.batch_size then 0 else config.poll_interval;
        term = record r.term { backoff = 0 };
      }
      else r

  -- The part of cycle from the claim on.
  unfoldable pub claim_and_publish : Term → W → Round W
  unfolding after_publish
  claim_and_publish t w =
      let deadline = env.now w + config.lease_duration in
      elim (env.claim config.owner config.batch_size config.lease_duration w) [
        | failed e w' ↦ paused w' (pause t w')
        | done rows w' ↦ after_publish (length rows) (publish t rows deadline w')
      ]

  -- `if !t.declared { … }` and what follows
  unfoldable pub declare_and_publish : Term → W → Round W
  unfolding claim_and_publish
  declare_and_publish t w =
      let answer = env.declare_topology w in
      elim t.declared [
        | true ↦ claim_and_publish t w
        | false ↦ elim answer.0 [
          | some e ↦ paused answer.1 (pause t answer.1)
          | none ↦ claim_and_publish (record t { declared = true }) answer.1
        ]
      ]

  unfoldable pub cycle : Term → W → Round W
  unfolding declare_and_publish
  cycle t w = elim (env.recover_leases config.owner (not t.recovered) w) [
    | failed e w' ↦ paused w' (pause t w')
    | done n w' ↦ declare_and_publish (record t { recovered = true }) w'
  ]

  -- The rounds of Run: `cycles n` are n of them in one term.
  unfoldable pub cycles : ℕ → Term → W → Term × W
  cycles zero t w = (t, w)
  cycles (suc n) t w = let r = cycle t w in cycles n r.term r.world
