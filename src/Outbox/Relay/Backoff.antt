-- ===== src/Outbox/Relay/Backoff.antt =====
-- The pause of the relay after consecutive failures.
use webitel_emails.Prelude.{
  ℕ, String, true, false, ltb, ◌+◌, ◌⊎◌, ◌==◌, nat_eq, if◌then◌else◌, done, zero, suc, ◌*◌, ◌^◌,
  ◌≡◌, min,
}
use webitel_emails.Model.Runtime.{Time}
use webitel_emails.Outbox.Relay.{
  RelayConfig, RelayEnv, Term, Round, next_backoff, max_publish_duration, cycle,
}

-- The pause that `n` failures in a row lead to: the initial interval, doubled by each failure after
-- the first, and never more than the maximal interval.
abbrev pub interval : RelayConfig → ℕ → ℕ
interval config zero = 0
interval config (suc n) = min (config.retry_initial_interval * 2 ^ n) config.retry_max_interval

module _ {E W : Type 0} (env : RelayEnv E W) (config : RelayConfig) where
  -- Why a round may stop with no pause: the term ends, the batch could outlive its leases, or a row
  -- was no longer leased to the relay.
  abbrev pub Quiet : Type 0
  Quiet =
      ((w : W) × (env.canceled w ≡ true))
      ⊎ ((w : W) × (deadline : Time) × (ltb deadline (env.now w + max_publish_duration config)
            ≡ true))
      ⊎ ((id : ℕ) × (w : W) × (w' : W) × (env.mark_published config.owner id w ≡ done false w'))
      ⊎ ((id : ℕ) × (reason : String) × (w : W) × (w' : W) × (env.mark_failed config.owner id reason
              w
            ≡ done false w'))

  -- A round that stops early: with no pause, or with the next one.
  abbrev Stops : ℕ → Round W → Type 0
  Stops b r =
      ((r.finished ≡ false) × (r.wait ≡ 0) × (r.term.backoff ≡ b) × Quiet)
      ⊎ ((r.finished ≡ false)
          × (r.wait ≡ next_backoff config b)
          × (r.term.backoff ≡ next_backoff config b))

  -- A round that finishes its batch forgets the failures before it; any other stops early.
  abbrev Ends : ℕ → Round W → Type 0
  Ends b r = ((r.finished ≡ true) × (r.term.backoff ≡ 0)) ⊎ Stops b r

  -- The failures in a row after a round: a finished round ends them, and a round that stops early
  -- and pauses is one more.
  abbrev pub failures_after : ℕ → Round W → ℕ
  failures_after k r = if r.finished then 0 else if r.wait == 0 then k else suc k

  -- The failures in a row after `n` rounds, `k` before them.
  unfoldable pub failures : ℕ → ℕ → Term → W → ℕ
  failures zero k t w = k
  failures (suc n) k t w =
      let r = cycle env config t w in failures n (failures_after k r) r.term r.world

  -- A round that follows `k` failures: it finishes, it stops with no pause for one of the reasons
  -- that are no failure, or it fails and pauses for the time of k + 1 failures.
  abbrev pub Pauses : ℕ → Round W → Type 0
  Pauses k r =
      (r.finished ≡ true)
      ⊎ ((r.wait ≡ 0) × Quiet)
      ⊎ ((r.finished ≡ false) × (r.wait ≡ interval config (suc k)))
