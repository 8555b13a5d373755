-- ===== src/Distribution/Plan/Tests.antt =====
-- Runs of planDistribution at small inputs.
use webitel_emails.Prelude.{
  ℕ, ◌≡◌, ◌≢◌, ◌+◌, refl, arith, String, length, sum_by, true, false, List, [], ◌∷◌, sort, insert,
  compact, compact_from, contains,
}
use webitel_emails.Distribution.Plan.{
  EmailProfileOwnership, plan_distribution, plan_for, live_instances, quota_map, scanned, scan,
  bump, enabled_sorted, by_profile_id, keep_loop, assign_loop, pick, quotas_from, quota?,
}
use webitel_emails.Distribution.Plan.Owners.{UniqueIds, ids}
use webitel_emails.Distribution.Plan.Balance.{IsEven, enabled_count, plan_distribution-IsEven}
use webitel_emails.Distribution.Plan.Moves.{
  movers, stays_at, when_live, disabled_owned, plan_distribution-moves, plan_distribution-unassign,
}

abbrev owned : ℕ → String → EmailProfileOwnership
owned id owner = record { profile_id = id; enabled = true; owner_instance_id = owner }

-- Two instances; "a" has three profiles, the fourth is of an instance that is gone.
abbrev crowded : List EmailProfileOwnership
crowded =
    owned 4 "gone"
    ∷ owned 1 "a"
    ∷ owned 2 "a"
    ∷ owned 3 "a"
    ∷ record { profile_id = 5; enabled = false; owner_instance_id = "b" }
    ∷ []

crowded_plan : plan_distribution ("b" ∷ "a" ∷ "b" ∷ []) crowded ≡ record {
  assign =
      record { profile_id = 3; instance_id = "b" }
      ∷ record { profile_id = 4; instance_id = "b" }
      ∷ [];
  unassign = 5 ∷ [];
}
unfolding plan_distribution plan_for live_instances quota_map scanned scan bump enabled_sorted
    by_profile_id keep_loop assign_loop pick quotas_from quota? sort insert compact compact_from
    contains
crowded_plan = refl

crowded_live : live_instances ("b" ∷ "a" ∷ "b" ∷ []) ≡ "a" ∷ "b" ∷ []
unfolding live_instances sort insert compact compact_from
crowded_live = refl

crowded_some_live : live_instances ("b" ∷ "a" ∷ "b" ∷ []) ≢ []
crowded_some_live e = cc (crowded_live)

crowded-UniqueIds : UniqueIds crowded
unfolding sum_by
crowded-UniqueIds x = ground arith

plan_distribution-IsEven_example :
    IsEven
      (live_instances ("b" ∷ "a" ∷ "b" ∷ []))
      crowded
      (plan_distribution ("b" ∷ "a" ∷ "b" ∷ []) crowded).assign
plan_distribution-IsEven_example =
    plan_distribution-IsEven ("b" ∷ "a" ∷ "b" ∷ []) crowded crowded_some_live crowded-UniqueIds

plan_distribution-moves_example :
    (ids (plan_distribution ("b" ∷ "a" ∷ "b" ∷ []) crowded).assign
      ≡ movers (live_instances ("b" ∷ "a" ∷ "b" ∷ [])) crowded)
    × (length (plan_distribution ("b" ∷ "a" ∷ "b" ∷ []) crowded).assign
          + sum_by
              (stays_at (live_instances ("b" ∷ "a" ∷ "b" ∷ [])) crowded)
              (live_instances ("b" ∷ "a" ∷ "b" ∷ []))
        ≡ enabled_count crowded)
plan_distribution-moves_example =
    plan_distribution-moves ("b" ∷ "a" ∷ "b" ∷ []) crowded crowded_some_live

plan_distribution-unassign_example :
    (plan_distribution ("b" ∷ []) crowded).unassign
    ≡ when_live (live_instances ("b" ∷ [])) (disabled_owned crowded)
plan_distribution-unassign_example = plan_distribution-unassign ("b" ∷ []) crowded
