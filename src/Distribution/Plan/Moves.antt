-- ===== src/Distribution/Plan/Moves.antt =====
-- Which profiles a plan moves, and which it takes from their owner.
use webitel_emails.Prelude.{
  ℕ, suc, ◌+◌, ◌≤◌, ◌≡◌, ◌≢◌, refl, ap, String, false, ◌==◌, string_eq, not, ◌&&◌, min,
  if◌then◌else◌, ltb, contains, true, sym, ◌∙◌, sort, Option, none, some, List, [], ◌∷◌, ◌++◌,
  length, arith, All, Distinct, sum_by, Bool-cases, inl, inr, eq_iff,
}
use mathlib.Core.List.{append-nil, append_assoc}
use webitel_emails.Distribution.Plan.{
  EmailProfileOwnership, Scan, Counts, bump, Quotas, quota?, quota, keeps, keep_loop, assign_loop,
  by_profile_id, by_profile_id, pick, scan, scan_profile, scanned, live_instances, enabled_sorted,
  quota_map, plan_for, plan_live, plan_distribution,
}
use webitel_emails.Distribution.Plan.Sums.{sum_by-eq, All-contains}
use webitel_emails.Distribution.Plan.Owners.{
  one_if, bump-one_if, keep_loop_stays, keep_loop_moves, ids, assign_loop-ids,
}
use webitel_emails.Distribution.Plan.Loops.{Within, bump-Within, keeps_room, sum_by-keep_loop}
use webitel_emails.Distribution.Plan.Balance.{
  if_enabled, enabled_count, sum_by-enabled_sorted, length-enabled_sorted, sum_by-zero, keyed,
  live_instances-Distinct,
}

-- The profiles of the list that `i` owns now.
abbrev pub owned_now : List EmailProfileOwnership → Counts
owned_now ps i = sum_by (λ p. one_if (p.owner_instance_id == i)) ps

abbrev pub enabled_load : List EmailProfileOwnership → Counts
enabled_load ps i = sum_by (if_enabled (λ p. one_if (p.owner_instance_id == i))) ps

keeps_full :
    (qs : Quotas) (kept : Counts) (p : EmailProfileOwnership)
    → keeps qs kept p ≡ false
    → quota qs p.owner_instance_id ≤ kept p.owner_instance_id
keeps_full qs kept p h = go (quota? qs p.owner_instance_id) refl
  where
    go :
        (o : Option ℕ)
        → quota? qs p.owner_instance_id ≡ o
        → quota qs p.owner_instance_id ≤ kept p.owner_instance_id
    go none e = ground arith
    go (some q) e = ground arith

-- An instance keeps what it owns up to its quota.
keep_loop-min :
    (qs : Quotas) (kept : Counts) (ps : List EmailProfileOwnership) (i : String)
    → Within qs kept
    → (keep_loop qs kept ps).0 i ≡ min (kept i + owned_now ps i) (quota qs i)
unfolding sum_by
keep_loop-min qs kept [] i w = unfold keep_loop in omega (arith, w i)
keep_loop-min qs kept (p ∷ ps) i w = elim (Bool-cases (keeps qs kept p)) [
  | inl k ↦
      let t = p.owner_instance_id in
      omega (
        arith,
        ap (λ (r : Counts × List ℕ). r.0 i) (keep_loop_stays qs kept p ps k),
        keep_loop-min qs (bump t kept) ps i (bump-Within qs kept t w (keeps_room qs kept p k).0),
        bump-one_if t kept i,
      )
  | inr k ↦ ground (
    arith,
    ap (λ (r : Counts × List ℕ). r.0 i) (keep_loop_moves qs kept p ps k),
    keep_loop-min qs kept ps i w,
    keeps_full qs kept p k,
    eq_iff p.owner_instance_id i,
    w i,
  )
]

-- The enabled profiles of the list.
abbrev pub enabled_of : List EmailProfileOwnership → List EmailProfileOwnership
enabled_of [] = []
enabled_of (p ∷ ps) = if p.enabled then p ∷ enabled_of ps else enabled_of ps

-- The profiles that cannot stay, in their order: the owner is not live, or it owns as many of the
-- profiles before this one, which are `seen`, as its quota allows.
unfoldable pub beyond_quota :
    List String → Quotas → List EmailProfileOwnership → List EmailProfileOwnership → List ℕ
beyond_quota live qs seen [] = []
beyond_quota live qs seen (p ∷ ps) =
    let rest = beyond_quota live qs (p ∷ seen) ps in
    if contains live p.owner_instance_id
      && ltb (owned_now seen p.owner_instance_id) (quota qs p.owner_instance_id)
    then rest
    else p.profile_id ∷ rest

module _ (live : List String) (qs : Quotas)
    (keyed : (i : String) (q : ℕ) → quota? qs i ≡ some q → contains live i ≡ true) where
  -- An instance has kept what it owns of the profiles before, up to its quota.
  abbrev KeptOf : List EmailProfileOwnership → Counts → Type 0
  KeptOf seen kept = (i : String) → kept i ≡ min (owned_now seen i) (quota qs i)

  stays_kept :
      (seen : List EmailProfileOwnership) (kept : Counts) (p : EmailProfileOwnership)
      → KeptOf seen kept
      → keeps qs kept p
        ≡ contains live p.owner_instance_id
          && ltb (owned_now seen p.owner_instance_id) (quota qs p.owner_instance_id)
  stays_kept seen kept p h = go (quota? qs p.owner_instance_id) refl
    where
      go :
          (o : Option ℕ)
          → quota? qs p.owner_instance_id ≡ o
          → keeps qs kept p
            ≡ contains live p.owner_instance_id
              && ltb (owned_now seen p.owner_instance_id) (quota qs p.owner_instance_id)
      go none e = ground (arith, h p.owner_instance_id)
      go (some q) e = ground (arith, h p.owner_instance_id, keyed p.owner_instance_id q e)

  KeptOf-stays :
      (seen : List EmailProfileOwnership) (kept : Counts) (p : EmailProfileOwnership)
      → KeptOf seen kept
      → ltb (owned_now seen p.owner_instance_id) (quota qs p.owner_instance_id) ≡ true
      → KeptOf (p ∷ seen) (bump p.owner_instance_id kept)
  unfolding sum_by
  KeptOf-stays seen kept p h room i =
      ground (arith, h i, bump-one_if p.owner_instance_id kept i, eq_iff p.owner_instance_id i)

  KeptOf-moves :
      (seen : List EmailProfileOwnership) (kept : Counts) (p : EmailProfileOwnership)
      → KeptOf seen kept
      → quota qs p.owner_instance_id ≤ owned_now seen p.owner_instance_id
      → KeptOf (p ∷ seen) kept
  unfolding sum_by
  KeptOf-moves seen kept p h full i = ground (arith, h i, eq_iff p.owner_instance_id i)

  keep_loop-beyond_quota :
      (seen : List EmailProfileOwnership) (kept : Counts) (ps : List EmailProfileOwnership)
      → KeptOf seen kept
      → (keep_loop qs kept ps).1 ≡ beyond_quota live qs seen ps
  unfolding beyond_quota
  keep_loop-beyond_quota seen kept [] h = unfold keep_loop in refl
  keep_loop-beyond_quota seen kept (p ∷ ps) h = elim (Bool-cases (keeps qs kept p)) [
    | inl k ↦
        let same = sym (stays_kept seen kept p h) ∙ k in
        let room : ltb (owned_now seen p.owner_instance_id) (quota qs p.owner_instance_id) ≡ true =
          ground (arith, same) in
        ap (λ (r : Counts × List ℕ). r.1) (keep_loop_stays qs kept p ps k)
        ∙ keep_loop-beyond_quota (p ∷ seen) (bump p.owner_instance_id kept) ps
            (KeptOf-stays seen kept p h room)
        ∙ rw (same, beyond_quota) refl
    | inr k ↦
        let same = sym (stays_kept seen kept p h) ∙ k in
        let full : quota qs p.owner_instance_id ≤ owned_now seen p.owner_instance_id =
          omega (arith, keeps_full qs kept p k, h p.owner_instance_id) in
        ap (λ (r : Counts × List ℕ). r.1) (keep_loop_moves qs kept p ps k)
        ∙ ap (λ rest. p.profile_id ∷ rest)
            (keep_loop-beyond_quota (p ∷ seen) kept ps (KeptOf-moves seen kept p h full))
        ∙ rw (same, beyond_quota) refl
  ]

scan-enabled :
    (live : List String) (s : Scan) (ps : List EmailProfileOwnership)
    → (scan live s ps).enabled ≡ s.enabled ++ enabled_of ps
unfolding scan
scan-enabled live s [] = rw append-nil refl
scan-enabled live s (p ∷ ps) = ground (
  arith,
  scan-enabled live (scan_profile live s p) ps,
  append_assoc s.enabled (p ∷ []) (enabled_of ps),
)

length-assign_loop :
    (qs : Quotas) (first : String) (others : List String) (kept : Counts) (ps : List ℕ)
    → length (assign_loop qs first others kept ps).1 ≡ length ps
unfolding assign_loop
length-assign_loop qs first others kept [] = refl
length-assign_loop qs first others kept (p ∷ ps) =
    ap suc (length-assign_loop qs first others (bump (pick qs kept first others) kept) ps)

abbrev pub stays_at : List String → List EmailProfileOwnership → Counts
stays_at live profiles i = min (enabled_load profiles i) (quota (quota_map live profiles) i)

plan_for-moves :
    (first : String) (others : List String) (profiles : List EmailProfileOwnership)
    → Distinct (first ∷ others)
    → length (plan_for first others profiles).assign
        + sum_by (stays_at (first ∷ others) profiles) (first ∷ others)
      ≡ enabled_count profiles
unfolding plan_for
plan_for-moves first others profiles d =
    let live = first ∷ others in
    let qs = quota_map live profiles in
    let es = enabled_sorted live profiles in
    let kept = keep_loop qs (λ _. 0) es in
    let same : All (λ i. kept.0 i ≡ stays_at live profiles i) live = All-contains _ live λ i _.
      omega (
        arith,
        keep_loop-min qs (λ _. 0) es i (λ j. omega arith),
        sum_by-enabled_sorted live profiles (λ p. one_if (p.owner_instance_id == i)),
      ) in
    omega (
      arith,
      length-assign_loop qs first others kept.0 kept.1,
      sum_by-keep_loop qs live d (keyed first others profiles d) (λ _. 0) es,
      sum_by-zero live,
      length-enabled_sorted live profiles,
      sum_by-eq _ _ live same,
    )

-- The profiles that move when `live` are the live instances: of the enabled profiles by their ids,
-- those that cannot stay.
abbrev pub movers : List String → List EmailProfileOwnership → List ℕ
movers live profiles =
    beyond_quota live (quota_map live profiles) []
      (sort (λ a b. ltb a.profile_id b.profile_id) (enabled_of profiles))

plan_for-movers :
    (first : String) (others : List String) (profiles : List EmailProfileOwnership)
    → Distinct (first ∷ others)
    → ids (plan_for first others profiles).assign ≡ movers (first ∷ others) profiles
unfolding plan_for enabled_sorted scanned by_profile_id
plan_for-movers first others profiles d =
    let live = first ∷ others in
    let qs = quota_map live profiles in
    let es = enabled_sorted live profiles in
    let start : Scan = record { unassign = []; enabled = []; load = λ _. 0 } in
    assign_loop-ids qs first others (keep_loop qs (λ _. 0) es).0 (keep_loop qs (λ _. 0) es).1
    ∙ keep_loop-beyond_quota live qs (keyed first others profiles d) [] (λ _. 0) es
        (λ i. unfold sum_by in omega arith)
    ∙ ap (λ ps. beyond_quota live qs [] (sort (λ a b. ltb a.profile_id b.profile_id) ps))
        (scan-enabled live start profiles)

plan_live-moves :
    (live : List String) (profiles : List EmailProfileOwnership)
    → Distinct live
    → live ≢ []
    → (ids (plan_live live profiles).assign ≡ movers live profiles)
      × (length (plan_live live profiles).assign + sum_by (stays_at live profiles) live
          ≡ enabled_count profiles)
plan_live-moves [] profiles d h = absurd (h refl)
plan_live-moves (first ∷ others) profiles d h =
    (plan_for-movers first others profiles d, plan_for-moves first others profiles d)

-- With at least one live instance: taken by their ids, the enabled profiles that the plan assigns are
-- exactly those whose owner is not live or owns as many of the profiles before it as its quota
-- allows, each once and in this order. The assignments and, for each live instance, the smaller of
-- the enabled profiles that it owns and its quota add up to all enabled profiles.
pub plan_distribution-moves :
    (instances : List String) (profiles : List EmailProfileOwnership)
    → live_instances instances ≢ []
    → (ids (plan_distribution instances profiles).assign
        ≡ movers (live_instances instances) profiles)
      × (length (plan_distribution instances profiles).assign
            + sum_by (stays_at (live_instances instances) profiles) (live_instances instances)
          ≡ enabled_count profiles)
unfolding plan_distribution
plan_distribution-moves instances profiles h =
    plan_live-moves (live_instances instances) profiles (live_instances-Distinct instances) h

-- The ids of the profiles that are disabled and still owned, in the order of the list.
abbrev pub disabled_owned : List EmailProfileOwnership → List ℕ
disabled_owned [] = []
disabled_owned (p ∷ ps) =
    if not p.enabled && not (p.owner_instance_id == "")
    then p.profile_id ∷ disabled_owned ps
    else disabled_owned ps

scan-unassign :
    (live : List String) (s : Scan) (ps : List EmailProfileOwnership)
    → (scan live s ps).unassign ≡ s.unassign ++ disabled_owned ps
unfolding scan
scan-unassign live s [] = rw append-nil refl
scan-unassign live s (p ∷ ps) = ground (
  arith,
  scan-unassign live (scan_profile live s p) ps,
  append_assoc s.unassign (p.profile_id ∷ []) (disabled_owned ps),
)

-- What there is to do when some instance is live.
abbrev pub when_live : List String → List ℕ → List ℕ
when_live [] xs = []
when_live (_ ∷ _) xs = xs

plan_live-unassign :
    (live : List String) (profiles : List EmailProfileOwnership)
    → (plan_live live profiles).unassign ≡ when_live live (disabled_owned profiles)
plan_live-unassign [] profiles = refl
plan_live-unassign (first ∷ others) profiles =
    unfold plan_for scanned in scan-unassign (first ∷ others) _ profiles

-- With at least one live instance, exactly the disabled profiles that still have an owner are
-- taken from it, in the order of the list; with none, no profile is.
pub plan_distribution-unassign :
    (instances : List String) (profiles : List EmailProfileOwnership)
    → (plan_distribution instances profiles).unassign
      ≡ when_live (live_instances instances) (disabled_owned profiles)
unfolding plan_distribution
plan_distribution-unassign instances profiles =
    plan_live-unassign (live_instances instances) profiles
