-- ===== src/Distribution/Plan/Balance.antt =====
-- The plan is an even distribution that moves no profile without need.
use webitel_emails.Prelude.{
  ℕ, ◌+◌, ◌-◌, ◌*◌, ◌/◌, ◌%◌, ◌≤◌, ◌<◌, ◌≡◌, ◌≢◌, refl, sym, ap, ◌∙◌, String, Bool, true, ◌==◌,
  string_eq, min, ltb, if◌then◌else◌, some, List, [], ◌∷◌, length, arith, All, Distinct, contains,
  sort, sum_by, sum_by-append, sum_by-sort, length-sort, sort-Distinct, contains-sort,
  contains-compact, compact-sort-Distinct, text_ltb, text_order,
}
use webitel_emails.Distribution.Plan.{
  EmailProfileOwnership, Assignment, Scan, Counts, Quotas, quotas_from, quota?, quota, scan,
  scan_profile, scanned, keep_loop, assign_loop, by_profile_id, live_instances, enabled_sorted,
  quota_map, plan_for, plan_live, plan_distribution,
}
use webitel_emails.Distribution.Plan.Sums.{
  sum_by-quotas_from, contains_of_quota?, quota_bounds, sum_by-eq, contains-All, All-contains,
}
use webitel_emails.Distribution.Plan.Loops.{keep_loop-Within, sum_by-keep_loop, assign_loop-fills}
use webitel_emails.Distribution.Plan.Owners.{
  one_if, owner_after, UniqueIds, assign_loop-targets, assign_loop-ids, keep_loop-owned,
}

-- `f` where the profile is enabled.
abbrev pub if_enabled : (EmailProfileOwnership → ℕ) → EmailProfileOwnership → ℕ
if_enabled f p = if p.enabled then f p else 0

abbrev pub enabled_count : List EmailProfileOwnership → ℕ
enabled_count = sum_by (if_enabled (λ _. 1))

-- The enabled profiles that instance `i` owns once the assignments are applied.
abbrev pub enabled_owned : List Assignment → List EmailProfileOwnership → String → ℕ
enabled_owned given profiles i =
    sum_by (if_enabled (λ p. one_if (owner_after given p == i))) profiles

sum_by-scan :
    (f : EmailProfileOwnership → ℕ) (live : List String) (s : Scan)
    (ps : List EmailProfileOwnership)
    → sum_by f (scan live s ps).enabled ≡ sum_by f s.enabled + sum_by (if_enabled f) ps
unfolding scan sum_by
sum_by-scan f live s [] = omega arith
sum_by-scan f live s (p ∷ ps) =
    ground
      (arith, sum_by-scan f live (scan_profile live s p) ps, sum_by-append f s.enabled (p ∷ []))

length-sum_by : (ps : List EmailProfileOwnership) → length ps ≡ sum_by (λ _. 1) ps
unfolding sum_by
length-sum_by [] = refl
length-sum_by (p ∷ ps) = omega (arith, length-sum_by ps)

module _ (live : List String) (profiles : List EmailProfileOwnership) where
  sum_by-scanned :
      (f : EmailProfileOwnership → ℕ)
      → sum_by f (scanned live profiles).enabled ≡ sum_by (if_enabled f) profiles
  unfolding scanned sum_by
  sum_by-scanned f =
      omega
        (arith, sum_by-scan f live (record { unassign = []; enabled = []; load = λ _. 0 }) profiles)

  pub sum_by-enabled_sorted :
      (f : EmailProfileOwnership → ℕ)
      → sum_by f (enabled_sorted live profiles) ≡ sum_by (if_enabled f) profiles
  unfolding enabled_sorted
  sum_by-enabled_sorted f = sum_by-sort by_profile_id f _ ∙ sum_by-scanned f

  length-scanned : length (scanned live profiles).enabled ≡ enabled_count profiles
  length-scanned = length-sum_by _ ∙ sum_by-scanned (λ _. 1)

  pub length-enabled_sorted : length (enabled_sorted live profiles) ≡ enabled_count profiles
  length-enabled_sorted = length-sum_by _ ∙ sum_by-enabled_sorted (λ _. 1)

sum_by-if_enabled-le :
    (f : EmailProfileOwnership → ℕ) (ps : List EmailProfileOwnership)
    → sum_by (if_enabled f) ps ≤ sum_by f ps
unfolding sum_by
sum_by-if_enabled-le f [] = omega arith
sum_by-if_enabled-le f (p ∷ ps) = ground (arith, sum_by-if_enabled-le f ps)

enabled_sorted-UniqueIds :
    (live : List String) (profiles : List EmailProfileOwnership)
    → UniqueIds profiles
    → UniqueIds (enabled_sorted live profiles)
enabled_sorted-UniqueIds live profiles u x =
    omega (arith, u x, sum_by-enabled_sorted live profiles _, sum_by-if_enabled-le _ profiles)

pub sum_by-zero : (is : List String) → sum_by (λ _. 0) is ≡ 0
unfolding sum_by
sum_by-zero [] = refl
sum_by-zero (i ∷ is) = omega (arith, sum_by-zero is)

divided : (n k : ℕ) → 0 < k → k * (n / k) + min (n % k - 0) k ≡ n
divided n k h = grind arith

module _ (first : String) (others : List String) (profiles : List EmailProfileOwnership) where
  abbrev pub live : List String
  live = first ∷ others

  abbrev pub qs : Quotas
  qs = quota_map live profiles

  abbrev pub kept : Counts × List ℕ
  kept = keep_loop qs (λ _. 0) (enabled_sorted live profiles)

  abbrev pub by_load : String → String → Bool
  by_load a b = ltb ((scanned live profiles).load b) ((scanned live profiles).load a)

  quota_map_lem :
      qs
      ≡ quotas_from
          (enabled_count profiles / length live)
          (enabled_count profiles % length live)
          0
          (sort by_load live)
  unfolding quota_map
  quota_map_lem = rw (length-scanned live profiles) refl

  module _ (d : Distinct live) where
    sum_by-quota_map : sum_by (quota qs) live ≡ enabled_count profiles
    sum_by-quota_map =
        let n = enabled_count profiles in
        let k = length live in
        let entries =
          sum_by-quotas_from (n / k) (n % k) 0 (sort by_load live) (sort-Distinct by_load live d) in
        let same =
          sum_by-sort by_load (quota (quotas_from (n / k) (n % k) 0 (sort by_load live))) live in
        rw quota_map_lem
          (sym same ∙ entries ∙ rw (length-sort by_load live) (divided n k (omega arith)))

    pub keyed : (i : String) (q : ℕ) → quota? qs i ≡ some q → contains live i ≡ true
    keyed i q h =
        sym (contains-sort by_load live i)
        ∙ contains_of_quota? _ _ 0 (sort by_load live) i q (rw quota_map_lem at h)

    -- After the plan every live instance has its quota.
    plan_for-owned :
        UniqueIds profiles
        → All
            (λ i. enabled_owned (plan_for first others profiles).assign profiles i ≡ quota qs i)
            live
    unfolding plan_for
    plan_for-owned u =
        let es = enabled_sorted live profiles in
        let given = (assign_loop qs first others kept.0 kept.1).1 in
        let all_kept = sum_by-keep_loop qs live d keyed (λ _. 0) es in
        let fills =
          assign_loop-fills qs first others d kept.0 kept.1
            (keep_loop-Within qs (λ _. 0) es (λ i. omega arith))
            (omega (
              arith,
              all_kept,
              sum_by-quota_map,
              sum_by-zero live,
              length-enabled_sorted live profiles,
            )) in
        All-contains _ live λ i m. omega (
          arith,
          contains-All _ live i fills m,
          assign_loop-targets qs first others kept.0 kept.1 i,
          keep_loop-owned qs i es (λ _. 0) given (enabled_sorted-UniqueIds live profiles u)
              (assign_loop-ids qs first others kept.0 kept.1),
          sum_by-enabled_sorted live profiles (λ p. one_if (owner_after given p == i)),
        )

    plan_for-even :
        UniqueIds profiles
        → All
            (λ i.
              (enabled_count profiles / length live
                ≤ enabled_owned (plan_for first others profiles).assign profiles i)
              × (enabled_owned (plan_for first others profiles).assign profiles i
                  ≤ enabled_count profiles / length live
                    + min 1 (enabled_count profiles % length live)))
            live
    plan_for-even u = All-contains _ live λ i m.
        let n = enabled_count profiles in
        let k = length live in
        let bounds =
          quota_bounds (n / k) (n % k) 0 (sort by_load live) i (contains-sort by_load live i ∙ m) in
        let owned = contains-All _ live i (plan_for-owned u) m in
        let same = ap (λ (q : Quotas). quota q i) quota_map_lem in
        (omega (arith, bounds.0), omega (arith, bounds.1))

    plan_for-covers :
        UniqueIds profiles
        → sum_by (enabled_owned (plan_for first others profiles).assign profiles) live
          ≡ enabled_count profiles
    plan_for-covers u = sum_by-eq _ (quota qs) live (plan_for-owned u) ∙ sum_by-quota_map

contains-live :
    (instances : List String) (i : String)
    → contains (live_instances instances) i ≡ contains instances i
unfolding live_instances
contains-live instances i =
    contains-compact (sort text_ltb instances) i ∙ contains-sort text_ltb instances i

pub live_instances-Distinct : (instances : List String) → Distinct (live_instances instances)
unfolding live_instances
live_instances-Distinct instances = compact-sort-Distinct text_ltb text_order instances

-- What planDistribution promises of each instance in `live` and of all of them together.
pub record IsEven (live : List String) (profiles : List EmailProfileOwnership)
    (given : List Assignment) : Type 0 where
  pub even :
      All
        (λ i.
          (enabled_count profiles / length live ≤ enabled_owned given profiles i)
          × (enabled_owned given profiles i
              ≤ enabled_count profiles / length live
                + min 1 (enabled_count profiles % length live)))
        live
  pub covers : sum_by (enabled_owned given profiles) live ≡ enabled_count profiles

plan_live-IsEven :
    (live : List String) (profiles : List EmailProfileOwnership)
    → Distinct live
    → live ≢ []
    → UniqueIds profiles
    → IsEven live profiles (plan_live live profiles).assign
plan_live-IsEven [] profiles d h u = absurd (h refl)
plan_live-IsEven (first ∷ others) profiles d h u = record {
  even = plan_for-even first others profiles d u;
  covers = plan_for-covers first others profiles d u;
}

-- With N enabled profiles and K ≥ 1 distinct live instances, profile ids being unique: once the
-- assignments of planDistribution are applied, every live instance owns at least ⌊N/K⌋ and at
-- most ⌈N/K⌉ enabled profiles (one more than ⌊N/K⌋ only if K does not divide N), and together the
-- live instances own all N, so that no enabled profile is left without a live owner.
pub plan_distribution-IsEven :
    (instances : List String) (profiles : List EmailProfileOwnership)
    → live_instances instances ≢ []
    → UniqueIds profiles
    → IsEven (live_instances instances) profiles (plan_distribution instances profiles).assign
unfolding plan_distribution
plan_distribution-IsEven instances profiles h u =
    plan_live-IsEven (live_instances instances) profiles (live_instances-Distinct instances) h u
