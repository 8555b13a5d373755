-- ===== src/Distribution/Plan.antt =====
-- internal/distribution/plan.go: planDistribution, one definition for each of its loops. A Go
-- map with string keys is a function when its default matters and an association list when
-- the code asks whether a key is there. Profile ids are database ids, so they are not negative.
mod Sums
mod Loops
pub mod Owners
pub mod Balance
pub mod Moves
mod Tests
use webitel_emails.Prelude.{
  ℕ, zero, suc, ◌+◌, ◌/◌, ◌%◌, String, Bool, true, false, not, ◌&&◌, ◌==◌, string_eq, ltb,
  if◌then◌else◌, Option, none, some, List, [], ◌∷◌, ◌++◌, map, length, text_ltb, sort, compact,
  contains,
}

-- A profile with its current owner, as seen by the leader; the empty text is no owner.
pub record EmailProfileOwnership : Type 0 where
  pub profile_id : ℕ
  pub enabled : Bool
  pub owner_instance_id : String

pub record Assignment : Type 0 where
  pub profile_id : ℕ
  pub instance_id : String

pub record Plan : Type 0 where
  pub assign : List Assignment
  pub unassign : List ℕ

-- A map from instance ids to counts, zero where a key is absent.
abbrev pub Counts : Type 0
Counts = String → ℕ

unfoldable pub bump : String → Counts → Counts
bump i c = λ j. if i == j then suc (c j) else c j

-- The state of the loop over `profiles`.
pub record Scan : Type 0 where
  pub unassign : List ℕ
  pub enabled : List EmailProfileOwnership
  pub load : Counts

unfoldable pub scan_profile : List String → Scan → EmailProfileOwnership → Scan
scan_profile live s p =
    if not p.enabled
    then (if p.owner_instance_id == ""
        then s
        else record s { unassign = s.unassign ++ p.profile_id ∷ [] })
    else record s {
      enabled = s.enabled ++ p ∷ [];
      load = if contains live p.owner_instance_id then bump p.owner_instance_id s.load else s.load;
    }

unfoldable pub scan : List String → Scan → List EmailProfileOwnership → Scan
unfolding scan_profile
scan live s [] = s
scan live s (p ∷ ps) = scan live (scan_profile live s p) ps

-- The quota map: the first `extra` instances of `by_load` get one more than `base`.
abbrev pub Quotas : Type 0
Quotas = List (String × ℕ)

unfoldable pub quotas_from : ℕ → ℕ → ℕ → List String → Quotas
quotas_from base extra i [] = []
quotas_from base extra i (id ∷ ids) =
    (id, if ltb i extra then suc base else base) ∷ quotas_from base extra (suc i) ids

unfoldable pub quota? : Quotas → String → Option ℕ
quota? [] i = none
quota? ((j, q) ∷ rest) i = if j == i then some q else quota? rest i

abbrev pub or_zero : Option ℕ → ℕ
or_zero none = 0
or_zero (some n) = n

abbrev pub quota : Quotas → Counts
quota qs i = or_zero (quota? qs i)

-- `q, live := quota[owner]; live && kept[owner] < q`
abbrev pub keeps : Quotas → Counts → EmailProfileOwnership → Bool
keeps qs kept p = elim (quota? qs p.owner_instance_id) [
  | none ↦ false
  | some q ↦ ltb (kept p.owner_instance_id) q
]

-- The loop that keeps a profile where its owner has room: the final `kept`, and `pending`.
unfoldable pub keep_loop : Quotas → Counts → List EmailProfileOwnership → Counts × List ℕ
keep_loop qs kept [] = (kept, [])
keep_loop qs kept (p ∷ ps) =
    let stays = keeps qs kept p in
    let (kept', pending) =
      keep_loop qs (if stays then bump p.owner_instance_id kept else kept) ps in
    (kept', if stays then pending else p.profile_id ∷ pending)

-- The loop over instances[1:]; the source subtracts signed numbers, here each side is added.
unfoldable pub pick : Quotas → Counts → String → List String → String
pick qs kept target [] = target
pick qs kept target (id ∷ ids) =
    pick qs kept
      (if ltb (quota qs target + kept id) (quota qs id + kept target) then id else target) ids

unfoldable pub assign_loop :
    Quotas → String → List String → Counts → List ℕ → Counts × List Assignment
assign_loop qs first others kept [] = (kept, [])
assign_loop qs first others kept (p ∷ ps) =
    let target = pick qs kept first others in
    let (kept', rest) = assign_loop qs first others (bump target kept) ps in
    (kept', record { profile_id = p; instance_id = target } ∷ rest)

-- slices.Compact(slices.Sorted(…))
unfoldable pub live_instances : List String → List String
live_instances instances = compact (sort text_ltb instances)

unfoldable pub by_profile_id : EmailProfileOwnership → EmailProfileOwnership → Bool
by_profile_id a b = ltb a.profile_id b.profile_id

unfoldable pub scanned : List String → List EmailProfileOwnership → Scan
scanned live profiles = scan live (record { unassign = []; enabled = []; load = λ _. 0 }) profiles

unfoldable pub enabled_sorted :
    List String → List EmailProfileOwnership → List EmailProfileOwnership
enabled_sorted live profiles = sort by_profile_id (scanned live profiles).enabled

unfoldable pub quota_map : List String → List EmailProfileOwnership → Quotas
quota_map live profiles =
    let s = scanned live profiles in
    quotas_from (length s.enabled / length live) (length s.enabled % length live) 0
      (sort (λ a b. ltb (s.load b) (s.load a)) live)

-- What planDistribution does once there is an instance.
unfoldable pub plan_for : String → List String → List EmailProfileOwnership → Plan
plan_for first others profiles =
    let live = first ∷ others in
    let qs = quota_map live profiles in
    let (kept, pending) = keep_loop qs (λ _. 0) (enabled_sorted live profiles) in
    record {
      assign = (assign_loop qs first others kept pending).1;
      unassign = (scanned live profiles).unassign;
    }

abbrev pub plan_live : List String → List EmailProfileOwnership → Plan
plan_live [] profiles = record { assign = []; unassign = [] }
plan_live (first ∷ others) profiles = plan_for first others profiles

unfoldable pub plan_distribution : List String → List EmailProfileOwnership → Plan
plan_distribution instances profiles = plan_live (live_instances instances) profiles
