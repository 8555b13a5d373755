-- ===== src/Distribution/Plan/Owners.antt =====
-- Who owns a profile once a plan is applied, and how many profiles each instance then has.
use webitel_emails.Prelude.{
  ℕ, ◌+◌, ◌≤◌, ◌≡◌, refl, ap, ◌∙◌, String, Bool, true, false, ◌==◌, string_eq, nat_eq, nat_beq_iff,
  if◌then◌else◌, Option, none, some, List, [], ◌∷◌, map, arith, sum_by, Bool-cases, inl, inr,
}
use webitel_emails.Distribution.Plan.{
  EmailProfileOwnership, Assignment, Counts, bump, Quotas, keeps, keep_loop, pick, assign_loop,
}

abbrev pub one_if : Bool → ℕ
one_if true = 1
one_if false = 0

-- The instance that a list of assignments names for a profile.
unfoldable pub assigned? : List Assignment → ℕ → Option String
assigned? [] x = none
assigned? (a ∷ rest) x = if a.profile_id == x then some a.instance_id else assigned? rest x

abbrev pub owner_after : List Assignment → EmailProfileOwnership → String
owner_after given p = elim (assigned? given p.profile_id) [
  | none ↦ p.owner_instance_id
  | some i ↦ i
]

-- The profiles of the list that instance `i` owns once the assignments are applied.
abbrev pub owned_after : List Assignment → String → List EmailProfileOwnership → ℕ
owned_after given i = sum_by (λ p. one_if (owner_after given p == i))

abbrev pub count_id : ℕ → List EmailProfileOwnership → ℕ
count_id x = sum_by (λ p. one_if (p.profile_id == x))

-- Profile ids are unique, being a primary key.
abbrev pub UniqueIds : List EmailProfileOwnership → Type 0
UniqueIds ps = (x : ℕ) → count_id x ps ≤ 1

abbrev pub targets : List Assignment → Counts
targets given i = sum_by (λ a. one_if (a.instance_id == i)) given

abbrev pub ids : List Assignment → List ℕ
ids = map λ a. a.profile_id

abbrev pub count : ℕ → List ℕ → ℕ
count x = sum_by (λ y. one_if (y == x))

pub bump-one_if :
    (t : String) (kept : Counts) (i : String) → bump t kept i ≡ kept i + one_if (t == i)
unfolding bump
bump-one_if t kept i = ground arith

module _ (qs : Quotas) (first : String) (others : List String) where
  pub assign_loop-targets :
      (kept : Counts) (ps : List ℕ) (i : String)
      → (assign_loop qs first others kept ps).0 i
        ≡ kept i + targets (assign_loop qs first others kept ps).1 i
  unfolding assign_loop sum_by
  assign_loop-targets kept [] i = omega arith
  assign_loop-targets kept (p ∷ ps) i =
      let t = pick qs kept first others in
      omega (arith, assign_loop-targets (bump t kept) ps i, bump-one_if t kept i)

  pub assign_loop-ids :
      (kept : Counts) (ps : List ℕ) → ids (assign_loop qs first others kept ps).1 ≡ ps
  unfolding assign_loop
  assign_loop-ids kept [] = refl
  assign_loop-ids kept (p ∷ ps) =
      ap (◌∷◌ p) (assign_loop-ids (bump (pick qs kept first others) kept) ps)

assigned?-absent :
    (given : List Assignment) (x : ℕ) → count x (ids given) ≡ 0 → assigned? given x ≡ none
unfolding assigned? sum_by
assigned?-absent [] x h = refl
assigned?-absent (a ∷ given) x h = ground (arith, assigned?-absent given x)

count-keep_loop :
    (qs : Quotas) (kept : Counts) (ps : List EmailProfileOwnership) (x : ℕ)
    → count x (keep_loop qs kept ps).1 ≤ count_id x ps
unfolding keep_loop sum_by
count-keep_loop qs kept [] x = omega arith
count-keep_loop qs kept (p ∷ ps) x = elim (Bool-cases (keeps qs kept p)) [
  | inl e ↦
      rw (e, keep_loop) (omega (arith, count-keep_loop qs (bump p.owner_instance_id kept) ps x))
  | inr e ↦ rw (e, keep_loop) (omega (arith, count-keep_loop qs kept ps x))
]

-- An assignment of a profile that is not in the list changes no count of it.
owned_after-skip :
    (a : Assignment) (given : List Assignment) (i : String) (ps : List EmailProfileOwnership)
    → count_id a.profile_id ps ≡ 0
    → owned_after (a ∷ given) i ps ≡ owned_after given i ps
unfolding assigned? sum_by
owned_after-skip a given i [] h = refl
owned_after-skip a given i (p ∷ ps) h = ground (
  arith,
  nat_beq_iff a.profile_id p.profile_id,
  nat_beq_iff p.profile_id a.profile_id,
  owned_after-skip a given i ps,
)

tail-UniqueIds :
    (p : EmailProfileOwnership) (ps : List EmailProfileOwnership)
    → UniqueIds (p ∷ ps)
    → UniqueIds ps
unfolding sum_by
tail-UniqueIds p ps u x = omega (arith, u x)

head_once :
    (p : EmailProfileOwnership) (ps : List EmailProfileOwnership)
    → UniqueIds (p ∷ ps)
    → count_id p.profile_id ps ≡ 0
unfolding sum_by
head_once p ps u = ground (arith, u p.profile_id)

module _ (qs : Quotas) (kept : Counts) (p : EmailProfileOwnership)
    (ps : List EmailProfileOwnership) where
  pub keep_loop_stays :
      keeps qs kept p ≡ true
      → keep_loop qs kept (p ∷ ps) ≡ keep_loop qs (bump p.owner_instance_id kept) ps
  unfolding keep_loop
  keep_loop_stays k = rw (k, keep_loop) refl

  pub keep_loop_moves :
      keeps qs kept p ≡ false
      → keep_loop qs kept (p ∷ ps)
        ≡ ((keep_loop qs kept ps).0, p.profile_id ∷ (keep_loop qs kept ps).1)
  unfolding keep_loop
  keep_loop_moves k = rw (k, keep_loop) refl

  -- A profile that stays is assigned to nobody.
  stays_owned :
      (given : List Assignment) (i : String)
      → UniqueIds (p ∷ ps)
      → count p.profile_id (ids given) ≤ count_id p.profile_id ps
      → owned_after given i (p ∷ ps) ≡ one_if (p.owner_instance_id == i) + owned_after given i ps
  unfolding sum_by
  stays_owned given i u c = ground (arith, assigned?-absent given p.profile_id, head_once p ps u)

  moves_owned :
      (a : Assignment) (given : List Assignment) (i : String)
      → UniqueIds (p ∷ ps)
      → a.profile_id ≡ p.profile_id
      → owned_after (a ∷ given) i (p ∷ ps) ≡ one_if (a.instance_id == i) + owned_after given i ps
  unfolding sum_by assigned?
  moves_owned a given i u e = ground (
    arith,
    head_once p ps u,
    owned_after-skip a given i ps,
    nat_beq_iff a.profile_id p.profile_id,
  )

  -- A profile that moves has the first assignment.
  moves_step :
      keeps qs kept p ≡ false
      → (given : List Assignment) (i : String) → UniqueIds (p ∷ ps)
      → ids given ≡ (keep_loop qs kept (p ∷ ps)).1
      → ((g : List Assignment)
          → ids g ≡ (keep_loop qs kept ps).1
          → owned_after g i ps + kept i ≡ (keep_loop qs kept ps).0 i + targets g i)
      → owned_after given i (p ∷ ps) + kept i ≡ (keep_loop qs kept (p ∷ ps)).0 i + targets given i
  moves_step k [] i u e ih = let h = e ∙ ap (λ (r : Counts × List ℕ). r.1) (keep_loop_moves k) in cc
  moves_step k (a ∷ given) i u e ih =
      let step = keep_loop_moves k in
      let h : a.profile_id ∷ ids given ≡ p.profile_id ∷ (keep_loop qs kept ps).1 =
        e ∙ ap (λ (r : Counts × List ℕ). r.1) step in
      unfold sum_by in
      omega (
        arith,
        ap (λ (r : Counts × List ℕ). r.0 i) step,
        ih given (ground arith),
        moves_owned a given i u (ground arith),
      )

-- An instance has what it kept and what it was given: no profile is counted twice.
pub keep_loop-owned :
    (qs : Quotas) (i : String) (ps : List EmailProfileOwnership) (kept : Counts)
    (given : List Assignment)
    → UniqueIds ps
    → ids given ≡ (keep_loop qs kept ps).1
    → owned_after given i ps + kept i ≡ (keep_loop qs kept ps).0 i + targets given i
unfolding sum_by
keep_loop-owned qs i [] kept [] u e = unfold keep_loop in omega arith
keep_loop-owned qs i [] kept (a ∷ given) u e = unfold keep_loop in cc
keep_loop-owned qs i (p ∷ ps) kept given u e = elim (Bool-cases (keeps qs kept p)) [
  | inl k ↦
      let step = keep_loop_stays qs kept p ps k in
      let same = e ∙ ap (λ (r : Counts × List ℕ). r.1) step in
      omega (
        arith,
        keep_loop-owned qs i ps (bump p.owner_instance_id kept) given (tail-UniqueIds p ps u) same,
        ap (λ (r : Counts × List ℕ). r.0 i) step,
        bump-one_if p.owner_instance_id kept i,
        stays_owned qs kept p ps given i u
            (rw same (count-keep_loop qs (bump p.owner_instance_id kept) ps p.profile_id)),
      )
  | inr k ↦
      moves_step qs kept p ps k given i u e
        (λ g. keep_loop-owned qs i ps kept g (tail-UniqueIds p ps u))
]
