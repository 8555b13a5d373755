-- ===== src/Distribution/Plan/Loops.antt =====
-- What the two loops over the enabled profiles keep: no instance above its quota, and every
-- profile either kept or assigned.
use webitel_emails.Prelude.{
  ℕ, ◌+◌, ◌≤◌, ◌<◌, ◌≡◌, refl, String, true, string_eq, Option, none, some, List, [], ◌∷◌, length,
  arith, All, Distinct, contains, sum_by, ltb, Bool-cases, inl, inr, eq_iff,
}
use webitel_emails.Distribution.Plan.{
  EmailProfileOwnership, Counts, bump, Quotas, quota?, quota, keeps, keep_loop, pick, assign_loop,
}
use webitel_emails.Distribution.Plan.Sums.{sum_by-bump, sum_by-le, eq_of_sum_by, All-contains}

module _ (qs : Quotas) where
  -- No instance is above its quota.
  abbrev pub Within : Counts → Type 0
  Within kept = (i : String) → kept i ≤ quota qs i

  pub bump-Within :
      (kept : Counts) (t : String) → Within kept → kept t < quota qs t → Within (bump t kept)
  unfolding bump
  bump-Within kept t w h i = ground (arith, w i, eq_iff t i)

  pub keeps_room :
      (kept : Counts) (p : EmailProfileOwnership)
      → keeps qs kept p ≡ true
      → (kept p.owner_instance_id < quota qs p.owner_instance_id)
        × ((q : ℕ) × (quota? qs p.owner_instance_id ≡ some q))
  keeps_room kept p h = go (quota? qs p.owner_instance_id) refl
    where
      go :
          (o : Option ℕ)
          → quota? qs p.owner_instance_id ≡ o
          → (kept p.owner_instance_id < quota qs p.owner_instance_id)
            × ((q : ℕ) × (quota? qs p.owner_instance_id ≡ some q))
      go none e = ground arith
      go (some q) e = (ground arith, (q, e))

  pub keep_loop-Within :
      (kept : Counts) (ps : List EmailProfileOwnership)
      → Within kept
      → Within (keep_loop qs kept ps).0
  unfolding keep_loop
  keep_loop-Within kept [] w = w
  keep_loop-Within kept (p ∷ ps) w = elim (Bool-cases (keeps qs kept p)) [
    | inl e ↦
        rw (e, keep_loop)
          (keep_loop-Within (bump p.owner_instance_id kept) ps
            (bump-Within kept p.owner_instance_id w (keeps_room kept p e).0))
    | inr e ↦ rw (e, keep_loop) (keep_loop-Within kept ps w)
  ]

  module _ (is : List String) (distinct : Distinct is)
      (keyed : (i : String) (q : ℕ) → quota? qs i ≡ some q → contains is i ≡ true) where
    -- Every profile is counted at an instance or pending.
    pub sum_by-keep_loop :
        (kept : Counts) (ps : List EmailProfileOwnership)
        → sum_by (keep_loop qs kept ps).0 is + length (keep_loop qs kept ps).1
          ≡ sum_by kept is + length ps
    unfolding keep_loop
    sum_by-keep_loop kept [] = refl
    sum_by-keep_loop kept (p ∷ ps) = elim (Bool-cases (keeps qs kept p)) [
      | inl e ↦
          let room = keeps_room kept p e in
          rw (e, keep_loop)
            (omega (
              arith,
              sum_by-keep_loop (bump p.owner_instance_id kept) ps,
              sum_by-bump p.owner_instance_id kept is distinct
                  (keyed p.owner_instance_id room.1.0 room.1.1),
            ))
      | inr e ↦ rw (e, keep_loop) (omega (arith, sum_by-keep_loop kept ps))
    ]

module _ (qs : Quotas) (kept : Counts) where
  -- `t` lacks at least as many profiles as `j`.
  abbrev Lacks : String → String → Type 0
  Lacks t j = quota qs j + kept t ≤ quota qs t + kept j

  pick-Lacks_first : (target : String) (ids : List String) → Lacks (pick qs kept target ids) target
  unfolding pick
  pick-Lacks_first target [] = omega arith
  pick-Lacks_first target (id ∷ ids) =
      ground (arith, pick-Lacks_first target ids, pick-Lacks_first id ids)

  pick-Lacks :
      (t target : String) (ids : List String) → pick qs kept target ids ≡ t → All (Lacks t) ids
  unfolding pick
  pick-Lacks t target [] h = tt
  pick-Lacks t target (id ∷ ids) h =
      elim (Bool-cases (ltb (quota qs target + kept id) (quota qs id + kept target))) [
        | inl e ↦ (ground (arith, pick-Lacks_first id ids), pick-Lacks t id ids (ground arith))
        | inr e ↦
            (ground (arith, pick-Lacks_first target ids), pick-Lacks t target ids (ground arith))
      ]

  pub contains-pick :
      (target : String) (ids : List String)
      → contains (target ∷ ids) (pick qs kept target ids) ≡ true
  unfolding pick contains
  contains-pick target [] = ground (arith, eq_iff target target)
  contains-pick target (id ∷ ids) = ground (arith, contains-pick target ids, contains-pick id ids)

  Lacks-All :
      (t : String) (is : List String)
      → All (Lacks t) is
      → quota qs t ≤ kept t
      → All (λ j. quota qs j ≤ kept j) is
  Lacks-All t [] h l = tt
  Lacks-All t (i ∷ is) h l = (omega (arith, h.0), Lacks-All t is h.1 l)

  -- The instance that lacks most has room while some instance has.
  pick_has_room :
      (target : String) (ids : List String)
      → sum_by kept (target ∷ ids) < sum_by (quota qs) (target ∷ ids)
      → kept (pick qs kept target ids) < quota qs (pick qs kept target ids)
  pick_has_room target ids h =
      let t = pick qs kept target ids in
      let full : quota qs t ≤ kept t → ⊥ = λ l.
        let most : All (Lacks t) (target ∷ ids) =
          (pick-Lacks_first target ids, pick-Lacks t target ids refl) in
        let all = sum_by-le (quota qs) kept (target ∷ ids) (Lacks-All t (target ∷ ids) most l) in
        omega arith in
      omega arith

module _ (qs : Quotas) (first : String) (others : List String)
    (distinct : Distinct (first ∷ others)) where
  -- When as many profiles are pending as the quotas leave room for, the loop fills every quota.
  pub assign_loop-fills :
      (kept : Counts) (ps : List ℕ)
      → Within qs kept
      → sum_by kept (first ∷ others) + length ps ≡ sum_by (quota qs) (first ∷ others)
      → All (λ i. (assign_loop qs first others kept ps).0 i ≡ quota qs i) (first ∷ others)
  unfolding assign_loop
  assign_loop-fills kept [] w s =
      eq_of_sum_by kept (quota qs) (first ∷ others) (All-contains _ (first ∷ others) (λ i _. w i))
        (omega arith)
  assign_loop-fills kept (p ∷ ps) w s =
      let t = pick qs kept first others in
      assign_loop-fills (bump t kept) ps
        (bump-Within qs kept t w (pick_has_room qs kept first others (omega arith)))
        (omega (
          arith,
          sum_by-bump t kept (first ∷ others) distinct (contains-pick qs kept first others),
        ))
