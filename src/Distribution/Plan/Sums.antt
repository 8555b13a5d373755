-- ===== src/Distribution/Plan/Sums.antt =====
-- Sums of counts over the live instances, and the quota map.
use webitel_emails.Prelude.{
  ℕ, suc, ◌+◌, ◌-◌, ◌*◌, ◌≤◌, ◌≡◌, refl, subst, String, true, false, ◌==◌, string_eq, if◌then◌else◌,
  some, List, [], ◌∷◌, length, arith, All, Distinct, contains, sum_by, min, ltb, Bool-cases, inl,
  inr, eq_iff,
}
use webitel_emails.Distribution.Plan.{Counts, bump, Quotas, quotas_from, quota?, quota}

module _ (i : String) (c : Counts) where
  sum_by-bump_absent :
      (is : List String) → contains is i ≡ false → sum_by (bump i c) is ≡ sum_by c is
  unfolding sum_by bump contains
  sum_by-bump_absent [] h = refl
  sum_by-bump_absent (j ∷ js) h = ground (arith, eq_iff i j, eq_iff j i, sum_by-bump_absent js)

  -- One more for one of the instances.
  pub sum_by-bump :
      (is : List String)
      → Distinct is
      → contains is i ≡ true
      → sum_by (bump i c) is ≡ suc (sum_by c is)
  unfolding sum_by bump contains
  sum_by-bump [] d h = ground arith
  sum_by-bump (j ∷ js) d h =
      ground (arith, eq_iff i j, eq_iff j i, sum_by-bump js d.1, sum_by-bump_absent js)

module _ (f g : Counts) where
  pub sum_by-le : (is : List String) → All (λ i. f i ≤ g i) is → sum_by f is ≤ sum_by g is
  unfolding sum_by
  sum_by-le [] h = omega arith
  sum_by-le (i ∷ is) h = omega (arith, sum_by-le is h.1, h.0)

  -- Counts that are nowhere greater and have no smaller sum are the same.
  pub eq_of_sum_by :
      (is : List String)
      → All (λ i. f i ≤ g i) is
      → sum_by g is ≤ sum_by f is
      → All (λ i. f i ≡ g i) is
  unfolding sum_by
  eq_of_sum_by [] h s = tt
  eq_of_sum_by (i ∷ is) h s =
      (omega (arith, sum_by-le is h.1, h.0), eq_of_sum_by is h.1 (omega (arith, h.0)))

  pub sum_by-eq : (is : List String) → All (λ i. f i ≡ g i) is → sum_by f is ≡ sum_by g is
  unfolding sum_by
  sum_by-eq [] h = refl
  sum_by-eq (i ∷ is) h = omega (arith, sum_by-eq is h.1, h.0)

-- What holds of every member of a list, `contains` being the test.
pub All-contains {κ} :
    (P : String → Type κ) (is : List String)
    → ((i : String) → contains is i ≡ true → P i)
    → All P is
unfolding contains
All-contains P [] h = tt
All-contains P (i ∷ is) h =
    (h i (ground (arith, eq_iff i i)), All-contains P is (λ j m. h j (ground arith)))

pub contains-All {κ} :
    (P : String → Type κ) (is : List String) (i : String) → All P is → contains is i ≡ true → P i
unfolding contains
contains-All P [] i h m = absurd (cc)
contains-All P (j ∷ js) i h m = elim (Bool-cases (j == i)) [
  | inl e ↦ subst P ((eq_iff j i).0 e) h.0
  | inr e ↦ contains-All P js i h.1 (ground arith)
]

module _ (base extra : ℕ) where
  -- The map has the instances of the list as its keys, and no value but `base` and `base + 1`.
  pub contains_of_quota? :
      (i : ℕ) (ids : List String) (j : String) (q : ℕ)
      → quota? (quotas_from base extra i ids) j ≡ some q
      → contains ids j ≡ true
  unfolding quotas_from quota? contains
  contains_of_quota? i [] j q h = ground arith
  contains_of_quota? i (id ∷ ids) j q h = ground (arith, contains_of_quota? (suc i) ids j q)

  pub quota_bounds :
      (i : ℕ) (ids : List String) (j : String)
      → contains ids j ≡ true
      → (base ≤ quota (quotas_from base extra i ids) j)
        × (quota (quotas_from base extra i ids) j ≤ base + min 1 extra)
  unfolding quotas_from quota? contains
  quota_bounds i [] j h = absurd (cc)
  quota_bounds i (id ∷ ids) j h = ground (arith, quota_bounds (suc i) ids j)

  sum_by-skip :
      (q : ℕ) (rest : Quotas) (id : String) (ids : List String)
      → contains ids id ≡ false
      → sum_by (quota ((id, q) ∷ rest)) ids ≡ sum_by (quota rest) ids
  unfolding sum_by contains quota?
  sum_by-skip q rest id [] h = refl
  sum_by-skip q rest id (j ∷ js) h =
      ground (arith, eq_iff id j, eq_iff j id, sum_by-skip q rest id js)

  -- The quotas add up: `base` for each instance, and one more for the first `extra` of them.
  pub sum_by-quotas_from :
      (i : ℕ) (ids : List String)
      → Distinct ids
      → sum_by (quota (quotas_from base extra i ids)) ids
        ≡ length ids * base + min (extra - i) (length ids)
  unfolding sum_by quotas_from quota?
  sum_by-quotas_from i [] d = omega arith
  sum_by-quotas_from i (id ∷ ids) d = ground (
    arith,
    eq_iff id id,
    sum_by-quotas_from (suc i) ids d.1,
    sum_by-skip (if ltb i extra then suc base else base) (quotas_from base extra (suc i) ids) id ids
        d.0,
  )
