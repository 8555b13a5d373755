-- ===== src/Prelude/Sorting.antt =====
-- Laws of `sort` and `compact`: the same elements, in order, each once.
use Prim.Native.Nat.{ℕ, suc, ◌+◌}
use mathlib.Core.Path.{◌≡◌, refl, ◌∙◌}
use mathlib.Core.Logic.{inl, inr}
use mathlib.Core.Bool.{Bool, true, false, ◌||◌}
use mathlib.Core.List.{List, [], ◌∷◌, ◌++◌}
use native.Mathlib.Omega.{arith}
use webitel_emails.Prelude.Tests.{Comparable, ◌==◌, Bool-cases}
use webitel_emails.Prelude.Lists.{All, length}
use webitel_emails.Prelude.Order.{
  StrictOrder, insert, sort, compact_from, compact, contains, Distinct,
}

-- The sum of `f` over a list.
unfoldable pub sum_by {ℓ} : {A : Type ℓ} → (A → ℕ) → List A → ℕ
sum_by f [] = 0
sum_by f (x ∷ xs) = f x + sum_by f xs

pub sum_by-append {ℓ} :
    {A : Type ℓ} (f : A → ℕ) (xs ys : List A) → sum_by f (xs ++ ys) ≡ sum_by f xs + sum_by f ys
unfolding sum_by
sum_by-append f [] ys = omega arith
sum_by-append f (x ∷ xs) ys = omega (arith, sum_by-append f xs ys)

module _ {ℓ} {A : Type ℓ} (lt : A → A → Bool) (f : A → ℕ) where
  sum_by-insert : (x : A) (xs : List A) → sum_by f (insert lt x xs) ≡ f x + sum_by f xs
  unfolding sum_by insert
  sum_by-insert x [] = refl
  sum_by-insert x (y ∷ ys) = ground (arith, sum_by-insert x ys)

  pub sum_by-sort : (xs : List A) → sum_by f (sort lt xs) ≡ sum_by f xs
  unfolding sum_by sort
  sum_by-sort [] = refl
  sum_by-sort (x ∷ xs) = ground (arith, sum_by-sort xs, sum_by-insert x (sort lt xs))

module _ {ℓ} {A : Type ℓ} (lt : A → A → Bool) where
  length-insert : (x : A) (xs : List A) → length (insert lt x xs) ≡ suc (length xs)
  unfolding insert
  length-insert x [] = refl
  length-insert x (y ∷ ys) = ground (arith, length-insert x ys)

  pub length-sort : (xs : List A) → length (sort lt xs) ≡ length xs
  unfolding sort
  length-sort [] = refl
  length-sort (x ∷ xs) = ground (arith, length-sort xs, length-insert x (sort lt xs))

  module _ {κ} (P : A → Type κ) where
    All-insert : (x : A) (xs : List A) → P x → All P xs → All P (insert lt x xs)
    unfolding insert
    All-insert x [] h hs = (h, tt)
    All-insert x (y ∷ ys) h hs = elim (Bool-cases (lt y x)) [
      | inl e ↦ rw (e, insert) (hs.0, All-insert x ys h hs.1)
      | inr e ↦ rw (e, insert) (h, hs)
    ]

    pub All-sort : (xs : List A) → All P xs → All P (sort lt xs)
    unfolding sort
    All-sort [] hs = tt
    All-sort (x ∷ xs) hs = All-insert x (sort lt xs) hs.0 (All-sort xs hs.1)

module _ {ℓ} {A : Type ℓ} (lt : A → A → Bool) ⦃e : Comparable A⦄ where
  contains-insert :
      (x : A) (xs : List A) (a : A) → contains (insert lt x xs) a ≡ (x == a || contains xs a)
  unfolding insert contains
  contains-insert x [] a = refl
  contains-insert x (y ∷ ys) a = ground (arith, contains-insert x ys a)

  pub contains-sort : (xs : List A) (a : A) → contains (sort lt xs) a ≡ contains xs a
  unfolding sort contains
  contains-sort [] a = refl
  contains-sort (x ∷ xs) a = ground (arith, contains-insert x (sort lt xs) a, contains-sort xs a)

  insert-Distinct :
      (x : A) (xs : List A) → contains xs x ≡ false → Distinct xs → Distinct (insert lt x xs)
  unfolding insert contains
  insert-Distinct x [] h d = (refl, tt)
  insert-Distinct x (y ∷ ys) h d = elim (Bool-cases (lt y x)) [
    | inl t ↦
        rw (t, insert)
          (
            ground (arith, contains-insert x ys y, e.same_iff x y, e.same_iff y x),
            insert-Distinct x ys (ground arith) d.1,
          )
    | inr t ↦ rw (t, insert) (h, d)
  ]

  pub sort-Distinct : (xs : List A) → Distinct xs → Distinct (sort lt xs)
  unfolding sort
  sort-Distinct [] d = tt
  sort-Distinct (x ∷ xs) d =
      insert-Distinct x (sort lt xs) (contains-sort xs x ∙ d.0) (sort-Distinct xs d.1)

module _ {ℓ} {A : Type ℓ} ⦃e : Comparable A⦄ where
  contains-compact_from :
      (x : A) (xs : List A) (a : A) → contains (compact_from x xs) a ≡ (x == a || contains xs a)
  unfolding compact_from contains
  contains-compact_from x [] a = refl
  contains-compact_from x (y ∷ ys) a =
      ground (arith, contains-compact_from x ys a, contains-compact_from y ys a, e.same_iff x y)

  pub contains-compact : (xs : List A) (a : A) → contains (compact xs) a ≡ contains xs a
  unfolding compact contains
  contains-compact [] a = refl
  contains-compact (x ∷ xs) a = contains-compact_from x xs a

-- In order: no later element is smaller.
abbrev pub IsSorted {ℓ} : {A : Type ℓ} → (A → A → Bool) → List A → Type ℓ
IsSorted lt [] = Unit
IsSorted lt (x ∷ xs) = All (λ y. lt y x ≡ false) xs × IsSorted lt xs

module _ {ℓ} {A : Type ℓ} (lt : A → A → Bool) (o : StrictOrder lt) where
  not_less_trans : (a b c : A) → lt b a ≡ false → lt c b ≡ false → lt c a ≡ false
  not_less_trans a b c p q = ground (arith, o.trans c a b, o.total a b)

  All-not_less :
      (a b : A) (xs : List A)
      → lt b a ≡ false
      → All (λ y. lt y b ≡ false) xs
      → All (λ y. lt y a ≡ false) xs
  All-not_less a b [] h hs = tt
  All-not_less a b (x ∷ xs) h hs = (not_less_trans a b x h hs.0, All-not_less a b xs h hs.1)

  insert-IsSorted : (x : A) (xs : List A) → IsSorted lt xs → IsSorted lt (insert lt x xs)
  unfolding insert
  insert-IsSorted x [] h = (tt, tt)
  insert-IsSorted x (y ∷ ys) h = elim (Bool-cases (lt y x)) [
    | inl e ↦
        rw (e, insert)
          (
            All-insert lt (λ z. lt z y ≡ false) x ys (ground (arith, o.trans y x y, o.irrefl y))
                h.0,
            insert-IsSorted x ys h.1,
          )
    | inr e ↦ rw (e, insert) ((e, All-not_less x y ys e h.0), h)
  ]

  pub sort-IsSorted : (xs : List A) → IsSorted lt (sort lt xs)
  unfolding sort
  sort-IsSorted [] = tt
  sort-IsSorted (x ∷ xs) = insert-IsSorted x (sort lt xs) (sort-IsSorted xs)

  module _ ⦃e : Comparable A⦄ where
    -- Nothing of a sorted list is equal to what is smaller than its head.
    contains_smaller :
        (a x : A) (xs : List A)
        → lt a x ≡ true
        → All (λ y. lt y x ≡ false) xs
        → contains (x ∷ xs) a ≡ false
    unfolding contains
    contains_smaller a x [] h hs = ground (arith, e.same_iff x a, o.irrefl a)
    contains_smaller a x (y ∷ ys) h hs =
        ground (arith, contains_smaller a x ys h hs.1, e.same_iff x a, e.same_iff y a, o.irrefl a)

    compact_from-Distinct :
        (x : A) (xs : List A) → IsSorted lt (x ∷ xs) → Distinct (compact_from x xs)
    unfolding compact_from contains
    compact_from-Distinct x [] h = (refl, tt)
    compact_from-Distinct x (y ∷ ys) h = elim (Bool-cases (x == y)) [
      | inl t ↦ rw (t, compact_from) (compact_from-Distinct x ys (h.0.1, h.1.1))
      | inr t ↦
          rw (t, compact_from)
            (
              contains-compact_from y ys x
                  ∙ contains_smaller x y ys (ground (arith, o.total x y, e.same_iff x y)) h.1.0,
              compact_from-Distinct y ys h.1,
            )
    ]

    -- slices.Compact of a sorted slice has no repetition.
    pub compact-sort-Distinct : (xs : List A) → Distinct (compact (sort lt xs))
    unfolding compact
    compact-sort-Distinct xs = go (sort lt xs) (sort-IsSorted xs)
      where
        go : (ys : List A) → IsSorted lt ys → Distinct (compact ys)
        go [] h = tt
        go (y ∷ ys) h = compact_from-Distinct y ys h
