-- ===== src/Prelude/Order.antt =====
-- The order of Go strings, and the library functions slices.Sorted, slices.SortFunc and
-- slices.Compact on lists.
use Prim.Native.Nat.{compare as compare_nat, Ordering}
use Prim.Native.Char.{code}
use Prim.Native.String.{String, compare}
use Prim.Native.String.compare
use text.Mathlib.TextPositions.{compare_refl}
use text.Mathlib.TextEquality.{codes_equal}
use mathlib.Core.Path.{◌≡◌, refl, ap₂}
use mathlib.Core.Bool.{Bool, true, false, ◌||◌}
use mathlib.Core.List.{List, [], ◌∷◌}
use native.Mathlib.Omega.{arith}
use webitel_emails.Prelude.Tests.{Comparable, ◌==◌, string_eq, if◌then◌else◌}

-- `s < t` on strings: by code points, which is the order of the UTF-8 bytes.
abbrev pub text_ltb : String → String → Bool
text_ltb s t = elim (compare s t) [ Ordering.lt ↦ true | _ ↦ false ]

-- A strict order that decides: what slices.SortFunc needs of its comparison.
pub record StrictOrder {ℓ} {A : Type ℓ} (lt : A → A → Bool) : Type ℓ where
  pub irrefl : (a : A) → lt a a ≡ false
  pub trans : (a b c : A) → lt a b ≡ true → lt b c ≡ true → lt a c ≡ true
  pub total : (a b : A) → lt a b ≡ false → lt b a ≡ false → a ≡ b

text_ltb_irrefl : (s : String) → text_ltb s s ≡ false
text_ltb_irrefl s = ground (arith, compare_refl s)

text_ltb_trans : (s t u : String) → text_ltb s t ≡ true → text_ltb t u ≡ true → text_ltb s u ≡ true
text_ltb_trans String.[] String.[] u p q = ground arith
text_ltb_trans String.[] (String.◌∷◌ d t) String.[] p q = ground (arith, compare.cons-nil d t)
text_ltb_trans String.[] (String.◌∷◌ d t) (String.◌∷◌ e u) p q =
    ground (arith, compare.nil-cons e u)
text_ltb_trans (String.◌∷◌ c s) String.[] u p q = ground (arith, compare.cons-nil c s)
text_ltb_trans (String.◌∷◌ c s) (String.◌∷◌ d t) String.[] p q =
    ground (arith, compare.cons-nil d t)
text_ltb_trans (String.◌∷◌ c s) (String.◌∷◌ d t) (String.◌∷◌ e u) p q = ground (
  arith,
  compare.cons-cons c d s t,
  compare.cons-cons d e t u,
  compare.cons-cons c e s u,
  text_ltb_trans s t u,
)

-- Both tests fail on equal texts only.
text_ltb_total : (s t : String) → text_ltb s t ≡ false → text_ltb t s ≡ false → s ≡ t
text_ltb_total String.[] String.[] p q = refl
text_ltb_total String.[] (String.◌∷◌ d t) p q = ground (arith, compare.nil-cons d t)
text_ltb_total (String.◌∷◌ c s) String.[] p q = ground (arith, compare.nil-cons c s)
text_ltb_total (String.◌∷◌ c s) (String.◌∷◌ d t) p q =
    ap₂ String.◌∷◌ (codes_equal c d ends.0) (text_ltb_total s t ends.1.0 ends.1.1)
  where
    ends :
        (compare_nat (code c) (code d) ≡ Ordering.eq)
        × ((text_ltb s t ≡ false) × (text_ltb t s ≡ false))
    ends = ground (arith, compare.cons-cons c d s t, compare.cons-cons d c t s)

pub text_order : StrictOrder text_ltb
text_order = record { irrefl = text_ltb_irrefl; trans = text_ltb_trans; total = text_ltb_total }

-- slices.SortStableFunc: insertion sort; `lt` is the comparison's "less". A new element goes
-- before the first one that is not smaller, so equal elements keep their order.
module _ {ℓ} {A : Type ℓ} (lt : A → A → Bool) where
  unfoldable pub insert : A → List A → List A
  insert x [] = x ∷ []
  insert x (y ∷ ys) = if lt y x then y ∷ insert x ys else x ∷ y ∷ ys

  unfoldable pub sort : List A → List A
  sort [] = []
  sort (x ∷ xs) = insert x (sort xs)

-- slices.Compact: of each run of equal elements the first one stays.
module _ {ℓ} {A : Type ℓ} ⦃e : Comparable A⦄ where
  unfoldable pub compact_from : A → List A → List A
  compact_from x [] = x ∷ []
  compact_from x (y ∷ ys) =
      let skip = compact_from x ys in
      let keep = compact_from y ys in if x == y then skip else x ∷ keep

  unfoldable pub compact : List A → List A
  compact [] = []
  compact (x ∷ xs) = compact_from x xs

  unfoldable pub contains : List A → A → Bool
  contains [] a = false
  contains (x ∷ xs) a = x == a || contains xs a

  -- No element stands twice.
  abbrev pub Distinct : List A → Type ℓ
  Distinct [] = Unit
  Distinct (x ∷ xs) = (contains xs x ≡ false) × Distinct xs
