-- ===== src/Inbound/Rows/Ancestors.antt =====
-- keepLastOccurrence against its description: an identifier stays where no copy of it follows.
use webitel_emails.Prelude.{
  ℕ, suc, ◌≤◌, ◌≡◌, refl, ap, sym, ◌∙◌, subst, true, false, ◌==◌, nat_eq, bytes_eq, Bool-cases,
  Option-cases, if◌then◌else◌, ◌⊎◌, inl, inr, Option, none, some, List, [], ◌∷◌, Bytes, contains,
  Distinct, arith,
}
use webitel_emails.Inbound.Rows.{strongest, keep_strongest, keep_last_occurrence}

-- The identifiers without those that a copy follows.
unfoldable pub last_copies : List Bytes → List Bytes
last_copies [] = []
last_copies (v ∷ vs) = let rest = last_copies vs in if contains vs v then rest else v ∷ rest

strongest-ge :
    (index : ℕ) (vs : List Bytes) (v : Bytes) (n : ℕ) → strongest index vs v ≡ some n → index ≤ n
unfolding strongest
strongest-ge index [] v n h = ground arith
strongest-ge index (x ∷ xs) v n h = elim (Option-cases (strongest (suc index) xs v)) [
  | inl e ↦ ground arith
  | inr (m, e) ↦ ground (arith, strongest-ge (suc index) xs v m e)
]

-- There is a last copy when the list has the identifier.
strongest-contains :
    (index : ℕ) (vs : List Bytes) (v : Bytes)
    → ((contains vs v ≡ false) × (strongest index vs v ≡ none))
      ⊎ ((contains vs v ≡ true) × (n : ℕ) × (strongest index vs v ≡ some n))
unfolding strongest contains
strongest-contains index [] v = inl (refl, refl)
strongest-contains index (x ∷ xs) v = elim (strongest-contains (suc index) xs v) [
  | inl (out, none_yet) ↦ elim (Bool-cases (x == v)) [
    | inl e ↦ inr (ground arith, index, ground arith)
    | inr e ↦ inl (ground arith, ground arith)
  ]
  | inr (later, n, at) ↦ inr (ground arith, n, ground arith)
]

-- A copy in the tail hides the head.
strongest-later :
    (index : ℕ) (x : Bytes) (xs : List Bytes) (v : Bytes)
    → contains xs v ≡ true
    → strongest index (x ∷ xs) v ≡ strongest (suc index) xs v
unfolding strongest
strongest-later index x xs v h = elim (strongest-contains (suc index) xs v) [
  | inl (out, e) ↦ ground arith
  | inr (inside, n, e) ↦ ground arith
]

strongest-head :
    (index : ℕ) (x : Bytes) (xs : List Bytes)
    → contains xs x ≡ false
    → strongest index (x ∷ xs) x ≡ some index
unfolding strongest
strongest-head index x xs h = elim (strongest-contains (suc index) xs x) [
  | inl (out, e) ↦ ground (arith, (bytes_eq.same_iff x x).1 refl)
  | inr (inside, n, e) ↦ ground arith
]

contains-tail :
    (x : Bytes) (xs : List Bytes) (v : Bytes) → contains xs v ≡ true → contains (x ∷ xs) v ≡ true
unfolding contains
contains-tail x xs v h = ground arith

contains-head : (x : Bytes) (xs : List Bytes) → contains (x ∷ xs) x ≡ true
unfolding contains
contains-head x xs = ground (arith, (bytes_eq.same_iff x x).1 refl)

keep_strongest-last_copies :
    (last : Bytes → Option ℕ) (index : ℕ) (vs : List Bytes)
    → ((v : Bytes) → contains vs v ≡ true → last v ≡ strongest index vs v)
    → keep_strongest last index vs ≡ last_copies vs
unfolding keep_strongest last_copies
keep_strongest-last_copies last index [] h = refl
keep_strongest-last_copies last index (x ∷ xs) h =
    let head = h x (contains-head x xs) in
    let rest =
      keep_strongest-last_copies last (suc index) xs
        (λ v inside. h v (contains-tail x xs v inside) ∙ strongest-later index x xs v inside) in
    elim (strongest-contains (suc index) xs x) [
      | inl (out, e) ↦ ground (arith, head, rest, strongest-head index x xs out)
      | inr (inside, n, e) ↦ ground (
        arith,
        head,
        rest,
        strongest-later index x xs x inside,
        strongest-ge (suc index) xs x n e,
      )
    ]

contains-last_copies : (vs : List Bytes) (v : Bytes) → contains (last_copies vs) v ≡ contains vs v
unfolding last_copies contains
contains-last_copies [] v = refl
contains-last_copies (x ∷ xs) v = elim (Bool-cases (contains xs x)) [
  | inl e ↦ elim (Bool-cases (x == v)) [
    | inl s ↦
        let inside = subst (λ z. contains xs z ≡ true) ((bytes_eq.same_iff x v).0 s) e in
        ground (arith, contains-last_copies xs v)
    | inr s ↦ ground (arith, contains-last_copies xs v)
  ]
  | inr e ↦ ground (arith, contains-last_copies xs v)
]

last_copies-Distinct : (vs : List Bytes) → Distinct (last_copies vs)
unfolding last_copies
last_copies-Distinct [] = tt
last_copies-Distinct (x ∷ xs) = elim (Bool-cases (contains xs x)) [
  | inl e ↦ rw (e) (last_copies-Distinct xs)
  | inr e ↦ rw (e) (contains-last_copies xs x ∙ e, last_copies-Distinct xs)
]

-- keepLastOccurrence keeps an identifier exactly where no copy of it follows, in the given order:
-- each identifier of the list once, and no other.
pub keep_last_occurrence_lem :
    (vs : List Bytes)
    → (keep_last_occurrence vs ≡ last_copies vs)
      × Distinct (keep_last_occurrence vs)
      × ((v : Bytes) → contains (keep_last_occurrence vs) v ≡ contains vs v)
unfolding keep_last_occurrence
keep_last_occurrence_lem vs =
    let kept = keep_strongest-last_copies (strongest 0 vs) 0 vs (λ v h. refl) in
    (
      kept,
      subst Distinct (sym kept) (last_copies-Distinct vs),
      λ v. ap (λ ws. contains ws v) kept ∙ contains-last_copies vs v,
    )
