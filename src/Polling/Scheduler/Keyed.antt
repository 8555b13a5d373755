-- ===== src/Polling/Scheduler/Keyed.antt =====
-- Lists of entries under a key, as the maps of the scheduler.
use webitel_emails.Prelude.{
  ℕ, suc, ◌+◌, ◌≤◌, ◌≡◌, ◌∙◌, inl, inr, refl, sym, ap, subst, Bool, true, false, not, ◌==◌, nat_eq,
  nat_beq_iff, if◌then◌else◌, List, [], ◌∷◌, map, length, contains, Distinct, Bool-cases, arith,
}

unfoldable pub keep {ℓ} : {A : Type ℓ} → (A → Bool) → List A → List A
keep p [] = []
keep p (x ∷ xs) = if p x then x ∷ keep p xs else keep p xs

abbrev pub keys {ℓ} : {A : Type ℓ} → List (ℕ × A) → List ℕ
keys = map λ e. e.0

abbrev pub has {ℓ} : {A : Type ℓ} → ℕ → List (ℕ × A) → Bool
has id l = contains (keys l) id

abbrev pub delete {ℓ} : {A : Type ℓ} → ℕ → List (ℕ × A) → List (ℕ × A)
delete id = keep λ e. not (e.0 == id)

unfoldable pub update_key {ℓ} : {A : Type ℓ} → ℕ → (A → A) → List (ℕ × A) → List (ℕ × A)
update_key id f [] = []
update_key id f ((j, a) ∷ rest) = (if j == id then (j, f a) else (j, a)) ∷ update_key id f rest

-- How often a number stands in a list.
unfoldable pub times : ℕ → List ℕ → ℕ
times id [] = 0
times id (x ∷ xs) = if x == id then suc (times id xs) else times id xs

pub times-contains : (id : ℕ) (xs : List ℕ) → 1 ≤ times id xs → contains xs id ≡ true
unfolding times contains
times-contains id [] h = ground arith
times-contains id (x ∷ xs) h = let r = times-contains id xs in ground arith

pub times-absent : (id : ℕ) (xs : List ℕ) → times id xs ≡ 0 → contains xs id ≡ false
unfolding times contains
times-absent id [] h = refl
times-absent id (x ∷ xs) h = let r = times-absent id xs in ground arith

pub absent-times : (id : ℕ) (xs : List ℕ) → contains xs id ≡ false → times id xs ≡ 0
unfolding times contains
absent-times id [] h = refl
absent-times id (x ∷ xs) h = let r = absent-times id xs in ground arith

pub Distinct-times : (id : ℕ) (xs : List ℕ) → Distinct xs → times id xs ≤ 1
unfolding times
Distinct-times id [] d = omega arith
Distinct-times id (x ∷ xs) d = elim (Bool-cases (x == id)) [
  | inl e ↦
      let i = (nat_beq_iff x id).0 e in
      rw (e) (omega (arith, absent-times id xs (subst (λ j. contains xs j ≡ false) i d.0)))
  | inr e ↦ rw (e) (Distinct-times id xs d.1)
]

-- The number of elements that satisfy a test.
abbrev pub count {ℓ} : {A : Type ℓ} → (A → Bool) → List A → ℕ
count p l = length (keep p l)

module _ {ℓ} {A : Type ℓ} where
  pub count-split : (p : A → Bool) (l : List A) → count p l + count (λ x. not (p x)) l ≡ length l
  unfolding keep
  count-split p [] = refl
  count-split p (x ∷ l) = let r = count-split p l in ground arith

  pub keep-has :
      (p : ℕ × A → Bool) (l : List (ℕ × A)) (j : ℕ) → has j l ≡ false → has j (keep p l) ≡ false
  unfolding keep contains
  keep-has p [] j h = h
  keep-has p (x ∷ l) j h = let r = keep-has p l j in ground arith

  pub keep-Distinct :
      (p : ℕ × A → Bool) (l : List (ℕ × A)) → Distinct (keys l) → Distinct (keys (keep p l))
  unfolding keep
  keep-Distinct p [] d = d
  keep-Distinct p (x ∷ l) d = elim (Bool-cases (p x)) [
    | inl e ↦ rw (e, keep) (keep-has p l x.0 d.0, keep-Distinct p l d.1)
    | inr e ↦ rw (e, keep) (keep-Distinct p l d.1)
  ]

  pub delete-has : (id : ℕ) (l : List (ℕ × A)) → has id (delete id l) ≡ false
  unfolding keep contains
  delete-has id [] = refl
  delete-has id (x ∷ l) = let r = delete-has id l in ground arith

  pub delete-other : (id j : ℕ) (l : List (ℕ × A)) → has j (delete id l) ≡ true → has j l ≡ true
  unfolding keep contains
  delete-other id j [] h = h
  delete-other id j (x ∷ l) h = let r = delete-other id j l in ground arith

  pub delete-absent :
      (id : ℕ) (q : ℕ × A → Bool) (l : List (ℕ × A))
      → has id l ≡ false
      → count q (delete id l) ≡ count q l
  unfolding keep contains
  delete-absent id q [] h = refl
  delete-absent id q (x ∷ l) h = let r = delete-absent id q l in ground arith

  -- Deleting a key takes one entry, and it is one that satisfies `q` if such a one has the key.
  pub delete-count :
      (id : ℕ) (q : ℕ × A → Bool) (l : List (ℕ × A))
      → Distinct (keys l)
      → contains (keys (keep q l)) id ≡ true
      → count q (delete id l) + 1 ≡ count q l
  unfolding keep contains
  delete-count id q [] d h = absurd (cc)
  delete-count id q (x ∷ l) d h = elim (Bool-cases (x.0 == id)) [
    | inl e ↦
        let i = (nat_beq_iff x.0 id).0 e in
        let a = delete-absent id q l (subst (λ j. has j l ≡ false) i d.0) in
        let b = keep-has q l id (subst (λ j. has j l ≡ false) i d.0) in ground arith
    | inr e ↦ let r = delete-count id q l d.1 in ground arith
  ]

  pub update_key-keys : (id : ℕ) (f : A → A) (l : List (ℕ × A)) → keys (update_key id f l) ≡ keys l
  unfolding update_key
  update_key-keys id f [] = refl
  update_key-keys id f ((j, a) ∷ rest) = elim (Bool-cases (j == id)) [
    | inl e ↦ rw e (ap (λ ks. j ∷ ks) (update_key-keys id f rest))
    | inr e ↦ rw e (ap (λ ks. j ∷ ks) (update_key-keys id f rest))
  ]

  pub keep-all : (l : List A) → keep (λ x. true) l ≡ l
  unfolding keep
  keep-all [] = refl
  keep-all (x ∷ l) = ap (λ r. x ∷ r) (keep-all l)

  pub length-update_key :
      (id : ℕ) (f : A → A) (l : List (ℕ × A)) → length (update_key id f l) ≡ length l
  unfolding update_key
  length-update_key id f [] = refl
  length-update_key id f ((j, a) ∷ rest) = ap suc (length-update_key id f rest)

module _ {ℓ} {A : Type ℓ} (id : ℕ) (l : List (ℕ × A)) (d : Distinct (keys l)) where
  pub delete-length : has id l ≡ true → length (delete id l) + 1 ≡ length l
  delete-length h =
      ap (λ r. length r + 1) (sym (keep-all (delete id l)))
      ∙ delete-count id (λ x. true) l d (ap (λ r. has id r) (keep-all l) ∙ h)
      ∙ ap length (keep-all l)

  pub keep-key : (q : ℕ × A → Bool) → contains (keys (keep q l)) id ≡ true → has id l ≡ true
  keep-key q h = elim (Bool-cases (has id l)) [
    | inl e ↦ e
    | inr e ↦ absurd (let r = keep-has q l id e in cc)
  ]

  -- Deleting an entry that does not satisfy `q` leaves the number of those that do.
  pub delete-other_count :
      (q : ℕ × A → Bool)
      → contains (keys (keep (λ e. not (q e)) l)) id ≡ true
      → count q (delete id l) ≡ count q l
  delete-other_count q h = omega (
    arith,
    delete-count id (λ e. not (q e)) l d h,
    count-split q l,
    count-split q (delete id l),
    delete-length (keep-key (λ e. not (q e)) h),
  )
