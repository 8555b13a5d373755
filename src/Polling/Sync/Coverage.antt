-- ===== src/Polling/Sync/Coverage.antt =====
-- Lists of UIDs that a cursor has passed: from the part that was delivered to the whole mailbox.
use webitel_emails.Prelude.{
  In, ℕ, zero, suc, ◌≤◌, ◌<◌, ◌≡◌, ◌⊎◌, Bool, true, ◌&&◌, leb, List, [], ◌∷◌, take, All, arith,
  Bool-cases, inl, inr,
}
use webitel_emails.Polling.Search.Windows.{Ascending, select}
use webitel_emails.Polling.Deliver.Confirmed.{beyond_last}

module _ (P : ℕ → Type 0) (last : ℕ) where
  -- Every number of the list lies past `last` or satisfies `P`.
  abbrev pub Covered : List ℕ → Type 0
  Covered = All λ u. (last < u) ⊎ P u

  -- `last` is `old` or stands in the list.
  abbrev pub Reached : ℕ → List ℕ → Type 0
  Reached old us = (last ≡ old) ⊎ In last us

  pub take-Covered :
      (old n : ℕ) (us : List ℕ)
      → Ascending us
      → All (λ u. old < u) us
      → Reached old (take n us)
      → Covered (take n us)
      → Covered us
  take-Covered old zero us a h r c = beyond_last last P us (go r)
    where
      go : Reached old [] → All (λ u. last < u) us
      go (inl e) = rw e h
      go (inr x) = absurd x
  take-Covered old (suc n) [] a h r c = tt
  take-Covered old (suc n) (u ∷ us) a h r c =
      (c.0, go (λ r'. take-Covered old n us a.1 h.1 r' c.1) r)
    where
      go : (Reached old (take n us) → Covered us) → Reached old (u ∷ take n us) → Covered us
      go later (inl e) = later (inl e)
      go later (inr (inl e)) = beyond_last last P us (rw e a.0)
      go later (inr (inr x)) = later (inr x)

  -- Of an ascending list that passes no filter but the bounds.
  pub select-Covered :
      (lo hi : ℕ) (p : ℕ → Bool) (us : List ℕ)
      → ((u : ℕ) → p u ≡ true)
      → last ≤ hi
      → Covered (select lo hi p us)
      → All (λ u. (u < lo) ⊎ (last < u) ⊎ P u) us
  select-Covered lo hi p [] t l c = tt
  select-Covered lo hi p (u ∷ us) t l c = elim (Bool-cases (leb lo u && leb u hi && p u)) [
    | inl e ↦
        let c' : Covered (u ∷ select lo hi p us) = rw e at c in
        (inr c'.0, select-Covered lo hi p us t l c'.1)
    | inr e ↦
        let c' : Covered (select lo hi p us) = rw e at c in
        let out : (u < lo) ⊎ (hi < u) = ground (arith, t u) in
        (
          elim out [ inl x ↦ inl x | inr x ↦ inr (inl (omega arith)) ],
          select-Covered lo hi p us t l c',
        )
  ]

pub In-take : (x n : ℕ) (us : List ℕ) → In x (take n us) → In x us
In-take x zero us h = absurd h
In-take x (suc n) [] h = absurd h
In-take x (suc n) (u ∷ us) (inl e) = inl e
In-take x (suc n) (u ∷ us) (inr h) = inr (In-take x n us h)

pub In-select : (x lo hi : ℕ) (p : ℕ → Bool) (us : List ℕ) → In x (select lo hi p us) → x ≤ hi
In-select x lo hi p [] h = absurd h
In-select x lo hi p (u ∷ us) h = elim (Bool-cases (leb lo u && leb u hi && p u)) [
  | inl e ↦
      let h' : In x (u ∷ select lo hi p us) = rw e at h in
      elim h' [ inl q ↦ ground arith | inr q ↦ In-select x lo hi p us q ]
  | inr e ↦ let h' : In x (select lo hi p us) = rw e at h in In-select x lo hi p us h'
]

pub All-take {κ} : (P : ℕ → Type κ) (n : ℕ) (us : List ℕ) → All P us → All P (take n us)
All-take P zero us h = tt
All-take P (suc n) [] h = tt
All-take P (suc n) (u ∷ us) h = (h.0, All-take P n us h.1)

pub take-Ascending : (n : ℕ) (us : List ℕ) → Ascending us → Ascending (take n us)
take-Ascending zero us a = tt
take-Ascending (suc n) [] a = tt
take-Ascending (suc n) (u ∷ us) a = (All-take _ n us a.0, take-Ascending n us a.1)

pub All-select {κ} :
    (P : ℕ → Type κ) (lo hi : ℕ) (p : ℕ → Bool) (us : List ℕ) → All P us → All P (select lo hi p us)
All-select P lo hi p [] h = tt
All-select P lo hi p (u ∷ us) h = elim (Bool-cases (leb lo u && leb u hi && p u)) [
  | inl e ↦ rw e (h.0, All-select P lo hi p us h.1)
  | inr e ↦ rw e (All-select P lo hi p us h.1)
]

pub select-Ascending :
    (lo hi : ℕ) (p : ℕ → Bool) (us : List ℕ) → Ascending us → Ascending (select lo hi p us)
select-Ascending lo hi p [] a = tt
select-Ascending lo hi p (u ∷ us) a = elim (Bool-cases (leb lo u && leb u hi && p u)) [
  | inl e ↦ rw e (All-select _ lo hi p us a.0, select-Ascending lo hi p us a.1)
  | inr e ↦ rw e (select-Ascending lo hi p us a.1)
]

-- What a window finds lies above its lower bound.
pub select_above_lo :
    (lo hi : ℕ) (p : ℕ → Bool) (us : List ℕ) → All (λ u. lo ≤ u) (select lo hi p us)
select_above_lo lo hi p [] = tt
select_above_lo lo hi p (u ∷ us) = elim (Bool-cases (leb lo u && leb u hi && p u)) [
  | inl e ↦ rw e (ground arith, select_above_lo lo hi p us)
  | inr e ↦ rw e (select_above_lo lo hi p us)
]
