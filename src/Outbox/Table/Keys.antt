-- ===== src/Outbox/Table/Keys.antt =====
-- The primary key of email.outbox: what a sub-select of ids says of the rows.
use webitel_emails.Prelude.{
  ℕ, zero, suc, ◌≡◌, ◌∙◌, ◌⊎◌, inl, inr, refl, sym, ap, ap₂, subst, Bool, true, false, ◌==◌, nat_eq,
  List, [], ◌∷◌, take, sort, insert, contains, Distinct, Bool-cases, arith,
}
use webitel_emails.Outbox.Event.{OutboxEvent}
use webitel_emails.Outbox.Table.{select, update, ids_of, event_id_in}

-- A row of the table.
abbrev pub InRows : OutboxEvent → List OutboxEvent → Type 0
InRows row [] = ⊥
InRows row (r ∷ rows) = (row ≡ r) ⊎ InRows row rows

-- Every id of the first list is one of the second.
abbrev pub Contained : List ℕ → List ℕ → Type 0
Contained ids all = (j : ℕ) → contains ids j ≡ true → contains all j ≡ true

pub contains-head : (id : ℕ) (ids : List ℕ) → contains (id ∷ ids) id ≡ true
unfolding contains
contains-head id ids = ground arith

pub InRows-id :
    (row : OutboxEvent) (rows : List OutboxEvent)
    → InRows row rows
    → contains (ids_of rows) row.event_id ≡ true
unfolding contains
InRows-id row [] h = absurd h
InRows-id row (r ∷ rows) (inl e) =
    subst (λ j. contains (ids_of (r ∷ rows)) j ≡ true) (sym (ap (λ x. x.event_id) e))
      (contains-head r.event_id (ids_of rows))
InRows-id row (r ∷ rows) (inr h) = let k = InRows-id row rows h in ground arith

take-Contained : (n : ℕ) (rows : List OutboxEvent) → Contained (ids_of (take n rows)) (ids_of rows)
unfolding contains
take-Contained zero rows j h = absurd (cc)
take-Contained (suc n) [] j h = h
take-Contained (suc n) (r ∷ rows) j h = let k = take-Contained n rows j in ground arith

module _ (lt : OutboxEvent → OutboxEvent → Bool) where
  insert-Contained :
      (row : OutboxEvent) (rows : List OutboxEvent)
      → Contained (ids_of (insert lt row rows)) (ids_of (row ∷ rows))
  unfolding insert contains
  insert-Contained row [] j h = h
  insert-Contained row (r ∷ rows) j h = let k = insert-Contained row rows j in ground arith

  sort-Contained : (rows : List OutboxEvent) → Contained (ids_of (sort lt rows)) (ids_of rows)
  unfolding sort contains
  sort-Contained [] j h = h
  sort-Contained (r ∷ rows) j h =
      let k = sort-Contained rows j in let i = insert-Contained r (sort lt rows) j h in ground arith

pub select-Contained :
    (p : OutboxEvent → Bool) (rows : List OutboxEvent)
    → Contained (ids_of (select p rows)) (ids_of rows)
unfolding select contains
select-Contained p [] j h = h
select-Contained p (r ∷ rows) j h = let k = select-Contained p rows j in ground arith

clash :
    (rows : List OutboxEvent) {i j : ℕ}
    → i ≡ j
    → contains (ids_of rows) j ≡ false
    → contains (ids_of rows) i ≡ true
    → ⊥
clash rows e f h = absurd (cc)

select_unique :
    (p : OutboxEvent → Bool) (rows : List OutboxEvent) (row : OutboxEvent)
    → Distinct (ids_of rows)
    → InRows row rows
    → contains (ids_of (select p rows)) row.event_id ≡ true
    → p row ≡ true
unfolding select contains
select_unique p [] row d h c = absurd h
select_unique p (r ∷ rows) row d (inl e) c = elim (Bool-cases (p r)) [
  | inl t ↦ ap p e ∙ t
  | inr t ↦ absurd (
      clash rows (ap (λ x. x.event_id) e) d.0 (select-Contained p rows row.event_id (ground arith)))
]
select_unique p (r ∷ rows) row d (inr h) c =
    let i = InRows-id row rows h in
    let rest = select_unique p rows row d.1 h in
    elim (Bool-cases (r.event_id == row.event_id)) [
      | inl q ↦ absurd (clash rows (ground arith) d.0 i)
      | inr q ↦ rest (ground arith)
    ]

-- A row whose id such a sub-select gives satisfies its condition.
pub subselect-row :
    (p : OutboxEvent → Bool) (lt : OutboxEvent → OutboxEvent → Bool) (n : ℕ)
    (rows : List OutboxEvent) (row : OutboxEvent)
    → Distinct (ids_of rows)
    → InRows row rows
    → event_id_in (ids_of (take n (sort lt (select p rows)))) row ≡ true
    → p row ≡ true
subselect-row p lt n rows row d h c =
    select_unique p rows row d h
      (sort-Contained lt (select p rows) row.event_id (take-Contained n _ row.event_id c))

pub update-ids :
    (p : OutboxEvent → Bool) (f : OutboxEvent → OutboxEvent) (rows : List OutboxEvent)
    → ((row : OutboxEvent) → (f row).event_id ≡ row.event_id)
    → ids_of (update p f rows) ≡ ids_of rows
unfolding update
update-ids p f [] h = refl
update-ids p f (r ∷ rows) h = elim (Bool-cases (p r)) [
  | inl e ↦ rw e (ap₂ ◌∷◌ (h r) (update-ids p f rows h))
  | inr e ↦ rw e (ap (λ l. r.event_id ∷ l) (update-ids p f rows h))
]

pub select-Distinct :
    (p : OutboxEvent → Bool) (rows : List OutboxEvent)
    → Distinct (ids_of rows)
    → Distinct (ids_of (select p rows))
unfolding select contains
select-Distinct p [] d = tt
select-Distinct p (r ∷ rows) d = elim (Bool-cases (p r)) [
  | inl e ↦
      rw (e, select)
        (
          elim (Bool-cases (contains (ids_of (select p rows)) r.event_id)) [
            | inl c ↦ absurd (clash rows refl d.0 (select-Contained p rows r.event_id c))
            | inr c ↦ c
          ],
          select-Distinct p rows d.1,
        )
  | inr e ↦ rw (e, select) (select-Distinct p rows d.1)
]
