-- ===== src/Outbox/Table/Held.antt =====
-- The rows that an owner holds, and what the statements of Table do to them.
use webitel_emails.Prelude.{
  ℕ, ◌≡◌, ◌∙◌, ◌⊎◌, inl, inr, refl, sym, ap, subst, String, Bool, true, false, nat_eq, string_eq,
  List, [], ◌∷◌, map, sort, insert, contains, In, Bool-cases, arith,
}
use webitel_emails.Model.Runtime.{Time}
use webitel_emails.Outbox.Event.{OutboxEvent}
use webitel_emails.Outbox.Relay.{event_ids}
use webitel_emails.Outbox.Table.{
  select, update, is_held, is_processing, freed, leased, event_id_in, is_row_held, are_held, claim,
  release, due_ids, claim_before, returned, ids_of,
}
use webitel_emails.Outbox.Table.Keys.{InRows}

-- The row `j` is in processing and locked by the owner.
pub record Held (owner : String) (rows : List OutboxEvent) (j : ℕ) : Type 0 where
  pub row : OutboxEvent
  pub inside : InRows row rows
  pub held : is_held owner row ≡ true
  pub id : row.event_id ≡ j

-- Where a row of an updated table comes from.
pub update-from :
    (p : OutboxEvent → Bool) (f : OutboxEvent → OutboxEvent) (rows : List OutboxEvent)
    (x : OutboxEvent)
    → InRows x (update p f rows)
    → (r : OutboxEvent) × InRows r rows × (((p r ≡ true) × (x ≡ f r)) ⊎ ((p r ≡ false) × (x ≡ r)))
unfolding update
update-from p f [] x i = absurd i
update-from p f (r ∷ rows) x (inl e) = elim (Bool-cases (p r)) [
  | inl t ↦ (r, inl refl, inl (t, e ∙ rw t refl))
  | inr t ↦ (r, inl refl, inr (t, e ∙ rw t refl))
]
update-from p f (r ∷ rows) x (inr i) = let (r', i', h) = update-from p f rows x i in (r', inr i', h)

-- An update that takes rows out of processing leaves the owner only rows that it had.
pub freeing-Held :
    (owner : String) (p : OutboxEvent → Bool) (f : OutboxEvent → OutboxEvent)
    (rows : List OutboxEvent) (j : ℕ)
    → ((row : OutboxEvent) → is_processing (f row).state ≡ false)
    → Held owner (update p f rows) j
    → (h : Held owner rows j) × (p h.row ≡ false)
freeing-Held owner p f rows j frees h =
    let (r, i, c) = update-from p f rows h.row h.inside in
    elim c [
      | inl (t, e) ↦ absurd (
          let q = frees r in
          let g : is_held owner (f r) ≡ true = ap (is_held owner) (sym e) ∙ h.held in ground arith)
      | inr (t, e) ↦ (
        record {
          row = r;
          inside = i;
          held = ap (is_held owner) (sym e) ∙ h.held;
          id = ap (λ x. x.event_id) (sym e) ∙ h.id;
        },
        t,
      )
    ]

In-map-insert :
    (lt : OutboxEvent → OutboxEvent → Bool) (row : OutboxEvent) (rows : List OutboxEvent) (j : ℕ)
    → In j (ids_of (row ∷ rows))
    → In j (ids_of (insert lt row rows))
unfolding insert
In-map-insert lt row [] j h = h
In-map-insert lt row (r ∷ rows) j h = elim (Bool-cases (lt r row)) [
  | inl t ↦
      rw (t, insert)
        (elim h [
          | inl e ↦ inr (In-map-insert lt row rows j (inl e))
          | inr (inl e) ↦ inl e
          | inr (inr i) ↦ inr (In-map-insert lt row rows j (inr i))
        ])
  | inr t ↦ rw (t, insert) h
]

In-sort :
    (lt : OutboxEvent → OutboxEvent → Bool) (rows : List OutboxEvent) (j : ℕ)
    → In j (ids_of rows)
    → In j (ids_of (sort lt rows))
unfolding sort
In-sort lt [] j h = h
In-sort lt (r ∷ rows) j (inl e) = In-map-insert lt r (sort lt rows) j (inl e)
In-sort lt (r ∷ rows) j (inr i) = In-map-insert lt r (sort lt rows) j (inr (In-sort lt rows j i))

In-selected :
    (p : OutboxEvent → Bool) (rows : List OutboxEvent) (row : OutboxEvent)
    → InRows row rows
    → p row ≡ true
    → In row.event_id (ids_of (map returned (select p rows)))
unfolding select
In-selected p [] row i e = absurd i
In-selected p (r ∷ rows) row (inl q) e = elim (Bool-cases (p r)) [
  | inl t ↦ rw (t, select) (inl (ap (λ x. x.event_id) q))
  | inr t ↦ absurd (cc)
]
In-selected p (r ∷ rows) row (inr i) e = elim (Bool-cases (p r)) [
  | inl t ↦ rw (t, select) (inr (In-selected p rows row i e))
  | inr t ↦ rw (t, select) (In-selected p rows row i e)
]

-- The owner holds what it held and what the claim returned.
pub claim-Held :
    (now : Time) (owner : String) (limit lease : ℕ) (rows : List OutboxEvent) (j : ℕ)
    → let r = claim now owner limit lease rows in
      Held owner r.0 j → Held owner rows j ⊎ In j (event_ids r.1)
unfolding claim
claim-Held now owner limit lease rows j h =
    let ids = due_ids now limit rows in
    let f = leased now owner lease in
    let (r, i, c) = update-from (event_id_in ids) f rows h.row h.inside in
    elim c [
      | inl (t, e) ↦ inr (
          subst (λ k. In k (event_ids (claim now owner limit lease rows).1)) h.id
            (In-sort claim_before _ h.row.event_id (
              In-selected (event_id_in ids) _ h.row h.inside
                (ap (λ x. contains ids x.event_id) e ∙ t))))
      | inr (t, e) ↦ inl (record {
        row = r;
        inside = i;
        held = ap (is_held owner) (sym e) ∙ h.held;
        id = ap (λ x. x.event_id) (sym e) ∙ h.id;
      })
    ]

In-contains : (j : ℕ) (ids : List ℕ) → In j ids → contains ids j ≡ true
unfolding contains
In-contains j [] h = absurd h
In-contains j (i ∷ ids) (inl e) = ground arith
In-contains j (i ∷ ids) (inr h) = let k = In-contains j ids h in ground arith

pub other-row :
    (owner : String) (id j : ℕ) (row : OutboxEvent)
    → is_row_held owner id row ≡ false
    → is_held owner row ≡ true
    → row.event_id ≡ j
    → ¬ (j ≡ id)
other-row owner id j row p h e q = ground arith

other-rows :
    (owner : String) (ids : List ℕ) (j : ℕ) (row : OutboxEvent)
    → are_held owner ids row ≡ false
    → is_held owner row ≡ true
    → row.event_id ≡ j
    → ¬ In j ids
other-rows owner ids j row p h e q =
    let c = ap (contains ids) e ∙ In-contains j ids q in ground arith

pub release-Held :
    (now : Time) (owner : String) (ids : List ℕ) (at : Time) (rows : List OutboxEvent) (j : ℕ)
    → Held owner (release now owner ids at rows) j
    → Held owner rows j × ¬ In j ids
unfolding release
release-Held now owner [] at rows j h = (h, λ i. i)
release-Held now owner (id ∷ ids) at rows j h =
    let (h', p) =
      freeing-Held owner (are_held owner (id ∷ ids))
        (λ row. record (freed now row) { next_attempt_at = at }) rows j (λ row. refl) h in
    (h', other-rows owner (id ∷ ids) j h'.row p h'.held h'.id)
