-- ===== src/Outbox/Table/Rows.antt =====
-- What every statement keeps of a row, and of a row that another relay holds.
use webitel_emails.Prelude.{
  ℕ, ◌≡◌, ◌≢◌, inl, inr, refl, sym, String, Bool, true, nat_eq, string_eq, Option, none, some, List,
  [], ◌∷◌, All, Distinct, subst, Bool-cases, arith,
}
use webitel_emails.Model.Runtime.{Time}
use webitel_emails.Outbox.Event.{
  OutboxEvent, OutboxEventState, pending, processing, published, failed,
}
use webitel_emails.Outbox.Table.{
  select, update, is_processing, recover_leases, claim, mark_published, release, mark_failed,
  delete_published_before, before, is_pending, is_due, claim_before, ids_of, due_ids,
}
use webitel_emails.Outbox.Table.Keys.{InRows, subselect-row, update-ids, select-Distinct}

-- A row names an owner and the end of its lease exactly while it is in processing, and has a
-- publication time exactly if it is published: the constraints outbox_lease_complete and
-- outbox_published_complete. No owner is the empty text.
abbrev pub Consistent : OutboxEventState → String → Option Time → Option Time → Type 0
Consistent pending by until at = (by ≡ "") × (until ≡ none) × (at ≡ none)
Consistent processing by until at = ((by ≢ "") × ((t : Time) × (until ≡ some t))) × (at ≡ none)
Consistent published by until at = (by ≡ "") × (until ≡ none) × ((t : Time) × (at ≡ some t))
Consistent failed by until at = (by ≡ "") × (until ≡ none) × (at ≡ none)

abbrev pub IsValid : OutboxEvent → Type 0
IsValid row = Consistent row.state row.locked_by row.locked_until row.published_at

-- A table: its event ids are a key, and its rows are valid.
pub record IsTable (rows : List OutboxEvent) : Type 0 where
  pub key : Distinct (ids_of rows)
  pub valid : All IsValid rows

-- A statement of one relay.
pub data Statement : Type 0 where
  recovers : Bool → Statement
  claims : ℕ → ℕ → Statement
  publishes : ℕ → Statement
  releases : List ℕ → Time → Statement
  gives_up : ℕ → String → Statement
  deletes : Time → ℕ → Statement

-- The rows after a statement of `owner` at `now`.
abbrev pub execute :
    (String → String) → Time → String → Statement → List OutboxEvent → List OutboxEvent
execute truncate now owner (recovers own) rows = (recover_leases now owner own rows).0
execute truncate now owner (claims limit lease) rows = (claim now owner limit lease rows).0
execute truncate now owner (publishes id) rows = (mark_published now owner id rows).0
execute truncate now owner (releases ids at) rows = release now owner ids at rows
execute truncate now owner (gives_up id reason) rows =
    (mark_failed truncate now owner id reason rows).0
execute truncate now owner (deletes before limit) rows =
    (delete_published_before before limit rows).0

All-update :
    (P : OutboxEvent → Type 0) (p : OutboxEvent → Bool) (f : OutboxEvent → OutboxEvent)
    (all rows : List OutboxEvent)
    → ((row : OutboxEvent) → InRows row all → p row ≡ true → P row → P (f row))
    → ((row : OutboxEvent) → InRows row rows → InRows row all)
    → All P rows
    → All P (update p f rows)
unfolding update
All-update P p f all [] keeps sub h = tt
All-update P p f all (row ∷ rows) keeps sub h = (
  elim (Bool-cases (p row)) [
    | inl e ↦ rw e (keeps row (sub row (inl refl)) e h.0)
    | inr e ↦ rw e h.0
  ],
  All-update P p f all rows keeps (λ r i. sub r (inr i)) h.1,
)

All-select :
    (P : OutboxEvent → Type 0) (p : OutboxEvent → Bool) (rows : List OutboxEvent)
    → All P rows
    → All P (select p rows)
unfolding select
All-select P p [] h = tt
All-select P p (row ∷ rows) h = elim (Bool-cases (p row)) [
  | inl e ↦ rw (e, select) (h.0, All-select P p rows h.1)
  | inr e ↦ rw (e, select) (All-select P p rows h.1)
]

processing-published_at :
    (s : OutboxEventState) (by : String) (until at : Option Time)
    → is_processing s ≡ true
    → Consistent s by until at
    → at ≡ none
processing-published_at pending by until at e h = h.2
processing-published_at processing by until at e h = h.1
processing-published_at published by until at e h = absurd (cc)
processing-published_at failed by until at e h = h.2

pending-published_at :
    (s : OutboxEventState) (by : String) (until at : Option Time)
    → is_pending s ≡ true
    → Consistent s by until at
    → at ≡ none
pending-published_at pending by until at e h = h.2
pending-published_at processing by until at e h = h.1
pending-published_at published by until at e h = absurd (cc)
pending-published_at failed by until at e h = h.2

-- An update of rows in processing to a consistent state keeps a table.
module _ (p : OutboxEvent → Bool) (f : OutboxEvent → OutboxEvent) (rows : List OutboxEvent)
    (same_id : (row : OutboxEvent) → (f row).event_id ≡ row.event_id)
    (keeps : (row : OutboxEvent)
      → InRows row rows
      → p row ≡ true
      → IsValid row
      → IsValid (f row)) where
  update-IsTable : IsTable rows → IsTable (update p f rows)
  update-IsTable t = record {
    key = subst Distinct (sym (update-ids p f rows same_id)) t.key;
    valid = All-update IsValid p f rows rows keeps (λ r i. i) t.valid;
  }

release-IsTable :
    (now : Time) (owner : String) (ids : List ℕ) (at : Time) (rows : List OutboxEvent)
    → IsTable rows
    → IsTable (release now owner ids at rows)
unfolding release
release-IsTable now owner [] at rows t = t
release-IsTable now owner (id ∷ ids) at rows t =
    update-IsTable _ _ rows (λ row. refl)
      (λ row i e v. (refl, refl, processing-published_at row.state _ _ _ (ground arith) v)) t

-- Every statement of a relay that has a name, on a table whose event ids are a key, whose rows
-- have an owner and the end of its lease exactly while they are in processing and a publication
-- time exactly if they are published, leaves such a table.
pub execute-IsTable :
    (truncate : String → String) (now : Time) (owner : String) (s : Statement)
    (rows : List OutboxEvent)
    → owner ≢ ""
    → IsTable rows
    → IsTable (execute truncate now owner s rows)
unfolding recover_leases claim due_ids mark_published mark_failed delete_published_before
execute-IsTable truncate now owner (recovers own) rows named t =
    update-IsTable _ _ rows (λ row. refl)
      (λ row i e v. (refl, refl, processing-published_at row.state _ _ _ (ground arith) v)) t
execute-IsTable truncate now owner (claims limit lease) rows named t =
    update-IsTable _ _ rows (λ row. refl)
      (λ row i e v.
        let due = subselect-row (is_due now) claim_before limit rows row t.key i e in
        ((named, (_, refl)), pending-published_at row.state _ _ _ (ground arith) v))
      t
execute-IsTable truncate now owner (publishes id) rows named t =
    update-IsTable _ _ rows (λ row. refl) (λ row i e v. (refl, refl, (now, refl))) t
execute-IsTable truncate now owner (releases ids at) rows named t =
    release-IsTable now owner ids at rows t
execute-IsTable truncate now owner (gives_up id reason) rows named t =
    update-IsTable _ _ rows (λ row. refl)
      (λ row i e v. (refl, refl, processing-published_at row.state _ _ _ (ground arith) v)) t
execute-IsTable truncate now owner (deletes limit_time limit) rows named t = record {
  key = select-Distinct _ rows t.key;
  valid = All-select IsValid _ rows t.valid;
}
