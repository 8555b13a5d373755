-- ===== src/Outbox/Table/Foreign.antt =====
-- The rows that another relay has in processing.
use webitel_emails.Prelude.{
  ℕ, ◌≡◌, inl, inr, refl, String, Bool, true, false, ◌==◌, nat_eq, string_eq, List, [], ◌∷◌, take,
  sort, Distinct, Bool-cases, arith,
}
use webitel_emails.Model.Runtime.{Time}
use webitel_emails.Outbox.Event.{OutboxEvent, processing}
use webitel_emails.Outbox.Table.{
  select, update, event_id_in, recover_leases, claim, mark_published, release, mark_failed,
  delete_published_before, before, is_old, published_before, is_due, claim_before, ids_of, due_ids,
}
use webitel_emails.Outbox.Table.Keys.{InRows, subselect-row}
use webitel_emails.Outbox.Table.Rows.{
  IsTable, Statement, recovers, claims, publishes, releases, gives_up, deletes, execute,
}

-- A row in processing that another relay holds.
pub record IsForeign (owner : String) (row : OutboxEvent) : Type 0 where
  pub in_processing : row.state ≡ processing
  pub other : (row.locked_by == owner) ≡ false

InRows-update :
    (p : OutboxEvent → Bool) (f : OutboxEvent → OutboxEvent) (rows : List OutboxEvent)
    (row : OutboxEvent)
    → p row ≡ false
    → InRows row rows
    → InRows row (update p f rows)
unfolding update
InRows-update p f [] row e i = absurd i
InRows-update p f (r ∷ rows) row e (inl q) = elim (Bool-cases (p r)) [
  | inl t ↦ absurd (cc)
  | inr t ↦ rw t (inl q)
]
InRows-update p f (r ∷ rows) row e (inr i) = inr (InRows-update p f rows row e i)

InRows-select :
    (p : OutboxEvent → Bool) (rows : List OutboxEvent) (row : OutboxEvent)
    → p row ≡ true
    → InRows row rows
    → InRows row (select p rows)
unfolding select
InRows-select p [] row e i = absurd i
InRows-select p (r ∷ rows) row e (inl q) = elim (Bool-cases (p r)) [
  | inl t ↦ rw (t, select) (inl q)
  | inr t ↦ absurd (cc)
]
InRows-select p (r ∷ rows) row e (inr i) = elim (Bool-cases (p r)) [
  | inl t ↦ rw (t, select) (inr (InRows-select p rows row e i))
  | inr t ↦ rw (t, select) (InRows-select p rows row e i)
]

-- A row that does not satisfy the condition of the sub-select has another id.
subselect-other :
    (p : OutboxEvent → Bool) (lt : OutboxEvent → OutboxEvent → Bool) (n : ℕ)
    (rows : List OutboxEvent) (row : OutboxEvent)
    → Distinct (ids_of rows)
    → InRows row rows
    → p row ≡ false
    → event_id_in (ids_of (take n (sort lt (select p rows)))) row ≡ false
subselect-other p lt n rows row d i e =
    elim (Bool-cases (event_id_in (ids_of (take n (sort lt (select p rows)))) row)) [
      | inl t ↦ absurd (let q = subselect-row p lt n rows row d i t in cc)
      | inr t ↦ t
    ]

release-foreign :
    (now : Time) (owner : String) (ids : List ℕ) (at : Time) (rows : List OutboxEvent)
    (row : OutboxEvent)
    → IsForeign owner row
    → InRows row rows
    → InRows row (release now owner ids at rows)
unfolding release
release-foreign now owner [] at rows row h i = i
release-foreign now owner (id ∷ ids) at rows row h i =
    InRows-update _ _ rows row (let o = h.other in ground arith) i

-- On a table, a row that another relay has in processing, with a lease that has not run out, is
-- still there, and is the same, after any statement of this relay.
pub execute-keeps-foreign :
    (truncate : String → String) (now : Time) (owner : String) (s : Statement)
    (rows : List OutboxEvent) (row : OutboxEvent)
    → IsTable rows
    → InRows row rows
    → IsForeign owner row
    → before row.locked_until now ≡ false
    → InRows row (execute truncate now owner s rows)
unfolding recover_leases claim due_ids mark_published mark_failed delete_published_before
execute-keeps-foreign truncate now owner (recovers own) rows row t i h b =
    InRows-update _ _ rows row (let o = h.other in ground arith) i
execute-keeps-foreign truncate now owner (claims limit lease) rows row t i h b =
    InRows-update _ _ rows row
      (subselect-other (is_due now) claim_before limit rows row t.key i
        (let s = h.in_processing in rw s refl))
      i
execute-keeps-foreign truncate now owner (publishes id) rows row t i h b =
    InRows-update _ _ rows row (let o = h.other in ground arith) i
execute-keeps-foreign truncate now owner (releases ids at) rows row t i h b =
    release-foreign now owner ids at rows row h i
execute-keeps-foreign truncate now owner (gives_up id reason) rows row t i h b =
    InRows-update _ _ rows row (let o = h.other in ground arith) i
execute-keeps-foreign truncate now owner (deletes limit_time limit) rows row t i h b =
    InRows-select _ rows row
      (let e =
          subselect-other (is_old limit_time) published_before limit rows row t.key i
            (let s = h.in_processing in rw s refl) in
        rw e refl)
      i
