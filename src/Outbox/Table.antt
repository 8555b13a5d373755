-- ===== src/Outbox/Table.antt =====
-- internal/store/postgres/outbox_store.go: the statements on email.outbox as functions on the list
-- of its rows, whose primary key is the event id. NULL is `none` or the empty text. `now` is the
-- time of the statement; a duration is in nanoseconds.
pub mod Keys
pub mod Rows
pub mod Foreign
pub mod Held
pub mod Leasing
use webitel_emails.Prelude.{
  ℕ, ◌+◌, ◌*◌, ◌/◌, suc, String, Bool, true, false, ◌&&◌, ◌||◌, not, ◌==◌, nat_eq, string_eq, ltb,
  leb, if◌then◌else◌, Option, none, some, List, [], ◌∷◌, ◌++◌, map, length, take, sort, contains,
  bytes_eq, empty_text,
}
use webitel_emails.Model.Runtime.{Time}
use webitel_emails.Outbox.Event.{
  OutboxEvent, OutboxEventState, pending, processing, published, failed, validate,
}

abbrev pub is_pending : OutboxEventState → Bool
is_pending pending = true
is_pending _ = false

abbrev pub is_processing : OutboxEventState → Bool
is_processing processing = true
is_processing _ = false

abbrev pub is_published : OutboxEventState → Bool
is_published published = true
is_published _ = false

-- A comparison with NULL is not true.
abbrev pub before : Option Time → Time → Bool
before none t = false
before (some s) t = ltb s t

-- WHERE
unfoldable pub select : (OutboxEvent → Bool) → List OutboxEvent → List OutboxEvent
select p [] = []
select p (row ∷ rows) = if p row then row ∷ select p rows else select p rows

-- UPDATE … SET … WHERE
unfoldable pub update :
    (OutboxEvent → Bool) → (OutboxEvent → OutboxEvent) → List OutboxEvent → List OutboxEvent
update p f [] = []
update p f (row ∷ rows) = (if p row then f row else row) ∷ update p f rows

-- locked_by = $1 of a row in processing
abbrev pub is_held : String → OutboxEvent → Bool
is_held owner row = is_processing row.state && (row.locked_by == owner)

abbrev pub is_expired : Time → OutboxEvent → Bool
is_expired now row = is_processing row.state && before row.locked_until now

-- state = 'pending', locked_by = NULL, locked_until = NULL, updated_at = now()
abbrev pub freed : Time → OutboxEvent → OutboxEvent
freed now row = record row {
  state = pending;
  locked_by = "";
  locked_until = none;
  updated_at = now;
}

abbrev pub is_recovered : Time → String → Bool → OutboxEvent → Bool
is_recovered now owner own row =
    is_processing row.state && (before row.locked_until now || (own && (row.locked_by == owner)))

-- RecoverLeases: the rows, and the number of those that changed.
unfoldable pub recover_leases : Time → String → Bool → List OutboxEvent → List OutboxEvent × ℕ
recover_leases now owner own rows = (
  update (is_recovered now owner own) (freed now) rows,
  length (select (is_recovered now owner own) rows),
)

-- ORDER BY next_attempt_at, created_at, event_id
abbrev pub claim_before : OutboxEvent → OutboxEvent → Bool
claim_before a b =
    if a.next_attempt_at == b.next_attempt_at
    then if a.created_at == b.created_at
      then ltb a.event_id b.event_id
      else ltb a.created_at b.created_at
    else ltb a.next_attempt_at b.next_attempt_at

abbrev pub is_due : Time → OutboxEvent → Bool
is_due now row = is_pending row.state && leb row.next_attempt_at now

abbrev pub leased : Time → String → ℕ → OutboxEvent → OutboxEvent
leased now owner lease row = record row {
  state = processing;
  locked_by = owner;
  locked_until = some (now + (lease / 1000000) * 1000000);
  updated_at = now;
}

abbrev pub event_id_in : List ℕ → OutboxEvent → Bool
event_id_in ids row = contains ids row.event_id

-- The columns that are returned.
abbrev pub returned : OutboxEvent → OutboxEvent
returned row = record row { published_at = none; last_error = "" }

abbrev pub ids_of : List OutboxEvent → List ℕ
ids_of = map λ row. row.event_id

-- WITH due AS (…), for a claim that no other one runs beside
unfoldable pub due_ids : Time → ℕ → List OutboxEvent → List ℕ
due_ids now limit rows = ids_of (take limit (sort claim_before (select (is_due now) rows)))

-- Claim: the rows, and the claimed ones in the order of the claim.
unfoldable pub claim :
    Time → String → ℕ → ℕ → List OutboxEvent → List OutboxEvent × List OutboxEvent
claim now owner limit lease rows =
    let ids = due_ids now limit rows in
    let after = update (event_id_in ids) (leased now owner lease) rows in
    (after, sort claim_before (map returned (select (event_id_in ids) after)))

-- WHERE event_id = $1 AND state = 'processing' AND locked_by = $2
abbrev pub is_row_held : String → ℕ → OutboxEvent → Bool
is_row_held owner id row = (row.event_id == id) && is_held owner row

abbrev pub as_published : Time → OutboxEvent → OutboxEvent
as_published now row = record row {
  state = published;
  published_at = some now;
  locked_by = "";
  locked_until = none;
  last_error = "";
  updated_at = now;
}

-- MarkPublished: the rows, and whether the owner still held the row.
unfoldable pub mark_published : Time → String → ℕ → List OutboxEvent → List OutboxEvent × Bool
mark_published now owner id rows = (
  update (is_row_held owner id) (as_published now) rows,
  length (select (is_row_held owner id) rows) == 1,
)

-- WHERE event_id = ANY($2) AND state = 'processing' AND locked_by = $1
abbrev pub are_held : String → List ℕ → OutboxEvent → Bool
are_held owner ids row = event_id_in ids row && is_held owner row

-- Release
unfoldable pub release : Time → String → List ℕ → Time → List OutboxEvent → List OutboxEvent
release now owner [] at rows = rows
release now owner (id ∷ ids) at rows =
    update (are_held owner (id ∷ ids)) (λ row. record (freed now row) { next_attempt_at = at }) rows

-- `truncate` is left($3, 1024).
abbrev pub as_failed : (String → String) → Time → String → OutboxEvent → OutboxEvent
as_failed truncate now reason row = record row {
  state = failed;
  attempts = row.attempts + 1;
  last_error = truncate reason;
  locked_by = "";
  locked_until = none;
  updated_at = now;
}

-- MarkFailed: the rows, and whether the owner still held the row.
unfoldable pub mark_failed :
    (String → String) → Time → String → ℕ → String → List OutboxEvent → List OutboxEvent × Bool
mark_failed truncate now owner id reason rows = (
  update (is_row_held owner id) (as_failed truncate now reason) rows,
  length (select (is_row_held owner id) rows) == 1,
)

abbrev pub published_before : OutboxEvent → OutboxEvent → Bool
published_before a b = elim b.published_at [ none ↦ false | some t ↦ before a.published_at t ]

abbrev pub is_old : Time → OutboxEvent → Bool
is_old t row = is_published row.state && before row.published_at t

-- DeletePublishedBefore: the rows that stay, and the number of the others.
unfoldable pub delete_published_before : Time → ℕ → List OutboxEvent → List OutboxEvent × ℕ
delete_published_before limit_time limit rows =
    let ids = ids_of (take limit (sort published_before (select (is_old limit_time) rows))) in
    (select (λ row. not (event_id_in ids row)) rows, length (select (event_id_in ids) rows))

-- A row of the same business event: the conflict target of Append.
abbrev pub is_duplicate : OutboxEvent → OutboxEvent → Bool
is_duplicate event row =
    not (empty_text event.dedup_key)
    && (row.event_type == event.event_type)
    && (row.dedup_key == event.dedup_key)

-- The row that INSERT stores, with the defaults of its columns.
abbrev pub inserted : Time → OutboxEvent → OutboxEvent
inserted now event = record event {
  state = pending;
  attempts = 0;
  next_attempt_at = now;
  locked_by = "";
  locked_until = none;
  published_at = none;
  last_error = "";
  created_at = now;
  updated_at = now;
}

-- What Append refuses without asking the table, and a conflict that is not a duplicate.
pub data AppendError : Type 0 where
  needs_transaction unique_violation : AppendError
  invalid : String → AppendError

pub data Appended : Type 0 where
  stored : List OutboxEvent → Appended
  skipped : Appended
  refused : AppendError → Appended

-- Append: `in_transaction` says whether the querier is a pgx.Tx. The constraints of the table on
-- a single row hold for an event that Validate passes and whose payload is JSON.
unfoldable pub append : Bool → Time → OutboxEvent → List OutboxEvent → Appended
append in_transaction now event rows =
    if in_transaction
    then elim (validate event) [
      | some reason ↦ refused (invalid reason)
      | none ↦
          if length (select (is_duplicate event) rows) == 0
          then if contains (ids_of rows) event.event_id
            then refused unique_violation
            else stored (rows ++ inserted now event ∷ [])
          else skipped
    ]
    else refused needs_transaction
