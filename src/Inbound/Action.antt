-- ===== src/Inbound/Action.antt =====
-- Calls of the inbound handlers: what they ask of the database and of the other services, errors,
-- and WithinTransaction of internal/store/postgres/uow.go. Every call takes the next number; what
-- the outside answers depends on that number, so each call may fail, or answer, on its own.
pub mod Triples
use webitel_emails.Prelude.{
  ℕ, suc, Bool, true, false, if◌then◌else◌, Option, none, some, List, [], ◌∷◌, Bytes, String,
}
use webitel_emails.Model.Runtime.{Time, EmailProfileAssignment}
use webitel_emails.Event.Envelope.{EventError}
use webitel_emails.Outbox.Table.{AppendError}
use webitel_emails.Inbound.Store.{Tables}

-- infra/storage: the request of an upload, and what it gives.
pub record UploadRequest : Type 0 where
  pub domain_id : ℕ
  pub name : Bytes
  pub mime_type : Bytes
  pub reference_id : Bytes
  pub content : Bytes

-- A file id, an error that is ErrFileRejected, any other error.
pub data Uploaded (E : Type 0) : Type 0 where
  uploaded : ℕ → Uploaded E
  rejected : E → Uploaded E
  not_uploaded : E → Uploaded E

-- infra/contacts: the outcome of a search, or its error.
pub data Resolution (E : Type 0) : Type 0 where
  one_contact : ℕ → Resolution E
  several_contacts no_contact : Resolution E
  unreachable : E → Resolution E

-- What is outside: a database statement may fail; `holds` is whether the row of the runtime table
-- has the assignment; the rest are the clock, the ids, the routing of a profile, ctx.Err() and the
-- services. All by the number of the call.
pub record Services (E : Type 0) : Type 0 where
  pub fault : ℕ → Option E
  pub holds : ℕ → EmailProfileAssignment → Bool
  pub flow_id : ℕ → ℕ → ℕ → Option ℕ
  pub now : ℕ → Time
  pub new_id : ℕ → Option ℕ
  pub canceled : ℕ → Bool
  pub upload : ℕ → UploadRequest → Uploaded E
  pub resolve : ℕ → ℕ → Bytes → Resolution E

pub data Error (E : Type 0) : Type 0 where
  database upload_error contacts_error : E → Error E
  stale_assignment message_exists no_rows incomplete not_ready no_event_id : Error E
  event_error : EventError → Error E
  append_error : AppendError → Error E

pub data Result (E : Type 0) (A : Type 0) : Type 0 where
  ok : A → Result E A
  err : Error E → Result E A

pub record World : Type 0 where
  pub tables : Tables
  pub calls : ℕ

abbrev pub Action : Type 0 → Type 0 → Type 0
Action E A = World → Result E A × World

-- A statement whose effect may be refused by the rows that it finds.
unfoldable pub or_none : {A : Type 0} → Option (A × Tables) → Tables → Option A × Tables
or_none none t = (none, t)
or_none (some (a, t')) t = (some a, t')

module _ {E : Type 0} where
  unfoldable pub pure : {A : Type 0} → A → Action E A
  pure a w = (ok a, w)

  unfoldable pub raise : {A : Type 0} → Error E → Action E A
  raise e w = (err e, w)

  infixl 5 ◌>>=◌
  unfoldable pub ◌>>=◌ : {A B : Type 0} → Action E A → (A → Action E B) → Action E B
  ◌>>=◌ m f w = let (r, w') = m w in elim r [ ok a ↦ f a w' | err e ↦ (err e, w') ]

  unfoldable pub or_raise : {A : Type 0} → Option A → Error E → Action E A
  unfolding pure raise
  or_raise none e = raise e
  or_raise (some a) e = pure a

  module _ (svc : Services E) where
    unfoldable pub answered : {A : Type 0} → (ℕ → A) → Action E A
    answered f w = (ok (f w.calls), record w { calls = suc w.calls })

    -- A statement on a table that is not modelled.
    unfoldable pub queried : {A : Type 0} → (ℕ → A) → Action E A
    queried f w = (
      elim (svc.fault w.calls) [ some e ↦ err (database e) | none ↦ ok (f w.calls) ],
      record w { calls = suc w.calls },
    )

    -- One statement, at the time of its call.
    unfoldable pub statement : {A : Type 0} → (Time → Tables → A × Tables) → Action E A
    statement f w = elim (svc.fault w.calls) [
      | some e ↦ (err (database e), record w { calls = suc w.calls })
      | none ↦
          let (a, t) = f (svc.now w.calls) w.tables in
          (ok a, record { tables = t; calls = suc w.calls })
    ]

    -- CreateBulk: one statement, and none for an empty list.
    unfoldable pub create_bulk :
        {A : Type 0} → (List A → Time → Tables → Tables) → List A → Action E Unit
    unfolding pure statement
    create_bulk create [] = pure tt
    create_bulk create (x ∷ xs) = statement (λ now t. (tt, create (x ∷ xs) now t))

    -- A SELECT.
    unfoldable pub ask : {A : Type 0} → (Tables → A) → Action E A
    unfolding statement
    ask f = statement (λ _ t. (f t, t))

    unfoldable pub lock_email_profile : ℕ → Action E Unit
    unfolding ask statement
    lock_email_profile profile_id = ask (λ _. tt)

    unfoldable pub ensure_email_profile_assignment : EmailProfileAssignment → Action E Unit
    ensure_email_profile_assignment assignment w = elim (svc.fault w.calls) [
      | some e ↦ (err (database e), record w { calls = suc w.calls })
      | none ↦ (
        if svc.holds w.calls assignment then ok tt else err stale_assignment,
        record w { calls = suc w.calls },
      )
    ]

    -- WithinTransaction outside of a transaction: BEGIN, the function, and COMMIT or ROLLBACK. The
    -- tables come back when the function fails, and when COMMIT does.
    unfoldable pub within_transaction : {A : Type 0} → Action E A → Action E A
    within_transaction body w = elim (svc.fault w.calls) [
      | some e ↦ (err (database e), record w { calls = suc w.calls })
      | none ↦
          let (r, w') = body (record w { calls = suc w.calls }) in
          elim r [
            | err e ↦ (err e, record { tables = w.tables; calls = suc w'.calls })
            | ok a ↦ elim (svc.fault w'.calls) [
              | some e ↦ (err (database e), record { tables = w.tables; calls = suc w'.calls })
              | none ↦ (ok a, record w' { calls = suc w'.calls })
            ]
          ]
    ]
