-- ===== src/Inbound/Finished/Completed.antt =====
-- Complete succeeds only when the message that it was given is finished.
use webitel_emails.Prelude.{
  ℕ, ◌≡◌, refl, subst, sym, Bool, true, false, Bool-cases, ◌⊎◌, inl, inr, if◌then◌else◌, Option,
  none, some, List, [], ◌∷◌, Bytes, ltb, empty_text,
}
use webitel_emails.Model.Runtime.{Time}
use webitel_emails.Model.Email.{
  ParsedEmail, InboundFailure, EmailMessage, EmailMessageState, EmailMessageAttachment, EmailThread,
}
use webitel_emails.Event.Snapshot.{Limits}
use webitel_emails.Event.Envelope.{eligible, Result as Made, ok as made, error as not_made}
use webitel_emails.Outbox.Event.{OutboxEvent}
use webitel_emails.Outbox.Table.{append, Appended, stored, skipped, refused}
use webitel_emails.Inbound.Store.{
  Tables, any, first, is_message, is_pending, is_processing, get_message, mark_ready,
  increment_attachment_attempts,
}
use webitel_emails.Inbound.Store.Threads.{resolve_contact, advance_last_message}
use webitel_emails.Inbound.Store.Parts.{mark_stored, record_failure, same_position}
use webitel_emails.Inbound.Action.{
  Services, Action, or_none, pure, raise, Uploaded, uploaded, rejected, not_uploaded, Resolution,
  one_contact, several_contacts, no_contact, unreachable, append_error, event_error, no_event_id,
  no_rows, not_ready, upload_error, contacts_error, incomplete,
}
use webitel_emails.Inbound.Action.Triples.{
  Ensures, Keeps, Keeps-bind, ensures_bind, ensures_pure, ensures_raise, ensures_if,
  ensures_answered, ensures_queried, ensures_statement, ensures_ask, ensures_transaction,
  ensures_assignment, ensures_or_raise,
}
use webitel_emails.Inbound.Completion.{
  StoredMessage, ContactResolution, is_ready, needs_contact_resolution, appended_tables,
  after_append, append_event, append_made, append_row, write_ready, write_event, quarantine, fail,
  mark_part_stored, store_resolution, after_ready, complete_ready, answer_resolution,
  search_contact, find_resolution, spend_attempt, upload_failed, after_upload, upload_content,
  upload_parts, complete, part_content, attachment_failure,
}
use webitel_emails.Inbound.Finished.{
  matches, Found, FinishedAs, mark_failed-finished, mark_ready-some, mark_ready-finished,
  increment-Found,
}

other : {D : Type 0} → (false ≡ true) ⊎ D → D
other (inl e) = absurd (cc)
other (inr d) = d

module _ {E : Type 0} (svc : Services E) (uuid_text : ℕ → Bytes) (limits : Limits) where
  -- Write leaves the messages alone.
  module _ (P : List EmailMessage → Type 0) where
    abbrev pub OfMessages : Tables → Type 0
    OfMessages t = P t.messages

    append_messages :
        (result : Appended) (t : Tables)
        → OfMessages t
        → OfMessages (appended_tables svc uuid_text limits result t)
    unfolding appended_tables
    append_messages (stored rows) t p = p
    append_messages skipped t p = p
    append_messages (refused e) t p = p

    after_append-messages :
        (result : Appended) → Keeps OfMessages (after_append svc uuid_text limits result)
    unfolding after_append
    after_append-messages (stored rows) = ensures_pure tt (λ t p. p)
    after_append-messages skipped = ensures_pure tt (λ t p. p)
    after_append-messages (refused e) = ensures_raise (append_error e)

    append_made-messages :
        (row : Made OutboxEvent) → Keeps OfMessages (append_made svc uuid_text limits row)
    unfolding append_made append_event
    append_made-messages (made row) =
        Keeps-bind OfMessages
          (ensures_statement svc _ (λ now t p. append_messages (append true now row t.outbox) t p))
          after_append-messages
    append_made-messages (not_made e) = ensures_raise (event_error e)

    write_ready-messages :
        (domain_id : ℕ) (message : EmailMessage) (thread : EmailThread)
        → Keeps OfMessages (write_ready svc uuid_text limits domain_id message thread)
    unfolding write_ready append_row
    write_ready-messages domain_id message thread =
        Keeps-bind OfMessages (ensures_ask svc _ (λ t p. p)) λ recipients.
          Keeps-bind OfMessages (ensures_ask svc _ (λ t p. p)) λ parts.
            Keeps-bind OfMessages (ensures_queried svc _ (λ a t p. p)) λ flow_id.
              Keeps-bind OfMessages (ensures_answered svc _ (λ a t p. p)) λ new_id.
                Keeps-bind OfMessages (ensures_or_raise no_event_id new_id (λ a h t p. p))
                  λ event_id.
                    Keeps-bind OfMessages (ensures_answered svc _ (λ a t p. p))
                      λ now. append_made-messages _

    pub write_event-messages :
        (domain_id message_id : ℕ)
        → Keeps OfMessages (write_event svc uuid_text limits domain_id message_id)
    unfolding write_event
    write_event-messages domain_id message_id =
        Keeps-bind OfMessages (ensures_ask svc _ (λ t p. p)) λ found.
          Keeps-bind OfMessages (ensures_or_raise no_rows found (λ a h t p. p)) λ message.
            Keeps-bind OfMessages (ensures_ask svc _ (λ t p. p)) λ found_thread.
              Keeps-bind OfMessages (ensures_or_raise no_rows found_thread (λ a h t p. p)) λ thread.
                ensures_if (eligible (some message) (some thread))
                  (λ _.
                    ensures_if (is_ready message.state)
                      (λ _. write_ready-messages domain_id message thread)
                      (λ _. ensures_raise not_ready))
                  (λ _. ensures_pure tt (λ t p. p))

  -- The email that Complete works on.
  module _ (parsed : ParsedEmail) (message : StoredMessage) where
    abbrev pub Begun : Tables → Type 0
    Begun = Found parsed message.id

    abbrev pub Done : Tables → Type 0
    Done = FinishedAs parsed message.id

    record_failure-same :
        (f : InboundFailure) (now : Time) (t : Tables)
        → (record_failure now f t).messages ≡ t.messages
    unfolding record_failure
    record_failure-same f now t = elim (Bool-cases (any (same_position f) t.failures)) [
      | inl e ↦ rw (e, record_failure) refl
      | inr e ↦ rw (e, record_failure) refl
    ]

    record_failure-messages :
        (reason : Bytes) (now : Time) (t : Tables)
        → Done t
        → Done (record_failure now (attachment_failure parsed reason) t)
    unfolding get_message
    record_failure-messages reason now t h =
        subst
          (λ ms.
            (m : EmailMessage) × (first (is_message parsed.domain_id message.id) ms ≡ some m)
            × (matches parsed m ≡ true)
            × (is_processing m.state ≡ false))
          (sym (record_failure-same (attachment_failure parsed reason) now t)) h

    quarantine-Done :
        (reason : Bytes)
        → Ensures Begun (quarantine svc uuid_text limits parsed message reason) (λ _. Done)
    unfolding quarantine
    quarantine-Done reason =
        ensures_bind (λ _. Done)
          (ensures_statement svc _ (λ now t p. mark_failed-finished parsed message.id now t p))
          λ failed.
            ensures_if failed
              (λ _. ensures_statement svc _ (λ now t p. record_failure-messages reason now t p))
              (λ _. ensures_pure tt (λ t p. p))

    fail-Done :
        (reason : Bytes)
        → Ensures Begun (fail svc uuid_text limits parsed message reason) (λ _. Done)
    unfolding fail
    fail-Done reason = ensures_transaction svc (
        ensures_bind (λ _. Begun) (ensures_assignment svc parsed.assignment (λ t p. p))
          (λ _. quarantine-Done reason))

    mark_part_stored-Begun :
        (position file_id : ℕ)
        → Keeps Begun (mark_part_stored svc uuid_text limits parsed message position file_id)
    unfolding mark_part_stored mark_stored get_message
    mark_part_stored-Begun position file_id = ensures_transaction svc (
        Keeps-bind Begun (ensures_assignment svc parsed.assignment (λ t p. p)) λ _.
          Keeps-bind Begun (ensures_statement svc _ (λ now t p. p)) λ _. ensures_pure tt (λ t p. p))

    store_resolution-Begun :
        (r : Option ContactResolution)
        → Keeps Begun (store_resolution svc uuid_text limits parsed message r)
    unfolding store_resolution resolve_contact get_message
    store_resolution-Begun none = ensures_pure tt (λ t p. p)
    store_resolution-Begun (some r) =
        Keeps-bind Begun (ensures_statement svc _ (λ now t p. p)) (λ _. ensures_pure tt (λ t p. p))

    -- What MarkReady says of the row decides.
    abbrev ReadBack : Option EmailMessageState → Tables → Type 0
    ReadBack none t = ⊥
    ReadBack (some state) t = (is_processing state ≡ true) ⊎ Done t

    mark_ready-read :
        (now : Time) (t : Tables)
        → Begun t
        → ReadBack
            (mark_ready now parsed.domain_id message.id t).0
            (mark_ready now parsed.domain_id message.id t).1
    mark_ready-read now t h =
        let (state, is_state) = mark_ready-some parsed message.id now t h in
        let t' = (mark_ready now parsed.domain_id message.id t).1 in
        elim (Bool-cases (is_processing state)) [
          | inl e ↦ subst (λ o. ReadBack o t') (sym is_state) (inl e)
          | inr e ↦
              subst (λ o. ReadBack o t') (sym is_state)
                (inr (mark_ready-finished parsed message.id now t state e is_state h))
        ]

    after_ready-Done :
        (state : Option EmailMessageState)
        → Ensures
            (ReadBack state)
            (after_ready svc uuid_text limits parsed message state)
            (λ _. Done)
    unfolding after_ready advance_last_message get_message
    after_ready-Done none = ensures_pure tt (λ t p. absurd p)
    after_ready-Done (some EmailMessageState.processing) = ensures_raise incomplete
    after_ready-Done (some EmailMessageState.failed) = ensures_pure tt (λ t p. other p)
    after_ready-Done (some EmailMessageState.ready) =
        ensures_bind (λ _. Done) (ensures_statement svc _ (λ now t p. other p))
          (λ _.
            write_event-messages
              (λ ms.
                (m : EmailMessage) × (first (is_message parsed.domain_id message.id) ms ≡ some m)
                × (matches parsed m ≡ true)
                × (is_processing m.state ≡ false))
              parsed.domain_id message.id)

    complete_ready-Done :
        (r : Option ContactResolution)
        → Ensures Begun (complete_ready svc uuid_text limits parsed message r) (λ _. Done)
    unfolding complete_ready
    complete_ready-Done r = ensures_transaction svc (
        ensures_bind (λ _. Begun) (ensures_assignment svc parsed.assignment (λ t p. p))
          λ _.
            ensures_bind (λ _. Begun) (store_resolution-Begun r)
              λ _. ensures_bind ReadBack (ensures_statement svc _ mark_ready-read) after_ready-Done)

    answer_resolution-Begun :
        (r : Resolution E) → Keeps Begun (answer_resolution svc uuid_text limits r)
    unfolding answer_resolution
    answer_resolution-Begun (unreachable e) =
        Keeps-bind Begun (ensures_answered svc _ (λ a t p. p)) λ canceled.
          ensures_if canceled (λ _. ensures_raise (contacts_error e))
            (λ _. ensures_pure _ (λ t p. p))
    answer_resolution-Begun (one_contact id) = ensures_pure _ (λ t p. p)
    answer_resolution-Begun several_contacts = ensures_pure _ (λ t p. p)
    answer_resolution-Begun no_contact = ensures_pure _ (λ t p. p)

    find_resolution-Begun : Keeps Begun (find_resolution svc uuid_text limits parsed message)
    unfolding find_resolution search_contact
    find_resolution-Begun =
        ensures_if (needs_contact_resolution message)
          (λ _. Keeps-bind Begun (ensures_ask svc _ (λ t p. p)) λ address.
            ensures_if (empty_text address) (λ _. ensures_pure _ (λ t p. p))
              (λ _. Keeps-bind Begun (ensures_answered svc _ (λ a t p. p)) answer_resolution-Begun))
          (λ _. ensures_pure none (λ t p. p))

    or_none-Begun :
        (o : Option (ℕ × Tables)) (t : Tables)
        → Begun t
        → ((attempts : ℕ) (t' : Tables) → o ≡ some (attempts, t') → Begun t → Begun t')
        → Begun (or_none o t).1
    unfolding or_none
    or_none-Begun none t h step = h
    or_none-Begun (some (attempts, t')) t h step = step attempts t' refl h

    module _ (max_attempts : ℕ) where
      -- When the attempts are used up, the message is finished.
      abbrev Spent : Bool → Tables → Type 0
      Spent true = Done
      Spent false = Begun

      -- The answer of the statement, the tables being what it says.
      counted_statement :
          (now : Time) (t : Tables)
          → Begun t
          → Begun (or_none (increment_attachment_attempts now parsed.domain_id message.id t) t).1
      counted_statement now t h =
          or_none-Begun (increment_attachment_attempts now parsed.domain_id message.id t) t h
            (increment-Found parsed message.id now t)

      after-Spent :
          (e : E) (exhausted : Bool)
          → Ensures
              (Spent exhausted)
              (if exhausted then pure tt else raise (upload_error e))
              (λ _. Done)
      after-Spent e true = ensures_pure tt (λ t p. p)
      after-Spent e false = ensures_raise (upload_error e)

      spend_attempt-done :
          Ensures Begun (spend_attempt svc uuid_text limits max_attempts parsed message) Spent
      unfolding spend_attempt
      spend_attempt-done = ensures_transaction svc (
          ensures_bind (λ _. Begun) (ensures_assignment svc parsed.assignment (λ t p. p))
            λ _.
              ensures_bind (λ _. Begun) (ensures_statement svc _ counted_statement)
                λ counted.
                  ensures_bind (λ _. Begun) (ensures_or_raise no_rows counted (λ a h t p. p))
                    λ attempts.
                      ensures_if (ltb attempts max_attempts) (λ _. ensures_pure false (λ t p. p))
                        (λ _.
                          ensures_bind (λ _. Done) (quarantine-Done _)
                            (λ _. ensures_pure true (λ t p. p))))

      upload_failed-Done :
          (is_rejected : Bool) (e : E)
          → Ensures Begun
              (upload_failed svc uuid_text limits max_attempts parsed message is_rejected e)
              (λ _. Done)
      unfolding upload_failed
      upload_failed-Done is_rejected e =
          ensures_bind (λ _. Begun) (ensures_answered svc _ (λ a t p. p))
            λ canceled.
              ensures_if canceled (λ _. ensures_raise (upload_error e))
                (λ _.
                  ensures_if is_rejected (λ _. fail-Done _)
                    (λ _. ensures_bind Spent spend_attempt-done (after-Spent e)))

      after_upload-Done :
          (position : ℕ) (others : Action E Unit)
          → Ensures Begun others (λ _. Done)
          → (answer : Uploaded E)
          → Ensures Begun
              (after_upload svc uuid_text limits max_attempts parsed message position others answer)
              (λ _. Done)
      unfolding after_upload
      after_upload-Done position others rest (rejected e) = upload_failed-Done true e
      after_upload-Done position others rest (not_uploaded e) = upload_failed-Done false e
      after_upload-Done position others rest (uploaded file_id) =
          ensures_bind (λ _. Begun) (mark_part_stored-Begun position file_id) (λ _. rest)

      upload_content-Done :
          (a : EmailMessageAttachment) (others : Action E Unit)
          → Ensures Begun others (λ _. Done)
          → (content : Option Bytes)
          → Ensures Begun
              (upload_content svc uuid_text limits max_attempts parsed message a others content)
              (λ _. Done)
      unfolding upload_content
      upload_content-Done a others rest none = fail-Done _
      upload_content-Done a others rest (some content) =
          ensures_bind (λ _. Begun) (ensures_answered svc _ (λ x t p. p))
            (after_upload-Done a.position others rest)

      upload_parts-Done :
          (parts : List EmailMessageAttachment) (finish : Action E Unit)
          → Ensures Begun finish (λ _. Done)
          → Ensures Begun
              (upload_parts svc uuid_text limits max_attempts parsed message parts finish)
              (λ _. Done)
      unfolding upload_parts
      upload_parts-Done [] finish h = h
      upload_parts-Done (a ∷ rest) finish h =
          let others = upload_parts-Done rest finish h in
          ensures_if (is_pending a.state)
            (λ _.
              ensures_bind (λ _. Begun) (ensures_assignment svc parsed.assignment (λ t p. p))
                (λ _. upload_content-Done a _ others (part_content parsed.parts a.position)))
            (λ _. others)

      -- When Complete succeeds, the message that it was given is ready or failed.
      pub complete-Done :
          Ensures Begun (complete svc uuid_text limits max_attempts parsed message) (λ _. Done)
      unfolding complete
      complete-Done =
          ensures_bind (λ _. Begun) (ensures_ask svc _ (λ t p. p))
            λ parts.
              upload_parts-Done parts _
                (ensures_bind (λ _. Begun) find_resolution-Begun complete_ready-Done)
