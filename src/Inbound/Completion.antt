-- ===== src/Inbound/Completion.antt =====
-- internal/inbound/completion.go, contacts.go and outbox.go: what is done after the first
-- transaction, and the event of a message that becomes ready.
use webitel_emails.Prelude.{
  ℕ, zero, suc, Bool, true, false, ◌&&◌, nat_eq, ltb, if◌then◌else◌, Option, none, some, List, [],
  ◌∷◌, ◌++◌, Bytes, ascii, format_int, empty_text,
}
use webitel_emails.Model.Email.{
  EmailAddress, EmailPart, ParsedEmail, EmailMessage, EmailMessageState, EmailMessageAttachment,
  EmailThread, EmailThreadKind, EmailContactResolutionState, InboundFailure, InboundFailureCategory,
}
use webitel_emails.Event.Snapshot.{Limits, InboundMessageSource}
use webitel_emails.Event.Envelope.{eligible, Result as Made, ok as made, error as not_made}
use webitel_emails.Event.Row.{new_inbound_message_outbox_event}
use webitel_emails.Outbox.Event.{OutboxEvent}
use webitel_emails.Outbox.Table.{append, Appended, stored, skipped, refused}
use webitel_emails.Inbound.Store.{
  Tables, is_pending, is_regular_thread, is_open, get_message, get_thread, mark_ready, mark_failed,
  increment_attachment_attempts,
}
use webitel_emails.Inbound.Store.Threads.{
  resolve_contact, first_sender_address, advance_last_message,
}
use webitel_emails.Inbound.Store.Parts.{
  list_recipients, list_attachments, mark_stored, record_failure,
}
use webitel_emails.Inbound.Action.{
  Services, Action, pure, raise, ◌>>=◌, or_raise, or_none, answered, queried, statement, ask,
  ensure_email_profile_assignment, within_transaction, UploadRequest, Uploaded, uploaded, rejected,
  not_uploaded, Resolution, one_contact, several_contacts, no_contact, unreachable, upload_error,
  contacts_error, no_rows, incomplete, not_ready, no_event_id, event_error, append_error,
}

-- storedMessage
pub record StoredMessage : Type 0 where
  pub id : ℕ
  pub thread_id : ℕ
  pub thread_kind : EmailThreadKind
  pub contact_resolution : EmailContactResolutionState

unfoldable pub needs_contact_resolution : StoredMessage → Bool
needs_contact_resolution m = is_regular_thread m.thread_kind && is_open m.contact_resolution

-- contactResolution
pub record ContactResolution : Type 0 where
  pub state : EmailContactResolutionState
  pub contact_id : Option ℕ

unfoldable pub part_content : List EmailPart → ℕ → Option Bytes
part_content [] position = none
part_content (p ∷ ps) zero = elim p.skipped_reason [ some _ ↦ none | none ↦ p.content ]
part_content (p ∷ ps) (suc position) = part_content ps position

unfoldable pub reference_id : ℕ → ℕ → Bytes
reference_id message_id position =
    ascii "email-" ++ (format_int message_id ++ b'-' ∷ format_int position)

unfoldable pub first_address : List EmailAddress → Bytes
first_address [] = []
first_address (a ∷ rest) = a.address

-- The record of quarantine.
unfoldable pub attachment_failure : ParsedEmail → Bytes → InboundFailure
attachment_failure parsed reason = record {
  id = 0;
  domain_id = parsed.domain_id;
  profile_id = parsed.profile_id;
  mailbox = parsed.mailbox;
  uid_validity = parsed.uid_validity;
  uid = parsed.uid;
  category = InboundFailureCategory.attachment_upload;
  reason = reason;
  size = 0;
  message_id = parsed.message_id;
  sender = first_address parsed.from;
  subject = parsed.subject;
  created_at = 0;
}

abbrev pub wrap {ℓ} : {A : Type ℓ} → List A → List (Option A)
wrap [] = []
wrap (x ∷ xs) = some x ∷ wrap xs

abbrev pub is_ready : EmailMessageState → Bool
is_ready EmailMessageState.ready = true
is_ready _ = false

module _ {E : Type 0} (svc : Services E) (uuid_text : ℕ → Bytes) (limits : Limits) where
  unfoldable pub appended_tables : Appended → Tables → Tables
  appended_tables (stored rows) t = record t { outbox = rows }
  appended_tables skipped t = t
  appended_tables (refused e) t = t

  unfoldable pub after_append : Appended → Action E Unit
  after_append (stored rows) = pure tt
  after_append skipped = pure tt
  after_append (refused e) = raise (append_error e)

  -- OutboxStore().Append in the caller's transaction.
  unfoldable pub append_event : OutboxEvent → Action E Unit
  unfolding appended_tables after_append
  append_event row = do
    answer ←
        statement svc
          (λ now t. let result = append true now row t.outbox in (result, appended_tables result t))
    after_append answer

  unfoldable pub append_made : Made OutboxEvent → Action E Unit
  unfolding append_event
  append_made (made row) = append_event row
  append_made (not_made e) = raise (event_error e)

  -- The row of the event, and Append.
  unfoldable pub append_row : ℕ → InboundMessageSource → Action E Unit
  unfolding append_made
  append_row event_id src =
      append_made (new_inbound_message_outbox_event uuid_text event_id src limits)

  -- EventWriter.Write for a message that starts Flow and is ready.
  unfoldable pub write_ready : ℕ → EmailMessage → EmailThread → Action E Unit
  unfolding append_row
  write_ready domain_id message thread = do
    recipients ← ask svc (list_recipients domain_id message.id)
    parts ← ask svc (list_attachments domain_id message.id)
    flow_id ← queried svc (λ n. svc.flow_id n domain_id message.profile_id)
    new_id ← answered svc svc.new_id
    event_id ← or_raise new_id no_event_id
    now ← answered svc svc.now
    append_row event_id (record {
      occurred_at = now;
      flow_id = flow_id;
      thread = some thread;
      message = some message;
      recipients = wrap recipients;
      attachments = wrap parts;
    })

  -- (*EventWriter).Write
  unfoldable pub write_event : ℕ → ℕ → Action E Unit
  unfolding write_ready
  write_event domain_id message_id = do
    found ← ask svc (get_message domain_id message_id)
    message ← or_raise found no_rows
    found_thread ← ask svc (get_thread domain_id message.thread_id)
    thread ← or_raise found_thread no_rows
    if eligible (some message) (some thread)
        then if is_ready message.state
          then write_ready domain_id message thread
          else raise not_ready
        else pure tt

  unfoldable pub quarantine : ParsedEmail → StoredMessage → Bytes → Action E Unit
  quarantine parsed message reason = do
    failed ← statement svc (λ now t. mark_failed now parsed.domain_id message.id t)
    if failed
        then statement svc (λ now t. (tt, record_failure now (attachment_failure parsed reason) t))
        else pure tt

  unfoldable pub fail : ParsedEmail → StoredMessage → Bytes → Action E Unit
  unfolding quarantine
  fail parsed message reason =
      within_transaction svc do
        _ ← ensure_email_profile_assignment svc parsed.assignment
        quarantine parsed message reason

  unfoldable pub mark_part_stored : ParsedEmail → StoredMessage → ℕ → ℕ → Action E Unit
  mark_part_stored parsed message position file_id = within_transaction svc do
    _ ← ensure_email_profile_assignment svc parsed.assignment
    _ ← statement svc (λ now t. mark_stored now parsed.domain_id message.id position file_id t)
    pure tt

  unfoldable pub store_resolution :
      ParsedEmail → StoredMessage → Option ContactResolution → Action E Unit
  store_resolution parsed message none = pure tt
  store_resolution parsed message (some r) = do
    _ ←
        statement svc
          (λ now t. resolve_contact now parsed.domain_id message.thread_id r.state r.contact_id t)
    pure tt

  -- What markReady does after MarkReady.
  unfoldable pub after_ready :
      ParsedEmail → StoredMessage → Option EmailMessageState → Action E Unit
  unfolding write_event
  after_ready parsed message none = pure tt
  after_ready parsed message (some EmailMessageState.processing) = raise incomplete
  after_ready parsed message (some EmailMessageState.failed) = pure tt
  after_ready parsed message (some EmailMessageState.ready) = do
    _ ← statement svc (λ now t. (
      tt,
      advance_last_message now parsed.domain_id parsed.profile_id message.thread_id
          parsed.received_at t,
    ))
    write_event parsed.domain_id message.id

  unfoldable pub complete_ready :
      ParsedEmail → StoredMessage → Option ContactResolution → Action E Unit
  unfolding store_resolution after_ready
  complete_ready parsed message resolution = within_transaction svc do
    _ ← ensure_email_profile_assignment svc parsed.assignment
    _ ← store_resolution parsed message resolution
    state ← statement svc (λ now t. mark_ready now parsed.domain_id message.id t)
    after_ready parsed message state

  abbrev pub resolution_of : EmailContactResolutionState → Option ℕ → Option ContactResolution
  resolution_of state contact_id = some (record { state = state; contact_id = contact_id })

  -- What resolveContact makes of an answer of Contacts.
  unfoldable pub answer_resolution : Resolution E → Action E (Option ContactResolution)
  answer_resolution (unreachable e) = do
    canceled ← answered svc svc.canceled
    if canceled
        then raise (contacts_error e)
        else pure (resolution_of EmailContactResolutionState.unavailable none)
  answer_resolution (one_contact id) =
      pure (resolution_of EmailContactResolutionState.resolved (some id))
  answer_resolution several_contacts =
      pure (resolution_of EmailContactResolutionState.ambiguous none)
  answer_resolution no_contact = pure (resolution_of EmailContactResolutionState.not_found none)

  -- (*MessageCompleter).resolveContact for a thread that still needs it.
  unfoldable pub search_contact : ParsedEmail → StoredMessage → Action E (Option ContactResolution)
  unfolding answer_resolution
  search_contact parsed message = do
    address ← ask svc (first_sender_address parsed.domain_id message.thread_id)
    if empty_text address
        then pure (resolution_of EmailContactResolutionState.not_found none)
        else (answered svc (λ n. svc.resolve n parsed.domain_id address) >>= answer_resolution)

  unfoldable pub find_resolution : ParsedEmail → StoredMessage → Action E (Option ContactResolution)
  unfolding search_contact
  find_resolution parsed message =
      if needs_contact_resolution message then search_contact parsed message else pure none

  module _ (max_attempts : ℕ) where
    -- The transaction of uploadFailed; whether the attempts are used up.
    unfoldable pub spend_attempt : ParsedEmail → StoredMessage → Action E Bool
    unfolding quarantine
    spend_attempt parsed message = within_transaction svc do
      _ ← ensure_email_profile_assignment svc parsed.assignment
      counted ←
          statement svc
            (λ now t. or_none (increment_attachment_attempts now parsed.domain_id message.id t) t)
      attempts ← or_raise counted no_rows
      if ltb attempts max_attempts
          then pure false
          else (quarantine parsed message
                (ascii "attachment upload did not succeed within the allowed attempts")
              >>= λ _. pure true)

    unfoldable pub upload_failed : ParsedEmail → StoredMessage → Bool → E → Action E Unit
    unfolding spend_attempt fail
    upload_failed parsed message is_rejected e = do
      canceled ← answered svc svc.canceled
      if canceled
          then raise (upload_error e)
          else if is_rejected
          then fail parsed message (ascii "storage refused an attachment of this email")
          else (spend_attempt parsed message >>= λ exhausted.
              if exhausted then pure tt else raise (upload_error e))

    abbrev pub upload_request :
        ParsedEmail → StoredMessage → EmailMessageAttachment → Bytes → UploadRequest
    upload_request parsed message a content = record {
      domain_id = parsed.domain_id;
      name = a.file_name;
      mime_type = a.mime_type;
      reference_id = reference_id message.id a.position;
      content = content;
    }

    -- What is done with the answer of the storage; `others` is the rest of the loop.
    unfoldable pub after_upload :
        ParsedEmail → StoredMessage → ℕ → Action E Unit → Uploaded E → Action E Unit
    unfolding upload_failed mark_part_stored
    after_upload parsed message position others (rejected e) = upload_failed parsed message true e
    after_upload parsed message position others (not_uploaded e) =
        upload_failed parsed message false e
    after_upload parsed message position others (uploaded file_id) =
        mark_part_stored parsed message position file_id >>= λ _. others

    unfoldable pub upload_content :
        ParsedEmail
        → StoredMessage
        → EmailMessageAttachment
        → Action E Unit
        → Option Bytes
        → Action E Unit
    unfolding after_upload fail
    upload_content parsed message a others none =
        fail parsed message (ascii "attachment part is no longer available in the email")
    upload_content parsed message a others (some content) =
        answered svc (λ n. svc.upload n (upload_request parsed message a content))
        >>= after_upload parsed message a.position others

    -- The loop of Complete over the parts that it listed; `finish` is what stands behind it.
    unfoldable pub upload_parts :
        ParsedEmail → StoredMessage → List EmailMessageAttachment → Action E Unit → Action E Unit
    unfolding upload_content
    upload_parts parsed message [] finish = finish
    upload_parts parsed message (a ∷ rest) finish =
        let others = upload_parts parsed message rest finish in
        if is_pending a.state
        then (ensure_email_profile_assignment svc parsed.assignment >>= λ _.
            upload_content parsed message a others (part_content parsed.parts a.position))
        else others

    -- (*MessageCompleter).Complete
    unfoldable pub complete : ParsedEmail → StoredMessage → Action E Unit
    unfolding upload_parts find_resolution complete_ready
    complete parsed message = do
      parts ← ask svc (list_attachments parsed.domain_id message.id)
      upload_parts parsed message parts (
          find_resolution parsed message >>= λ resolution. complete_ready parsed message resolution)
