-- ===== src/Inbound/Persistence.antt =====
-- internal/inbound/persistence.go: the first transaction of an email, and what comes after it.
use webitel_emails.Prelude.{
  ℕ, Bool, ◌||◌, ◌==◌, string_eq, if◌then◌else◌, Option, none, some, List, [], ◌∷◌, Bytes,
  empty_text,
}
use webitel_emails.Model.Email.{ParsedEmail, EmailMessage, EmailMessageState, EmailThread}
use webitel_emails.Event.Snapshot.{Limits}
use webitel_emails.Inbound.Store.{
  EmailMessageIdentity, EmailThreadLookup, is_processing, locate_by_message_id,
  locate_by_imap_identity, locate_by_raw_checksum, create_message,
}
use webitel_emails.Inbound.Store.Threads.{
  create_thread, locate_by_message_ids, locate_by_in_reply_to, advance_last_message,
}
use webitel_emails.Inbound.Store.Parts.{create_recipients, create_attachments}
use webitel_emails.Inbound.Action.{
  create_bulk, Services, Action, pure, ◌>>=◌, or_raise, or_none, statement, ask, lock_email_profile,
  ensure_email_profile_assignment, within_transaction, message_exists,
}
use webitel_emails.Inbound.Rows.{
  ancestor_message_ids, is_regular, new_thread, imap_identity, build_message, build_attachments,
  has_pending_attachments, build_recipients,
}
use webitel_emails.Inbound.Completion.{
  StoredMessage, needs_contact_resolution, write_event, complete,
}

abbrev pub thread_lookup : ParsedEmail → EmailThreadLookup
thread_lookup parsed = record {
  domain_id = parsed.domain_id;
  profile_id = parsed.profile_id;
  only_regular = is_regular parsed.kind;
}

abbrev pub unfinished_of : EmailMessageIdentity → StoredMessage
unfinished_of i = record {
  id = i.id;
  thread_id = i.thread_id;
  thread_kind = i.thread_kind;
  contact_resolution = i.contact_resolution;
}

module _ {E : Type 0} (svc : Services E) where
  -- A search that stops at the first match.
  unfoldable pub or_search : {A : Type 0} → Option A → Action E (Option A) → Action E (Option A)
  or_search (some a) next = pure (some a)
  or_search none next = next

  unfoldable pub locate_stored : ParsedEmail → Action E (Option EmailMessageIdentity)
  unfolding or_search
  locate_stored parsed = do
    by_message_id ←
        ask svc (locate_by_message_id parsed.domain_id parsed.profile_id parsed.message_id)
    or_search by_message_id do
      by_imap ←
          (if parsed.mailbox == ""
            then pure none
            else ask svc
                (locate_by_imap_identity parsed.domain_id parsed.profile_id (imap_identity parsed)))
      or_search by_imap (
          if parsed.message_id_generated
          then ask svc (locate_by_raw_checksum parsed.domain_id parsed.profile_id parsed.raw_sha256)
          else pure none)

  unfoldable pub locate_by_ancestors :
      EmailThreadLookup → List Bytes → Action E (Option EmailThread)
  locate_by_ancestors lookup [] = pure none
  locate_by_ancestors lookup (id ∷ ids) = ask svc (locate_by_message_ids lookup (id ∷ ids))

  unfoldable pub locate_thread : ParsedEmail → Action E (Option EmailThread)
  unfolding or_search locate_by_ancestors
  locate_thread parsed = do
    let lookup = thread_lookup parsed
    by_ancestor ← locate_by_ancestors lookup (ancestor_message_ids parsed)
    or_search by_ancestor do
      by_parent ←
          (if empty_text parsed.in_reply_to
            then pure none
            else ask svc (locate_by_in_reply_to lookup parsed.in_reply_to))
      or_search by_parent (
          if parsed.message_id_generated
          then pure none
          else ask svc (locate_by_in_reply_to lookup parsed.message_id))

  unfoldable pub found_or_new : ParsedEmail → Option EmailThread → Action E EmailThread
  found_or_new parsed (some thread) = pure thread
  found_or_new parsed none = statement svc (λ now t. create_thread now (new_thread parsed) t)

  unfoldable pub resolve_thread : ParsedEmail → Action E EmailThread
  unfolding locate_thread found_or_new
  resolve_thread parsed = do found ← locate_thread parsed; found_or_new parsed found

  module _ (uuid_text : ℕ → Bytes) (limits : Limits) where
    -- What persist does with the stored message and its rows.
    unfoldable pub finish_persist :
        ParsedEmail → EmailThread → EmailMessage → Bool → Action E (Option StoredMessage)
    unfolding write_event
    finish_persist parsed thread message is_unfinished =
        if is_unfinished
        then pure (
            some (record {
              id = message.id;
              thread_id = thread.id;
              thread_kind = thread.kind;
              contact_resolution = thread.contact_resolution_state;
            }))
        else (statement svc (λ now t. (
          tt,
          advance_last_message now parsed.domain_id parsed.profile_id thread.id message.received_at
              t,
        ))
            >>= λ _.
                write_event svc uuid_text limits parsed.domain_id message.id >>= λ _. pure none)

    unfoldable pub persist : ParsedEmail → Action E (Option StoredMessage)
    unfolding resolve_thread finish_persist or_none
    persist parsed = do
      thread ← resolve_thread parsed
      let parts = build_attachments parsed
      let is_unfinished =
          has_pending_attachments parts
          || needs_contact_resolution (record {
            id = 0;
            thread_id = thread.id;
            thread_kind = thread.kind;
            contact_resolution = thread.contact_resolution_state;
          })
      let state = if is_unfinished then EmailMessageState.processing else EmailMessageState.ready
      created ←
          statement svc
            (λ now t. or_none (create_message now (build_message parsed thread.id state) t) t)
      message ← or_raise created message_exists
      _ ←
          create_bulk svc (λ rs now. create_recipients parsed.domain_id message.id rs)
            (build_recipients parsed)
      _ ← create_bulk svc (λ ps now. create_attachments now parsed.domain_id message.id ps) parts
      finish_persist parsed thread message is_unfinished

    -- What the transaction of Handle does with the stored email that it found: an unfinished one is
    -- continued, a finished one is a duplicate.
    unfoldable pub handle_stored :
        ParsedEmail → Option EmailMessageIdentity → Action E (Option StoredMessage)
    unfolding persist
    handle_stored parsed none = persist parsed
    handle_stored parsed (some identity) =
        pure (if is_processing identity.state then some (unfinished_of identity) else none)

    unfoldable pub store_message : ParsedEmail → Action E (Option StoredMessage)
    unfolding handle_stored locate_stored
    store_message parsed = within_transaction svc do
      _ ← lock_email_profile svc parsed.profile_id
      _ ← ensure_email_profile_assignment svc parsed.assignment
      stored ← locate_stored parsed
      handle_stored parsed stored

    -- What Handle does after its transaction.
    unfoldable pub complete_unfinished : ℕ → ParsedEmail → Option StoredMessage → Action E Unit
    unfolding complete
    complete_unfinished max_attempts parsed none = pure tt
    complete_unfinished max_attempts parsed (some message) =
        complete svc uuid_text limits max_attempts parsed message

    -- (*PersistenceHandler).Handle of a parsed email that is not nil
    unfoldable pub handle : ℕ → ParsedEmail → Action E Unit
    unfolding store_message complete_unfinished
    handle max_attempts parsed = do
      unfinished ← store_message parsed
      complete_unfinished max_attempts parsed unfinished
