-- ===== src/Inbound/Tests.antt =====
-- The handler on a small email, and one instance of each result.
use webitel_emails.Prelude.{
  arith, ℕ, ◌+◌, refl, ◌≡◌, Bool, true, false, none, some, List, [], ◌∷◌, Bytes, ascii, bytes_eq,
  bytes_beq, Distinct, contains, sort,
}
use webitel_emails.Model.Runtime.{EmailProfileAssignment}
use webitel_emails.Model.Email.{
  EmailPart, EmailPartDisposition, EmailKind, EmailMessageDirection, EmailMessageState, ParsedEmail,
  EmailThread, EmailThreadKind, EmailThreadStatus, EmailContactResolutionState, EmailMessage,
}
use webitel_emails.Event.Snapshot.{Limits}
use webitel_emails.Inbound.Store.{
  Tables, EmailMessageIdentity, locate_by_message_id, locate, first, filter, update, any,
  get_message, get_thread, locate_by_imap_identity, locate_by_raw_checksum, create_message,
  has_pending_part, mark_ready, mark_failed, increment_attachment_attempts,
}
use webitel_emails.Inbound.Store.Threads.{
  resolve_contact, set_contact_manually, advance_last_message, create_thread, joined, member,
  array_position, locate_by_message_ids, locate_by_in_reply_to, first_sender_address,
}
use webitel_emails.Inbound.Store.Decided.{
  resolve_contact-set_contact_manually, advance_last_message-monotone, AllNotBefore,
}
use webitel_emails.Inbound.Action.{
  Services, Result, ok, World, no_contact, uploaded, or_none, pure, raise, ◌>>=◌, or_raise,
  answered, queried, statement, ask, lock_email_profile, ensure_email_profile_assignment,
  within_transaction, create_bulk,
}
use webitel_emails.Inbound.Rows.{
  keep_last_occurrence, strongest, keep_strongest, ancestor_message_ids, new_thread, build_message,
  build_attachment, build_attachments_from, build_attachments, has_pending_attachments, build_group,
  build_recipients,
}
use webitel_emails.Inbound.Rows.Ancestors.{keep_last_occurrence_lem, last_copies}
use webitel_emails.Inbound.Persistence.{
  handle, or_search, locate_stored, locate_by_ancestors, locate_thread, found_or_new,
  resolve_thread, finish_persist, persist, handle_stored, store_message, complete_unfinished,
}
use webitel_emails.Inbound.Finished.{Finished}
use webitel_emails.Inbound.Finished.Located.{IsKeyed}
use webitel_emails.Inbound.Finished.Handled.{handle-Finished}
use webitel_emails.Inbound.Finished.Unchanged.{handle-stale, handle-duplicate}
use webitel_emails.Inbound.Store.Parts.{
  recipient_rows, create_recipients, list_recipients, attachment_rows, create_attachments,
  list_attachments, mark_stored, record_failure,
}
use webitel_emails.Inbound.Completion.{
  needs_contact_resolution, part_content, reference_id, first_address, attachment_failure,
  appended_tables, after_append, append_event, append_made, append_row, write_ready, write_event,
  quarantine, fail, mark_part_stored, store_resolution, after_ready, complete_ready,
  answer_resolution, search_contact, find_resolution, spend_attempt, upload_failed, after_upload,
  upload_content, upload_parts, complete,
}
use webitel_emails.Event.Envelope.{
  eligible, inbound_message_dedup_key, validate, new_from, new_inbound_message,
}
use webitel_emails.Inbound.Mime.{MimeParser, Reader, Accepted, read_part}
use webitel_emails.Inbound.Mime.Limits.{read_part-Outcome, Outcome}

abbrev serving : EmailProfileAssignment
serving = record { profile_id = 7; domain_id = 1; owner_instance_id = "a"; generation = 3 }

abbrev limits : Limits
limits = record {
  max_body_text_size = 100;
  max_addresses_per_type = 2;
  max_attachments = 2;
  max_field_size = 50;
  max_payload_size = 65_536;
}

-- An automatic answer of a mailbox, without files.
abbrev letter : ParsedEmail
letter = record {
  domain_id = 1;
  profile_id = 7;
  assignment = serving;
  mailbox = "INBOX";
  uid_validity = 5;
  uid = 11;
  message_id = ascii "a@x";
  message_id_generated = false;
  raw_sha256 = ascii "0";
  in_reply_to = [];
  references = [];
  subject = ascii "Hi";
  sent_at = none;
  received_at = 63_000;
  from = record { name = []; address = ascii "c@x"; normalized_address = ascii "c@x" } ∷ [];
  sender = none;
  reply_to = [];
  to = [];
  cc = [];
  bcc = [];
  text_body = ascii "Hello";
  html_body = [];
  parts = [];
  kind = EmailKind.auto_reply;
  bounce = none;
}

abbrev services : Bool → Services ℕ
services held = record {
  fault = λ _. none;
  holds = λ _ _. held;
  flow_id = λ _ _ _. none;
  now = λ n. 63_000 + n;
  new_id = λ n. some (1 + n);
  canceled = λ _. false;
  upload = λ n _. uploaded n;
  resolve = λ _ _ _. no_contact;
}

abbrev empty : Tables
empty = record {
  threads = [];
  messages = [];
  recipients = [];
  attachments = [];
  failures = [];
  outbox = [];
  next_id = 1;
}

abbrev uuid_text : ℕ → Bytes
uuid_text id = ascii "00000000-0000-0000-0000-000000000000"

abbrev start : World
start = record { tables = empty; calls = 0 }

abbrev handled : Result ℕ Unit × World
handled = handle (services true) uuid_text limits 3 letter start

-- BEGIN
handled_lem : handle (services true) uuid_text limits 3 letter start ≡ (ok tt, handled.1)
unfolding first filter update any get_message get_thread locate locate_by_message_id
    locate_by_imap_identity locate_by_raw_checksum create_message has_pending_part mark_ready
    mark_failed increment_attachment_attempts create_thread joined member array_position
    locate_by_message_ids locate_by_in_reply_to resolve_contact set_contact_manually
    first_sender_address advance_last_message recipient_rows create_recipients list_recipients
    attachment_rows create_attachments list_attachments mark_stored record_failure or_none pure
    raise ◌>>=◌ or_raise answered queried statement ask lock_email_profile
    ensure_email_profile_assignment within_transaction create_bulk strongest keep_strongest
    keep_last_occurrence ancestor_message_ids new_thread build_message build_attachment
    build_attachments_from build_attachments has_pending_attachments build_group build_recipients
    needs_contact_resolution part_content reference_id first_address attachment_failure
    appended_tables after_append append_event append_made append_row write_ready write_event
    quarantine fail mark_part_stored store_resolution after_ready complete_ready answer_resolution
    search_contact find_resolution spend_attempt upload_failed after_upload upload_content
    upload_parts complete or_search locate_stored locate_by_ancestors locate_thread found_or_new
    resolve_thread finish_persist persist handle_stored store_message complete_unfinished handle
    eligible inbound_message_dedup_key validate new_from new_inbound_message sort
handled_lem = refl

empty-IsKeyed : IsKeyed empty
empty-IsKeyed = record { below = tt; unique = tt }

handle-Finished_example : Finished letter handled.1.tables
handle-Finished_example =
    handle-Finished (services true) uuid_text limits 3 letter start handled.1 empty-IsKeyed
      handled_lem

handle-stale_example : (handle (services false) uuid_text limits 3 letter start).1.tables ≡ empty
handle-stale_example = handle-stale (services false) uuid_text limits 3 letter start (λ n. refl)

abbrev known_thread : EmailThread
known_thread = record {
  id = 1;
  domain_id = 1;
  profile_id = 7;
  contact_id = none;
  contact_resolution_state = EmailContactResolutionState.pending;
  kind = EmailThreadKind.regular;
  subject = ascii "Hi";
  status = EmailThreadStatus.new;
  last_message_at = some 63_000;
  completed_at = none;
  created_at = 63_006;
  updated_at = 63_006;
}

abbrev known_message : EmailMessage
known_message = record {
  id = 2;
  domain_id = 1;
  thread_id = 1;
  profile_id = 7;
  direction = EmailMessageDirection.inbound;
  kind = EmailKind.regular;
  state = EmailMessageState.ready;
  attachment_attempts = 0;
  message_id = ascii "a@x";
  message_id_generated = false;
  raw_sha256 = ascii "0";
  imap = none;
  in_reply_to = [];
  references = [];
  subject = ascii "Hi";
  text_body = ascii "Hello";
  html_body = [];
  bounce = none;
  sent_at = none;
  received_at = 63_000;
  created_at = 63_007;
  updated_at = 63_007;
}

abbrev known : Tables
known = record empty { threads = known_thread ∷ []; messages = known_message ∷ []; next_id = 3 }

abbrev known_identity : EmailMessageIdentity
known_identity = record {
  id = 2;
  thread_id = 1;
  state = EmailMessageState.ready;
  thread_kind = EmailThreadKind.regular;
  contact_resolution = EmailContactResolutionState.pending;
}

known_located : locate_by_message_id 1 7 (ascii "a@x") known ≡ some known_identity
unfolding locate_by_message_id locate first bytes_beq
known_located = refl

handle-duplicate_example :
    (handle
      (services true)
      uuid_text
      limits
      3
      letter
      (record { tables = known; calls = 0 })).1.tables
    ≡ known
handle-duplicate_example =
    handle-duplicate (services true) uuid_text limits 3 letter
      (record { tables = known; calls = 0 }) known_identity known_located refl

resolve_contact-set_contact_manually_example :
    resolve_contact 70_000 1 1 EmailContactResolutionState.resolved
      (some 5)
      (set_contact_manually 69_000 1 1 (some 4) known).1
    ≡ (false, (set_contact_manually 69_000 1 1 (some 4) known).1)
resolve_contact-set_contact_manually_example =
    resolve_contact-set_contact_manually 69_000 70_000 1 1 (some 4) (some 5)
      EmailContactResolutionState.resolved known

advance_last_message-monotone_example :
    AllNotBefore known.threads (advance_last_message 70_000 1 7 1 64_000 known).threads
advance_last_message-monotone_example = advance_last_message-monotone 70_000 1 7 1 64_000 known

abbrev copies : List Bytes
copies = ascii "a" ∷ ascii "b" ∷ ascii "a" ∷ []

keep_last_occurrence_lem_example :
    (keep_last_occurrence copies ≡ last_copies copies)
    × Distinct (keep_last_occurrence copies)
    × ((v : Bytes) → contains (keep_last_occurrence copies) v ≡ contains copies v)
keep_last_occurrence_lem_example = keep_last_occurrence_lem copies

abbrev parser : MimeParser
parser = record {
  max_body_size = 100;
  max_attachment_size = 4;
  max_attachments_total_size = 6;
  max_attachments = 2;
}

abbrev note_part : EmailPart
note_part = record {
  name = ascii "n";
  content_type = ascii "text/plain";
  content_id = [];
  disposition = EmailPartDisposition.attachment;
  size = 0;
  content = none;
  skipped_reason = none;
}

abbrev note_reader : Reader
note_reader = record { content = ascii "abc"; is_broken = false }

-- One part of three bytes was read before.
abbrev one_read : Accepted
one_read = record { parts = 1; size = 3 }

read_part-Outcome_example :
    Outcome parser note_part note_reader one_read (read_part parser note_part note_reader one_read)
read_part-Outcome_example = read_part-Outcome parser note_part note_reader one_read (omega arith)
