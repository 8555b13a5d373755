-- ===== src/Event/Envelope.antt =====
-- internal/event/inbound_message.go: Eligible, InboundMessageDedupKey, NewInboundMessage and
-- Validate. The value that Go gives beside an error is left out: no caller reads it.
pub mod DedupKey
use webitel_emails.Prelude.{
  ℕ, Bool, true, false, not, ◌&&◌, ◌||◌, ◌==◌, nat_eq, bytes_eq, leb, if◌then◌else◌, Option, none,
  some, List, ◌++◌, ◌∷◌, [], Bytes, ascii, empty_text, format_int,
}
use webitel_emails.Model.Email.{
  EmailKind, EmailThreadKind, EmailThread, EmailMessage, EmailMessageDirection, EmailRecipientType,
}
use webitel_emails.Event.Clean.{clean, field}
use webitel_emails.Event.Snapshot.{
  Limits, InboundMessage, InboundMessageSnapshot, InboundMessageSource, addresses, attachments,
}

abbrev pub type_inbound_message : Bytes
type_inbound_message = ascii "email.message.inbound"

abbrev pub inbound_message_schema : ℕ
inbound_message_schema = 1

-- The errors of the package: of an event that is not valid, of encoding/json, and of its size.
pub data EventError : Type 0 where
  not_eligible wrong_thread empty_event_id wrong_type zero_time bad_id bad_flow_or_contact
        not_regular empty_message_id not_encoded too_large :
      EventError

pub data Result (A : Type 0) : Type 0 where
  ok : A → Result A
  error : EventError → Result A

abbrev pub is_regular : EmailKind → Bool
is_regular EmailKind.regular = true
is_regular _ = false

abbrev pub is_regular_thread : EmailThreadKind → Bool
is_regular_thread EmailThreadKind.regular = true
is_regular_thread EmailThreadKind.service = false

abbrev pub is_inbound : EmailMessageDirection → Bool
is_inbound EmailMessageDirection.inbound = true
is_inbound EmailMessageDirection.outbound = false

unfoldable pub eligible : Option EmailMessage → Option EmailThread → Bool
eligible none thread = false
eligible (some message) none = false
eligible (some message) (some thread) =
    is_inbound message.direction && is_regular message.kind && is_regular_thread thread.kind

unfoldable pub inbound_message_dedup_key : ℕ → ℕ → Bytes
inbound_message_dedup_key domain_id message_id =
    format_int domain_id ++ b':' ∷ format_int message_id

abbrev not_positive : Option ℕ → Bool
not_positive none = false
not_positive (some id) = id == 0

-- (InboundMessage).Validate
unfoldable pub validate : InboundMessage → Option EventError
validate e =
    let s = e.snapshot in
    if e.event_id == 0
    then some empty_event_id
    else if not (e.event_type == type_inbound_message)
        || not (e.schema_version == inbound_message_schema)
    then some wrong_type
    else if e.occurred_at == 0 || s.received_at == 0
    then some zero_time
    else if e.domain_id == 0 || e.profile_id == 0 || e.thread_id == 0 || e.message_id == 0
    then some bad_id
    else if not_positive e.flow_id || not_positive s.contact_id
    then some bad_flow_or_contact
    else if not (is_regular s.message_kind) || not (is_regular_thread s.thread_kind)
    then some not_regular
    else if empty_text s.internet_message_id
    then some empty_message_id
    else none

abbrev pub snapshot_of :
    EmailMessage → EmailThread → InboundMessageSource → Limits → InboundMessageSnapshot
snapshot_of message thread src limits =
    let (body, body_truncated) = clean message.text_body limits.max_body_text_size false in
    let (from, from_cut) = addresses src.recipients EmailRecipientType.from limits in
    let (sender, sender_cut) = addresses src.recipients EmailRecipientType.sender limits in
    let (reply_to, reply_to_cut) = addresses src.recipients EmailRecipientType.reply_to limits in
    let (to, to_cut) = addresses src.recipients EmailRecipientType.to limits in
    let (cc, cc_cut) = addresses src.recipients EmailRecipientType.cc limits in
    let (files, files_cut) = attachments src.attachments limits in
    record {
      internet_message_id = field message.message_id limits.max_field_size;
      in_reply_to = field message.in_reply_to limits.max_field_size;
      subject = field message.subject limits.max_field_size;
      message_kind = message.kind;
      thread_kind = thread.kind;
      contact_id = thread.contact_id;
      received_at = message.received_at;
      from = from;
      sender = sender;
      reply_to = reply_to;
      to = to;
      cc = cc;
      body_text = body;
      attachments = files;
      body_text_truncated = body_truncated;
      from_truncated = from_cut;
      sender_truncated = sender_cut;
      reply_to_truncated = reply_to_cut;
      to_truncated = to_cut;
      cc_truncated = cc_cut;
      attachments_truncated = files_cut;
    }

-- The envelope of NewInboundMessage.
abbrev pub envelope :
    ℕ → EmailMessage → EmailThread → InboundMessageSource → Limits → InboundMessage
envelope event_id message thread src limits = record {
  event_id = event_id;
  event_type = type_inbound_message;
  schema_version = inbound_message_schema;
  occurred_at = src.occurred_at;
  domain_id = message.domain_id;
  profile_id = message.profile_id;
  flow_id = src.flow_id;
  thread_id = thread.id;
  message_id = message.id;
  snapshot = snapshot_of message thread src limits;
}

abbrev pub belongs : EmailMessage → EmailThread → Bool
belongs message thread =
    (message.domain_id == thread.domain_id)
    && (message.thread_id == thread.id)
    && (message.profile_id == thread.profile_id)

abbrev pub validated : InboundMessage → Result InboundMessage
validated e = elim (validate e) [ some err ↦ error err | none ↦ ok e ]

-- NewInboundMessage with the message and the thread of its source.
unfoldable pub new_from :
    ℕ
    → InboundMessageSource
    → Limits
    → Option EmailMessage
    → Option EmailThread
    → Result InboundMessage
new_from event_id src limits none thread = error not_eligible
new_from event_id src limits (some message) none = error not_eligible
new_from event_id src limits (some message) (some thread) =
    if eligible (some message) (some thread)
    then if belongs message thread
      then validated (envelope event_id message thread src limits)
      else error wrong_thread
    else error not_eligible

unfoldable pub new_inbound_message : ℕ → InboundMessageSource → Limits → Result InboundMessage
new_inbound_message event_id src limits = new_from event_id src limits src.message src.thread
