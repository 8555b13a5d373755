-- ===== src/Event/Snapshot.antt =====
-- internal/event/inbound_message.go: the wire types and the two lists of the snapshot. The pointers
-- in the lists of recipients and attachment parts may be nil.
pub mod Bounds
use webitel_emails.Prelude.{
  ℕ, Bool, true, false, ◌&&◌, ◌||◌, ltb, if◌then◌else◌, Option, none, some, List, [], ◌∷◌, length,
  take, sort, Bytes, ascii,
}
use webitel_emails.Model.Runtime.{Time}
use webitel_emails.Model.Email.{
  EmailKind, EmailThreadKind, EmailThread, EmailMessage, EmailRecipient, EmailRecipientType,
  EmailMessageAttachment, EmailAttachmentState, EmailPartDisposition,
}
use webitel_emails.Event.Clean.{line}

abbrev pub max_address_size : ℕ
max_address_size = 320

abbrev pub max_display_name_size : ℕ
max_display_name_size = 256

abbrev pub max_mime_type_size : ℕ
max_mime_type_size = 255

abbrev pub attachment_channel : Bytes
attachment_channel = ascii "mail"

pub record Limits : Type 0 where
  pub max_body_text_size : ℕ
  pub max_addresses_per_type : ℕ
  pub max_attachments : ℕ
  pub max_field_size : ℕ
  pub max_payload_size : ℕ

pub record Address : Type 0 where
  pub address : Bytes
  pub name : Bytes

pub record Attachment : Type 0 where
  pub id : ℕ
  pub name : Bytes
  pub size : ℕ
  pub mime : Bytes
  pub view_name : Option Bytes
  pub channel : Bytes

pub record InboundMessageSnapshot : Type 0 where
  pub internet_message_id : Bytes
  pub in_reply_to : Bytes
  pub subject : Bytes
  pub message_kind : EmailKind
  pub thread_kind : EmailThreadKind
  pub contact_id : Option ℕ
  pub received_at : Time
  pub from : List Address
  pub sender : List Address
  pub reply_to : List Address
  pub to : List Address
  pub cc : List Address
  pub body_text : Bytes
  pub attachments : List Attachment
  pub body_text_truncated : Bool
  pub from_truncated : Bool
  pub sender_truncated : Bool
  pub reply_to_truncated : Bool
  pub to_truncated : Bool
  pub cc_truncated : Bool
  pub attachments_truncated : Bool

pub record InboundMessage : Type 0 where
  pub event_id : ℕ
  pub event_type : Bytes
  pub schema_version : ℕ
  pub occurred_at : Time
  pub domain_id : ℕ
  pub profile_id : ℕ
  pub flow_id : Option ℕ
  pub thread_id : ℕ
  pub message_id : ℕ
  pub snapshot : InboundMessageSnapshot

pub record InboundMessageSource : Type 0 where
  pub occurred_at : Time
  pub flow_id : Option ℕ
  pub thread : Option EmailThread
  pub message : Option EmailMessage
  pub recipients : List (Option EmailRecipient)
  pub attachments : List (Option EmailMessageAttachment)

-- `==` of recipient types
unfoldable pub same_type : EmailRecipientType → EmailRecipientType → Bool
same_type EmailRecipientType.from EmailRecipientType.from = true
same_type EmailRecipientType.sender EmailRecipientType.sender = true
same_type EmailRecipientType.reply_to EmailRecipientType.reply_to = true
same_type EmailRecipientType.to EmailRecipientType.to = true
same_type EmailRecipientType.cc EmailRecipientType.cc = true
same_type EmailRecipientType.bcc EmailRecipientType.bcc = true
same_type _ _ = false

-- The first loop of addresses.
unfoldable pub of_type : EmailRecipientType → List (Option EmailRecipient) → List EmailRecipient
of_type kind [] = []
of_type kind (none ∷ rs) = of_type kind rs
of_type kind (some r ∷ rs) =
    let rest = of_type kind rs in if same_type r.type kind then r ∷ rest else rest

abbrev pub by_ordinal : EmailRecipient → EmailRecipient → Bool
by_ordinal a b = ltb a.ordinal b.ordinal

-- The second loop of addresses, with its flag.
unfoldable pub clean_addresses : Bool → List EmailRecipient → List Address × Bool
clean_addresses truncated [] = ([], truncated)
clean_addresses truncated (r ∷ rs) =
    let (address, address_cut) = line r.address max_address_size in
    let (name, name_cut) = line r.display_name max_display_name_size in
    let (rest, flag) = clean_addresses (truncated || address_cut || name_cut) rs in
    (record { address = address; name = name } ∷ rest, flag)

unfoldable pub addresses :
    List (Option EmailRecipient) → EmailRecipientType → Limits → List Address × Bool
addresses recipients kind limits =
    let matched = sort by_ordinal (of_type kind recipients) in
    clean_addresses (ltb limits.max_addresses_per_type (length matched))
      (take limits.max_addresses_per_type matched)

abbrev pub is_stored : EmailAttachmentState → Bool
is_stored EmailAttachmentState.stored = true
is_stored _ = false

abbrev pub is_attachment : EmailPartDisposition → Bool
is_attachment EmailPartDisposition.attachment = true
is_attachment EmailPartDisposition.inline = false

-- The first loop of attachments: a part with the file id that it has.
unfoldable pub stored_parts :
    List (Option EmailMessageAttachment) → List (ℕ × EmailMessageAttachment)
stored_parts [] = []
stored_parts (none ∷ ps) = stored_parts ps
stored_parts (some p ∷ ps) =
    let rest = stored_parts ps in
    elim p.file_id [
      | none ↦ rest
      | some file_id ↦
          if is_stored p.state && is_attachment p.disposition then (file_id, p) ∷ rest else rest
    ]

abbrev pub by_position : ℕ × EmailMessageAttachment → ℕ × EmailMessageAttachment → Bool
by_position a b = ltb a.1.position b.1.position

unfoldable pub clean_attachments :
    ℕ → Bool → List (ℕ × EmailMessageAttachment) → List Attachment × Bool
clean_attachments max_field_size truncated [] = ([], truncated)
clean_attachments max_field_size truncated ((file_id, p) ∷ ps) =
    let (name, name_cut) = line p.file_name max_field_size in
    let (mime, mime_cut) = line p.mime_type max_mime_type_size in
    let (rest, flag) = clean_attachments max_field_size (truncated || name_cut || mime_cut) ps in
    (
      record {
        id = file_id;
        name = name;
        size = p.size;
        mime = mime;
        view_name = none;
        channel = attachment_channel;
      }
          ∷ rest,
      flag,
    )

unfoldable pub attachments : List (Option EmailMessageAttachment) → Limits → List Attachment × Bool
attachments parts limits =
    let stored = sort by_position (stored_parts parts) in
    clean_attachments limits.max_field_size (ltb limits.max_attachments (length stored))
      (take limits.max_attachments stored)
