-- ===== src/Model/Email.antt =====
-- internal/model: email_message.go, email_message_attachment.go, email_thread.go, parsed_email.go
-- and inbound_failure.go. Texts are their bytes, and an id is a number, 0 before the row is stored.
use webitel_emails.Prelude.{ℕ, Bool, Option, List, Bytes, String}
use webitel_emails.Model.Runtime.{Time, EmailProfileAssignment}

pub data EmailKind : Type 0 where
  regular auto_reply bounce : EmailKind

pub data EmailPartDisposition : Type 0 where
  attachment inline : EmailPartDisposition

pub record EmailAddress : Type 0 where
  pub name : Bytes
  pub address : Bytes
  pub normalized_address : Bytes

pub data EmailPartSkippedReason : Type 0 where
  count_limit size_limit total_limit read_error : EmailPartSkippedReason

-- The empty SkippedReason is none, and a nil Content is none.
pub record EmailPart : Type 0 where
  pub name : Bytes
  pub content_type : Bytes
  pub content_id : Bytes
  pub disposition : EmailPartDisposition
  pub size : ℕ
  pub content : Option Bytes
  pub skipped_reason : Option EmailPartSkippedReason

pub record EmailBounceInfo : Type 0 where
  pub original_message_id : Bytes
  pub recipient : Bytes
  pub status : Bytes
  pub diagnostic_code : Bytes

pub record ParsedEmail : Type 0 where
  pub domain_id : ℕ
  pub profile_id : ℕ
  pub assignment : EmailProfileAssignment
  pub mailbox : String
  pub uid_validity : ℕ
  pub uid : ℕ
  pub message_id : Bytes
  pub message_id_generated : Bool
  pub raw_sha256 : Bytes
  pub in_reply_to : Bytes
  pub references : List Bytes
  pub subject : Bytes
  pub sent_at : Option Time
  pub received_at : Time
  pub from : List EmailAddress
  pub sender : Option EmailAddress
  pub reply_to : List EmailAddress
  pub to : List EmailAddress
  pub cc : List EmailAddress
  pub bcc : List EmailAddress
  pub text_body : Bytes
  pub html_body : Bytes
  pub parts : List EmailPart
  pub kind : EmailKind
  pub bounce : Option EmailBounceInfo

pub data EmailMessageDirection : Type 0 where
  inbound outbound : EmailMessageDirection

pub data EmailMessageState : Type 0 where
  processing ready failed : EmailMessageState

pub data EmailRecipientType : Type 0 where
  from sender reply_to to cc bcc : EmailRecipientType

pub record EmailImapIdentity : Type 0 where
  pub mailbox : String
  pub uid_validity : ℕ
  pub uid : ℕ

pub record EmailMessage : Type 0 where
  pub id : ℕ
  pub domain_id : ℕ
  pub thread_id : ℕ
  pub profile_id : ℕ
  pub direction : EmailMessageDirection
  pub kind : EmailKind
  pub state : EmailMessageState
  pub attachment_attempts : ℕ
  pub message_id : Bytes
  pub message_id_generated : Bool
  pub raw_sha256 : Bytes
  pub imap : Option EmailImapIdentity
  pub in_reply_to : Bytes
  pub references : List Bytes
  pub subject : Bytes
  pub text_body : Bytes
  pub html_body : Bytes
  pub bounce : Option EmailBounceInfo
  pub sent_at : Option Time
  pub received_at : Time
  pub created_at : Time
  pub updated_at : Time

pub record EmailRecipient : Type 0 where
  pub id : ℕ
  pub domain_id : ℕ
  pub message_id : ℕ
  pub type : EmailRecipientType
  pub address : Bytes
  pub normalized_address : Bytes
  pub display_name : Bytes
  pub ordinal : ℕ

pub data EmailAttachmentState : Type 0 where
  pending stored skipped : EmailAttachmentState

pub record EmailMessageAttachment : Type 0 where
  pub id : ℕ
  pub domain_id : ℕ
  pub message_id : ℕ
  pub file_id : Option ℕ
  pub content_id : Bytes
  pub disposition : EmailPartDisposition
  pub file_name : Bytes
  pub mime_type : Bytes
  pub size : ℕ
  pub position : ℕ
  pub state : EmailAttachmentState
  pub skipped_reason : Option EmailPartSkippedReason
  pub created_at : Time
  pub updated_at : Time

pub data EmailThreadKind : Type 0 where
  regular service : EmailThreadKind

pub data EmailThreadStatus : Type 0 where
  new distributed in_progress processed : EmailThreadStatus

pub data EmailContactResolutionState : Type 0 where
  pending resolved not_found ambiguous unavailable unlinked not_applicable :
      EmailContactResolutionState

pub record EmailThread : Type 0 where
  pub id : ℕ
  pub domain_id : ℕ
  pub profile_id : ℕ
  pub contact_id : Option ℕ
  pub contact_resolution_state : EmailContactResolutionState
  pub kind : EmailThreadKind
  pub subject : Bytes
  pub status : EmailThreadStatus
  pub last_message_at : Option Time
  pub completed_at : Option Time
  pub created_at : Time
  pub updated_at : Time

pub data InboundFailureCategory : Type 0 where
  mime_parse message_too_large attachment_upload : InboundFailureCategory

pub record InboundFailure : Type 0 where
  pub id : ℕ
  pub domain_id : ℕ
  pub profile_id : ℕ
  pub mailbox : String
  pub uid_validity : ℕ
  pub uid : ℕ
  pub category : InboundFailureCategory
  pub reason : Bytes
  pub size : ℕ
  pub message_id : Bytes
  pub sender : Bytes
  pub subject : Bytes
  pub created_at : Time
