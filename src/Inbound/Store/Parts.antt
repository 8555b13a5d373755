-- ===== src/Inbound/Store/Parts.antt =====
-- internal/store/postgres: the statements on email.recipient, email.message_attachment and
-- email.inbound_failure.
use webitel_emails.Prelude.{
  ℕ, suc, Bool, true, false, ◌&&◌, ◌||◌, ◌==◌, nat_eq, string_eq, ltb, if◌then◌else◌, none, some,
  List, [], ◌∷◌, ◌++◌, sort,
}
use webitel_emails.Model.Runtime.{Time}
use webitel_emails.Model.Email.{
  EmailRecipient, EmailRecipientType, EmailMessageAttachment, EmailAttachmentState, InboundFailure,
}
use webitel_emails.Inbound.Store.{Tables, is_pending, filter, update, any}

-- The rows of an INSERT, with consecutive ids.
unfoldable pub recipient_rows : ℕ → ℕ → ℕ → List EmailRecipient → List EmailRecipient
recipient_rows next domain_id message_id [] = []
recipient_rows next domain_id message_id (r ∷ rs) =
    record r { id = next; domain_id = domain_id; message_id = message_id }
    ∷ recipient_rows (suc next) domain_id message_id rs

abbrev pub advanced {ℓ} : {A : Type ℓ} → ℕ → List A → ℕ
advanced next [] = next
advanced next (x ∷ xs) = advanced (suc next) xs

unfoldable pub create_recipients : ℕ → ℕ → List EmailRecipient → Tables → Tables
create_recipients domain_id message_id rs t = record t {
  recipients = t.recipients ++ recipient_rows t.next_id domain_id message_id rs;
  next_id = advanced t.next_id rs;
}

-- The order of the texts of recipient types.
abbrev type_rank : EmailRecipientType → ℕ
type_rank EmailRecipientType.bcc = 0
type_rank EmailRecipientType.cc = 1
type_rank EmailRecipientType.from = 2
type_rank EmailRecipientType.reply_to = 3
type_rank EmailRecipientType.sender = 4
type_rank EmailRecipientType.to = 5

unfoldable pub list_recipients : ℕ → ℕ → Tables → List EmailRecipient
list_recipients domain_id message_id t =
    sort
      (λ (a b : EmailRecipient).
        ltb (type_rank a.type) (type_rank b.type)
        || (type_rank a.type == type_rank b.type) && ltb a.ordinal b.ordinal)
      (filter (λ r. (r.domain_id == domain_id) && (r.message_id == message_id)) t.recipients)

unfoldable pub attachment_rows :
    Time → ℕ → ℕ → ℕ → List EmailMessageAttachment → List EmailMessageAttachment
attachment_rows now next domain_id message_id [] = []
attachment_rows now next domain_id message_id (a ∷ rest) =
    record a {
      id = next;
      domain_id = domain_id;
      message_id = message_id;
      file_id = none;
      created_at = now;
      updated_at = now;
    }
    ∷ attachment_rows now (suc next) domain_id message_id rest

unfoldable pub create_attachments : Time → ℕ → ℕ → List EmailMessageAttachment → Tables → Tables
create_attachments now domain_id message_id parts t = record t {
  attachments = t.attachments ++ attachment_rows now t.next_id domain_id message_id parts;
  next_id = advanced t.next_id parts;
}

abbrev pub is_part_of : ℕ → ℕ → EmailMessageAttachment → Bool
is_part_of domain_id message_id a = (a.domain_id == domain_id) && (a.message_id == message_id)

unfoldable pub list_attachments : ℕ → ℕ → Tables → List EmailMessageAttachment
list_attachments domain_id message_id t =
    sort (λ (a b : EmailMessageAttachment). ltb a.position b.position)
      (filter (is_part_of domain_id message_id) t.attachments)

abbrev pub is_unstored : ℕ → ℕ → ℕ → EmailMessageAttachment → Bool
is_unstored domain_id message_id position a =
    is_part_of domain_id message_id a
    && (a.position == position)
    && is_pending a.state
    && elim a.file_id [ none ↦ true | some _ ↦ false ]

unfoldable pub mark_stored : Time → ℕ → ℕ → ℕ → ℕ → Tables → Bool × Tables
mark_stored now domain_id message_id position file_id t = (
  any (is_unstored domain_id message_id position) t.attachments,
  record t {
    attachments =
        update (is_unstored domain_id message_id position)
          (λ a. record a {
            file_id = some file_id;
            state = EmailAttachmentState.stored;
            updated_at = now;
          })
          t.attachments;
  },
)

-- The conflict target of Record.
abbrev pub same_position : InboundFailure → InboundFailure → Bool
same_position f row =
    (row.domain_id == f.domain_id)
    && (row.profile_id == f.profile_id)
    && (row.mailbox == f.mailbox)
    && (row.uid_validity == f.uid_validity)
    && (row.uid == f.uid)

unfoldable pub record_failure : Time → InboundFailure → Tables → Tables
record_failure now f t =
    if any (same_position f) t.failures
    then record t {
      failures =
          update (same_position f) (λ row. record f { id = row.id; created_at = row.created_at })
            t.failures;
    }
    else record t {
      failures = t.failures ++ record f { id = t.next_id; created_at = now } ∷ [];
      next_id = suc t.next_id;
    }
