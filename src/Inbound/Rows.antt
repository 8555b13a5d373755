-- ===== src/Inbound/Rows.antt =====
-- internal/inbound/persistence.go: the rows that are made of a parsed email, and the identifiers
-- that it may descend from.
pub mod Ancestors
use webitel_emails.Prelude.{
  ℕ, zero, suc, ◌+◌, Bool, true, false, not, ◌&&◌, ◌||◌, ◌==◌, nat_eq, string_eq, bytes_eq,
  if◌then◌else◌, Option, none, some, List, [], ◌∷◌, ◌++◌, Bytes, empty_text,
}
use webitel_emails.Model.Runtime.{Time}
use webitel_emails.Model.Email.{
  EmailKind, EmailAddress, EmailPart, ParsedEmail, EmailMessage, EmailMessageDirection,
  EmailMessageState, EmailImapIdentity, EmailRecipient, EmailRecipientType, EmailMessageAttachment,
  EmailAttachmentState, EmailThread, EmailThreadKind, EmailThreadStatus,
  EmailContactResolutionState,
}
use webitel_emails.Inbound.Store.{is_pending, any}

-- The map `strongest`: the index of the last copy, counting from `index`.
unfoldable pub strongest : ℕ → List Bytes → Bytes → Option ℕ
strongest index [] value = none
strongest index (v ∷ vs) value =
    let rest = strongest (suc index) vs value in
    elim rest [ some last ↦ some last | none ↦ if v == value then some index else none ]

-- The second loop of keepLastOccurrence.
unfoldable pub keep_strongest : (Bytes → Option ℕ) → ℕ → List Bytes → List Bytes
keep_strongest last index [] = []
keep_strongest last index (v ∷ vs) =
    let rest = keep_strongest last (suc index) vs in
    elim (last v) [ none ↦ rest | some n ↦ if n == index then v ∷ rest else rest ]

unfoldable pub keep_last_occurrence : List Bytes → List Bytes
keep_last_occurrence values = keep_strongest (strongest 0 values) 0 values

abbrev one_if_set : Bytes → List Bytes
one_if_set id = if empty_text id then [] else id ∷ []

unfoldable pub ancestor_message_ids : ParsedEmail → List Bytes
ancestor_message_ids parsed = keep_last_occurrence (
    parsed.references
    ++ (one_if_set parsed.in_reply_to
        ++ elim parsed.bounce [ none ↦ [] | some b ↦ one_if_set b.original_message_id ]))

abbrev pub is_regular : EmailKind → Bool
is_regular EmailKind.regular = true
is_regular _ = false

-- The thread that createThread stores; the database gives the id and the two instants.
unfoldable pub new_thread : ParsedEmail → EmailThread
new_thread parsed =
    let regular = is_regular parsed.kind in
    record {
      id = 0;
      domain_id = parsed.domain_id;
      profile_id = parsed.profile_id;
      contact_id = none;
      contact_resolution_state =
          if regular
          then EmailContactResolutionState.pending
          else EmailContactResolutionState.not_applicable;
      kind = if regular then EmailThreadKind.regular else EmailThreadKind.service;
      subject = parsed.subject;
      status = if regular then EmailThreadStatus.new else EmailThreadStatus.processed;
      last_message_at = none;
      completed_at = if regular then none else some parsed.received_at;
      created_at = 0;
      updated_at = 0;
    }

abbrev pub imap_identity : ParsedEmail → EmailImapIdentity
imap_identity parsed = record {
  mailbox = parsed.mailbox;
  uid_validity = parsed.uid_validity;
  uid = parsed.uid;
}

unfoldable pub build_message : ParsedEmail → ℕ → EmailMessageState → EmailMessage
build_message parsed thread_id state = record {
  id = 0;
  domain_id = parsed.domain_id;
  thread_id = thread_id;
  profile_id = parsed.profile_id;
  direction = EmailMessageDirection.inbound;
  kind = parsed.kind;
  state = state;
  attachment_attempts = 0;
  message_id = parsed.message_id;
  message_id_generated = parsed.message_id_generated;
  raw_sha256 = parsed.raw_sha256;
  imap = if parsed.mailbox == "" then none else some (imap_identity parsed);
  in_reply_to = parsed.in_reply_to;
  references = parsed.references;
  subject = parsed.subject;
  text_body = parsed.text_body;
  html_body = parsed.html_body;
  bounce = parsed.bounce;
  sent_at = parsed.sent_at;
  received_at = parsed.received_at;
  created_at = 0;
  updated_at = 0;
}

unfoldable pub build_attachment : ℕ → ℕ → EmailPart → EmailMessageAttachment
build_attachment domain_id index part = record {
  id = 0;
  domain_id = domain_id;
  message_id = 0;
  file_id = none;
  content_id = part.content_id;
  disposition = part.disposition;
  file_name = part.name;
  mime_type = part.content_type;
  size = part.size;
  position = index;
  state = elim part.skipped_reason [
    | none ↦ EmailAttachmentState.pending
    | some _ ↦ EmailAttachmentState.skipped
  ];
  skipped_reason = part.skipped_reason;
  created_at = 0;
  updated_at = 0;
}

unfoldable pub build_attachments_from : ℕ → ℕ → List EmailPart → List EmailMessageAttachment
build_attachments_from domain_id index [] = []
build_attachments_from domain_id index (p ∷ ps) =
    build_attachment domain_id index p ∷ build_attachments_from domain_id (suc index) ps

unfoldable pub build_attachments : ParsedEmail → List EmailMessageAttachment
build_attachments parsed = build_attachments_from parsed.domain_id 0 parsed.parts

unfoldable pub has_pending_attachments : List EmailMessageAttachment → Bool
unfolding any
has_pending_attachments attachments = any (λ a. is_pending a.state) attachments

abbrev to_list : Option EmailAddress → List EmailAddress
to_list none = []
to_list (some a) = a ∷ []

-- The inner loop of buildRecipients.
unfoldable pub build_group : ℕ → EmailRecipientType → ℕ → List EmailAddress → List EmailRecipient
build_group domain_id kind index [] = []
build_group domain_id kind index (a ∷ rest) =
    let others = build_group domain_id kind (suc index) rest in
    if empty_text a.address
    then others
    else record {
      id = 0;
      domain_id = domain_id;
      message_id = 0;
      type = kind;
      address = a.address;
      normalized_address = a.normalized_address;
      display_name = a.name;
      ordinal = index;
    }
      ∷ others

unfoldable pub build_recipients : ParsedEmail → List EmailRecipient
build_recipients parsed =
    let group = build_group parsed.domain_id in
    let senders = to_list parsed.sender in
    group EmailRecipientType.from 0 parsed.from
    ++ (group EmailRecipientType.sender 0 senders
        ++ (group EmailRecipientType.reply_to 0 parsed.reply_to
            ++ (group EmailRecipientType.to 0 parsed.to
                ++ (group EmailRecipientType.cc 0 parsed.cc
                    ++ group EmailRecipientType.bcc 0 parsed.bcc))))
