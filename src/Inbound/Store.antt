-- ===== src/Inbound/Store.antt =====
-- The tables that an inbound email is written to, and the statements on them:
-- internal/store/postgres/email_message_store.go, email_thread_store.go, email_recipient_store.go,
-- email_message_attachment_store.go and inbound_failure_store.go. `now` is now() of a statement.
-- An identity column counts up through `next_id`; the sequences of the tables are one.
pub mod Threads
pub mod Parts
pub mod Decided
use webitel_emails.Prelude.{
  ℕ, zero, suc, ◌+◌, Bool, true, false, not, ◌&&◌, ◌||◌, ◌==◌, nat_eq, string_eq, bytes_eq, ltb,
  if◌then◌else◌, Option, none, some, List, [], ◌∷◌, ◌++◌, map, length, sort, Bytes, empty_text,
  String,
}
use webitel_emails.Model.Runtime.{Time}
use webitel_emails.Model.Email.{
  EmailKind, EmailMessage, EmailMessageState, EmailImapIdentity, EmailRecipient, EmailRecipientType,
  EmailMessageAttachment, EmailAttachmentState, EmailThread, EmailThreadKind,
  EmailContactResolutionState, InboundFailure,
}
use webitel_emails.Outbox.Event.{OutboxEvent}

pub record Tables : Type 0 where
  pub threads : List EmailThread
  pub messages : List EmailMessage
  pub recipients : List EmailRecipient
  pub attachments : List EmailMessageAttachment
  pub failures : List InboundFailure
  pub outbox : List OutboxEvent
  pub next_id : ℕ

-- store.EmailMessageIdentity
pub record EmailMessageIdentity : Type 0 where
  pub id : ℕ
  pub thread_id : ℕ
  pub state : EmailMessageState
  pub thread_kind : EmailThreadKind
  pub contact_resolution : EmailContactResolutionState

-- store.EmailThreadLookup
pub record EmailThreadLookup : Type 0 where
  pub domain_id : ℕ
  pub profile_id : ℕ
  pub only_regular : Bool

abbrev pub is_processing : EmailMessageState → Bool
is_processing EmailMessageState.processing = true
is_processing _ = false

abbrev pub is_pending : EmailAttachmentState → Bool
is_pending EmailAttachmentState.pending = true
is_pending _ = false

abbrev pub is_regular_thread : EmailThreadKind → Bool
is_regular_thread EmailThreadKind.regular = true
is_regular_thread EmailThreadKind.service = false

-- A contact_resolution_state of ('pending', 'unavailable').
abbrev pub is_open : EmailContactResolutionState → Bool
is_open EmailContactResolutionState.pending = true
is_open EmailContactResolutionState.unavailable = true
is_open _ = false

-- WHERE; the first of the rows that a query gives.
unfoldable pub first {ℓ} : {A : Type ℓ} → (A → Bool) → List A → Option A
first p [] = none
first p (x ∷ xs) = let rest = first p xs in if p x then some x else rest

unfoldable pub filter {ℓ} : {A : Type ℓ} → (A → Bool) → List A → List A
filter p [] = []
filter p (x ∷ xs) = let rest = filter p xs in if p x then x ∷ rest else rest

-- UPDATE ... WHERE
unfoldable pub update {ℓ} : {A : Type ℓ} → (A → Bool) → (A → A) → List A → List A
update p f [] = []
update p f (x ∷ xs) = (if p x then f x else x) ∷ update p f xs

unfoldable pub any {ℓ} : {A : Type ℓ} → (A → Bool) → List A → Bool
any p [] = false
any p (x ∷ xs) = p x || any p xs

abbrev pub is_message : ℕ → ℕ → EmailMessage → Bool
is_message domain_id id m = (m.domain_id == domain_id) && (m.id == id)

abbrev pub is_thread : ℕ → ℕ → EmailThread → Bool
is_thread domain_id id t = (t.domain_id == domain_id) && (t.id == id)

unfoldable pub get_message : ℕ → ℕ → Tables → Option EmailMessage
get_message domain_id id t = first (is_message domain_id id) t.messages

unfoldable pub get_thread : ℕ → ℕ → Tables → Option EmailThread
get_thread domain_id id t = first (is_thread domain_id id) t.threads

-- The JOIN of a message with its thread.
abbrev pub is_thread_of : EmailMessage → EmailThread → Bool
is_thread_of m t =
    (t.domain_id == m.domain_id) && (t.profile_id == m.profile_id) && (t.id == m.thread_id)

abbrev pub identity_of : EmailMessage → EmailThread → EmailMessageIdentity
identity_of m t = record {
  id = m.id;
  thread_id = m.thread_id;
  state = m.state;
  thread_kind = t.kind;
  contact_resolution = t.contact_resolution_state;
}

-- locateEmailMessageIdentity: the first of the messages that has a thread.
unfoldable pub locate :
    (EmailMessage → Bool) → List EmailThread → List EmailMessage → Option EmailMessageIdentity
locate p threads [] = none
locate p threads (m ∷ ms) =
    let rest = locate p threads ms in
    if p m
    then elim (first (is_thread_of m) threads) [ none ↦ rest | some t ↦ some (identity_of m t) ]
    else rest

abbrev pub of_profile : ℕ → ℕ → EmailMessage → Bool
of_profile domain_id profile_id m = (m.domain_id == domain_id) && (m.profile_id == profile_id)

abbrev pub has_message_id : ℕ → ℕ → Bytes → EmailMessage → Bool
has_message_id domain_id profile_id message_id m =
    of_profile domain_id profile_id m && (m.message_id == message_id)

abbrev pub has_imap : EmailImapIdentity → EmailMessage → Bool
has_imap identity m = elim m.imap [
  | none ↦ false
  | some i ↦
      (i.mailbox == identity.mailbox)
      && (i.uid_validity == identity.uid_validity)
      && (i.uid == identity.uid)
]

abbrev pub has_imap_identity : ℕ → ℕ → EmailImapIdentity → EmailMessage → Bool
has_imap_identity domain_id profile_id identity m =
    of_profile domain_id profile_id m && has_imap identity m

abbrev pub has_raw_checksum : ℕ → ℕ → Bytes → EmailMessage → Bool
has_raw_checksum domain_id profile_id checksum m =
    of_profile domain_id profile_id m && (m.raw_sha256 == checksum) && m.message_id_generated

unfoldable pub locate_by_message_id : ℕ → ℕ → Bytes → Tables → Option EmailMessageIdentity
locate_by_message_id domain_id profile_id message_id t =
    locate (has_message_id domain_id profile_id message_id) t.threads t.messages

unfoldable pub locate_by_imap_identity :
    ℕ → ℕ → EmailImapIdentity → Tables → Option EmailMessageIdentity
locate_by_imap_identity domain_id profile_id identity t =
    locate (has_imap_identity domain_id profile_id identity) t.threads t.messages

unfoldable pub locate_by_raw_checksum : ℕ → ℕ → Bytes → Tables → Option EmailMessageIdentity
locate_by_raw_checksum domain_id profile_id checksum t =
    locate (has_raw_checksum domain_id profile_id checksum) t.threads t.messages

-- A row of a unique index of email.message that a new row would double.
abbrev pub conflicts : EmailMessage → EmailMessage → Bool
conflicts new m =
    has_message_id new.domain_id new.profile_id new.message_id m
    || elim new.imap [ none ↦ false | some i ↦ has_imap_identity new.domain_id new.profile_id i m ]
    || (new.message_id_generated && has_raw_checksum new.domain_id new.profile_id new.raw_sha256 m)

-- The row that INSERT INTO email.message stores, and the table with it.
abbrev pub message_row : Time → EmailMessage → Tables → EmailMessage
message_row now message t = record message {
  id = t.next_id;
  attachment_attempts = 0;
  created_at = now;
  updated_at = now;
}

abbrev pub with_message : EmailMessage → Tables → Tables
with_message row t = record t { messages = t.messages ++ row ∷ []; next_id = suc t.next_id }

-- Create; none is a violation of a unique index.
unfoldable pub create_message : Time → EmailMessage → Tables → Option (EmailMessage × Tables)
create_message now message t =
    let row = message_row now message t in
    if any (conflicts message) t.messages then none else some (row, with_message row t)

-- Whether a part of the message is pending.
unfoldable pub has_pending_part : ℕ → ℕ → Tables → Bool
has_pending_part domain_id message_id t =
    any (λ a. (a.domain_id == domain_id) && (a.message_id == message_id) && is_pending a.state)
      t.attachments

abbrev pub in_processing : ℕ → ℕ → EmailMessage → Bool
in_processing domain_id id m = is_message domain_id id m && is_processing m.state

abbrev pub with_state : Time → EmailMessageState → EmailMessage → EmailMessage
with_state now state m = record m { state = state; updated_at = now }

-- MarkReady; a message that is not there has the empty state, which is none.
unfoldable pub mark_ready : Time → ℕ → ℕ → Tables → Option EmailMessageState × Tables
mark_ready now domain_id id t =
    let t' = record t {
      messages =
          if has_pending_part domain_id id t
          then t.messages
          else update (in_processing domain_id id) (with_state now EmailMessageState.ready)
              t.messages;
    } in
    (elim (get_message domain_id id t') [ none ↦ none | some m ↦ some m.state ], t')

unfoldable pub mark_failed : Time → ℕ → ℕ → Tables → Bool × Tables
mark_failed now domain_id id t = (
  any (in_processing domain_id id) t.messages,
  record t {
    messages =
        update (in_processing domain_id id) (with_state now EmailMessageState.failed) t.messages;
  },
)

-- IncrementAttachmentAttempts; none is pgx.ErrNoRows.
unfoldable pub increment_attachment_attempts : Time → ℕ → ℕ → Tables → Option (ℕ × Tables)
increment_attachment_attempts now domain_id id t =
    elim (first (in_processing domain_id id) t.messages) [
      | none ↦ none
      | some m ↦ some (
        m.attachment_attempts + 1,
        record t {
          messages =
              update (in_processing domain_id id)
                (λ x. record x {
                  attachment_attempts = x.attachment_attempts + 1;
                  updated_at = now;
                })
                t.messages;
        },
      )
    ]
