-- ===== src/Polling.antt =====
-- internal/polling: the mailboxes of this instance. This file has the parts of the environment
-- that a poll of one mailbox calls, as a parameter: the IMAP session (infra/mail, over a
-- server), the inbound handler, the message store and the context. Each call takes the state of
-- the world and gives the next one, so that anything may happen between two calls.
pub mod Search
pub mod Deliver
pub mod Recovery
pub mod Sync
pub mod Scheduler
pub mod Worker
mod Tests
use webitel_emails.Prelude.{ℕ, String, Bool, Option, List, Outcome}
use webitel_emails.Model.Runtime.{Time, EmailProfileAssignment, ImapCursor}

-- infra/mail IMAPMailbox; `uid_next` is zero when the server did not report it
pub record ImapMailbox : Type 0 where
  pub name : String
  pub uid_validity : ℕ
  pub uid_next : ℕ

-- infra/mail IMAPMessage
pub record ImapMessage : Type 0 where
  pub uid : ℕ
  pub internal_date : Time
  pub size : ℕ
  pub raw : List ℕ
  pub too_large : Bool

-- inbound.Message: one raw email with its IMAP position
pub record Message : Type 0 where
  pub domain_id : ℕ
  pub profile_id : ℕ
  pub assignment : EmailProfileAssignment
  pub mailbox : String
  pub uid_validity : ℕ
  pub uid : ℕ
  pub internal_date : Time
  pub size : ℕ
  pub raw : List ℕ
  pub too_large : Bool

-- What a poll calls. `fetch_raw` gives the messages that it hands to its callback, in order, and
-- its error after them.
pub record Env (E : Type 0) (W : Type 0) : Type 0 where
  pub ctx_err : W → Option E
  pub examine : String → W → Outcome E W ImapMailbox
  pub search_uids_range : ℕ → ℕ → Time → W → Outcome E W (List ℕ)
  pub fetch_internal_dates : List ℕ → W → Outcome E W (List (ℕ × Time))
  pub fetch_raw : List ℕ → W → List ImapMessage × Option E × W
  pub handle : Message → W → Option E × W
  pub last_received_at : ℕ → ℕ → W → Outcome E W Time

-- The settings of config.IMAPPollingConfig that a poll reads, and of the profile.
pub record PollConfig : Type 0 where
  pub max_messages_per_poll : ℕ
  pub fetch_batch_size : ℕ

pub record PolledProfile : Type 0 where
  pub id : ℕ
  pub domain_id : ℕ
  pub mailbox : String

-- math.MaxUint32, and the range of uint32
abbrev pub max_uint32 : ℕ
max_uint32 = 4_294_967_295

abbrev pub uint32_range : ℕ
uint32_range = 4_294_967_296
