-- ===== src/Model/Runtime.antt =====
-- internal/model/email_profile_runtime.go: the serving state of a profile, its fencing token and
-- its mailbox cursor. A pointer that may be nil is an `Option`; int64 ids are not negative; an
-- instant counts nanoseconds from the zero time.Time, so `IsZero` is 0, and no instant is before it.
use webitel_emails.Prelude.{
  ℕ, ◌-◌, ◌*◌, String, Bool, true, false, ◌&&◌, ◌==◌, nat_eq, string_eq, if◌then◌else◌, Option,
  none, some,
}

abbrev pub Time : Type 0
Time = ℕ

-- `t.AddDate(0, 0, -1)` at a fixed offset, as INTERNALDATE has one: 24 hours less.
unfoldable pub day_before : Time → Time
day_before t = t - 86_400 * 1_000_000_000

pub record EmailProfileAssignment : Type 0 where
  pub profile_id : ℕ
  pub domain_id : ℕ
  pub owner_instance_id : String
  pub generation : ℕ

pub record ImapRecovery : Type 0 where
  pub since : Time
  pub checkpoint : Time
  pub to_uid : ℕ

pub record ImapCursor : Type 0 where
  pub mailbox : String
  pub uid_validity : ℕ
  pub last_uid : ℕ
  pub last_internal_date : Time
  pub recovery : Option ImapRecovery

pub record ProviderCursor : Type 0 where
  pub imap : Option ImapCursor

-- (*ProviderCursor).IsEmpty, on a pointer that may be nil
unfoldable pub is_empty : Option ProviderCursor → Bool
is_empty none = true
is_empty (some c) = elim c.imap [ none ↦ true | some _ ↦ false ]

unfoldable pub is_valid_for : Option ImapCursor → String → ℕ → Bool
is_valid_for none mailbox uid_validity = false
is_valid_for (some c) mailbox uid_validity = c.mailbox == mailbox && c.uid_validity == uid_validity

pub record EmailProfileRuntime : Type 0 where
  pub profile_id : ℕ
  pub domain_id : ℕ
  pub owner_instance_id : String
  pub assignment_generation : ℕ
  pub next_check_at : Option Time
  pub provider_cursor : Option ProviderCursor
  pub last_poll_started_at : Option Time
  pub last_poll_finished_at : Option Time
  pub last_poll_error : String
  pub created_at : Time
  pub updated_at : Time

-- (*EmailProfileRuntime).Assignment; a nil receiver has none
unfoldable pub assignment : Option EmailProfileRuntime → Option EmailProfileAssignment
assignment none = none
assignment (some r) =
    if r.owner_instance_id == ""
    then none
    else some (record {
      profile_id = r.profile_id;
      domain_id = r.domain_id;
      owner_instance_id = r.owner_instance_id;
      generation = r.assignment_generation;
    })

pub data EmailConnectionState : Type 0 where
  idle ready error reauthorization_required : EmailConnectionState

pub record EmailProfilePollResult : Type 0 where
  pub provider_cursor : Option ProviderCursor
  pub next_check_at : Option Time
  pub error : String
  -- `none` is the empty state, which leaves the profile's unchanged
  pub connection_state : Option EmailConnectionState
  pub connection_error : String
  pub connected : Bool
