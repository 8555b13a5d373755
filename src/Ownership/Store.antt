-- ===== src/Ownership/Store.antt =====
-- internal/store/postgres/email_profile_runtime_store.go: the statements that write, each as a
-- function on both tables, which are functions of the profile's id. NULL is `none` or the empty
-- text, an instance id is not blank, and `now` is the time of the statement. The lists that the
-- store reads for the scheduler and the distributor are not modelled.
use webitel_emails.Prelude.{
  ℕ, ◌+◌, ◌*◌, String, Bool, not, ◌&&◌, ◌==◌, nat_eq, string_eq, if◌then◌else◌, Option, none, some,
}
use webitel_emails.Model.Runtime.{
  Time, EmailProfileAssignment, ProviderCursor, is_empty, EmailProfileRuntime, EmailConnectionState,
  EmailProfilePollResult,
}

-- The columns of email.profile that the statements use.
pub record Profile : Type 0 where
  pub domain_id : ℕ
  pub fetch_interval_seconds : ℕ
  pub connection_state : EmailConnectionState
  pub last_successful_connection_at : Option Time
  pub connection_error : String

pub record Db : Type 0 where
  pub profiles : ℕ → Option Profile
  pub runtimes : ℕ → Option EmailProfileRuntime

abbrev pub put {ℓ} : {A : Type ℓ} → ℕ → A → (ℕ → Option A) → ℕ → Option A
put id a table j = if j == id then some a else table j

-- What Assign gives.
pub data Assigned : Type 0 where
  owner_required not_found : Assigned
  assigned : EmailProfileAssignment → Db → Assigned

-- The row of the upsert.
unfoldable pub upserted :
    Time → ℕ → Profile → String → Option EmailProfileRuntime → EmailProfileRuntime
upserted now id p instance_id none = record {
  profile_id = id;
  domain_id = p.domain_id;
  owner_instance_id = instance_id;
  assignment_generation = 1;
  next_check_at = some now;
  provider_cursor = none;
  last_poll_started_at = none;
  last_poll_finished_at = none;
  last_poll_error = "";
  created_at = now;
  updated_at = now;
}
upserted now id p instance_id (some r) = record r {
  owner_instance_id = instance_id;
  assignment_generation =
      if r.owner_instance_id == instance_id
      then r.assignment_generation
      else r.assignment_generation + 1;
  next_check_at = if r.owner_instance_id == instance_id then r.next_check_at else some now;
  updated_at = if r.owner_instance_id == instance_id then r.updated_at else now;
}

-- RETURNING r.profile_id, r.domain_id, r.owner_instance_id, r.assignment_generation
abbrev pub returned : EmailProfileRuntime → EmailProfileAssignment
returned r = record {
  profile_id = r.profile_id;
  domain_id = r.domain_id;
  owner_instance_id = r.owner_instance_id;
  generation = r.assignment_generation;
}

unfoldable pub assign : Time → ℕ → String → Db → Assigned
assign now id instance_id db = if instance_id == "" then owner_required else elim (db.profiles id) [
  | none ↦ not_found
  | some p ↦
      let r = upserted now id p instance_id (db.runtimes id) in
      assigned (returned r) (record db { runtimes = put id r db.runtimes })
]

unfoldable pub unassign : Time → ℕ → Db → Db
unassign now id db = elim (db.runtimes id) [
  | none ↦ db
  | some r ↦ if r.owner_instance_id == "" then db else record db {
    runtimes = put id (record r { owner_instance_id = ""; updated_at = now }) db.runtimes;
  }
]

-- owner_instance_id = $2 AND assignment_generation = $3
abbrev pub is_current : EmailProfileAssignment → EmailProfileRuntime → Bool
is_current a r =
    not (r.owner_instance_id == "")
    && (r.owner_instance_id == a.owner_instance_id)
    && (r.assignment_generation == a.generation)

-- StartPoll: `none` is ErrStaleEmailProfileAssignment, which leaves the tables as they were.
unfoldable pub start_poll : Time → EmailProfileAssignment → Db → Option Db
start_poll now a db = elim (db.runtimes a.profile_id) [
  | none ↦ none
  | some r ↦
      if is_current a r
      then some (record db {
        runtimes =
            put a.profile_id (record r { last_poll_started_at = some now; updated_at = now })
              db.runtimes;
      })
      else none
]

-- encodeProviderCursor and COALESCE: an empty cursor keeps the stored one.
unfoldable pub next_cursor : Option ProviderCursor → Option ProviderCursor → Option ProviderCursor
next_cursor new old = if is_empty new then old else new

-- COALESCE($5, now() + make_interval(secs => p.fetch_interval_seconds)), in nanoseconds
abbrev pub next_check : Time → Profile → Option Time → Time
next_check now p none = now + p.fetch_interval_seconds * 1_000_000_000
next_check now p (some t) = t

-- The row of the runtime after a poll.
unfoldable pub polled :
    Time → Profile → EmailProfilePollResult → EmailProfileRuntime → EmailProfileRuntime
unfolding next_cursor
polled now p result r = record r {
  provider_cursor = next_cursor result.provider_cursor r.provider_cursor;
  next_check_at = some (next_check now p result.next_check_at);
  last_poll_finished_at = some now;
  last_poll_error = result.error;
  updated_at = now;
}

-- The row of the profile after a poll; an empty state leaves it unchanged.
unfoldable pub connected : Time → EmailProfilePollResult → Profile → Profile
connected now result p = elim result.connection_state [
  | none ↦ p
  | some state ↦ record p {
    connection_state = state;
    last_successful_connection_at =
        if result.connected then some now else p.last_successful_connection_at;
    connection_error = result.connection_error;
  }
]

-- CompletePoll: `none` is ErrStaleEmailProfileAssignment.
unfoldable pub complete_poll :
    Time → EmailProfileAssignment → EmailProfilePollResult → Db → Option Db
unfolding polled connected
complete_poll now a result db = elim (db.runtimes a.profile_id) [
  | none ↦ none
  | some r ↦ elim (db.profiles a.profile_id) [
    | none ↦ none
    | some p ↦
        if is_current a r && (p.domain_id == r.domain_id)
        then some (record {
          profiles = put a.profile_id (connected now result p) db.profiles;
          runtimes = put a.profile_id (polled now p result r) db.runtimes;
        })
        else none
  ]
]
