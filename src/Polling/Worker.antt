-- ===== src/Polling/Worker.antt =====
-- internal/polling/worker.go: one fenced check of a mailbox. The runtime store, the profile source
-- and the connection of the profile are a parameter; Scheduler has the cached connections, and
-- Ownership what the store does.
pub mod Records
mod Tests
use webitel_emails.Prelude.{
  ℕ, String, Bool, true, false, not, ◌||◌, if◌then◌else◌, Option, none, some, Outcome, done, failed,
}
use Prim.Native.String.{◌++◌ as text_append}
use webitel_emails.Model.Runtime.{
  Time, EmailProfileAssignment, ProviderCursor, EmailProfilePollResult, EmailConnectionState, ready,
  error, reauthorization_required,
}
use webitel_emails.Polling.{Env, PollConfig, PolledProfile}
use webitel_emails.Polling.Recovery.{SyncResult}
use webitel_emails.Polling.Sync.{sync}

-- What Locate gives of a profile.
pub record LocatedProfile : Type 0 where
  pub polled : PolledProfile
  pub enabled : Bool

-- The store and the profile source, as a worker calls them. `session` is the connection of the
-- profile, cached or new; the tests on errors are kiterrors.Code, errors.Is and
-- service.RequiresReauthorization, and `message` is Error().
pub record WorkerEnv (E W : Type 0) : Type 0 where
  pub mailbox : Env E W
  pub now : W → Time
  pub start_poll : EmailProfileAssignment → W → Option E × W
  pub complete_poll : EmailProfileAssignment → EmailProfilePollResult → W → Option E × W
  pub locate : ℕ → ℕ → W → Outcome E W LocatedProfile
  pub session : LocatedProfile → W → Outcome E W (Unit {0})
  pub drop_session : ℕ → Bool → W → W
  pub is_not_found : E → Bool
  pub is_stale : E → Bool
  pub requires_reauthorization : E → Bool
  pub message : E → String

module _ {E W : Type 0} (env : WorkerEnv E W) (config : PollConfig) where
  -- handleStoreError, without its log
  unfoldable pub handle_store_error : EmailProfileAssignment → E → W → W
  handle_store_error a e w = if env.is_stale e then env.drop_session a.profile_id true w else w

  -- Where a store call failed or not.
  abbrev pub after_store : EmailProfileAssignment → Option E × W → W
  after_store a (none, w) = w
  after_store a (some e, w) = handle_store_error a e w

  unfoldable pub complete : EmailProfileAssignment → EmailProfilePollResult → W → W
  complete a result w = elim (env.mailbox.ctx_err w) [
    | some e ↦ w
    | none ↦ after_store a (env.complete_poll a result w)
  ]

  unfoldable pub failed_poll : E → Option ProviderCursor → EmailProfilePollResult
  failed_poll e cursor = record {
    provider_cursor = cursor;
    next_check_at = none;
    error = text_append "IMAP: " (env.message e);
    connection_state =
        some (if env.requires_reauthorization e then reauthorization_required else error);
    connection_error = text_append "IMAP: " (env.message e);
    connected = false;
  }

  -- nextCheckAt, at the time `now`
  unfoldable pub next_check_at : SyncResult E W → Time → Option Time
  next_check_at synced now = elim synced.handler_err [
    | some e ↦ none
    | none ↦ if synced.more then some now else none
  ]

  -- `"handler: " + synced.handlerErr.Error()`, or no error
  abbrev pub handler_error : Option E → String
  handler_error none = ""
  handler_error (some e) = text_append "handler: " (env.message e)

  -- The result of a poll whose mailbox was reached.
  unfoldable pub synced_poll : SyncResult E W → EmailProfilePollResult
  unfolding next_check_at
  synced_poll synced = record {
    provider_cursor = synced.cursor;
    next_check_at = next_check_at synced (env.now synced.world);
    error = handler_error synced.handler_err;
    connection_state = some ready;
    connection_error = "";
    connected = true;
  }

  -- The part of poll from the sync on: what is recorded.
  unfoldable pub sync_check :
      EmailProfileAssignment
      → LocatedProfile
      → Option ProviderCursor
      → W
      → Option EmailProfilePollResult × W
  unfolding failed_poll synced_poll
  sync_check a profile stored w =
      let synced = sync env.mailbox config profile.polled a stored w in
      elim synced.imap_err [
        | some e ↦
            (some (failed_poll e synced.cursor), env.drop_session a.profile_id false synced.world)
        | none ↦ (some (synced_poll synced), synced.world)
      ]

  -- The part of poll from the session on.
  unfoldable pub check_enabled :
      EmailProfileAssignment
      → LocatedProfile
      → Option ProviderCursor
      → W
      → Option EmailProfilePollResult × W
  unfolding sync_check
  check_enabled a profile stored w = elim (env.session profile w) [
    | failed e w2 ↦ (some (failed_poll e none), env.drop_session a.profile_id false w2)
    | done c w2 ↦ sync_check a profile stored w2
  ]

  -- The part of poll after StartPoll: what is recorded, if anything is.
  unfoldable pub check_profile :
      EmailProfileAssignment → Option ProviderCursor → W → Option EmailProfilePollResult × W
  unfolding check_enabled
  check_profile a stored w = elim (env.locate a.domain_id a.profile_id w) [
    | failed e w1 ↦ if env.is_not_found e then (none, env.drop_session a.profile_id false w1) else (
      some (record {
        provider_cursor = none;
        next_check_at = none;
        error = env.message e;
        connection_state = none;
        connection_error = "";
        connected = false;
      }),
      w1,
    )
    | done profile w1 ↦
        if profile.enabled
        then check_enabled a profile stored w1
        else (none, env.drop_session a.profile_id true w1)
  ]

  abbrev pub record_check : EmailProfileAssignment → Option EmailProfilePollResult × W → W
  record_check a (none, w) = w
  record_check a (some result, w) = complete a result w

  -- poll, under the assignment and with the cursor of the runtime
  unfoldable pub poll : EmailProfileAssignment → Option ProviderCursor → W → W
  unfolding check_profile
  poll a stored w =
      let started = env.start_poll a w in
      elim started.0 [
        | some e ↦ handle_store_error a e started.1
        | none ↦ record_check a (check_profile a stored started.1)
      ]
