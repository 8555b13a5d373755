-- ===== src/Polling/Worker/Records.antt =====
-- What a poll records.
use webitel_emails.Prelude.{◌≡◌, done, failed, ◌⊎◌, true, false, Option, none, some}
use Prim.Native.String.{◌++◌ as text_append}
use webitel_emails.Model.Runtime.{
  EmailProfileAssignment, ProviderCursor, EmailProfilePollResult, ready, error,
  reauthorization_required,
}
use webitel_emails.Polling.{PollConfig}
use webitel_emails.Polling.Recovery.{SyncResult}
use webitel_emails.Polling.Sync.{sync}
use webitel_emails.Polling.Worker.{LocatedProfile, WorkerEnv, next_check_at}

module _ {E W : Type 0} (env : WorkerEnv E W) (config : PollConfig) (a : EmailProfileAssignment)
    (stored : Option ProviderCursor) where
  -- The mailbox gave the error `e`: it is shown as the error of the poll and of the connection, the
  -- state tells whether the profile has to be authorized again, and the schedule stays.
  pub record Failed (e : E) (result : EmailProfilePollResult) : Type 0 where
    pub sooner : result.next_check_at ≡ none
    pub apart : result.connected ≡ false
    pub text : result.error ≡ text_append "IMAP: " (env.message e)
    pub connection_text : result.connection_error ≡ text_append "IMAP: " (env.message e)
    pub state :
        ((env.requires_reauthorization e ≡ true)
          × (result.connection_state ≡ some reauthorization_required))
        ⊎ ((env.requires_reauthorization e ≡ false) × (result.connection_state ≡ some error))

  -- The mailbox was read without an error: the connection is ready, an error of the handler is
  -- shown, and the next check is at once exactly if the handler gave none and messages are left.
  pub record Reached (synced : SyncResult E W) (result : EmailProfilePollResult) : Type 0 where
    pub near : result.connected ≡ true
    pub state : result.connection_state ≡ some ready
    pub connection_text : result.connection_error ≡ ""
    pub handler :
        ((h : E) × (synced.handler_err ≡ some h)
          × (result.error ≡ text_append "handler: " (env.message h))
          × (result.next_check_at ≡ none))
        ⊎ ((synced.handler_err ≡ none)
            × (result.error ≡ "")
            × (synced.more ≡ true)
            × (result.next_check_at ≡ some (env.now synced.world)))
        ⊎ ((synced.handler_err ≡ none)
            × (result.error ≡ "")
            × (synced.more ≡ false)
            × (result.next_check_at ≡ none))

  -- The result of a sync: its cursor, and what its errors say.
  pub record FromSync (synced : SyncResult E W) (result : EmailProfilePollResult) : Type 0 where
    pub cursor : result.provider_cursor ≡ synced.cursor
    pub outcome :
        ((e : E) × (synced.imap_err ≡ some e) × Failed e result)
        ⊎ ((synced.imap_err ≡ none) × Reached synced result)

  -- What is recorded on each path of a check that starts at the world `w`.
  pub data Recorded (w : W) : Option EmailProfilePollResult → Type 0 where
    gone :
        (e : E) (w1 : W)
        → env.locate a.domain_id a.profile_id w ≡ failed e w1
        → env.is_not_found e ≡ true
        → Recorded w none
    disabled :
        (profile : LocatedProfile) (w1 : W)
        → env.locate a.domain_id a.profile_id w ≡ done profile w1
        → profile.enabled ≡ false
        → Recorded w none
    unlocated :
        (e : E) (w1 : W) (result : EmailProfilePollResult)
        → env.locate a.domain_id a.profile_id w ≡ failed e w1
        → env.is_not_found e ≡ false
        → (result.provider_cursor ≡ none)
          × (result.next_check_at ≡ none)
          × (result.connected ≡ false)
          × (result.error ≡ env.message e)
          × (result.connection_state ≡ none)
          × (result.connection_error ≡ "")
        → Recorded w (some result)
    unconnected :
        (profile : LocatedProfile) (e : E) (w1 w2 : W) (result : EmailProfilePollResult)
        → env.locate a.domain_id a.profile_id w ≡ done profile w1
        → profile.enabled ≡ true
        → env.session profile w1 ≡ failed e w2
        → result.provider_cursor ≡ none
        → Failed e result
        → Recorded w (some result)
    recorded_sync :
        (profile : LocatedProfile) (c : Unit {0}) (w1 w2 : W) (result : EmailProfilePollResult)
        → env.locate a.domain_id a.profile_id w ≡ done profile w1
        → profile.enabled ≡ true
        → env.session profile w1 ≡ done c w2
        → FromSync (sync env.mailbox config profile.polled a stored w2) result
        → Recorded w (some result)
