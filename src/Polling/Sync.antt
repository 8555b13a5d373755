-- ===== src/Polling/Sync.antt =====
-- internal/polling/sync.go: sync, one bounded read of a mailbox.
pub mod Coverage
pub mod NoLoss
use webitel_emails.Prelude.{
  Outcome, done, failed, ℕ, Bool, true, false, not, ◌&&◌, ◌||◌, ◌==◌, nat_eq, string_eq, ltb, leb,
  if◌then◌else◌, Option, none, some, List, [], ◌∷◌, length, take,
}
use webitel_emails.Model.Runtime.{
  Time, EmailProfileAssignment, ImapRecovery, ImapCursor, ProviderCursor, is_empty,
}
use webitel_emails.Polling.{ImapMailbox, Env, PollConfig, PolledProfile}
use webitel_emails.Polling.Search.{search_uids, last_uid, last_searchable_uid}
use webitel_emails.Polling.Deliver.{Handled, lookup, advance_confirmed, Delivered, deliver}
use webitel_emails.Polling.Recovery.{
  SyncResult, imap_cursor, recovery_checkpoint, start_recovery, recover, sync_failed,
}

module _ {E W : Type 0} where
  -- A result with no cursor keeps the stored one.
  abbrev pub no_cursor : Option E → Option E → W → SyncResult E W
  no_cursor imap handler w = record {
    cursor = none;
    more = false;
    imap_err = imap;
    handler_err = handler;
    world = w;
  }

  abbrev pub at_cursor : ImapCursor → W → SyncResult E W
  at_cursor cursor w = record {
    cursor = imap_cursor cursor;
    more = false;
    imap_err = none;
    handler_err = none;
    world = w;
  }

module _ {E W : Type 0} (env : Env E W) (config : PollConfig) (profile : PolledProfile)
    (assignment : EmailProfileAssignment) where
  -- The first cursor of a mailbox starts at its current end.
  unfoldable pub sync_first : ImapMailbox → W → SyncResult E W
  sync_first mailbox w = elim (last_uid env mailbox w) [
    | failed e w' ↦ no_cursor (some e) none w'
    | done last w' ↦
        at_cursor
          (record {
            mailbox = mailbox.name;
            uid_validity = mailbox.uid_validity;
            last_uid = last;
            last_internal_date = 0;
            recovery = none;
          })
          w'
  ]

  -- `recover`, unless there is nothing to recover from
  unfoldable pub continue_recovery : ImapCursor → W → SyncResult E W
  continue_recovery cursor w = elim cursor.recovery [
    | none ↦ at_cursor cursor w
    | some r ↦ recover env config profile assignment cursor r w
  ]

  -- The server reassigned the UIDs of the mailbox.
  unfoldable pub sync_reassigned : ImapCursor → ImapMailbox → W → SyncResult E W
  unfolding continue_recovery
  sync_reassigned stored mailbox w = elim (last_uid env mailbox w) [
    | failed e w' ↦ no_cursor (some e) none w'
    | done last w' ↦
        let checkpoint = recovery_checkpoint stored in
        if checkpoint == 0
        then (elim (env.last_received_at profile.domain_id profile.id w') [
          | failed e w2 ↦ no_cursor none (some e) w2
          | done date w2 ↦ continue_recovery (start_recovery mailbox last date) w2
        ])
        else continue_recovery (start_recovery mailbox last checkpoint) w'
  ]

  -- What ordinary polling does with the UIDs that it found.
  unfoldable pub sync_found : ImapCursor → List ℕ → W → SyncResult E W
  sync_found cursor found w =
      let more = ltb config.max_messages_per_poll (length found) in
      let uids = if more then take config.max_messages_per_poll found else found in
      let d = deliver env config profile assignment cursor uids [] w in
      record {
        cursor = imap_cursor (advance_confirmed cursor uids d.handled);
        more = more;
        imap_err = d.imap_err;
        handler_err = d.handler_err;
        world = d.world;
      }

  unfoldable pub sync_ordinary : ImapCursor → ImapMailbox → W → SyncResult E W
  unfolding sync_found
  sync_ordinary cursor mailbox w =
      elim (search_uids env
        (record {
          after = cursor.last_uid;
          to = last_searchable_uid mailbox;
          since = 0;
          limit = config.max_messages_per_poll;
        })
        w) [ failed e w' ↦ sync_failed cursor e w' | done uids w' ↦ sync_found cursor uids w' ]

  -- The switch of sync, for a cursor that is not empty.
  unfoldable pub sync_stored : ImapCursor → ImapMailbox → W → SyncResult E W
  unfolding sync_first sync_reassigned continue_recovery sync_ordinary
  sync_stored stored mailbox w =
      if not (stored.mailbox == mailbox.name)
      then sync_first mailbox w
      else if not (stored.uid_validity == mailbox.uid_validity)
      then sync_reassigned stored mailbox w
      else elim stored.recovery [
        | some r ↦ recover env config profile assignment stored r w
        | none ↦ sync_ordinary stored mailbox w
      ]

  abbrev pub stored_cursor : Option ProviderCursor → Option ImapCursor
  stored_cursor none = none
  stored_cursor (some c) = c.imap

  unfoldable pub sync : Option ProviderCursor → W → SyncResult E W
  unfolding sync_first sync_stored
  sync stored w = elim (env.examine profile.mailbox w) [
    | failed e w' ↦ no_cursor (some e) none w'
    | done mailbox w' ↦ elim (stored_cursor stored) [
      | none ↦ sync_first mailbox w'
      | some cursor ↦ sync_stored cursor mailbox w'
    ]
  ]
