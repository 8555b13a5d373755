-- ===== src/Polling/Recovery.antt =====
-- internal/polling/recovery.go: the bounded re-read after the server reassigned its UIDs.
pub mod NoLoss
use webitel_emails.Prelude.{
  Outcome, done, failed, ℕ, Bool, true, false, not, ◌&&◌, ◌==◌, nat_eq, ltb, leb, if◌then◌else◌,
  Option, none, some, List, [], ◌∷◌, length, take,
}
use webitel_emails.Model.Runtime.{
  Time, day_before, EmailProfileAssignment, ImapRecovery, ImapCursor, ProviderCursor,
}
use webitel_emails.Polling.{ImapMailbox, Env, PollConfig, PolledProfile}
use webitel_emails.Polling.Search.{search_uids}
use webitel_emails.Polling.Deliver.{Handled, lookup, advance_confirmed, Delivered, deliver}

-- syncResult, with the world after the sync
pub record SyncResult (E W : Type 0) : Type 0 where
  pub cursor : Option ProviderCursor
  pub more : Bool
  pub imap_err : Option E
  pub handler_err : Option E
  pub world : W

abbrev pub imap_cursor : ImapCursor → Option ProviderCursor
imap_cursor c = some (record { imap = some c })

unfoldable pub recovery_checkpoint : ImapCursor → Time
recovery_checkpoint stored = elim stored.recovery [
  | some r ↦ r.checkpoint
  | none ↦ stored.last_internal_date
]

unfoldable pub start_recovery : ImapMailbox → ℕ → Time → ImapCursor
start_recovery mailbox end checkpoint =
    if checkpoint == 0
    then record {
      mailbox = mailbox.name;
      uid_validity = mailbox.uid_validity;
      last_uid = end;
      last_internal_date = 0;
      recovery = none;
    }
    else record {
      mailbox = mailbox.name;
      uid_validity = mailbox.uid_validity;
      last_uid = 0;
      last_internal_date = checkpoint;
      recovery =
          some (record { since = day_before checkpoint; checkpoint = checkpoint; to_uid = end });
    }

unfoldable pub finish_recovery : ImapCursor → ImapRecovery → ImapCursor
finish_recovery cursor recovery = record cursor { last_uid = recovery.to_uid; recovery = none }

-- `known && !date.IsZero() && date.Before(recovery.Checkpoint)`
unfoldable pub already_read : Time → Option Time → Bool
already_read checkpoint none = false
already_read checkpoint (some date) = not (date == 0) && ltb date checkpoint

-- `handled[uid] = date`, for a message that was read before
unfoldable pub set_aside : Bool → ℕ → Option Time → Handled → Handled
set_aside true uid (some date) handled = (uid, date) ∷ handled
set_aside _ uid _ handled = handled

-- The loop that leaves out what was read under the previous UIDs: `fresh`, and `handled`.
unfoldable pub split_fresh : Time → Handled → List ℕ → Handled → List ℕ × Handled
split_fresh checkpoint dates [] handled = ([], handled)
split_fresh checkpoint dates (uid ∷ uids) handled =
    let old = already_read checkpoint (lookup dates uid) in
    let (fresh, handled') =
      split_fresh checkpoint dates uids (set_aside old uid (lookup dates uid) handled) in
    (if old then fresh else uid ∷ fresh, handled')

module _ {E W : Type 0} where
  -- What recover gives back once the fresh messages are delivered.
  unfoldable pub recovered : ImapCursor → ImapRecovery → Bool → Delivered E W → SyncResult E W
  recovered cursor recovery limited d =
      let clean : SyncResult E W = record {
        cursor = imap_cursor (if limited then cursor else finish_recovery cursor recovery);
        more = limited;
        imap_err = none;
        handler_err = none;
        world = d.world;
      } in
      let stopped : SyncResult E W = record {
        cursor = imap_cursor cursor;
        more = false;
        imap_err = d.imap_err;
        handler_err = d.handler_err;
        world = d.world;
      } in
      elim d.imap_err [
        | some _ ↦ stopped
        | none ↦ elim d.handler_err [ some _ ↦ stopped | none ↦ clean ]
      ]

  abbrev pub sync_failed : ImapCursor → E → W → SyncResult E W
  sync_failed cursor e w = record {
    cursor = imap_cursor cursor;
    more = false;
    imap_err = some e;
    handler_err = none;
    world = w;
  }

  abbrev pub recovery_done : ImapCursor → ImapRecovery → W → SyncResult E W
  recovery_done cursor recovery w = record {
    cursor = imap_cursor (finish_recovery cursor recovery);
    more = false;
    imap_err = none;
    handler_err = none;
    world = w;
  }

module _ {E W : Type 0} (env : Env E W) (config : PollConfig) (profile : PolledProfile)
    (assignment : EmailProfileAssignment) where
  -- The part of recover after the search found some UIDs.
  unfoldable pub recover_found : ImapCursor → ImapRecovery → List ℕ → W → SyncResult E W
  unfolding recovered finish_recovery
  recover_found cursor recovery found w =
      let limited = ltb config.max_messages_per_poll (length found) in
      let uids = if limited then take config.max_messages_per_poll found else found in
      elim (env.fetch_internal_dates uids w) [
        | failed e w' ↦ sync_failed cursor e w'
        | done dates w' ↦
            let (fresh, handled) = split_fresh recovery.checkpoint dates uids [] in
            let d = deliver env config profile assignment cursor fresh handled w' in
            recovered (advance_confirmed cursor uids d.handled) recovery limited d
      ]

  -- The cursor that recover is called with holds the recovery that is passed beside it.
  unfoldable pub recover : ImapCursor → ImapRecovery → W → SyncResult E W
  unfolding finish_recovery
  recover cursor recovery w =
      if leb recovery.to_uid cursor.last_uid
      then recovery_done cursor recovery w
      else elim (search_uids env
          (record {
            after = cursor.last_uid;
            to = recovery.to_uid;
            since = recovery.since;
            limit = config.max_messages_per_poll;
          })
          w) [
            | failed e w' ↦ sync_failed cursor e w'
            | done [] w' ↦ recovery_done cursor recovery w'
            | done (u ∷ us) w' ↦ recover_found cursor recovery (u ∷ us) w'
          ]
