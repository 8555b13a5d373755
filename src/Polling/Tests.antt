-- ===== src/Polling/Tests.antt =====
-- Polls of one small mailbox: UIDs 3 to 7, of which the handler refuses 6.
use webitel_emails.Prelude.{
  done, ℕ, ◌*◌, ◌≡◌, refl, String, Bool, true, false, ◌==◌, nat_eq, if◌then◌else◌, none, some, List,
  [], ◌∷◌, map, arith,
}
use webitel_emails.Model.Runtime.{Time, EmailProfileAssignment, ImapRecovery, ImapCursor}
use webitel_emails.Polling.{ImapMailbox, ImapMessage, Env, PollConfig, PolledProfile, max_uint32}
use webitel_emails.Polling.Search.{
  SearchRange, search_uids, last_searchable_uid, search_windows, window_end,
}
use webitel_emails.Polling.Search.Windows.{select, Serves, search_uids-eq-wanted}
use webitel_emails.Polling.Deliver.{deliver, deliver_batch, advance_confirmed, lookup}
use webitel_emails.Polling.Recovery.{imap_cursor, recover}
use webitel_emails.Polling.Recovery.NoLoss.{Portion, recover-Portion}
use webitel_emails.Polling.Sync.{sync, sync_ordinary, sync_found}
use webitel_emails.Polling.Sync.NoLoss.{NoLoss, sync-NoLoss}

abbrev uids : List ℕ
uids = 3 ∷ 4 ∷ 5 ∷ 6 ∷ 7 ∷ []

abbrev box : ImapMailbox
box = record { name = "INBOX"; uid_validity = 9; uid_next = 8 }

abbrev raw_message : ℕ → ImapMessage
raw_message u = record { uid = u; internal_date = u * 100; size = 1; raw = []; too_large = false }

-- The world is the UIDs that the handler accepted, newest first.
abbrev server : Env String (List ℕ)
server = record {
  ctx_err = λ w. none;
  examine = λ name w. done box w;
  search_uids_range =
      λ from to since w. done (select from (if to == 0 then max_uint32 else to) (λ u. true) uids) w;
  fetch_internal_dates = λ us w. done (map (λ u. (u, u * 100)) us) w;
  fetch_raw = λ us w. (map raw_message us, none, w);
  handle = λ m w. if m.uid == 6 then (some "refused", w) else (none, m.uid ∷ w);
  last_received_at = λ d p w. done 0 w;
}

abbrev config : PollConfig
config = record { max_messages_per_poll = 10; fetch_batch_size = 2 }

abbrev profile : PolledProfile
profile = record { id = 1; domain_id = 1; mailbox = "INBOX" }

abbrev owner : EmailProfileAssignment
owner = record { profile_id = 1; domain_id = 1; owner_instance_id = "a"; generation = 1 }

abbrev at_three : ImapCursor
at_three = record {
  mailbox = "INBOX";
  uid_validity = 9;
  last_uid = 3;
  last_internal_date = 300;
  recovery = none;
}

-- The cursor stops before the refused message.
sync_stops :
    (sync server config profile owner (imap_cursor at_three) []).cursor
    ≡ imap_cursor (record at_three { last_uid = 5; last_internal_date = 500 })
unfolding sync sync_ordinary sync_found search_uids search_windows window_end last_searchable_uid
    deliver deliver_batch advance_confirmed lookup
sync_stops = refl

abbrev any : Time → ℕ → Bool
any since u = true

server-Serves : Serves server uids any
server-Serves = record {
  bounded = λ from to since w h. ground arith;
  unbounded = λ from since w. refl;
  any_day = λ u. refl;
  running = λ w. refl;
}

sync-NoLoss_example :
    NoLoss server config profile owner at_three uids
      (sync server config profile owner (imap_cursor at_three) [])
unfolding last_searchable_uid
sync-NoLoss_example =
    sync-NoLoss server config profile owner uids any server-Serves (omega arith) (omega arith)
      at_three box [] [] refl refl refl refl (omega arith) (omega arith)

abbrev range : SearchRange
range = record { after = 3; to = 20_000; since = 0; limit = 2 }

search_uids-eq-wanted_example : search_uids server range [] ≡ done (4 ∷ 5 ∷ 6 ∷ []) []
search_uids-eq-wanted_example =
    search_uids-eq-wanted server uids any server-Serves (omega arith) (omega arith) range []
      (omega arith) (omega arith)

abbrev since_500 : ImapRecovery
since_500 = record { since = 0; checkpoint = 500; to_uid = 7 }

abbrev recovering : ImapCursor
recovering = record at_three { recovery = some since_500 }

recovery_search :
    search_uids server (record { after = 3; to = 7; since = 0; limit = 10 }) []
    ≡ done (4 ∷ 5 ∷ 6 ∷ 7 ∷ []) []
unfolding search_uids search_windows window_end
recovery_search = refl

recover-Portion_example :
    Portion server config profile owner recovering since_500
      (map (λ (u : ℕ). (u, u * 100)) (4 ∷ 5 ∷ 6 ∷ 7 ∷ []))
      (4 ∷ 5 ∷ 6 ∷ 7 ∷ [])
      (recover server config profile owner recovering since_500 [])
recover-Portion_example =
    recover-Portion server config profile owner recovering since_500 4 (5 ∷ 6 ∷ 7 ∷ [])
      (map (λ (u : ℕ). (u, u * 100)) (4 ∷ 5 ∷ 6 ∷ 7 ∷ [])) [] [] [] (omega arith) (omega arith)
      recovery_search (omega arith) (omega arith) refl
