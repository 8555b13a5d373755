-- ===== src/Polling/Worker/Tests.antt =====
-- A poll of an empty mailbox for the first time.
use webitel_emails.Prelude.{ℕ, String, true, false, none, [], done}
use webitel_emails.Model.Runtime.{EmailProfileAssignment}
use webitel_emails.Polling.{Env, PollConfig}
use webitel_emails.Polling.Worker.{WorkerEnv}

abbrev server : Env String ℕ
server = record {
  ctx_err = λ w. none;
  examine = λ name w. done (record { name = name; uid_validity = 9; uid_next = 1 }) w;
  search_uids_range = λ from to since w. done [] w;
  fetch_internal_dates = λ us w. done [] w;
  fetch_raw = λ us w. ([], none, w);
  handle = λ m w. (none, w);
  last_received_at = λ d p w. done 0 w;
}

abbrev worker : WorkerEnv String ℕ
worker = record {
  mailbox = server;
  now = λ w. 50;
  start_poll = λ a w. (none, w);
  complete_poll = λ a r w. (none, w);
  locate = λ d p w.
      done (record { polled = record { id = p; domain_id = d; mailbox = "INBOX" }; enabled = true })
        w;
  session = λ p w. done tt w;
  drop_session = λ id graceful w. w;
  is_not_found = λ e. false;
  is_stale = λ e. false;
  requires_reauthorization = λ e. false;
  message = λ e. e;
}

abbrev config : PollConfig
config = record { max_messages_per_poll = 10; fetch_batch_size = 2 }

abbrev owner : EmailProfileAssignment
owner = record { profile_id = 1; domain_id = 1; owner_instance_id = "a"; generation = 1 }
