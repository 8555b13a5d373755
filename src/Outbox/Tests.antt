-- ===== src/Outbox/Tests.antt =====
-- The Outbox on a table of three rows: one to publish, one that no retry can publish, and one that
-- another relay holds.
use webitel_emails.Prelude.{
  ℕ, ◌≡◌, ◌≢◌, inl, inr, refl, String, true, false, none, some, List, [], ◌∷◌, ◌+◌, sort, insert,
  contains,
}
use webitel_emails.Outbox.Event.{OutboxEvent, validate, pending, processing, published, failed}
use webitel_emails.Outbox.Relay.{
  RelayConfig, new_term, cycle, cycles, publish, max_publish_duration, check, pause,
  release as release_batch,
}
use webitel_emails.Outbox.Relay.Leasing.{Leasing}
use webitel_emails.Outbox.Relay.Leases.{Idle, cycles-Idle}
use webitel_emails.Outbox.Relay.Finished.{cycle_finished-released}
use webitel_emails.Outbox.Relay.Trace.{Follows, traced, publish-Follows}
use webitel_emails.Outbox.Table.{
  claim, select, update, recover_leases, due_ids, mark_published, mark_failed,
  release as release_rows,
}
use webitel_emails.Outbox.Table.Keys.{InRows}
use webitel_emails.Outbox.Table.Rows.{IsTable, claims, execute, execute-IsTable}
use webitel_emails.Outbox.Table.Foreign.{execute-keeps-foreign}
use webitel_emails.Outbox.Table.Leasing.{Outside, table_env, Holds, table-Leasing}

abbrev row : ℕ → List ℕ → OutboxEvent
row id payload = record {
  event_id = id;
  domain_id = 1;
  event_type = "email.received";
  schema_version = 1;
  dedup_key = [];
  exchange = "emails";
  routing_key = "received";
  payload = payload;
  state = pending;
  attempts = 0;
  next_attempt_at = 5;
  locked_by = "";
  locked_until = none;
  published_at = none;
  last_error = "";
  created_at = 5;
  updated_at = 5;
}

abbrev foreign_row : OutboxEvent
foreign_row = record (row 3 (1 ∷ [])) {
  state = processing;
  locked_by = "b";
  locked_until = some 900;
}

abbrev rows : List OutboxEvent
rows = row 1 (7 ∷ []) ∷ row 2 [] ∷ foreign_row ∷ []

abbrev config : RelayConfig
config = record {
  batch_size = 10;
  poll_interval = 1000;
  lease_duration = 3000000;
  publish_timeout = 1000;
  retry_initial_interval = 100;
  retry_max_interval = 450;
  max_payload_size = 64;
  owner = "a";
}

-- The rest of the world counts the broker's calls; no statement fails.
abbrev outside : Outside String ℕ
outside = record {
  fault = λ n. none;
  clock = λ n. 10 + n;
  local_clock = λ n. 10 + n;
  canceled = λ n. false;
  declare_topology = λ n. (none, n + 1);
  publish = λ row n. (none, n + 1);
}

-- The same, with a broker that is away.
abbrev broker_away : Outside String ℕ
broker_away = record outside { publish = λ row n. (some "connection not available", n + 1) }

abbrev truncate : String → String
truncate s = s

abbrev states : List OutboxEvent → List ℕ
states [] = []
states (r ∷ rs) =
    elim r.state [ pending ↦ 0 | processing ↦ 1 | published ↦ 2 | failed ↦ 3 ] ∷ states rs

cycle_publishes :
    states (cycles (table_env truncate outside) config 1 new_term (rows, 0)).1.0 ≡ 2 ∷ 3 ∷ 1 ∷ []
unfolding cycles cycle publish claim sort select update recover_leases contains due_ids insert
    max_publish_duration check validate mark_published mark_failed
cycle_publishes = refl

cycle_pauses :
    let r = cycle (table_env truncate broker_away) config new_term (rows, 0) in
    (r.wait ≡ 100) × (states r.world.0 ≡ 0 ∷ 0 ∷ 1 ∷ [])
unfolding cycle publish claim sort select update recover_leases contains due_ids insert
    max_publish_duration check validate pause release_batch release_rows
cycle_pauses = (refl, refl)

table-Leasing_example :
    Leasing (table_env truncate broker_away) "a" (Holds truncate broker_away "a")
table-Leasing_example = table-Leasing truncate broker_away "a"

cycles-Idle_example :
    let r = cycles (table_env truncate broker_away) config 2 new_term (rows, 0) in
    Idle
      (table_env truncate broker_away)
      config
      (Holds truncate broker_away "a")
      table-Leasing_example
      r.0
      r.1
cycles-Idle_example =
    cycles-Idle (table_env truncate broker_away) config (Holds truncate broker_away "a")
      (table-Leasing truncate broker_away "a") 2 (rows, 0)

round_finished : (cycle (table_env truncate outside) config new_term (rows, 0)).finished ≡ true
unfolding cycle publish claim sort select update recover_leases contains due_ids insert
    max_publish_duration check validate mark_published mark_failed
round_finished = refl

cycle_finished-released_example :
    ¬ Holds truncate outside "a"
      (cycle (table_env truncate outside) config new_term (rows, 0)).world
      1
cycle_finished-released_example =
    cycle_finished-released (table_env truncate outside) config (Holds truncate outside "a")
      (table-Leasing truncate outside "a") new_term (rows, 0) (inl refl) round_finished 1

publish-Follows_example :
    Follows config 5000 rows
      (publish
        (traced (table_env truncate outside))
        config
        new_term
        rows
        5000
        ((rows, 0), [])).world.1
publish-Follows_example =
    publish-Follows (table_env truncate outside) config new_term rows 5000 (rows, 0)

rows-IsTable : IsTable rows
unfolding contains
rows-IsTable = record {
  key = (refl, (refl, (refl, tt)));
  valid = ((refl, refl, refl), ((refl, refl, refl), (((λ e. absurd (cc), (900, refl)), refl), tt)));
}

a-named : ◌≢◌ {A = String} "a" ""
a-named e = cc

execute-IsTable_example : IsTable (execute truncate 20 "a" (claims 10 3000000) rows)
execute-IsTable_example =
    execute-IsTable truncate 20 "a" (claims 10 3000000) rows a-named rows-IsTable

execute-keeps-foreign_example :
    InRows foreign_row (execute truncate 20 "a" (claims 10 3000000) rows)
execute-keeps-foreign_example =
    execute-keeps-foreign truncate 20 "a" (claims 10 3000000) rows foreign_row rows-IsTable
      (inr (inr (inl refl))) (record { in_processing = refl; other = refl }) refl
