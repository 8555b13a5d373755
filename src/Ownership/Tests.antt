-- ===== src/Ownership/Tests.antt =====
-- A profile that moves from one instance to another and back.
use webitel_emails.Prelude.{◌≡◌, ◌≢◌, refl, true, none, some, [], ◌∷◌}
use webitel_emails.Model.Runtime.{EmailProfileRuntime, EmailProfilePollResult, ready}
use webitel_emails.Ownership.Store.{Profile, Db, put, upserted, start_poll, complete_poll, returned}
use webitel_emails.Ownership.Writes.{assigns, write, writes}
use webitel_emails.Ownership.Fencing.{by_assign, revoked-refused}

abbrev profile : Profile
profile = record {
  domain_id = 1;
  fetch_interval_seconds = 60;
  connection_state = ready;
  last_successful_connection_at = none;
  connection_error = "";
}

abbrev runtime : EmailProfileRuntime
runtime = record {
  profile_id = 7;
  domain_id = 1;
  owner_instance_id = "a";
  assignment_generation = 1;
  next_check_at = some 3;
  provider_cursor = none;
  last_poll_started_at = none;
  last_poll_finished_at = none;
  last_poll_error = "";
  created_at = 3;
  updated_at = 3;
}

abbrev db : Db
db = record { profiles = put 7 profile (λ j. none); runtimes = put 7 runtime (λ j. none) }

abbrev result : EmailProfilePollResult
result = record {
  provider_cursor = none;
  next_check_at = none;
  error = "";
  connection_state = some ready;
  connection_error = "";
  connected = true;
}

-- The first assignment of a profile makes this row.
first_assign : upserted 3 7 profile "a" none ≡ runtime
unfolding upserted
first_assign = refl

poll_starts : start_poll 4 (returned runtime) db ≢ none
unfolding start_poll
poll_starts e = absurd (cc)

revoked-refused_example :
    let db' = writes (assigns 6 7 "a" ∷ []) (write (assigns 5 7 "b") db) in
    (start_poll 8 (returned runtime) db' ≡ none)
    × (complete_poll 8 (returned runtime) result db' ≡ none)
revoked-refused_example =
    revoked-refused (returned runtime) db (assigns 5 7 "b") (assigns 6 7 "a" ∷ []) 8 result
      (record {
        profile = profile;
        has_profile = refl;
        runtime = runtime;
        has_runtime = refl;
        current = refl;
      })
      (by_assign 5 "b" refl refl)
