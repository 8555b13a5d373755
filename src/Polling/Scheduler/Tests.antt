-- ===== src/Polling/Scheduler/Tests.antt =====
-- A worker that opens the connection of its profile, with room for one worker and one connection.
use webitel_emails.Prelude.{◌≡◌, refl, true, false, none, [], ◌∷◌, contains}
use webitel_emails.Polling.Scheduler.Keyed.{keep, times}
use webitel_emails.Polling.Scheduler.Permits.{Workers, Connections}
use webitel_emails.Polling.Scheduler.Reachability.{
  Reachable, start, next, Reachable-Workers, Reachable-Connections,
}
use webitel_emails.Polling.Scheduler.{
  Session, Capacity, State, initial, try_start, evict_for_capacity, least_recent, acquire_conn_slot,
  connect_done, starts, opens, acquires, connects,
}

abbrev capacity : Capacity
capacity = record { max_concurrency = 1; max_open_connections = 1 }

abbrev session : Session
session = record { version = 3; last_used = 9; idle_timeout = 180 }

abbrev started : State
started = record initial { running = 7 ∷ []; slots = 1 }

abbrev wanting : State
wanting = record started { opening = (7, false) ∷ [] }

abbrev connecting : State
connecting = record started { opening = (7, true) ∷ []; conn_slots = 1 }

abbrev opened : State
opened = record started { sessions = (7, session) ∷ []; conn_slots = 1 }

-- A second profile has to wait, and the connection of a running one is not evicted.
full : (try_start capacity 8 opened ≡ none) × (evict_for_capacity opened ≡ opened)
unfolding try_start evict_for_capacity least_recent contains
full = (refl, refl)

opened-Reachable : Reachable capacity opened
unfolding try_start acquire_conn_slot connect_done contains keep times
opened-Reachable =
    next
      (next (next (next start (starts 7 refl)) (opens 7 refl refl))
        (acquires {s' = connecting} 7 refl refl))
      (connects 7 session refl)

Reachable-Workers_example : Workers capacity opened
Reachable-Workers_example = Reachable-Workers capacity opened-Reachable

Reachable-Connections_example : Connections capacity opened
Reachable-Connections_example = Reachable-Connections capacity opened-Reachable
