-- ===== src/Polling/Scheduler.antt =====
-- internal/polling/scheduler.go and the sessions of internal/polling/worker.go: the slots of the
-- workers, the cached connections and the permits of open connections. The operations are those
-- that the mutex or a channel makes atomic; Step interleaves them.
pub mod Keyed
pub mod Permits
pub mod Connections
pub mod Reachability
mod Tests
use webitel_emails.Prelude.{
  ℕ, ◌+◌, ◌-◌, ◌*◌, ◌≤◌, ◌≡◌, Bool, true, false, not, ◌&&◌, ◌||◌, ◌==◌, nat_eq, ltb, leb,
  if◌then◌else◌, Option, none, some, List, [], ◌∷◌, map, length, contains,
}
use webitel_emails.Model.Runtime.{Time}
use webitel_emails.Polling.Scheduler.Keyed.{keep, has, delete, update_key, times}

-- session, without its connection
pub record Session : Type 0 where
  pub version : Time
  pub last_used : Time
  pub idle_timeout : ℕ

-- The capacities of the channels slots and connSlots.
pub record Capacity : Type 0 where
  pub max_concurrency : ℕ
  pub max_open_connections : ℕ

-- `slots` and `conn_slots` count the tokens in the channels. `finishing` counts the workers between
-- the two statements of their end, `closing` the logouts that have not returned. `opening` holds
-- the profiles whose worker opens a connection, with whether it has its permit.
pub record State : Type 0 where
  pub running : List ℕ
  pub slots : ℕ
  pub finishing : ℕ
  pub sessions : List (ℕ × Session)
  pub opening : List (ℕ × Bool)
  pub conn_slots : ℕ
  pub closing : ℕ

abbrev pub initial : State
initial = record {
  running = [];
  slots = 0;
  finishing = 0;
  sessions = [];
  opening = [];
  conn_slots = 0;
  closing = 0;
}

-- tryStart: `none` where it gives false
unfoldable pub try_start : Capacity → ℕ → State → Option State
try_start capacity id s =
    if contains s.running id
    then none
    else if ltb s.slots capacity.max_concurrency
    then some (record s { running = id ∷ s.running; slots = s.slots + 1 })
    else none

-- delete(s.running, id)
unfoldable pub without : ℕ → List ℕ → List ℕ
without id [] = []
without id (j ∷ js) = if j == id then without id js else j ∷ without id js

-- The first part of the deferred function of run, under the mutex.
unfoldable pub end_run : ℕ → State → State
end_run id s = record s { running = without id s.running; finishing = s.finishing + 1 }

-- `<-s.slots`
unfoldable pub free_slot : State → State
free_slot s = record s { slots = s.slots - 1; finishing = s.finishing - 1 }

-- closeSession, up to where the logout returns
unfoldable pub close_session : Bool → State → State
close_session true s = record s { closing = s.closing + 1 }
close_session false s = record s { conn_slots = s.conn_slots - 1 }

-- The deferred calls of the logout.
unfoldable pub close_done : State → State
close_done s = record s { closing = s.closing - 1; conn_slots = s.conn_slots - 1 }

unfoldable pub drop_session : ℕ → Bool → State → State
unfolding close_session
drop_session id graceful s =
    if has id s.sessions
    then close_session graceful (record s { sessions = delete id s.sessions })
    else s

-- The condition under which closeIdleSessions closes a session; a difference of times may be
-- negative, and is then less than the timeout.
abbrev pub is_idle : Time → List ℕ → ℕ × Session → Bool
is_idle now running (id, current) =
    not (contains running id || ltb now (current.last_used + current.idle_timeout))

-- closeIdleSessions
unfoldable pub close_idle_sessions : Time → State → State
close_idle_sessions now s = record s {
  sessions = keep (λ e. not (is_idle now s.running e)) s.sessions;
  closing = s.closing + length (keep (is_idle now s.running) s.sessions);
}

-- evict == nil || current.lastUsed.Before(evict.lastUsed)
abbrev pub is_older : Session → Option (ℕ × Session) → Bool
is_older current none = true
is_older current (some (id, best)) = ltb current.last_used best.last_used

-- The loop of evictForCapacity; the order of the list is the order of the iteration.
unfoldable pub least_recent :
    List ℕ → Option (ℕ × Session) → List (ℕ × Session) → Option (ℕ × Session)
least_recent running best [] = best
least_recent running best ((id, current) ∷ rest) =
    let keep_best = least_recent running best rest in
    let take_this = least_recent running (some (id, current)) rest in
    if contains running id
    then keep_best
    else if is_older current best
    then take_this
    else keep_best

unfoldable pub evict_for_capacity : State → State
unfolding close_session
evict_for_capacity s = elim (least_recent s.running none s.sessions) [
  | none ↦ s
  | some (id, evicted) ↦ close_session true (record s { sessions = delete id s.sessions })
]

-- The two selects of acquireConnSlot: a permit is taken if one is free.
unfoldable pub acquire_conn_slot : Capacity → ℕ → State → Option State
acquire_conn_slot capacity id s =
    if ltb s.conn_slots capacity.max_open_connections
    then some
        (record s { opening = (id, true) ∷ delete id s.opening; conn_slots = s.conn_slots + 1 })
    else none

-- Connect failed: releaseConnSlot.
unfoldable pub connect_failed : ℕ → State → State
connect_failed id s = record s { opening = delete id s.opening; conn_slots = s.conn_slots - 1 }

-- Connect succeeded: the session is cached.
unfoldable pub connect_done : ℕ → Session → State → State
connect_done id current s = record s {
  opening = delete id s.opening;
  sessions = (id, current) ∷ delete id s.sessions;
}

-- touchSession
unfoldable pub touch_session : ℕ → Time → State → State
touch_session id now s = record s {
  sessions = update_key id (λ c. record c { last_used = now }) s.sessions;
}

-- closeAllSessions
unfoldable pub close_all_sessions : State → State
close_all_sessions s = record s { sessions = []; closing = s.closing + length s.sessions }

-- Some worker of the profile is not opening a connection: every entry of `running` is a worker, and
-- one that opens a connection does nothing else until it has it or gives up.
abbrev pub has_free_worker : ℕ → State → Bool
has_free_worker id s = ltb (times id (map (λ e. e.0) s.opening)) (times id s.running)

-- One atomic step of the loop, of a worker or of a logout.
pub data Step (capacity : Capacity) : State → State → Type 0 where
  starts : {s s' : State} (id : ℕ) → try_start capacity id s ≡ some s' → Step capacity s s'
  ends : {s : State} (id : ℕ) → has_free_worker id s ≡ true → Step capacity s (end_run id s)
  frees : {s : State} → 1 ≤ s.finishing → Step capacity s (free_slot s)
  closes_idle : {s : State} (now : Time) → Step capacity s (close_idle_sessions now s)
  evicts : {s : State} → Step capacity s (evict_for_capacity s)
  -- dropSession of a worker, and the one before it reconnects
  drops :
      {s : State} (id : ℕ) (graceful : Bool)
      → has_free_worker id s ≡ true
      → Step capacity s (drop_session id graceful s)
  touches : {s : State} (id : ℕ) (now : Time) → Step capacity s (touch_session id now s)
  -- session found no connection of its profile
  opens :
      {s : State} (id : ℕ)
      → has_free_worker id s ≡ true
      → has id s.sessions ≡ false
      → Step capacity s (record s { opening = (id, false) ∷ s.opening })
  gives_up :
      {s : State} (id : ℕ)
      → contains (map (λ e. e.0) (keep (λ e. not e.1) s.opening)) id ≡ true
      → Step capacity s (record s { opening = delete id s.opening })
  acquires :
      {s s' : State} (id : ℕ)
      → contains (map (λ e. e.0) (keep (λ e. not e.1) s.opening)) id ≡ true
      → acquire_conn_slot capacity id s ≡ some s'
      → Step capacity s s'
  fails :
      {s : State} (id : ℕ)
      → contains (map (λ e. e.0) (keep (λ e. e.1) s.opening)) id ≡ true
      → Step capacity s (connect_failed id s)
  connects :
      {s : State} (id : ℕ) (current : Session)
      → contains (map (λ e. e.0) (keep (λ e. e.1) s.opening)) id ≡ true
      → Step capacity s (connect_done id current s)
  closed : {s : State} → 1 ≤ s.closing → Step capacity s (close_done s)
  closes_all : {s : State} → Step capacity s (close_all_sessions s)
