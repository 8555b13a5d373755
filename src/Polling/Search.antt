-- ===== src/Polling/Search.antt =====
-- internal/polling/sync.go: searchUIDs, lastSearchableUID and lastUID.
pub mod Windows
use webitel_emails.Prelude.{
  Outcome, done, failed, ℕ, zero, suc, ◌+◌, ◌-◌, ◌/◌, ◌%◌, Bool, true, false, ◌&&◌, ◌||◌, ◌==◌,
  nat_eq, ltb, leb, if◌then◌else◌, Option, none, some, List, [], ◌∷◌, ◌++◌, length, take,
}
use webitel_emails.Model.Runtime.{Time}
use webitel_emails.Polling.{ImapMailbox, Env, max_uint32, uint32_range}

-- UIDs after `after`, up to and including `to` (zero is unbounded), from the day of `since` on.
pub record SearchRange : Type 0 where
  pub after : ℕ
  pub to : ℕ
  pub since : Time
  pub limit : ℕ

abbrev pub window_size : ℕ
window_size = 10_000

-- The end of the window that begins at `start`, uint32 arithmetic included.
unfoldable pub window_end : ℕ → ℕ → ℕ
window_end start to =
    let end = (start + window_size - 1) % uint32_range in
    if ltb end start || ltb to end then to else end

unfoldable pub last_of : List ℕ → ℕ
last_of [] = 0
last_of (u ∷ []) = u
last_of (u ∷ v ∷ us) = last_of (v ∷ us)

module _ {E W : Type 0} (env : Env E W) where
  -- The loop of searchUIDs; the first argument bounds its rounds.
  unfoldable pub search_windows : ℕ → ℕ → SearchRange → List ℕ → W → Outcome E W (List ℕ)
  search_windows zero start window all w = done all w
  search_windows (suc fuel) start window all w =
      let end = window_end start window.to in
      elim (leb start window.to) [
        | false ↦ done all w
        | true ↦ elim (env.search_uids_range start end window.since w) [
          | failed e w' ↦ failed e w'
          | done found w' ↦
              let all' = all ++ found in
              elim (ltb 0 window.limit && ltb window.limit (length all')) [
                | true ↦ done (take (suc window.limit) all') w'
                | false ↦ elim (end == max_uint32) [
                  | true ↦ done all' w'
                  | false ↦ elim (env.ctx_err w') [
                    | some e ↦ failed e w'
                    | none ↦ search_windows fuel ((end + 1) % uint32_range) window all' w'
                  ]
                ]
              ]
        ]
      ]

  unfoldable pub search_uids : SearchRange → W → Outcome E W (List ℕ)
  search_uids window w =
      if window.after == max_uint32
      then done [] w
      else if window.to == 0
      then env.search_uids_range ((window.after + 1) % uint32_range) 0 window.since w
      else search_windows (suc (window.to / window_size)) ((window.after + 1) % uint32_range) window
          [] w

  -- lastUID: the highest existing UID, zero in an empty mailbox
  unfoldable pub last_uid : ImapMailbox → W → Outcome E W ℕ
  unfolding last_of
  last_uid mailbox w =
      if ltb 0 mailbox.uid_next
      then done (mailbox.uid_next - 1) w
      else elim (env.search_uids_range 1 0 0 w) [
        | failed e w' ↦ failed e w'
        | done uids w' ↦ done (last_of uids) w'
      ]

unfoldable pub last_searchable_uid : ImapMailbox → ℕ
last_searchable_uid mailbox = if mailbox.uid_next == 0 then 0 else mailbox.uid_next - 1
