-- ===== src/Polling/Sync/NoLoss.antt =====
-- Ordinary polling passes no message that the handler has not accepted.
use webitel_emails.Prelude.{
  done, ℕ, suc, ◌≤◌, ◌<◌, ◌≡◌, ◌⊎◌, refl, Bool, true, ◌==◌, nat_eq, string_eq, eq_iff, ltb,
  if◌then◌else◌, none, some, List, [], ◌∷◌, length, take, All, arith, Bool-cases, inl, inr,
}
use webitel_emails.Model.Runtime.{Time, EmailProfileAssignment, ImapCursor}
use webitel_emails.Polling.{ImapMailbox, Env, PollConfig, PolledProfile, max_uint32, uint32_range}
use webitel_emails.Polling.Search.{SearchRange, last_searchable_uid}
use webitel_emails.Polling.Search.Windows.{
  Ascending, select, capped, wanted, Serves, search_uids-eq-wanted,
}
use webitel_emails.Polling.Deliver.{Handled, lookup, advance_confirmed, deliver}
use webitel_emails.Polling.Deliver.Confirmed.{
  Accepted, Entries, deliver-Entries, Entries-lookup, Advanced, advance_confirmed-Advanced,
}
use webitel_emails.Polling.Recovery.{SyncResult, imap_cursor}
use webitel_emails.Polling.Sync.{sync_found, sync_ordinary, sync}
use webitel_emails.Polling.Sync.Coverage.{
  Covered, Reached, take-Covered, select-Covered, In-take, In-select, All-take, take-Ascending,
  select-Ascending, select_above_lo,
}

module _ {E W : Type 0} (env : Env E W) (config : PollConfig) (profile : PolledProfile)
    (assignment : EmailProfileAssignment) (cursor : ImapCursor) where
  abbrev pub IsAccepted : ℕ → Type 0
  IsAccepted u = (date : Time) × Accepted env config profile assignment cursor u date

  -- What a poll from `cursor` gives for the messages `uids` of the mailbox.
  pub record NoLoss (uids : List ℕ) (r : SyncResult E W) : Type 0 where
    pub next : ImapCursor
    pub stored : r.cursor ≡ imap_cursor next
    pub mailbox : next.mailbox ≡ cursor.mailbox
    pub uid_validity : next.uid_validity ≡ cursor.uid_validity
    pub recovery : next.recovery ≡ cursor.recovery
    pub forward : cursor.last_uid ≤ next.last_uid
    pub later : cursor.last_internal_date ≤ next.last_internal_date
    pub covered : All (λ u. (u < suc cursor.last_uid) ⊎ (next.last_uid < u) ⊎ IsAccepted u) uids

  passed-Covered :
      (last : ℕ) (handled : Handled) (us : List ℕ)
      → Entries (Accepted env config profile assignment cursor) handled
      → All (λ u. (last < u) ⊎ ((date : Time) × (lookup handled u ≡ some date))) us
      → Covered IsAccepted last us
  passed-Covered last handled [] h p = tt
  passed-Covered last handled (u ∷ us) h p = (
    elim p.0 [
      | inl x ↦ inl x
      | inr (date, e) ↦
          inr (
            date,
            Entries-lookup (Accepted env config profile assignment cursor) handled u date h e,
          )
    ],
    passed-Covered last handled us h p.1,
  )

  abbrev limited : List ℕ → List ℕ
  limited found =
      if ltb config.max_messages_per_poll (length found)
      then take config.max_messages_per_poll found
      else found

  module _ (found : List ℕ) (a : Ascending found)
      (above : All (λ u. cursor.last_uid < u) found) where
    limited_ok : Ascending (limited found) × All (λ u. cursor.last_uid < u) (limited found)
    limited_ok = elim (Bool-cases (ltb config.max_messages_per_poll (length found))) [
      | inl e ↦ rw e (take-Ascending _ found a, All-take _ _ found above)
      | inr e ↦ rw e (a, above)
    ]

    unlimited :
        (last : ℕ)
        → Reached IsAccepted last cursor.last_uid (limited found)
        → Covered IsAccepted last (limited found)
        → Covered IsAccepted last found × Reached IsAccepted last cursor.last_uid found
    unlimited last r c = elim (Bool-cases (ltb config.max_messages_per_poll (length found))) [
      | inl e ↦
          let r' : Reached IsAccepted last cursor.last_uid
              (take config.max_messages_per_poll found) =
            rw e at r in
          (
            take-Covered IsAccepted last cursor.last_uid config.max_messages_per_poll found a above
                r' (rw e at c),
            elim r' [ inl x ↦ inl x | inr x ↦ inr (In-take last _ found x) ],
          )
      | inr e ↦ (rw e at c, rw e at r)
    ]

    -- The cursor after the messages `found`.
    found_cursor : (w : W) → ImapCursor
    found_cursor w =
        advance_confirmed cursor (limited found)
          (deliver env config profile assignment cursor (limited found) [] w).handled

    found-Advanced :
        (w : W)
        → Advanced cursor
            (limited found)
            (deliver env config profile assignment cursor (limited found) [] w).handled
            (found_cursor w)
    unfolding found_cursor
    found-Advanced w = advance_confirmed-Advanced cursor (limited found) _ limited_ok.0 limited_ok.1

    found-Covered :
        (w : W)
        → Covered IsAccepted (found_cursor w).last_uid found
          × Reached IsAccepted (found_cursor w).last_uid cursor.last_uid found
    found-Covered w = unlimited (found_cursor w).last_uid (found-Advanced w).reached (
        passed-Covered (found_cursor w).last_uid _ (limited found)
          (deliver-Entries env config profile assignment cursor _ (λ u d a. a) (limited found) [] w
            tt)
          (found-Advanced w).passed)

    found-cursor_lem :
        (w : W)
        → (sync_found env config profile assignment cursor found w).cursor
          ≡ imap_cursor (found_cursor w)
    unfolding sync_found found_cursor
    found-cursor_lem w = refl

module _ (P : ℕ → Type 0) (last old : ℕ) where
  abbrev Settled : List ℕ → Type 0
  Settled = All λ u. (u < suc old) ⊎ (last < u) ⊎ P u

  -- A cursor that did not move has passed nothing.
  unmoved-Settled : (us : List ℕ) → last ≡ old → Settled us
  unmoved-Settled [] e = tt
  unmoved-Settled (u ∷ us) e = (
    elim (Bool-cases (ltb old u)) [ inl x ↦ inr (inl (ground arith)) | inr x ↦ inl (ground arith) ],
    unmoved-Settled us e,
  )

  select-Settled :
      (hi : ℕ) (p : ℕ → Bool) (us : List ℕ)
      → ((u : ℕ) → p u ≡ true)
      → Covered P last (select (suc old) hi p us)
      → Reached P last old (select (suc old) hi p us)
      → Settled us
  select-Settled hi p us t c (inl e) = unmoved-Settled us e
  select-Settled hi p us t c (inr x) =
      select-Covered P last (suc old) hi p us t (In-select last (suc old) hi p us x) c

  capped-Settled :
      (limit hi : ℕ) (p : ℕ → Bool) (us : List ℕ)
      → ((u : ℕ) → p u ≡ true)
      → Ascending us
      → Covered P last (capped limit (select (suc old) hi p us))
      → Reached P last old (capped limit (select (suc old) hi p us))
      → Settled us
  capped-Settled limit hi p us t a c r = elim (Bool-cases (ltb 0 limit)) [
    | inr e ↦ select-Settled hi p us t (rw e at c) (rw e at r)
    | inl e ↦
        let sel = select (suc old) hi p us in
        let r' : Reached P last old (take (suc limit) sel) = rw e at r in
        let whole =
          take-Covered P last old (suc limit) sel (select-Ascending (suc old) hi p us a)
            (select_above_lo (suc old) hi p us) r' (rw e at c) in
        select-Settled hi p us t whole
          (elim r' [ inl x ↦ inl x | inr x ↦ inr (In-take last (suc limit) sel x) ])
  ]

module _ (on_day : Time → ℕ → Bool) (any_day : (u : ℕ) → on_day 0 u ≡ true) (uids : List ℕ)
    (ascending : Ascending uids) (old to limit : ℕ) where
  abbrev window : SearchRange
  window = record { after = old; to = to; since = 0; limit = limit }

  wanted_ok : Ascending (wanted on_day uids window) × All (λ u. old < u) (wanted on_day uids window)
  wanted_ok = elim (Bool-cases (to == 0)) [
    | inl e ↦ rw e (
      select-Ascending (suc old) max_uint32 (on_day 0) uids ascending,
      select_above_lo (suc old) max_uint32 (on_day 0) uids,
    )
    | inr e ↦
        let sel = select (suc old) to (on_day 0) uids in
        let asc = select-Ascending (suc old) to (on_day 0) uids ascending in
        let above = select_above_lo (suc old) to (on_day 0) uids in
        rw e (elim (Bool-cases (ltb 0 limit)) [
          | inl f ↦ rw f (take-Ascending (suc limit) sel asc, All-take _ (suc limit) sel above)
          | inr f ↦ rw f (asc, above)
        ])
  ]

  wanted-Settled :
      (P : ℕ → Type 0) (last : ℕ)
      → Covered P last (wanted on_day uids window)
      → Reached P last old (wanted on_day uids window)
      → Settled P last old uids
  wanted-Settled P last c r = elim (Bool-cases (to == 0)) [
    | inl e ↦ select-Settled P last old max_uint32 (on_day 0) uids any_day (rw e at c) (rw e at r)
    | inr e ↦
        capped-Settled P last old limit to (on_day 0) uids any_day ascending (rw e at c) (rw e at r)
  ]

module _ {E W : Type 0} (env : Env E W) (config : PollConfig) (profile : PolledProfile)
    (assignment : EmailProfileAssignment) (uids : List ℕ) (on_day : Time → ℕ → Bool)
    (serves : Serves env uids on_day) (ascending : Ascending uids)
    (existing : All (λ u. u < uint32_range) uids) (cursor : ImapCursor)
    (mailbox : ImapMailbox) where
  sync_ordinary-NoLoss :
      (w : W)
      → last_searchable_uid mailbox ≤ max_uint32
      → cursor.last_uid ≤ max_uint32
      → NoLoss env config profile assignment cursor uids
          (sync_ordinary env config profile assignment cursor mailbox w)
  unfolding sync_ordinary
  sync_ordinary-NoLoss w k l =
      let to = last_searchable_uid mailbox in
      let range : SearchRange = record {
        after = cursor.last_uid;
        to = to;
        since = 0;
        limit = config.max_messages_per_poll;
      } in
      let found = wanted on_day uids range in
      let (a, above) =
        wanted_ok on_day serves.any_day uids ascending cursor.last_uid to
          config.max_messages_per_poll in
      let adv = found-Advanced env config profile assignment cursor found a above w in
      let cov = found-Covered env config profile assignment cursor found a above w in
      let searched = search_uids-eq-wanted env uids on_day serves ascending existing range w k l in
      rw (searched, sync_ordinary)
        (record {
          next = found_cursor env config profile assignment cursor found a above w;
          stored = found-cursor_lem env config profile assignment cursor found a above w;
          mailbox = adv.mailbox;
          uid_validity = adv.uid_validity;
          recovery = adv.recovery;
          forward = adv.forward;
          later = adv.later;
          covered =
              wanted-Settled on_day serves.any_day uids ascending cursor.last_uid to
                config.max_messages_per_poll _ _ cov.0 cov.1;
        })

  sync-eq-ordinary :
      (w w' : W)
      → env.examine profile.mailbox w ≡ done mailbox w'
      → cursor.mailbox ≡ mailbox.name
      → cursor.uid_validity ≡ mailbox.uid_validity
      → cursor.recovery ≡ none
      → sync env config profile assignment (imap_cursor cursor) w
        ≡ sync_ordinary env config profile assignment cursor mailbox w'
  unfolding sync
  sync-eq-ordinary w w' e m v r = ground (arith, eq_iff cursor.mailbox mailbox.name)

  -- A mailbox is polled whose UIDs ascend, fit 32 bits and do not change during the search, with a
  -- stored cursor of the same mailbox and UIDVALIDITY and no recovery under way. Whatever the
  -- handler and FetchRaw do, the poll gives a cursor that is not behind the stored one, in UID and
  -- in date, and every existing message up to it either was already behind the stored cursor or
  -- was accepted by the handler in this poll: none is skipped.
  pub sync-NoLoss :
      (w w' : W)
      → env.examine profile.mailbox w ≡ done mailbox w'
      → cursor.mailbox ≡ mailbox.name
      → cursor.uid_validity ≡ mailbox.uid_validity
      → cursor.recovery ≡ none
      → last_searchable_uid mailbox ≤ max_uint32
      → cursor.last_uid ≤ max_uint32
      → NoLoss env config profile assignment cursor uids
          (sync env config profile assignment (imap_cursor cursor) w)
  sync-NoLoss w w' e m v r k l = rw (sync-eq-ordinary w w' e m v r) (sync_ordinary-NoLoss w' k l)
