-- ===== src/Polling/Recovery/NoLoss.antt =====
-- The re-read after a UIDVALIDITY change leaves out nothing but what is older than the checkpoint.
use webitel_emails.Prelude.{
  done, ℕ, ◌≤◌, ◌<◌, ◌≡◌, ◌≢◌, ◌⊎◌, refl, Bool, false, not, ◌&&◌, ◌==◌, nat_eq, ltb, leb,
  if◌then◌else◌, Option, none, some, List, [], ◌∷◌, length, take, All, arith, contains, true, subst,
  Bool-cases, inl, inr,
}
use webitel_emails.Model.Runtime.{Time, EmailProfileAssignment, ImapRecovery, ImapCursor}
use webitel_emails.Polling.{Env, PollConfig, PolledProfile}
use webitel_emails.Polling.Search.{SearchRange, search_uids}
use webitel_emails.Polling.Search.Windows.{Ascending}
use webitel_emails.Polling.Deliver.{Handled, lookup, advance_confirmed, Delivered, deliver}
use webitel_emails.Polling.Deliver.Confirmed.{
  Accepted, Entries, deliver-Entries, Entries-lookup, advance_confirmed-Advanced,
}
use webitel_emails.Polling.Deliver.Complete.{
  IsConfirmed, Vanished, IsConfirmed-cons, IsConfirmed-here, deliver_complete, deliver-keeps,
}
use webitel_emails.Polling.Sync.Coverage.{All-take, take-Ascending}
use webitel_emails.Polling.Recovery.{
  SyncResult, imap_cursor, already_read, set_aside, split_fresh, recovered, recover_found, recover,
  finish_recovery,
}

-- The message was read under the previous UIDs: the server gives it a date, which is not zero
-- and is before the checkpoint.
pub record IsOld (checkpoint : Time) (dates : Handled) (uid : ℕ) (date : Time) : Type 0 where
  pub known : lookup dates uid ≡ some date
  pub not_zero : date ≢ 0
  pub before : date < checkpoint

set_aside-Entries :
    (checkpoint : Time) (dates : Handled) (uid : ℕ) (o : Option Time) (handled : Handled)
    → lookup dates uid ≡ o
    → Entries (IsOld checkpoint dates) handled
    → Entries (IsOld checkpoint dates) (set_aside (already_read checkpoint o) uid o handled)
unfolding set_aside already_read
set_aside-Entries checkpoint dates uid none handled e h = h
set_aside-Entries checkpoint dates uid (some date) handled e h =
    elim (Bool-cases (not (date == 0) && ltb date checkpoint)) [
      | inl t ↦
          rw (t, set_aside)
            (record { known = e; not_zero = ground arith; before = ground arith }, h)
      | inr t ↦ rw (t, set_aside) h
    ]

-- What the scan sets aside is old.
split_fresh-Entries :
    (checkpoint : Time) (dates : Handled) (uids : List ℕ) (handled : Handled)
    → Entries (IsOld checkpoint dates) handled
    → Entries (IsOld checkpoint dates) (split_fresh checkpoint dates uids handled).1
unfolding split_fresh
split_fresh-Entries checkpoint dates [] handled h = h
split_fresh-Entries checkpoint dates (uid ∷ uids) handled h =
    split_fresh-Entries checkpoint dates uids _
      (set_aside-Entries checkpoint dates uid (lookup dates uid) handled refl h)

set_aside-keeps :
    (old : Bool) (uid : ℕ) (o : Option Time) (handled : Handled) (u : ℕ)
    → IsConfirmed handled u
    → IsConfirmed (set_aside old uid o handled) u
unfolding set_aside
set_aside-keeps true uid none handled u h = h
set_aside-keeps true uid (some date) handled u h = IsConfirmed-cons uid date handled u h
set_aside-keeps false uid none handled u h = h
set_aside-keeps false uid (some date) handled u h = h

split_fresh-keeps :
    (checkpoint : Time) (dates : Handled) (uids : List ℕ) (handled : Handled) (u : ℕ)
    → IsConfirmed handled u
    → IsConfirmed (split_fresh checkpoint dates uids handled).1 u
unfolding split_fresh
split_fresh-keeps checkpoint dates [] handled u h = h
split_fresh-keeps checkpoint dates (uid ∷ uids) handled u h =
    split_fresh-keeps checkpoint dates uids _ u (
      set_aside-keeps (already_read checkpoint (lookup dates uid)) uid (lookup dates uid) handled u
        h)

set_aside-here :
    (checkpoint : Time) (uid : ℕ) (o : Option Time) (handled : Handled)
    → already_read checkpoint o ≡ true
    → IsConfirmed (set_aside (already_read checkpoint o) uid o handled) uid
unfolding set_aside already_read
set_aside-here checkpoint uid none handled h = absurd (cc)
set_aside-here checkpoint uid (some date) handled h =
    rw (h, set_aside) (IsConfirmed-here uid date handled)

-- Every UID is fresh or set aside.
split_fresh_complete :
    (checkpoint : Time) (dates : Handled) (uids : List ℕ) (handled : Handled) (u : ℕ)
    → contains uids u ≡ true
    → let split = split_fresh checkpoint dates uids handled in
      (contains split.0 u ≡ true) ⊎ IsConfirmed split.1 u
unfolding split_fresh contains
split_fresh_complete checkpoint dates [] handled u i = absurd (cc)
split_fresh_complete checkpoint dates (uid ∷ uids) handled u i =
    let o = lookup dates uid in
    let next = set_aside (already_read checkpoint o) uid o handled in
    elim (Bool-cases (contains uids u)) [
      | inl t ↦ elim (split_fresh_complete checkpoint dates uids next u t) [
        | inl f ↦ inl (ground arith)
        | inr c ↦ inr c
      ]
      | inr t ↦
          let same : uid ≡ u = ground arith in
          elim (Bool-cases (already_read checkpoint o)) [
            | inl old ↦ inr (
                split_fresh-keeps checkpoint dates uids next u
                  (subst (IsConfirmed next) same (set_aside-here checkpoint uid o handled old)))
            | inr fresh ↦ inl (ground arith)
          ]
    ]

All-of_contains : (P : ℕ → Type 0) (us : List ℕ) → ((u : ℕ) → contains us u ≡ true → P u) → All P us
unfolding contains
All-of_contains P [] h = tt
All-of_contains P (u ∷ us) h =
    (h u (ground arith), All-of_contains P us (λ v i. h v (ground arith)))

Entries-map :
    (P Q : ℕ → Time → Type 0)
    → ((uid : ℕ) (date : Time) → P uid date → Q uid date)
    → (handled : Handled) → Entries P handled
    → Entries Q handled
Entries-map P Q f [] h = tt
Entries-map P Q f ((u, d) ∷ rest) h = (f u d h.0, Entries-map P Q f rest h.1)

module _ {E W : Type 0} (env : Env E W) (config : PollConfig) (profile : PolledProfile)
    (assignment : EmailProfileAssignment) (cursor : ImapCursor) (recovery : ImapRecovery) where
  -- A message may be passed if the handler accepted it or it is old.
  abbrev pub MayPass : Handled → ℕ → Time → Type 0
  MayPass dates uid date =
      Accepted env config profile assignment cursor uid date
      ⊎ IsOld recovery.checkpoint dates uid date

  abbrev pub first_portion : List ℕ → List ℕ
  first_portion found =
      if ltb config.max_messages_per_poll (length found)
      then take config.max_messages_per_poll found
      else found

  portion-whole :
      (found : List ℕ)
      → ltb config.max_messages_per_poll (length found) ≡ false
      → first_portion found ≡ found
  portion-whole found e = rw (e) refl

  -- What one portion of the recovery gives for the UIDs that the search found, with the dates that
  -- the server gave.
  pub record Portion (dates : Handled) (found : List ℕ) (r : SyncResult E W) : Type 0 where
    pub confirmed : ImapCursor
    pub advanced :
        (confirmed.mailbox ≡ cursor.mailbox)
        × (confirmed.uid_validity ≡ cursor.uid_validity)
        × (confirmed.recovery ≡ cursor.recovery)
        × (cursor.last_uid ≤ confirmed.last_uid)
        × (cursor.last_internal_date ≤ confirmed.last_internal_date)
    pub covered :
        All
          (λ u. (confirmed.last_uid < u) ⊎ ((date : Time) × MayPass dates u date))
          (first_portion found)
    pub stored :
        (r.cursor ≡ imap_cursor confirmed)
        ⊎ ((r.cursor ≡ imap_cursor (finish_recovery confirmed recovery))
            × (r.imap_err ≡ none)
            × (r.handler_err ≡ none)
            × (r.more ≡ false)
            × (length found ≤ config.max_messages_per_poll)
            × All (λ u. ((date : Time) × MayPass dates u date) ⊎ Vanished env u) found)

  passed-MayPass :
      (dates handled : Handled) (last : ℕ) (us : List ℕ)
      → Entries (MayPass dates) handled
      → All (λ u. (last < u) ⊎ ((date : Time) × (lookup handled u ≡ some date))) us
      → All (λ u. (last < u) ⊎ ((date : Time) × MayPass dates u date)) us
  passed-MayPass dates handled last [] h p = tt
  passed-MayPass dates handled last (u ∷ us) h p = (
    elim p.0 [
      | inl x ↦ inl x
      | inr (date, e) ↦ inr (date, Entries-lookup (MayPass dates) handled u date h e)
    ],
    passed-MayPass dates handled last us h p.1,
  )

  recovered-stored :
      (confirmed : ImapCursor) (limited : Bool) (d : Delivered E W)
      → let r = recovered confirmed recovery limited d in
        (r.cursor ≡ imap_cursor confirmed)
        ⊎ ((r.cursor ≡ imap_cursor (finish_recovery confirmed recovery))
            × (r.imap_err ≡ none)
            × (r.handler_err ≡ none)
            × (r.more ≡ false)
            × (limited ≡ false)
            × (d.imap_err ≡ none)
            × (d.handler_err ≡ none))
  unfolding recovered
  recovered-stored confirmed limited d = ground arith

  module _ (dates : Handled) (found : List ℕ) (w : W) (a : Ascending (first_portion found))
      (above : All (λ u. cursor.last_uid < u) (first_portion found))
      (size : 1 ≤ config.fetch_batch_size) where
    abbrev delivered : Delivered E W
    delivered =
        let (fresh, aside) = split_fresh recovery.checkpoint dates (first_portion found) [] in
        deliver env config profile assignment cursor fresh aside w

    abbrev limited : Bool
    limited = ltb config.max_messages_per_poll (length found)

    -- The end of recover, for the UIDs of one portion.
    abbrev portion : SyncResult E W
    portion =
        recovered (advance_confirmed cursor (first_portion found) delivered.handled) recovery
          limited delivered

    delivered-Entries : Entries (MayPass dates) delivered.handled
    delivered-Entries =
        let split = split_fresh recovery.checkpoint dates (first_portion found) [] in
        deliver-Entries env config profile assignment cursor (MayPass dates) (λ u date x. inl x)
          split.0 split.1 w
          (Entries-map _ (MayPass dates) (λ u date x. inr x) split.1
            (split_fresh-Entries recovery.checkpoint dates (first_portion found) [] tt))

    confirmed-MayPass :
        (u : ℕ) → IsConfirmed delivered.handled u → (date : Time) × MayPass dates u date
    confirmed-MayPass u (date, e) =
        (date, Entries-lookup (MayPass dates) delivered.handled u date delivered-Entries e)

    -- Without an error every UID of the portion may be passed, or its message is gone.
    delivered-All :
        delivered.imap_err ≡ none
        → delivered.handler_err ≡ none
        → All (λ u. ((date : Time) × MayPass dates u date) ⊎ Vanished env u) (first_portion found)
    delivered-All ok_imap ok_handler = All-of_contains _ (first_portion found) λ u i.
        let split = split_fresh recovery.checkpoint dates (first_portion found) [] in
        elim (split_fresh_complete recovery.checkpoint dates (first_portion found) [] u i) [
          | inl fresh ↦
              elim (deliver_complete env config profile assignment cursor split.0 split.1 w size
                ok_imap ok_handler u fresh) [ inl c ↦ inl (confirmed-MayPass u c) | inr v ↦ inr v ]
          | inr aside ↦ inl (
              confirmed-MayPass u
                (deliver-keeps env config profile assignment cursor split.0 split.1 w u aside))
        ]

    portion-Portion : Portion dates found portion
    portion-Portion =
        let adv =
          advance_confirmed-Advanced cursor (first_portion found) delivered.handled a above in
        let confirmed = advance_confirmed cursor (first_portion found) delivered.handled in
        record {
          confirmed = confirmed;
          advanced = (adv.mailbox, adv.uid_validity, adv.recovery, adv.forward, adv.later);
          covered =
              passed-MayPass dates delivered.handled _ (first_portion found) delivered-Entries
                adv.passed;
          stored = elim (recovered-stored confirmed limited delivered) [
            | inl h ↦ inl h
            | inr (h, no_imap, no_handler, no_more, whole, ok_imap, ok_handler) ↦ inr (
              h,
              no_imap,
              no_handler,
              no_more,
              ground arith,
              subst (All (λ u. ((date : Time) × MayPass dates u date) ⊎ Vanished env u))
                  (portion-whole found whole) (delivered-All ok_imap ok_handler),
            )
          ];
        }

  abbrev pub recovery_range : SearchRange
  recovery_range = record {
    after = cursor.last_uid;
    to = recovery.to_uid;
    since = recovery.since;
    limit = config.max_messages_per_poll;
  }

  portion_ok :
      (found : List ℕ)
      → Ascending found
      → All (λ u. cursor.last_uid < u) found
      → Ascending (first_portion found) × All (λ u. cursor.last_uid < u) (first_portion found)
  portion_ok found a above = elim (Bool-cases (ltb config.max_messages_per_poll (length found))) [
    | inl e ↦ rw e (take-Ascending _ found a, All-take _ _ found above)
    | inr e ↦ rw e (a, above)
  ]

  -- A recovery that has not reached its end searches and finds at least one UID; what it finds
  -- ascends from behind the cursor, the server answers with the dates of the first
  -- `max_messages_per_poll` of them, and batches are not empty. Whatever the handler and FetchRaw
  -- do, the poll goes to a confirmed cursor of the same mailbox, UIDVALIDITY and recovery that is
  -- not behind the old one, and every UID of the portion that it has passed was accepted by the
  -- handler in this poll or has a date before the checkpoint. The stored cursor is that one, or the
  -- end of the recovery: the latter only after a poll with no error that read all that was found,
  -- when the message of each of these UIDs was accepted by the handler in this poll, has a date
  -- before the checkpoint, or was not there when FetchRaw asked for it.
  pub recover-Portion :
      (u : ℕ) (us : List ℕ) (dates : Handled) (w w' w2 : W)
      → 1 ≤ config.fetch_batch_size
      → cursor.last_uid < recovery.to_uid
      → search_uids env recovery_range w ≡ done (u ∷ us) w'
      → Ascending (u ∷ us)
      → All (λ v. cursor.last_uid < v) (u ∷ us)
      → env.fetch_internal_dates (first_portion (u ∷ us)) w' ≡ done dates w2
      → Portion dates (u ∷ us) (recover env config profile assignment cursor recovery w)
  unfolding recover recover_found
  recover-Portion u us dates w w' w2 size h searched a above fetched =
      let ok = portion_ok (u ∷ us) a above in
      let p = portion-Portion dates (u ∷ us) w2 ok.0 ok.1 size in
      let open_end : leb recovery.to_uid cursor.last_uid ≡ false = ground arith in
      rw (open_end, searched, fetched, recover, recover_found) p
