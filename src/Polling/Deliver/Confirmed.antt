-- ===== src/Polling/Deliver/Confirmed.antt =====
-- The cursor moves over confirmed messages only.
use webitel_emails.Prelude.{
  ℕ, zero, suc, ◌≤◌, ◌<◌, ◌≡◌, ◌⊎◌, refl, ◌==◌, nat_eq, ltb, if◌then◌else◌, Option, none, some,
  List, [], ◌∷◌, length, take, drop, min, All, arith, Bool-cases, Option-cases, In, inl, inr,
}
use mathlib.Core.Path.{subst₂}
use webitel_emails.Model.Runtime.{Time, EmailProfileAssignment, ImapCursor}
use webitel_emails.Polling.{ImapMessage, Env, PollConfig, PolledProfile}
use webitel_emails.Polling.Deliver.{
  Handled, lookup, advance_confirmed, to_message, Delivered, record_answer, on_message, on_messages,
  deliver_batch, deliver_loop, deliver,
}
use webitel_emails.Polling.Search.Windows.{Ascending}

module _ {E W : Type 0} (env : Env E W) (config : PollConfig) (profile : PolledProfile)
    (assignment : EmailProfileAssignment) (cursor : ImapCursor) where
  -- The handler accepted a message with this UID and this date.
  pub data Accepted (uid : ℕ) (date : Time) : Type 0 where
    accepted :
        (m : ImapMessage) (before after : W)
        → m.uid ≡ uid
        → m.internal_date ≡ date
        → env.handle (to_message profile assignment cursor m) before ≡ (none, after)
        → Accepted uid date

abbrev pub Entries : (ℕ → Time → Type 0) → Handled → Type 0
Entries Q = All λ entry. Q entry.0 entry.1

-- What holds of every entry of `handled` stays true of all when accepted messages have it.
module _ {E W : Type 0} (env : Env E W) (config : PollConfig) (profile : PolledProfile)
    (assignment : EmailProfileAssignment) (cursor : ImapCursor) (Q : ℕ → Time → Type 0)
    (keep : (uid : ℕ) (date : Time)
      → Accepted env config profile assignment cursor uid date
      → Q uid date) where
  record_answer-Entries :
      (m : ImapMessage) (handled : Handled) (before after : W) (answer : Option E)
      → env.handle (to_message profile assignment cursor m) before ≡ (answer, after)
      → Entries Q handled
      → Entries Q
          (record_answer env config profile assignment cursor m handled answer after).handled
  unfolding record_answer
  record_answer-Entries m handled before after none e h =
      (keep m.uid m.internal_date (accepted m before after refl refl e), h)
  record_answer-Entries m handled before after (some _) e h = h

  on_message-Entries :
      (d : Delivered E W) (m : ImapMessage)
      → Entries Q d.handled
      → Entries Q (on_message env config profile assignment cursor d m).handled
  unfolding on_message
  on_message-Entries d m h = elim (Option-cases d.handler_err) [
    | inr (e, p) ↦ rw (p, on_message) h
    | inl p ↦ elim (Option-cases (env.ctx_err d.world)) [
      | inr (e, q) ↦ rw (p, q, on_message) h
      | inl q ↦
          let answer = env.handle (to_message profile assignment cursor m) d.world in
          rw (p, q, on_message) (record_answer-Entries m d.handled d.world answer.1 answer.0 refl h)
    ]
  ]

  on_messages-Entries :
      (d : Delivered E W) (ms : List ImapMessage)
      → Entries Q d.handled
      → Entries Q (on_messages env config profile assignment cursor d ms).handled
  unfolding on_messages
  on_messages-Entries d [] h = h
  on_messages-Entries d (m ∷ ms) h =
      on_messages-Entries (on_message env config profile assignment cursor d m) ms
        (on_message-Entries d m h)

  deliver_batch-Entries :
      (batch : List ℕ) (handled : Handled) (w : W)
      → Entries Q handled
      → Entries Q (deliver_batch env config profile assignment cursor batch handled w).handled
  unfolding deliver_batch
  deliver_batch-Entries batch handled w h = on_messages-Entries _ (env.fetch_raw batch w).0 h

  deliver_loop-Entries :
      (fuel : ℕ) (uids : List ℕ) (handled : Handled) (w : W)
      → Entries Q handled
      → Entries Q (deliver_loop env config profile assignment cursor fuel uids handled w).handled
  unfolding deliver_loop
  deliver_loop-Entries zero uids handled w h = h
  deliver_loop-Entries (suc fuel) [] handled w h = h
  deliver_loop-Entries (suc fuel) (u ∷ us) handled w h =
      let size = min config.fetch_batch_size (length (u ∷ us)) in
      let d = deliver_batch env config profile assignment cursor (take size (u ∷ us)) handled w in
      let hd = deliver_batch-Entries (take size (u ∷ us)) handled w h in
      elim (Option-cases d.imap_err) [
        | inr (e, p) ↦ rw (p, deliver_loop) hd
        | inl p ↦ elim (Option-cases d.handler_err) [
          | inr (e, q) ↦ rw (p, q, deliver_loop) hd
          | inl q ↦
              rw (p, q, deliver_loop)
                (deliver_loop-Entries fuel (drop size (u ∷ us)) d.handled d.world hd)
        ]
      ]

  pub deliver-Entries :
      (uids : List ℕ) (handled : Handled) (w : W)
      → Entries Q handled
      → Entries Q (deliver env config profile assignment cursor uids handled w).handled
  unfolding deliver
  deliver-Entries uids handled w h = deliver_loop-Entries (length uids) uids handled w h

pub Entries-lookup :
    (Q : ℕ → Time → Type 0) (handled : Handled) (uid : ℕ) (date : Time)
    → Entries Q handled
    → lookup handled uid ≡ some date
    → Q uid date
unfolding lookup
Entries-lookup Q [] uid date h e = absurd (cc)
Entries-lookup Q ((u, d) ∷ rest) uid date h e = elim (Bool-cases (u == uid)) [
  | inl t ↦ subst₂ Q (ground arith) (ground arith) h.0
  | inr t ↦ Entries-lookup Q rest uid date h.1 (ground arith)
]

-- What advanceConfirmed promises of the cursor that it moves over `requested`.
pub record Advanced (from : ImapCursor) (requested : List ℕ) (handled : Handled) (to : ImapCursor)
    : Type 0 where
  pub mailbox : to.mailbox ≡ from.mailbox
  pub uid_validity : to.uid_validity ≡ from.uid_validity
  pub recovery : to.recovery ≡ from.recovery
  pub forward : from.last_uid ≤ to.last_uid
  pub later : from.last_internal_date ≤ to.last_internal_date
  pub reached : (to.last_uid ≡ from.last_uid) ⊎ In to.last_uid requested
  pub passed :
      All (λ u. (to.last_uid < u) ⊎ ((date : Time) × (lookup handled u ≡ some date))) requested

pub beyond_last :
    (n : ℕ) (P : ℕ → Type 0) (us : List ℕ) → All (λ v. n < v) us → All (λ u. (n < u) ⊎ P u) us
beyond_last n P [] h = tt
beyond_last n P (u ∷ us) h = (inl h.0, beyond_last n P us h.1)

pub advance_confirmed-Advanced :
    (cursor : ImapCursor) (requested : List ℕ) (handled : Handled)
    → Ascending requested
    → All (λ u. cursor.last_uid < u) requested
    → Advanced cursor requested handled (advance_confirmed cursor requested handled)
unfolding advance_confirmed
advance_confirmed-Advanced cursor [] handled a h = record {
  mailbox = refl;
  uid_validity = refl;
  recovery = refl;
  forward = omega arith;
  later = omega arith;
  reached = inl refl;
  passed = tt;
}
advance_confirmed-Advanced cursor (uid ∷ requested) handled a h =
    elim (Option-cases (lookup handled uid)) [
      | inl e ↦
          rw (e, advance_confirmed)
            (record {
              mailbox = refl;
              uid_validity = refl;
              recovery = refl;
              forward = omega arith;
              later = omega arith;
              reached = inl refl;
              passed = beyond_last cursor.last_uid _ (uid ∷ requested) h;
            })
      | inr (date, e) ↦
          let moved : ImapCursor = record cursor {
            last_uid = uid;
            last_internal_date =
                if ltb cursor.last_internal_date date then date else cursor.last_internal_date;
          } in
          let rest = advance_confirmed-Advanced moved requested handled a.1 a.0 in
          rw (e, advance_confirmed)
            (record {
              mailbox = rest.mailbox;
              uid_validity = rest.uid_validity;
              recovery = rest.recovery;
              forward = omega (arith, rest.forward, h.0);
              later = ground (arith, rest.later);
              reached = inr rest.reached;
              passed = (inr (date, e), rest.passed);
            })
    ]
