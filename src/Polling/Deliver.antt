-- ===== src/Polling/Deliver.antt =====
-- internal/polling/sync.go: deliver and advanceConfirmed. The map `handled` is an association
-- list, its newest entry first.
pub mod Confirmed
pub mod Complete
use webitel_emails.Prelude.{
  ℕ, zero, suc, Bool, true, false, ◌==◌, nat_eq, ltb, if◌then◌else◌, Option, none, some, List, [],
  ◌∷◌, length, take, drop, min,
}
use webitel_emails.Model.Runtime.{Time, EmailProfileAssignment, ImapCursor}
use webitel_emails.Polling.{ImapMessage, Message, Env, PollConfig, PolledProfile}

abbrev pub Handled : Type 0
Handled = List (ℕ × Time)

unfoldable pub lookup : Handled → ℕ → Option Time
lookup [] uid = none
lookup ((u, date) ∷ rest) uid = if u == uid then some date else lookup rest uid

unfoldable pub advance_confirmed : ImapCursor → List ℕ → Handled → ImapCursor
advance_confirmed cursor [] handled = cursor
advance_confirmed cursor (uid ∷ requested) handled = elim (lookup handled uid) [
  | none ↦ cursor
  | some date ↦
      advance_confirmed
        (record cursor {
          last_uid = uid;
          last_internal_date =
              if ltb cursor.last_internal_date date then date else cursor.last_internal_date;
        })
        requested handled
]

-- The message that deliver builds for the handler.
abbrev pub to_message : PolledProfile → EmailProfileAssignment → ImapCursor → ImapMessage → Message
to_message profile assignment cursor m = record {
  domain_id = profile.domain_id;
  profile_id = profile.id;
  assignment = assignment;
  mailbox = cursor.mailbox;
  uid_validity = cursor.uid_validity;
  uid = m.uid;
  internal_date = m.internal_date;
  size = m.size;
  raw = m.raw;
  too_large = m.too_large;
}

pub record Delivered (E W : Type 0) : Type 0 where
  pub imap_err : Option E
  pub handler_err : Option E
  pub handled : Handled
  pub world : W

module _ {E W : Type 0} (env : Env E W) (config : PollConfig) (profile : PolledProfile)
    (assignment : EmailProfileAssignment) (cursor : ImapCursor) where
  -- What the handler's answer means for `handlerErr` and `handled`.
  unfoldable pub record_answer : ImapMessage → Handled → Option E → W → Delivered E W
  record_answer m handled none w = record {
    imap_err = none;
    handler_err = none;
    handled = (m.uid, m.internal_date) ∷ handled;
    world = w;
  }
  record_answer m handled (some e) w = record {
    imap_err = none;
    handler_err = some e;
    handled = handled;
    world = w;
  }

  -- One call of the callback.
  unfoldable pub on_message : Delivered E W → ImapMessage → Delivered E W
  unfolding record_answer
  on_message d m = elim d.handler_err [
    | some _ ↦ d
    | none ↦ elim (env.ctx_err d.world) [
      | some e ↦ record d { handler_err = some e }
      | none ↦
          let (answer, w') = env.handle (to_message profile assignment cursor m) d.world in
          record_answer m d.handled answer w'
    ]
  ]

  unfoldable pub on_messages : Delivered E W → List ImapMessage → Delivered E W
  on_messages d [] = d
  on_messages d (m ∷ ms) = on_messages (on_message d m) ms

  -- One batch: the callback on what FetchRaw hands out, then its error.
  unfoldable pub deliver_batch : List ℕ → Handled → W → Delivered E W
  unfolding on_messages on_message
  deliver_batch batch handled w =
      let (messages, err, w') = env.fetch_raw batch w in
      let d =
        on_messages (record { imap_err = none; handler_err = none; handled = handled; world = w' })
          messages in
      record d { imap_err = err }

  -- The loop of deliver; the first argument bounds its rounds.
  unfoldable pub deliver_loop : ℕ → List ℕ → Handled → W → Delivered E W
  deliver_loop zero uids handled w = record {
    imap_err = none;
    handler_err = none;
    handled = handled;
    world = w;
  }
  deliver_loop (suc fuel) [] handled w = record {
    imap_err = none;
    handler_err = none;
    handled = handled;
    world = w;
  }
  deliver_loop (suc fuel) (u ∷ us) handled w =
      let size = min config.fetch_batch_size (length (u ∷ us)) in
      let d = deliver_batch (take size (u ∷ us)) handled w in
      let rest = deliver_loop fuel (drop size (u ∷ us)) d.handled d.world in
      elim d.imap_err [ some _ ↦ d | none ↦ elim d.handler_err [ some _ ↦ d | none ↦ rest ] ]

  unfoldable pub deliver : List ℕ → Handled → W → Delivered E W
  unfolding deliver_loop
  deliver uids handled w = deliver_loop (length uids) uids handled w
