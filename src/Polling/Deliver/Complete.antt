-- ===== src/Polling/Deliver/Complete.antt =====
-- deliver without an error: which of the requested messages it has not confirmed.
use webitel_emails.Prelude.{
  ℕ, zero, suc, ◌≤◌, ◌≡◌, ◌⊎◌, refl, subst, true, false, ◌==◌, nat_eq, Option, none, some, List, [],
  ◌∷◌, map, length, take, drop, min, arith, Bool-cases, Option-cases, contains, inl, inr,
  length-drop,
}
use webitel_emails.Model.Runtime.{Time, EmailProfileAssignment, ImapCursor}
use webitel_emails.Polling.{ImapMessage, Env, PollConfig, PolledProfile}
use webitel_emails.Polling.Deliver.{
  Handled, lookup, to_message, Delivered, record_answer, on_message, on_messages, deliver_batch,
  deliver_loop, deliver,
}

-- The message has a date in `handled`.
abbrev pub IsConfirmed : Handled → ℕ → Type 0
IsConfirmed handled uid = (date : Time) × (lookup handled uid ≡ some date)

-- FetchRaw was asked for the message, and gave neither it nor an error: it is no longer there.
pub record Vanished {E W : Type 0} (env : Env E W) (uid : ℕ) : Type 0 where
  pub batch : List ℕ
  pub world : W
  pub asked : contains batch uid ≡ true
  pub no_error : (env.fetch_raw batch world).1 ≡ none
  pub absent : contains (map (λ m. m.uid) (env.fetch_raw batch world).0) uid ≡ false

pub IsConfirmed-cons :
    (u : ℕ) (date : Time) (handled : Handled) (uid : ℕ)
    → IsConfirmed handled uid
    → IsConfirmed ((u, date) ∷ handled) uid
unfolding lookup
IsConfirmed-cons u date handled uid (d, h) = elim (Bool-cases (u == uid)) [
  | inl e ↦ (date, rw (e) refl)
  | inr e ↦ (d, rw (e) h)
]

pub IsConfirmed-here :
    (u : ℕ) (date : Time) (handled : Handled) → IsConfirmed ((u, date) ∷ handled) u
unfolding lookup
IsConfirmed-here u date handled = (date, ground arith)

contains-split :
    (n : ℕ) (uids : List ℕ) (uid : ℕ)
    → contains uids uid ≡ true
    → (contains (take n uids) uid ≡ true) ⊎ (contains (drop n uids) uid ≡ true)
unfolding contains
contains-split zero uids uid h = inr h
contains-split (suc n) [] uid h = absurd (cc)
contains-split (suc n) (u ∷ us) uid h = let r = contains-split n us uid in ground arith

module _ {E W : Type 0} (env : Env E W) (config : PollConfig) (profile : PolledProfile)
    (assignment : EmailProfileAssignment) (cursor : ImapCursor) where
  record_answer-keeps :
      (m : ImapMessage) (handled : Handled) (answer : Option E) (w : W) (uid : ℕ)
      → IsConfirmed handled uid
      → IsConfirmed
          (record_answer env config profile assignment cursor m handled answer w).handled
          uid
  unfolding record_answer
  record_answer-keeps m handled none w uid h = IsConfirmed-cons m.uid m.internal_date handled uid h
  record_answer-keeps m handled (some e) w uid h = h

  record_answer-confirms :
      (m : ImapMessage) (handled : Handled) (answer : Option E) (w : W)
      → (record_answer env config profile assignment cursor m handled answer w).handler_err ≡ none
      → IsConfirmed
          (record_answer env config profile assignment cursor m handled answer w).handled
          m.uid
  unfolding record_answer
  record_answer-confirms m handled none w h = IsConfirmed-here m.uid m.internal_date handled
  record_answer-confirms m handled (some e) w h = absurd (cc)

  -- The callback keeps what is confirmed.
  on_message-keeps :
      (d : Delivered E W) (m : ImapMessage) (uid : ℕ)
      → IsConfirmed d.handled uid
      → IsConfirmed (on_message env config profile assignment cursor d m).handled uid
  unfolding on_message
  on_message-keeps d m uid h = elim (Option-cases d.handler_err) [
    | inr (e, p) ↦ rw (p, on_message) h
    | inl p ↦ elim (Option-cases (env.ctx_err d.world)) [
      | inr (e, q) ↦ rw (p, q, on_message) h
      | inl q ↦
          rw (p, q, on_message)
            (record_answer-keeps m d.handled
              (env.handle (to_message profile assignment cursor m) d.world).0
              (env.handle (to_message profile assignment cursor m) d.world).1 uid h)
    ]
  ]

  -- Without an error it confirms its message.
  on_message-confirms :
      (d : Delivered E W) (m : ImapMessage)
      → (on_message env config profile assignment cursor d m).handler_err ≡ none
      → (d.handler_err ≡ none)
        × IsConfirmed (on_message env config profile assignment cursor d m).handled m.uid
  unfolding on_message
  on_message-confirms d m h = elim (Option-cases d.handler_err) [
    | inr (e, p) ↦ absurd (let q = rw (p, on_message) at h in cc)
    | inl p ↦ elim (Option-cases (env.ctx_err d.world)) [
      | inr (e, q) ↦ absurd (let r = rw (p, q, on_message) at h in cc)
      | inl q ↦
          let answer = env.handle (to_message profile assignment cursor m) d.world in
          (
            p,
            rw (p, q, on_message)
                (record_answer-confirms m d.handled answer.0 answer.1 (rw (p, q, on_message) at h)),
          )
    ]
  ]

  on_messages-keeps :
      (d : Delivered E W) (ms : List ImapMessage) (uid : ℕ)
      → IsConfirmed d.handled uid
      → IsConfirmed (on_messages env config profile assignment cursor d ms).handled uid
  unfolding on_messages
  on_messages-keeps d [] uid h = h
  on_messages-keeps d (m ∷ ms) uid h =
      on_messages-keeps (on_message env config profile assignment cursor d m) ms uid
        (on_message-keeps d m uid h)

  on_messages-confirms :
      (d : Delivered E W) (ms : List ImapMessage)
      → (on_messages env config profile assignment cursor d ms).handler_err ≡ none
      → (d.handler_err ≡ none)
        × ((uid : ℕ)
            → contains (map (λ m. m.uid) ms) uid ≡ true
            → IsConfirmed (on_messages env config profile assignment cursor d ms).handled uid)
  unfolding on_messages contains
  on_messages-confirms d [] h = (h, λ uid i. absurd (cc))
  on_messages-confirms d (m ∷ ms) h =
      let next = on_message env config profile assignment cursor d m in
      let rest = on_messages-confirms next ms h in
      let here = on_message-confirms d m rest.0 in
      (
        here.0,
        λ uid i. elim (Bool-cases (contains (map (λ x. x.uid) ms) uid)) [
          | inl t ↦ rest.1 uid t
          | inr t ↦
              subst (IsConfirmed (on_messages env config profile assignment cursor next ms).handled)
                (ground arith) (on_messages-keeps next ms m.uid here.1)
        ],
      )

  -- What a batch without errors leaves unconfirmed is no longer there.
  batch_complete :
      (batch : List ℕ) (handled : Handled) (w : W)
      → let d = deliver_batch env config profile assignment cursor batch handled w in
        d.imap_err ≡ none
        → d.handler_err ≡ none
        → (uid : ℕ) → contains batch uid ≡ true
        → IsConfirmed d.handled uid ⊎ Vanished env uid
  unfolding deliver_batch
  batch_complete batch handled w ok_imap ok_handler uid asked =
      let messages = (env.fetch_raw batch w).0 in
      elim (Bool-cases (contains (map (λ m. m.uid) messages) uid)) [
        | inl t ↦ inl ((on_messages-confirms _ messages ok_handler).1 uid t)
        | inr t ↦
            inr (record { batch = batch; world = w; asked = asked; no_error = ok_imap; absent = t })
      ]

  batch-keeps :
      (batch : List ℕ) (handled : Handled) (w : W) (uid : ℕ)
      → IsConfirmed handled uid
      → IsConfirmed (deliver_batch env config profile assignment cursor batch handled w).handled uid
  unfolding deliver_batch
  batch-keeps batch handled w uid h = on_messages-keeps _ (env.fetch_raw batch w).0 uid h

  loop-keeps :
      (fuel : ℕ) (uids : List ℕ) (handled : Handled) (w : W) (uid : ℕ)
      → IsConfirmed handled uid
      → IsConfirmed
          (deliver_loop env config profile assignment cursor fuel uids handled w).handled
          uid
  unfolding deliver_loop
  loop-keeps zero uids handled w uid h = h
  loop-keeps (suc fuel) [] handled w uid h = h
  loop-keeps (suc fuel) (u ∷ us) handled w uid h =
      let size = min config.fetch_batch_size (length (u ∷ us)) in
      let d = deliver_batch env config profile assignment cursor (take size (u ∷ us)) handled w in
      let kept = batch-keeps (take size (u ∷ us)) handled w uid h in
      elim (Option-cases d.imap_err) [
        | inr (e, p) ↦ rw (p, deliver_loop) kept
        | inl p ↦ elim (Option-cases d.handler_err) [
          | inr (e, q) ↦ rw (p, q, deliver_loop) kept
          | inl q ↦
              rw (p, q, deliver_loop)
                (loop-keeps fuel (drop size (u ∷ us)) d.handled d.world uid kept)
        ]
      ]

  loop_complete :
      (fuel : ℕ) (uids : List ℕ) (handled : Handled) (w : W)
      → 1 ≤ config.fetch_batch_size
      → length uids ≤ fuel
      → let d = deliver_loop env config profile assignment cursor fuel uids handled w in
        d.imap_err ≡ none
        → d.handler_err ≡ none
        → (uid : ℕ) → contains uids uid ≡ true
        → IsConfirmed d.handled uid ⊎ Vanished env uid
  unfolding deliver_loop
  loop_complete zero [] handled w size fits ok_imap ok_handler uid i =
      unfold contains in absurd (cc)
  loop_complete zero (u ∷ us) handled w size fits ok_imap ok_handler uid i = absurd (omega arith)
  loop_complete (suc fuel) [] handled w size fits ok_imap ok_handler uid i =
      unfold contains in absurd (cc)
  loop_complete (suc fuel) (u ∷ us) handled w size fits ok_imap ok_handler uid i =
      let n = min config.fetch_batch_size (length (u ∷ us)) in
      let batch = take n (u ∷ us) in
      let d = deliver_batch env config profile assignment cursor batch handled w in
      elim (Option-cases d.imap_err) [
        | inr (e, p) ↦ absurd (let r = rw (p, deliver_loop) at ok_imap in cc)
        | inl p ↦ elim (Option-cases d.handler_err) [
          | inr (e, q) ↦ absurd (let r = rw (p, q, deliver_loop) at ok_handler in cc)
          | inl q ↦
              rw (p, q, deliver_loop)
                (elim (contains-split n (u ∷ us) uid i) [
                  | inl t ↦ elim (batch_complete batch handled w p q uid t) [
                    | inl c ↦ inl (loop-keeps fuel (drop n (u ∷ us)) d.handled d.world uid c)
                    | inr v ↦ inr v
                  ]
                  | inr t ↦
                      loop_complete fuel (drop n (u ∷ us)) d.handled d.world size
                        (omega (arith, length-drop n (u ∷ us))) (rw (p, q, deliver_loop) at ok_imap)
                        (rw (p, q, deliver_loop) at ok_handler) uid t
                ])
        ]
      ]

  -- Without an error, what deliver leaves unconfirmed is no longer there.
  pub deliver_complete :
      (uids : List ℕ) (handled : Handled) (w : W)
      → 1 ≤ config.fetch_batch_size
      → let d = deliver env config profile assignment cursor uids handled w in
        d.imap_err ≡ none
        → d.handler_err ≡ none
        → (uid : ℕ) → contains uids uid ≡ true
        → IsConfirmed d.handled uid ⊎ Vanished env uid
  unfolding deliver
  deliver_complete uids handled w size =
      loop_complete (length uids) uids handled w size (omega arith)

  pub deliver-keeps :
      (uids : List ℕ) (handled : Handled) (w : W) (uid : ℕ)
      → IsConfirmed handled uid
      → IsConfirmed (deliver env config profile assignment cursor uids handled w).handled uid
  unfolding deliver
  deliver-keeps uids handled w = loop-keeps (length uids) uids handled w
