-- ===== src/Event/Row/Accepted.antt =====
-- Which messages get an event, and that every valid one gets its Outbox row.
use webitel_emails.Prelude.{
  ℕ, ◌≤◌, ◌<◌, ◌≡◌, refl, subst, sym, ap, ap₂, ◌↔◌, ◌∙◌, inl, inr, true, false, ltb, nat_eq,
  Bool-cases, Option-cases, bytes_beq, bytes_eq, ◌==◌, Option, none, some, length, Bytes, arith,
  ◌≢◌, [],
}
use webitel_emails.Model.Email.{
  EmailKind, EmailThreadKind, EmailMessage, EmailThread, EmailMessageDirection,
}
use webitel_emails.Event.Clean.{field}
use webitel_emails.Event.Snapshot.{Limits, InboundMessage, InboundMessageSource}
use webitel_emails.Event.Envelope.{
  type_inbound_message, EventError, ok, error, wrong_thread, not_eligible, envelope, belongs,
  eligible, new_from, validated, new_inbound_message, validate,
}
use webitel_emails.Event.Json.{json_time, encode_envelope, encode_message}
use webitel_emails.Event.Json.Size.{length-json_object}
use webitel_emails.Event.Limits.{validate_limits}
use webitel_emails.Event.Limits.Fits.Never.{
  UuidText, Int64Source, envelope_fits, encode_message-times, validate_limits-worst,
}
use webitel_emails.Event.Row.{marshal, new_inbound_message_outbox_event, row_of}
use webitel_emails.Outbox.Event.{validate as validate_row}

-- What a message and a thread must be for an envelope to be made of them.
abbrev pub IsAccepted : EmailMessage → EmailThread → InboundMessage → Type 0
IsAccepted message thread e =
    (eligible (some message) (some thread) ≡ true)
    × (belongs message thread ≡ true)
    × (validate e ≡ none)

ge→ltb : (a b : ℕ) → a ≤ b → ltb b a ≡ false
ge→ltb a b h = ground arith

error_not_ok : {A : Type 0} (err : EventError) (a : A) → error err ≡ ok a → ⊥
error_not_ok err a h = cc

ok_injective : {A : Type 0} (a b : A) → ok a ≡ ok b → a ≡ b
ok_injective a b h = cc

validated-ok : (made e : InboundMessage) → validated made ≡ ok e → (e ≡ made) × (validate e ≡ none)
validated-ok made e h = elim (Option-cases (validate made)) [
  | inl valid ↦
      subst (λ x. (x ≡ made) × (validate x ≡ none))
        (ok_injective made e (sym (rw (valid, validated) refl) ∙ h)) (refl, valid)
  | inr (err, invalid) ↦ absurd (error_not_ok err e (sym (rw (invalid, validated) refl) ∙ h))
]

new_from-both :
    (event_id : ℕ) (src : InboundMessageSource) (l : Limits) (e : InboundMessage)
    (message : EmailMessage) (thread : EmailThread)
    → new_from event_id src l (some message) (some thread) ≡ ok e
    → (eligible (some message) (some thread) ≡ true)
      × (belongs message thread ≡ true)
      × (validated (envelope event_id message thread src l) ≡ ok e)
unfolding new_from
new_from-both event_id src l e message thread h =
    elim (Bool-cases (eligible (some message) (some thread))) [
      | inl accepted ↦ elim (Bool-cases (belongs message thread)) [
        | inl its ↦ (accepted, its, sym (rw (accepted, new_from, its) refl) ∙ h)
        | inr other ↦
            absurd (error_not_ok wrong_thread e (sym (rw (accepted, new_from, other) refl) ∙ h))
      ]
      | inr refused ↦ absurd (error_not_ok not_eligible e (sym (rw (refused, new_from) refl) ∙ h))
    ]

new_from-ok :
    (event_id : ℕ) (src : InboundMessageSource) (l : Limits) (e : InboundMessage)
    (m : Option EmailMessage) (t : Option EmailThread)
    → new_from event_id src l m t ≡ ok e
    → (message : EmailMessage) × (thread : EmailThread) × (m ≡ some message)
      × (t ≡ some thread)
      × IsAccepted message thread e
      × (e ≡ envelope event_id message thread src l)
unfolding new_from
new_from-ok event_id src l e none t h = ground arith
new_from-ok event_id src l e (some message) none h = ground arith
new_from-ok event_id src l e (some message) (some thread) h =
    let (accepted, its, made) = new_from-both event_id src l e message thread h in
    let (same, valid) = validated-ok (envelope event_id message thread src l) e made in
    (message, thread, refl, refl, (accepted, its, valid), same)

-- The messages that have an event, in the words of docs/events.md: inbound and regular, of a regular
-- thread of the same domain and profile; and every id, time and text that an event needs is there.
pub record Publishable (event_id : ℕ) (src : InboundMessageSource) (l : Limits)
    (message : EmailMessage) (thread : EmailThread) : Type 0 where
  pub inbound : message.direction ≡ EmailMessageDirection.inbound
  pub regular : message.kind ≡ EmailKind.regular
  pub regular_thread : thread.kind ≡ EmailThreadKind.regular
  pub same_domain : message.domain_id ≡ thread.domain_id
  pub same_thread : message.thread_id ≡ thread.id
  pub same_profile : message.profile_id ≡ thread.profile_id
  pub identified :
      (1 ≤ event_id)
      × (1 ≤ message.domain_id)
      × (1 ≤ message.profile_id)
      × (1 ≤ thread.id)
      × (1 ≤ message.id)
  pub timed : (1 ≤ src.occurred_at) × (1 ≤ message.received_at)
  pub linked : (src.flow_id ≢ some 0) × (thread.contact_id ≢ some 0)
  pub named : field message.message_id l.max_field_size ≢ []

accepted-Publishable :
    (event_id : ℕ) (src : InboundMessageSource) (l : Limits) (message : EmailMessage)
    (thread : EmailThread)
    → IsAccepted message thread (envelope event_id message thread src l)
    → Publishable event_id src l message thread
unfolding eligible validate
accepted-Publishable event_id src l message thread (accepted, its, valid) = record {
  inbound = ground arith;
  regular = ground arith;
  regular_thread = ground arith;
  same_domain = ground arith;
  same_thread = ground arith;
  same_profile = ground arith;
  identified = (ground arith, ground arith, ground arith, ground arith, ground arith);
  timed = (ground arith, ground arith);
  linked = (ground arith, ground arith);
  named = ground arith;
}

Publishable-IsAccepted :
    (event_id : ℕ) (src : InboundMessageSource) (l : Limits) (message : EmailMessage)
    (thread : EmailThread)
    → Publishable event_id src l message thread
    → IsAccepted message thread (envelope event_id message thread src l)
unfolding eligible validate bytes_beq
Publishable-IsAccepted event_id src l message thread h =
    let of_type : type_inbound_message == type_inbound_message ≡ true = refl in
    (
      ground arith,
      ground arith,
      ground
          (arith, of_type, h.identified, h.timed, h.linked, h.named, h.regular, h.regular_thread),
    )

eligible_kinds :
    (message : EmailMessage) (thread : EmailThread)
    → eligible (some message) (some thread) ≡ true
    → (message.kind ≡ EmailKind.regular) × (thread.kind ≡ EmailThreadKind.regular)
unfolding eligible
eligible_kinds message thread h = ground arith

module _ (uuid_text : ℕ → Bytes) where
  encode_envelope-not_empty :
      (e : InboundMessage) (a b : Bytes) → 0 < length (encode_envelope uuid_text e a b)
  unfolding encode_envelope
  encode_envelope-not_empty e a b = omega (arith, length-json_object _ _)

  marshal-ok :
      (e : InboundMessage) (max_size : ℕ) (payload : Bytes)
      → validate e ≡ none
      → encode_message uuid_text e ≡ some payload
      → length payload ≤ max_size
      → marshal uuid_text e max_size ≡ ok payload
  unfolding marshal
  marshal-ok e max_size payload valid json fits =
      rw (valid, marshal, json, ge→ltb (length payload) max_size fits) refl

new_from-accepted :
    (event_id : ℕ) (src : InboundMessageSource) (l : Limits) (message : EmailMessage)
    (thread : EmailThread)
    → IsAccepted message thread (envelope event_id message thread src l)
    → new_from event_id src l (some message) (some thread)
      ≡ ok (envelope event_id message thread src l)
unfolding new_from
new_from-accepted event_id src l message thread (accepted, its, valid) =
    rw (accepted, new_from, its, validated, valid) refl

-- An envelope is made exactly of an inbound regular message and its regular thread, of the same
-- domain and profile, with positive ids, times that are not zero, and a Message-ID that is not
-- empty once it is clean; and it is the envelope of that message and thread.
pub new_inbound_message-ok :
    (event_id : ℕ) (src : InboundMessageSource) (l : Limits) (e : InboundMessage)
    → (new_inbound_message event_id src l ≡ ok e) ↔ (
        (message : EmailMessage) × (thread : EmailThread) × (src.message ≡ some message)
        × (src.thread ≡ some thread)
        × Publishable event_id src l message thread
        × (e ≡ envelope event_id message thread src l))
unfolding new_inbound_message
new_inbound_message-ok event_id src l e = (
  λ h.
      let (message, thread, is_message, is_thread, accepted, same) =
        new_from-ok event_id src l e src.message src.thread h in
      (
        message,
        thread,
        is_message,
        is_thread,
        accepted-Publishable event_id src l message thread
            (subst (IsAccepted message thread) same accepted),
        same,
      ),
  λ (message, thread, is_message, is_thread, publishable, same).
      ap₂ (new_from event_id src l) is_message is_thread
      ∙ new_from-accepted event_id src l message thread
          (Publishable-IsAccepted event_id src l message thread publishable)
      ∙ ap ok (sym same),
)

new_row :
    (uuid_text : ℕ → Bytes) (event_id : ℕ) (src : InboundMessageSource) (l : Limits)
    (e : InboundMessage) (payload : Bytes)
    → new_inbound_message event_id src l ≡ ok e
    → marshal uuid_text e l.max_payload_size ≡ ok payload
    → new_inbound_message_outbox_event uuid_text event_id src l ≡ ok (row_of e payload)
unfolding new_inbound_message_outbox_event
new_row uuid_text event_id src l e payload made marshalled =
    rw (made, new_inbound_message_outbox_event, marshalled) refl

-- A row of a valid envelope passes the check of the Outbox.
row_of-valid :
    (e : InboundMessage) (payload : Bytes)
    → validate e ≡ none
    → 0 < length payload
    → validate_row (row_of e payload) ≡ none
unfolding validate validate_row
row_of-valid e payload valid pos = ground arith

-- An inbound regular message of a regular thread, whose envelope is valid and whose instants are
-- before the year 10000, gets its Outbox row with its JSON as the payload, never an error, under
-- limits that pass Validate; and that row passes the check of the Outbox.
pub new_inbound_message_outbox_event-ok :
    (uuid_text : ℕ → Bytes) (event_id : ℕ) (src : InboundMessageSource) (l : Limits)
    (message : EmailMessage) (thread : EmailThread) (occurred_at received_at : Bytes)
    → UuidText uuid_text
    → validate_limits uuid_text l ≡ none
    → Int64Source message thread src
    → src.message ≡ some message
    → src.thread ≡ some thread
    → IsAccepted message thread (envelope event_id message thread src l)
    → json_time src.occurred_at ≡ some occurred_at
    → json_time message.received_at ≡ some received_at
    → (new_inbound_message_outbox_event uuid_text event_id src l
        ≡ ok (
            row_of (envelope event_id message thread src l) (
              encode_envelope uuid_text
                (envelope event_id message thread src l)
                occurred_at
                received_at)))
      × (validate_row (
            row_of (envelope event_id message thread src l) (
              encode_envelope uuid_text
                (envelope event_id message thread src l)
                occurred_at
                received_at))
          ≡ none)
unfolding new_inbound_message
new_inbound_message_outbox_event-ok uuid_text event_id src l message thread occurred_at received_at
      uuid limits int64 is_message is_thread (accepted, its, valid) occurred received =
    let e = envelope event_id message thread src l in
    let payload = encode_envelope uuid_text e occurred_at received_at in
    let json = encode_message-times uuid_text e occurred_at received_at occurred received in
    let (worst, is_worst, fits) = validate_limits-worst uuid_text l limits in
    let (regular, regular_thread) = eligible_kinds message thread accepted in
    let short =
      envelope_fits uuid_text uuid message thread src l int64 regular regular_thread event_id worst
        payload is_worst json in
    let marshalled =
      marshal-ok uuid_text e l.max_payload_size payload valid json (omega (arith, short, fits)) in
    (
      new_row uuid_text event_id src l e payload
          (ap₂ (new_from event_id src l) is_message is_thread
            ∙ new_from-accepted event_id src l message thread (accepted, its, valid))
          marshalled,
      row_of-valid e payload valid (encode_envelope-not_empty uuid_text e occurred_at received_at),
    )
