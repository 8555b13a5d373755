-- ===== src/Event/Limits/Fits/Never.antt =====
-- Limits that Validate accepts leave no event above the payload limit.
use webitel_emails.Prelude.{
  ℕ, ◌+◌, ◌*◌, ◌≤◌, ◌≡◌, refl, ap, ◌⊎◌, inl, inr, Bool, true, false, Option-cases, none, some, [],
  ◌∷◌, map, length, length-append, All, Bytes, arith, format_int, IsInt64, IsNullableInt64,
  length-format_int, nat_eq,
}
use webitel_emails.Prelude.Utf8.{encode_rune, decode, decode_from, decode_rune}
use webitel_emails.Model.Email.{
  EmailKind, EmailThreadKind, EmailMessage, EmailThread, EmailRecipientType,
}
use webitel_emails.Event.Clean.{line, field}
use webitel_emails.Event.Snapshot.{
  Limits, InboundMessageSource, InboundMessageSnapshot, InboundMessage, stored_parts,
}
use webitel_emails.Event.Envelope.{envelope, snapshot_of}
use webitel_emails.Event.Json.{
  json_rune, json_runes, json_string, json_bool, json_nullable_int, json_list, json_time, joined,
  civil, month_day, two_digits, fraction, second_fraction, encode_attachment, encode_snapshot,
  encode_envelope, encode_message, addresses_json, kind_text, thread_kind_text,
}
use webitel_emails.Event.Json.Size.{
  length-json_string-clean, length-json_object, length-json_time, length-json_nullable_int,
}
use webitel_emails.Event.Limits.{
  max_id, latest, uuid_max, worst_attachment, worst_snapshot, worst_message, address_lists,
  list_size, worst_case_size, validate_limits,
}
use webitel_emails.Event.Limits.Fits.{
  worst_address_size, addresses_fit, attachments_fit, length-json_string-fill,
  length-format_int-max_id, IsInt64Part,
}

length-json_bool : (b : Bool) → length (json_bool b) ≤ 5
unfolding json_bool
length-json_bool true = omega arith
length-json_bool false = omega arith

length-json_false : length (json_bool false) ≡ 5
unfolding json_bool
length-json_false = refl

length-json_nil : length (json_list []) ≡ 2
unfolding json_list joined
length-json_nil = refl

length-json_empty : length (json_string []) ≡ 2
unfolding json_string json_runes decode decode_from
length-json_empty = refl

encode_snapshot-size :
    (s : InboundMessageSnapshot) (received_at : Bytes)
    → length (encode_snapshot s received_at)
      ≡ length (json_string s.internet_message_id)
        + length (json_string s.in_reply_to)
        + length (json_string s.subject)
        + length (json_string (kind_text s.message_kind))
        + length (json_string (thread_kind_text s.thread_kind))
        + length (json_nullable_int s.contact_id)
        + length received_at
        + length (addresses_json s.from)
        + length (addresses_json s.sender)
        + length (addresses_json s.reply_to)
        + length (addresses_json s.to)
        + length (addresses_json s.cc)
        + length (json_string s.body_text)
        + length (json_list (map encode_attachment s.attachments))
        + length (json_bool s.body_text_truncated)
        + length (json_bool s.from_truncated)
        + length (json_bool s.sender_truncated)
        + length (json_bool s.reply_to_truncated)
        + length (json_bool s.to_truncated)
        + length (json_bool s.cc_truncated)
        + length (json_bool s.attachments_truncated)
        + 320
unfolding encode_snapshot
encode_snapshot-size s received_at = omega (arith, length-json_object _ _)

length-json_max_id : length (json_nullable_int (some max_id)) ≡ 19
unfolding json_nullable_int format_int
length-json_max_id = refl

module _ (message : EmailMessage) (thread : EmailThread) (src : InboundMessageSource)
    (l : Limits) where
  -- The snapshot with its lists and its body against the one of WorstCaseSize.
  snapshot_fits :
      (received_at worst_received_at : Bytes)
      → message.kind ≡ EmailKind.regular
      → thread.kind ≡ EmailThreadKind.regular
      → IsNullableInt64 thread.contact_id
      → All IsInt64Part (stored_parts src.attachments)
      → length received_at ≤ length worst_received_at
      → length (encode_snapshot (snapshot_of message thread src l) received_at)
        ≤ length (encode_snapshot (worst_snapshot l) worst_received_at)
          + 2 * l.max_body_text_size
          + 5 * list_size l.max_addresses_per_type worst_address_size
          + list_size l.max_attachments (length (encode_attachment (worst_attachment l)))
  unfolding field line
  snapshot_fits received_at worst_received_at is_kind is_thread_kind contact parts h =
      let snapshot = snapshot_of message thread src l in
      omega (
        arith,
        encode_snapshot-size snapshot received_at,
        encode_snapshot-size (worst_snapshot l) worst_received_at,
        length-json_string-clean message.message_id l.max_field_size true,
        length-json_string-clean message.in_reply_to l.max_field_size true,
        length-json_string-clean message.subject l.max_field_size true,
        length-json_string-clean message.text_body l.max_body_text_size false,
        length-json_string-fill l.max_field_size,
        ap (λ k. length (json_string (kind_text k))) is_kind,
        ap (λ k. length (json_string (thread_kind_text k))) is_thread_kind,
        length-json_nullable_int thread.contact_id contact,
        length-json_max_id,
        addresses_fit src.recipients EmailRecipientType.from l,
        addresses_fit src.recipients EmailRecipientType.sender l,
        addresses_fit src.recipients EmailRecipientType.reply_to l,
        addresses_fit src.recipients EmailRecipientType.to l,
        addresses_fit src.recipients EmailRecipientType.cc l,
        attachments_fit src.attachments l parts,
        length-json_nil,
        length-json_empty,
        length-json_false,
        length-json_bool snapshot.body_text_truncated,
        length-json_bool snapshot.from_truncated,
        length-json_bool snapshot.sender_truncated,
        length-json_bool snapshot.reply_to_truncated,
        length-json_bool snapshot.to_truncated,
        length-json_bool snapshot.cc_truncated,
        length-json_bool snapshot.attachments_truncated,
      )

json_latest : (b : Bytes) × (json_time latest ≡ some b) × (length b ≡ 32)
unfolding json_time civil month_day two_digits fraction second_fraction
json_latest = (_, refl, refl)

-- A hexadecimal digit in lower case, or a dash.
abbrev pub IsUuidByte : ℕ → Type 0
IsUuidByte b = ((b'0' ≤ b) × (b ≤ b'9')) ⊎ ((b'a' ≤ b) × (b ≤ b'f')) ⊎ (b ≡ b'-')

-- What google/uuid documents of the text of a UUID: 36 characters, hexadecimal and dashes.
pub record UuidText (uuid_text : ℕ → Bytes) : Type 0 where
  pub size : (id : ℕ) → length (uuid_text id) ≡ 36
  pub plain : (id : ℕ) → All IsUuidByte (uuid_text id)

json_rune-plain :
    (b : ℕ) (s : Bytes) → IsUuidByte b → (decode_rune b s ≡ (b, 1)) × (json_rune (b, 1) ≡ b ∷ [])
unfolding decode_rune json_rune encode_rune
json_rune-plain b s h = ground arith

json_runes-plain : (s : Bytes) → All IsUuidByte s → json_runes (decode_from 0 s) ≡ s
unfolding json_runes decode_from
json_runes-plain [] h = refl
json_runes-plain (b ∷ s) h =
    let (rune, json) = json_rune-plain b s h.0 in
    rw (rune, json_runes, json, json_runes-plain s h.1) refl

-- The integers that an event takes from the stored rows are int64.
pub record Int64Source (message : EmailMessage) (thread : EmailThread) (src : InboundMessageSource)
    : Type 0 where
  pub domain_id : IsInt64 message.domain_id
  pub profile_id : IsInt64 message.profile_id
  pub message_id : IsInt64 message.id
  pub thread_id : IsInt64 thread.id
  pub contact_id : IsNullableInt64 thread.contact_id
  pub flow_id : IsNullableInt64 src.flow_id
  pub files : All IsInt64Part (stored_parts src.attachments)

-- The sum of WorstCaseSize, the base being given.
abbrev worst_sum : ℕ → Limits → ℕ
worst_sum base l =
    base
    + 2 * l.max_body_text_size
    + address_lists * list_size l.max_addresses_per_type worst_address_size
    + list_size l.max_attachments (length (encode_attachment (worst_attachment l)))

pub encode_message-times :
    (uuid_text : ℕ → Bytes) (e : InboundMessage) (occurred_at received_at : Bytes)
    → json_time e.occurred_at ≡ some occurred_at
    → json_time e.snapshot.received_at ≡ some received_at
    → encode_message uuid_text e ≡ some (encode_envelope uuid_text e occurred_at received_at)
unfolding encode_message
encode_message-times uuid_text e occurred_at received_at h1 h2 = rw (h1, encode_message, h2) refl

worst_case_size-latest :
    (uuid_text : ℕ → Bytes) (l : Limits) (last : Bytes)
    → json_time latest ≡ some last
    → worst_case_size uuid_text l
      ≡ some (worst_sum (length (encode_envelope uuid_text (worst_message l) last last)) l)
unfolding worst_case_size
worst_case_size-latest uuid_text l last h =
    rw (encode_message-times uuid_text (worst_message l) last last h h, worst_case_size) refl

encode_message-some :
    (uuid_text : ℕ → Bytes) (e : InboundMessage) (payload : Bytes)
    → encode_message uuid_text e ≡ some payload
    → (occurred_at received_at : Bytes) × (json_time e.occurred_at ≡ some occurred_at)
      × (json_time e.snapshot.received_at ≡ some received_at)
      × (payload ≡ encode_envelope uuid_text e occurred_at received_at)
unfolding encode_message
encode_message-some uuid_text e payload h = elim (Option-cases (json_time e.occurred_at)) [
  | inl none_at ↦ ground arith
  | inr (occurred_at, at) ↦ elim (Option-cases (json_time e.snapshot.received_at)) [
    | inl none_at ↦ ground arith
    | inr (received_at, received) ↦ (occurred_at, received_at, at, received, ground arith)
  ]
]

module _ (uuid_text : ℕ → Bytes) (uuid : UuidText uuid_text) where
  length-json-uuid : (id : ℕ) → length (json_string (uuid_text id)) ≡ 38
  unfolding json_string decode
  length-json-uuid id =
      rw (json_runes-plain (uuid_text id) (uuid.plain id))
        (omega (arith, length-append (uuid_text id) (b'"' ∷ []), uuid.size id))

  encode_envelope-size :
      (e : InboundMessage) (occurred_at received_at : Bytes)
      → length (encode_envelope uuid_text e occurred_at received_at)
        ≡ length (json_string (uuid_text e.event_id))
          + length (json_string e.event_type)
          + length (format_int e.schema_version)
          + length occurred_at
          + length (format_int e.domain_id)
          + length (format_int e.profile_id)
          + length (json_nullable_int e.flow_id)
          + length (format_int e.thread_id)
          + length (format_int e.message_id)
          + length (encode_snapshot e.snapshot received_at)
          + 137
  unfolding encode_envelope
  encode_envelope-size e occurred_at received_at = omega (arith, length-json_object _ _)

  module _ (message : EmailMessage) (thread : EmailThread) (src : InboundMessageSource) (l : Limits)
      (int64 : Int64Source message thread src) (is_kind : message.kind ≡ EmailKind.regular)
      (is_thread_kind : thread.kind ≡ EmailThreadKind.regular) where
    envelope_parts_fit :
        (event_id : ℕ) (occurred_at received_at last : Bytes)
        → length last ≡ 32
        → length occurred_at ≤ 32
        → length received_at ≤ 32
        → length (
            encode_envelope uuid_text
              (envelope event_id message thread src l)
              occurred_at
              received_at)
          ≤ worst_sum (length (encode_envelope uuid_text (worst_message l) last last)) l
    envelope_parts_fit event_id occurred_at received_at last h occurred received = omega (
      arith,
      h,
      encode_envelope-size (envelope event_id message thread src l) occurred_at received_at,
      encode_envelope-size (worst_message l) last last,
      length-json-uuid event_id,
      length-json-uuid uuid_max,
      length-format_int message.domain_id int64.domain_id,
      length-format_int message.profile_id int64.profile_id,
      length-format_int message.id int64.message_id,
      length-format_int thread.id int64.thread_id,
      length-json_nullable_int src.flow_id int64.flow_id,
      length-json_max_id,
      length-format_int-max_id,
      snapshot_fits message thread src l received_at last is_kind is_thread_kind int64.contact_id
          int64.files (omega arith),
    )

    -- The JSON of the envelope against the sum of WorstCaseSize.
    pub envelope_fits :
        (event_id worst : ℕ) (payload : Bytes)
        → worst_case_size uuid_text l ≡ some worst
        → encode_message uuid_text (envelope event_id message thread src l) ≡ some payload
        → length payload ≤ worst
    envelope_fits event_id worst payload is_worst is_payload =
        let (last, is_last, last_size) = json_latest in
        let (occurred_at, received_at, occurred, received, is_json) =
          encode_message-some uuid_text (envelope event_id message thread src l) payload
            is_payload in
        let sum = worst_case_size-latest uuid_text l last is_last in
        let fits =
          envelope_parts_fit event_id occurred_at received_at last last_size
            (length-json_time src.occurred_at occurred_at occurred)
            (length-json_time message.received_at received_at received) in
        ground (arith, sum, fits)

-- Limits that pass Validate bound the sum of WorstCaseSize.
pub validate_limits-worst :
    (uuid_text : ℕ → Bytes) (l : Limits)
    → validate_limits uuid_text l ≡ none
    → (worst : ℕ) × (worst_case_size uuid_text l ≡ some worst) × (worst ≤ l.max_payload_size)
unfolding validate_limits
validate_limits-worst uuid_text l h = elim (Option-cases (worst_case_size uuid_text l)) [
  | inl e ↦ ground arith
  | inr (worst, e) ↦ (worst, e, ground arith)
]
