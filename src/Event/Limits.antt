-- ===== src/Event/Limits.antt =====
-- internal/event/inbound_message.go: the check of the limits. Validate bounds the limits before it
-- adds them up, so the int64 sums are exact and no list limit is 0.
pub mod Fits
use webitel_emails.Prelude.{
  ℕ, zero, suc, ◌+◌, ◌-◌, ◌*◌, ◌^◌, Bool, false, ◌||◌, ltb, if◌then◌else◌, Option, none, some, List,
  [], ◌∷◌, length, Bytes,
}
use webitel_emails.Model.Runtime.{Time}
use webitel_emails.Model.Email.{EmailKind, EmailThreadKind}
use webitel_emails.Event.Snapshot.{
  Limits, Address, Attachment, InboundMessageSnapshot, InboundMessage, max_address_size,
  max_display_name_size, max_mime_type_size, attachment_channel,
}
use webitel_emails.Event.Envelope.{type_inbound_message, inbound_message_schema}
use webitel_emails.Event.Json.{encode_address, encode_attachment, encode_message}

abbrev pub max_body_text_size_limit : ℕ
max_body_text_size_limit = 8 * 2 ^ 20

abbrev pub max_field_size_limit : ℕ
max_field_size_limit = 64 * 2 ^ 10

abbrev pub max_list_limit : ℕ
max_list_limit = 10_000

abbrev pub max_payload_size_limit : ℕ
max_payload_size_limit = 16 * 2 ^ 20

-- The switch of Validate, the sum and its encoding.
pub data LimitsError : Type 0 where
  bad_body_text_size bad_field_size bad_addresses bad_attachments bad_payload_size not_encoded
        above_payload_limit :
      LimitsError

-- strings.Repeat(`"`, size)
unfoldable pub fill : ℕ → Bytes
fill zero = []
fill (suc size) = b'"' ∷ fill size

abbrev pub max_id : ℕ
max_id = 2 ^ 63 - 1

abbrev pub uuid_max : ℕ
uuid_max = 2 ^ 128 - 1

-- time.Date(9999, time.December, 31, 23, 59, 59, 999999999, time.UTC)
abbrev pub latest : Time
latest = 3_652_059 * 86_400 * 1_000_000_000 - 1

abbrev pub worst_snapshot : Limits → InboundMessageSnapshot
worst_snapshot l = record {
  internet_message_id = fill l.max_field_size;
  in_reply_to = fill l.max_field_size;
  subject = fill l.max_field_size;
  message_kind = EmailKind.regular;
  thread_kind = EmailThreadKind.regular;
  contact_id = some max_id;
  received_at = latest;
  from = [];
  sender = [];
  reply_to = [];
  to = [];
  cc = [];
  body_text = [];
  attachments = [];
  body_text_truncated = false;
  from_truncated = false;
  sender_truncated = false;
  reply_to_truncated = false;
  to_truncated = false;
  cc_truncated = false;
  attachments_truncated = false;
}

abbrev pub worst_message : Limits → InboundMessage
worst_message l = record {
  event_id = uuid_max;
  event_type = type_inbound_message;
  schema_version = inbound_message_schema;
  occurred_at = latest;
  domain_id = max_id;
  profile_id = max_id;
  flow_id = some max_id;
  thread_id = max_id;
  message_id = max_id;
  snapshot = worst_snapshot l;
}

abbrev pub worst_address : Address
worst_address = record { address = fill max_address_size; name = fill max_display_name_size }

abbrev pub worst_attachment : Limits → Attachment
worst_attachment l = record {
  id = max_id;
  name = fill l.max_field_size;
  size = max_id;
  mime = fill max_mime_type_size;
  view_name = none;
  channel = attachment_channel;
}

-- What `items` items add to the empty brackets of a list.
abbrev pub list_size : ℕ → ℕ → ℕ
list_size items item_size = items * item_size + (items - 1)

abbrev pub address_lists : ℕ
address_lists = 5

module _ (uuid_text : ℕ → Bytes) where
  unfoldable pub worst_case_size : Limits → Option ℕ
  worst_case_size l = elim (encode_message uuid_text (worst_message l)) [
    | none ↦ none
    | some base ↦ some (
        length base
        + 2 * l.max_body_text_size
        + address_lists * list_size l.max_addresses_per_type (length (encode_address worst_address))
        + list_size l.max_attachments (length (encode_attachment (worst_attachment l))))
  ]

  abbrev outside : ℕ → ℕ → Bool
  outside n limit = ltb n 1 || ltb limit n

  -- (Limits).Validate
  unfoldable pub validate_limits : Limits → Option LimitsError
  validate_limits l =
      if outside l.max_body_text_size max_body_text_size_limit
      then some bad_body_text_size
      else if outside l.max_field_size max_field_size_limit
      then some bad_field_size
      else if outside l.max_addresses_per_type max_list_limit
      then some bad_addresses
      else if outside l.max_attachments max_list_limit
      then some bad_attachments
      else if outside l.max_payload_size max_payload_size_limit
      then some bad_payload_size
      else elim (worst_case_size l) [
        | none ↦ some not_encoded
        | some worst ↦ if ltb l.max_payload_size worst then some above_payload_limit else none
      ]
