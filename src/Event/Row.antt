-- ===== src/Event/Row.antt =====
-- internal/event/inbound_message.go: Marshal and NewInboundMessageOutboxEvent, with the exchange of
-- internal/event/topology.go.
pub mod Accepted
use webitel_emails.Prelude.{ℕ, ltb, if◌then◌else◌, Option, none, some, length, Bytes, String}
use webitel_emails.Event.Snapshot.{Limits, InboundMessage, InboundMessageSource}
use webitel_emails.Event.Envelope.{
  EventError, Result, ok, error, not_encoded, too_large, validate, new_inbound_message,
  inbound_message_dedup_key, inbound_message_schema,
}
use webitel_emails.Event.Json.{encode_message}
use webitel_emails.Outbox.Event.{OutboxEvent, OutboxEventState}

abbrev pub exchange : String
exchange = "email.events"

abbrev pub inbound_message_routing_key : String
inbound_message_routing_key = "email.message.inbound.v1"

-- The pending row; the other columns are zero values that Append does not read.
abbrev pub row_of : InboundMessage → Bytes → OutboxEvent
row_of e payload = record {
  event_id = e.event_id;
  domain_id = e.domain_id;
  event_type = "email.message.inbound";
  schema_version = inbound_message_schema;
  dedup_key = inbound_message_dedup_key e.domain_id e.message_id;
  exchange = exchange;
  routing_key = inbound_message_routing_key;
  payload = payload;
  state = OutboxEventState.pending;
  attempts = 0;
  next_attempt_at = 0;
  locked_by = "";
  locked_until = none;
  published_at = none;
  last_error = "";
  created_at = 0;
  updated_at = 0;
}

module _ (uuid_text : ℕ → Bytes) where
  unfoldable pub marshal : InboundMessage → ℕ → Result Bytes
  marshal e max_size = elim (validate e) [
    | some err ↦ error err
    | none ↦ elim (encode_message uuid_text e) [
      | none ↦ error not_encoded
      | some payload ↦ if ltb max_size (length payload) then error too_large else ok payload
    ]
  ]

  unfoldable pub new_inbound_message_outbox_event :
      ℕ → InboundMessageSource → Limits → Result OutboxEvent
  new_inbound_message_outbox_event event_id src limits =
      elim (new_inbound_message event_id src limits) [
        | error err ↦ error err
        | ok e ↦ elim (marshal e limits.max_payload_size) [
          | error err ↦ error err
          | ok payload ↦ ok (row_of e payload)
        ]
      ]
