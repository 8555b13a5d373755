-- ===== src/Event/Tests.antt =====
-- The definitions of this folder on small inputs, and one instance of each result.
use webitel_emails.Prelude.{
  ℕ, List, refl, ◌≡◌, ascii, some, none, length, false, ◌*◌, ◌-◌, Bytes, format_int, digits, [],
  ◌∷◌, bytes_beq, All, arith, suc, ◌↔◌, inl, inr,
}
use webitel_emails.Prelude.Utf8.{
  utf8, rune_start, valid_rune, rune_len, encode_rune, decode_rune, decode_from, decode,
  to_valid_from, to_valid_utf8, map_decoded, map_text,
}
use webitel_emails.Model.Email.{
  EmailKind, EmailThreadKind, EmailMessage, EmailThread, EmailMessageDirection, EmailMessageState,
  EmailThreadStatus, EmailContactResolutionState, EmailRecipient, EmailRecipientType,
  EmailMessageAttachment, EmailAttachmentState, EmailPartDisposition,
}
use webitel_emails.Event.Json.{
  civil, month_day, two_digits, fraction, second_fraction, json_time, json_string, json_rune,
  json_runes, json_bool, json_nullable_int, json_nullable_string, further, joined, json_list,
  member, json_object, encode_address, encode_attachment, encode_snapshot, encode_envelope,
  encode_message,
}
use webitel_emails.Event.Clean.{clean, keep_rune, byte_at, cut_back, line, field}
use webitel_emails.Event.Clean.Idempotent.{clean-clean}
use webitel_emails.Event.Snapshot.{
  Limits, InboundMessage, InboundMessageSource, addresses, stored_parts, attachments,
}
use webitel_emails.Event.Snapshot.Bounds.{
  addresses_lem, attachments_lem, Selected, IsOfType, ListedAddresses, IsStoredFile,
  ListedAttachments,
}
use webitel_emails.Event.Envelope.{
  ok, inbound_message_dedup_key, validate, envelope, eligible, new_inbound_message, new_from,
}
use webitel_emails.Event.Envelope.DedupKey.{read_key, read_key-dedup_key}
use webitel_emails.Event.Limits.{
  fill, worst_case_size, validate_limits, worst_message, worst_address, worst_attachment,
}
use webitel_emails.Event.Limits.Fits.Never.{UuidText, Int64Source, IsUuidByte, encode_message-times}
use webitel_emails.Event.Row.{new_inbound_message_outbox_event, row_of}
use webitel_emails.Event.Row.Accepted.{
  Publishable, new_inbound_message-ok, new_inbound_message_outbox_event-ok, IsAccepted,
}
use webitel_emails.Outbox.Event.{validate as validate_row}

leap_day : json_time 63844806896500000000 ≡ some (ascii "\"2024-02-29T12:34:56.5Z\"")
unfolding json_time civil month_day two_digits fraction second_fraction
leap_day = refl

end_of_cycle : json_time 63113862896000000001 ≡ some (ascii "\"2000-12-31T12:34:56.000000001Z\"")
unfolding json_time civil month_day two_digits fraction second_fraction
end_of_cycle = refl

latest :
    json_time (3_652_059 * 86_400 * 1_000_000_000 - 1)
    ≡ some (ascii "\"9999-12-31T23:59:59.999999999Z\"")
unfolding json_time civil month_day two_digits fraction second_fraction
latest = refl

abbrev small_limits : Limits
small_limits = record {
  max_body_text_size = 2;
  max_addresses_per_type = 1;
  max_attachments = 1;
  max_field_size = 3;
  max_payload_size = 8_192;
}

abbrev zero_bytes : ℕ → Bytes → Bytes
zero_bytes ℕ.zero rest = rest
zero_bytes (suc n) rest = b'0' ∷ zero_bytes n rest

-- The last group behind n groups of four.
abbrev groups : ℕ → Bytes
groups ℕ.zero = zero_bytes 12 []
groups (suc n) = zero_bytes 4 (b'-' ∷ groups n)

-- Every id is written as the nil UUID: what is said holds of any text of its size.
abbrev uuid_text : ℕ → Bytes
uuid_text id = zero_bytes 8 (b'-' ∷ groups 3)

zero_byte : IsUuidByte b'0'
zero_byte = inl (omega arith, omega arith)

zeros : (n : ℕ) (rest : Bytes) → All IsUuidByte rest → All IsUuidByte (zero_bytes n rest)
zeros ℕ.zero rest h = h
zeros (suc n) rest h = (zero_byte, zeros n rest h)

separated : (rest : Bytes) → All IsUuidByte rest → All IsUuidByte (b'-' ∷ rest)
separated rest h = (inr (inr refl), h)

uuid_text-UuidText : UuidText uuid_text
uuid_text-UuidText = record {
  size = λ id. refl;
  plain = λ id. zeros 8 (b'-' ∷ groups 3) (
      separated (groups 3) (
        zeros 4 (b'-' ∷ groups 2) (
          separated (groups 2) (
            zeros 4 (b'-' ∷ groups 1) (
              separated (groups 1)
                (zeros 4 (b'-' ∷ groups 0) (separated (groups 0) (zeros 12 [] tt))))))));
}

abbrev last_instant : Bytes
last_instant = ascii "\"9999-12-31T23:59:59.999999999Z\""

envelope_size :
    length (encode_envelope uuid_text (worst_message small_limits) last_instant last_instant) ≡ 788
unfolding encode_envelope encode_snapshot json_string json_rune json_runes json_bool
    json_nullable_int further joined json_list member json_object decode decode_from decode_rune
    valid_rune encode_rune format_int digits fill rune_start rune_len
envelope_size = refl

address_size : length (encode_address worst_address) ≡ 1_176
unfolding encode_address json_string json_rune json_runes further joined member json_object decode
    decode_from decode_rune valid_rune encode_rune fill rune_start rune_len
address_size = refl

attachment_size : length (encode_attachment (worst_attachment small_limits)) ≡ 623
unfolding encode_attachment json_string json_rune json_runes json_nullable_string further joined
    member json_object decode decode_from decode_rune valid_rune encode_rune fill rune_start
    rune_len format_int digits
attachment_size = refl

worst_message_lem :
    encode_message uuid_text (worst_message small_limits)
    ≡ some (encode_envelope uuid_text (worst_message small_limits) last_instant last_instant)
worst_message_lem =
    encode_message-times uuid_text (worst_message small_limits) last_instant last_instant latest
      latest

small_limits-pass : validate_limits uuid_text small_limits ≡ none
unfolding validate_limits worst_case_size
small_limits-pass = rw (worst_message_lem, envelope_size, address_size, attachment_size) refl

abbrev thread : EmailThread
thread = record {
  id = 4;
  domain_id = 1;
  profile_id = 7;
  contact_id = some 9;
  contact_resolution_state = EmailContactResolutionState.resolved;
  kind = EmailThreadKind.regular;
  subject = ascii "Hi";
  status = EmailThreadStatus.new;
  last_message_at = none;
  completed_at = none;
  created_at = 1;
  updated_at = 1;
}

abbrev message : EmailMessage
message = record {
  id = 5;
  domain_id = 1;
  thread_id = 4;
  profile_id = 7;
  direction = EmailMessageDirection.inbound;
  kind = EmailKind.regular;
  state = EmailMessageState.ready;
  attachment_attempts = 0;
  message_id = ascii "a@x";
  message_id_generated = false;
  raw_sha256 = ascii "0";
  imap = none;
  in_reply_to = [];
  references = [];
  subject = ascii "Hello";
  text_body = ascii "Hello";
  html_body = [];
  bounce = none;
  sent_at = none;
  received_at = 63844806896500000000;
  created_at = 1;
  updated_at = 1;
}

abbrev customer : EmailRecipient
customer = record {
  id = 1;
  domain_id = 1;
  message_id = 5;
  type = EmailRecipientType.from;
  address = ascii "c@x";
  normalized_address = ascii "c@x";
  display_name = [];
  ordinal = 0;
}

abbrev picture : EmailMessageAttachment
picture = record {
  id = 2;
  domain_id = 1;
  message_id = 5;
  file_id = some 8;
  content_id = [];
  disposition = EmailPartDisposition.attachment;
  file_name = ascii "p";
  mime_type = ascii "image/png";
  size = 10;
  position = 0;
  state = EmailAttachmentState.stored;
  skipped_reason = none;
  created_at = 1;
  updated_at = 1;
}

abbrev source : InboundMessageSource
source = record {
  occurred_at = 63113862896000000001;
  flow_id = some 3;
  thread = some thread;
  message = some message;
  recipients = some customer ∷ none ∷ [];
  attachments = some picture ∷ [];
}

source-Int64Source : Int64Source message thread source
unfolding stored_parts
source-Int64Source = record {
  domain_id = omega arith;
  profile_id = omega arith;
  message_id = omega arith;
  thread_id = omega arith;
  contact_id = omega arith;
  flow_id = omega arith;
  files = ((omega arith, omega arith), tt);
}

source-IsAccepted : IsAccepted message thread (envelope 6 message thread source small_limits)
unfolding eligible validate field line clean keep_rune byte_at cut_back decode decode_from
    decode_rune valid_rune encode_rune rune_start rune_len to_valid_utf8 to_valid_from map_text
    map_decoded utf8 bytes_beq
source-IsAccepted = (refl, refl, refl)

new_inbound_message_outbox_event-ok_example :
    (new_inbound_message_outbox_event uuid_text 6 source small_limits
      ≡ ok (
          row_of (envelope 6 message thread source small_limits) (
            encode_envelope uuid_text
              (envelope 6 message thread source small_limits)
              (ascii "\"2000-12-31T12:34:56.000000001Z\"")
              (ascii "\"2024-02-29T12:34:56.5Z\""))))
    × (validate_row (
          row_of (envelope 6 message thread source small_limits) (
            encode_envelope uuid_text
              (envelope 6 message thread source small_limits)
              (ascii "\"2000-12-31T12:34:56.000000001Z\"")
              (ascii "\"2024-02-29T12:34:56.5Z\"")))
        ≡ none)
new_inbound_message_outbox_event-ok_example =
    new_inbound_message_outbox_event-ok uuid_text 6 source small_limits message thread
      (ascii "\"2000-12-31T12:34:56.000000001Z\"") (ascii "\"2024-02-29T12:34:56.5Z\"")
      uuid_text-UuidText small_limits-pass source-Int64Source refl refl source-IsAccepted
      end_of_cycle leap_day

made :
    new_inbound_message 6 source small_limits ≡ ok (envelope 6 message thread source small_limits)
unfolding new_inbound_message new_from eligible validate field line clean keep_rune byte_at cut_back
    decode decode_from decode_rune valid_rune encode_rune rune_start rune_len to_valid_utf8
    to_valid_from map_text map_decoded utf8 bytes_beq
made = refl

abbrev envelope_made : InboundMessage
envelope_made = envelope 6 message thread source small_limits

new_inbound_message-ok_example : (new_inbound_message 6 source small_limits ≡ ok envelope_made) ↔ (
    (m : EmailMessage) × (t : EmailThread) × (source.message ≡ some m)
    × (source.thread ≡ some t)
    × Publishable 6 source small_limits m t
    × (envelope_made ≡ envelope 6 m t source small_limits))
new_inbound_message-ok_example = new_inbound_message-ok 6 source small_limits envelope_made

clean-clean_example :
    clean (clean (ascii "Hello") 2 false).0 2 false ≡ ((clean (ascii "Hello") 2 false).0, false)
clean-clean_example = clean-clean (ascii "Hello") 2 false

addresses_lem_example :
    (chosen : List EmailRecipient) × Selected
      (IsOfType EmailRecipientType.from)
      source.recipients
      chosen
    × ListedAddresses small_limits chosen
        (addresses source.recipients EmailRecipientType.from small_limits)
addresses_lem_example = addresses_lem source.recipients EmailRecipientType.from small_limits

attachments_lem_example :
    (chosen : List (ℕ × EmailMessageAttachment)) × Selected IsStoredFile source.attachments chosen
    × ListedAttachments small_limits chosen (attachments source.attachments small_limits)
attachments_lem_example = attachments_lem source.attachments small_limits

read_key-dedup_key_example : read_key (inbound_message_dedup_key 1 5) ≡ (1, 5)
read_key-dedup_key_example = read_key-dedup_key 1 5 (omega arith) (omega arith)
