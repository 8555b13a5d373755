-- ===== src/Event/Json.antt =====
-- encode of internal/event/inbound_message.go, and what it uses of encoding/json without HTML
-- escapes: strings, numbers, instants, lists, and structs with their keys in order.
pub mod Size
use webitel_emails.Prelude.{
  ℕ, zero, suc, ◌+◌, ◌-◌, ◌*◌, ◌/◌, ◌%◌, ◌^◌, Bool, true, false, ◌&&◌, ◌||◌, ◌==◌, nat_eq, ltb, leb,
  if◌then◌else◌, Option, none, some, List, [], ◌∷◌, ◌++◌, map, Bytes, ascii, String, format_int,
}
use webitel_emails.Prelude.Utf8.{rune_error, encode_rune, decode}
use webitel_emails.Model.Runtime.{Time}
use webitel_emails.Model.Email.{EmailKind, EmailThreadKind}
use webitel_emails.Event.Snapshot.{Address, Attachment, InboundMessageSnapshot, InboundMessage}

abbrev hex_digit : ℕ → ℕ
hex_digit n = if ltb n 10 then b'0' + n else b'a' + (n - 10)

-- The bytes that stand for one rune and its width; an invalid byte has the width 1.
unfoldable pub json_rune : ℕ × ℕ → Bytes
json_rune (r, width) =
    if r == b'"' || r == 0x5c
    then 0x5c ∷ r ∷ []
    else if r == b'\n'
    then ascii "\\n"
    else if r == b'\r'
    then ascii "\\r"
    else if r == b'\t'
    then ascii "\\t"
    else if r == 0x08
    then ascii "\\b"
    else if r == 0x0c
    then ascii "\\f"
    else if ltb r 0x20
    then ascii "\\u00" ++ hex_digit (r / 16) ∷ hex_digit (r % 16) ∷ []
    else if r == rune_error && leb width 1
    then ascii "\\ufffd"
    else if r == 0x2028
    then ascii "\\u2028"
    else if r == 0x2029
    then ascii "\\u2029"
    else encode_rune r

unfoldable pub json_runes : List (ℕ × ℕ) → Bytes
json_runes [] = []
json_runes (d ∷ ds) = json_rune d ++ json_runes ds

unfoldable pub json_string : Bytes → Bytes
json_string s = b'"' ∷ json_runes (decode s) ++ b'"' ∷ []

unfoldable pub json_bool : Bool → Bytes
json_bool true = ascii "true"
json_bool false = ascii "false"

unfoldable pub json_nullable_int : Option ℕ → Bytes
json_nullable_int none = ascii "null"
json_nullable_int (some n) = format_int n

unfoldable pub json_nullable_string : Option Bytes → Bytes
json_nullable_string none = ascii "null"
json_nullable_string (some s) = json_string s

-- The values behind the first one, each with its comma.
unfoldable pub further : List Bytes → Bytes
further [] = []
further (v ∷ vs) = b',' ∷ v ++ further vs

unfoldable pub joined : List Bytes → Bytes
joined [] = []
joined (v ∷ vs) = v ++ further vs

unfoldable pub json_list : List Bytes → Bytes
json_list vs = b'[' ∷ joined vs ++ b']' ∷ []

unfoldable pub member : Bytes × Bytes → Bytes
member (key, value) = b'"' ∷ key ++ b'"' ∷ b':' ∷ value

unfoldable pub json_object : List (Bytes × Bytes) → Bytes
json_object members = b'{' ∷ joined (map member members) ++ b'}' ∷ []

-- The calendar: the year, the month and the day of a number of days since 1 January of year 1.
unfoldable pub month_day : ℕ → List ℕ → ℕ → ℕ × ℕ
month_day month [] day = (month, day + 1)
month_day month (len ∷ lens) day =
    let later = month_day (month + 1) lens (day - len) in
    if ltb day len then (month, day + 1) else later

abbrev month_lengths : Bool → List ℕ
month_lengths leap =
    31 ∷ (if leap then 29 else 28) ∷ 31 ∷ 30 ∷ 31 ∷ 30 ∷ 31 ∷ 31 ∷ 30 ∷ 31 ∷ 30 ∷ 31 ∷ []

abbrev is_leap : ℕ → Bool
is_leap year = (year % 4 == 0) && (ltb 0 (year % 100) || (year % 400 == 0))

-- A cycle of 400 years; the last day of a cycle, and of four years, belongs to the year before.
unfoldable pub civil : ℕ → ℕ × ℕ × ℕ
civil days =
    let in_400 = days % 146_097 in
    let centuries = in_400 / 36_524 - in_400 / 36_524 / 4 in
    let in_100 = in_400 - centuries * 36_524 in
    let in_4 = in_100 % 1461 in
    let years = in_4 / 365 - in_4 / 365 / 4 in
    let year = days / 146_097 * 400 + centuries * 100 + in_100 / 1461 * 4 + years + 1 in
    let (month, day) = month_day 1 (month_lengths (is_leap year)) (in_4 - years * 365) in
    (year, month, day)

unfoldable pub two_digits : ℕ → Bytes
two_digits n = (b'0' + n / 10 % 10) ∷ (b'0' + n % 10) ∷ []

-- The digits of a fraction below `10 ^ places`, without the zeros at its end.
unfoldable pub fraction : ℕ → ℕ → Bytes
fraction zero n = []
fraction (suc places) n =
    let rest = fraction places (n % 10 ^ places) in
    (b'0' + n / 10 ^ places) ∷ (if n % 10 ^ places == 0 then [] else rest)

unfoldable pub second_fraction : ℕ → Bytes
second_fraction nanos = if nanos == 0 then [] else b'.' ∷ fraction 9 nanos

-- time.Time.MarshalJSON in UTC: RFC 3339 with nanoseconds; it fails after the year 9999.
unfoldable pub json_time : Time → Option Bytes
json_time t =
    let second = t / 10 ^ 9 in
    let (year, month, day) = civil (second / 86_400) in
    let clock = second % 86_400 in
    if leb year 9999
    then some (
        b'"' ∷ two_digits (year / 100)
        ++ two_digits year
        ++ b'-' ∷ two_digits month
        ++ b'-' ∷ two_digits day
        ++ b'T' ∷ two_digits (clock / 3600)
        ++ b':' ∷ two_digits (clock / 60 % 60)
        ++ b':' ∷ two_digits (clock % 60)
        ++ second_fraction (t % 10 ^ 9)
        ++ b'Z' ∷ b'"' ∷ [])
    else none

unfoldable pub encode_address : Address → Bytes
encode_address a =
    json_object ((ascii "address", json_string a.address) ∷ (ascii "name", json_string a.name) ∷ [])

unfoldable pub encode_attachment : Attachment → Bytes
encode_attachment a = json_object (
    (ascii "id", format_int a.id)
    ∷ (ascii "name", json_string a.name)
    ∷ (ascii "size", format_int a.size)
    ∷ (ascii "mime", json_string a.mime)
    ∷ (ascii "view_name", json_nullable_string a.view_name)
    ∷ (ascii "channel", json_string a.channel)
    ∷ [])

abbrev pub kind_text : EmailKind → Bytes
kind_text EmailKind.regular = ascii "regular"
kind_text EmailKind.auto_reply = ascii "auto_reply"
kind_text EmailKind.bounce = ascii "bounce"

abbrev pub thread_kind_text : EmailThreadKind → Bytes
thread_kind_text EmailThreadKind.regular = ascii "regular"
thread_kind_text EmailThreadKind.service = ascii "service"

abbrev pub addresses_json : List Address → Bytes
addresses_json xs = json_list (map encode_address xs)

-- The snapshot with the text of its instant.
unfoldable pub encode_snapshot : InboundMessageSnapshot → Bytes → Bytes
encode_snapshot s received_at = json_object (
    (ascii "internet_message_id", json_string s.internet_message_id)
    ∷ (ascii "in_reply_to", json_string s.in_reply_to)
    ∷ (ascii "subject", json_string s.subject)
    ∷ (ascii "message_kind", json_string (kind_text s.message_kind))
    ∷ (ascii "thread_kind", json_string (thread_kind_text s.thread_kind))
    ∷ (ascii "contact_id", json_nullable_int s.contact_id)
    ∷ (ascii "received_at", received_at)
    ∷ (ascii "from", addresses_json s.from)
    ∷ (ascii "sender", addresses_json s.sender)
    ∷ (ascii "reply_to", addresses_json s.reply_to)
    ∷ (ascii "to", addresses_json s.to)
    ∷ (ascii "cc", addresses_json s.cc)
    ∷ (ascii "body_text", json_string s.body_text)
    ∷ (ascii "attachments", json_list (map encode_attachment s.attachments))
    ∷ (ascii "body_text_truncated", json_bool s.body_text_truncated)
    ∷ (ascii "from_truncated", json_bool s.from_truncated)
    ∷ (ascii "sender_truncated", json_bool s.sender_truncated)
    ∷ (ascii "reply_to_truncated", json_bool s.reply_to_truncated)
    ∷ (ascii "to_truncated", json_bool s.to_truncated)
    ∷ (ascii "cc_truncated", json_bool s.cc_truncated)
    ∷ (ascii "attachments_truncated", json_bool s.attachments_truncated)
    ∷ [])

-- `uuid_text` is MarshalText of google/uuid.
module _ (uuid_text : ℕ → Bytes) where
  -- The envelope with the texts of its instants.
  unfoldable pub encode_envelope : InboundMessage → Bytes → Bytes → Bytes
  encode_envelope e occurred_at received_at = json_object (
      (ascii "event_id", json_string (uuid_text e.event_id))
      ∷ (ascii "event_type", json_string e.event_type)
      ∷ (ascii "schema_version", format_int e.schema_version)
      ∷ (ascii "occurred_at", occurred_at)
      ∷ (ascii "domain_id", format_int e.domain_id)
      ∷ (ascii "profile_id", format_int e.profile_id)
      ∷ (ascii "flow_id", json_nullable_int e.flow_id)
      ∷ (ascii "thread_id", format_int e.thread_id)
      ∷ (ascii "message_id", format_int e.message_id)
      ∷ (ascii "snapshot", encode_snapshot e.snapshot received_at)
      ∷ [])

  -- encode of an InboundMessage; only an instant can fail.
  unfoldable pub encode_message : InboundMessage → Option Bytes
  encode_message e = elim (json_time e.occurred_at) [
    | none ↦ none
    | some occurred_at ↦ elim (json_time e.snapshot.received_at) [
      | none ↦ none
      | some received_at ↦ some (encode_envelope e occurred_at received_at)
    ]
  ]
