-- ===== src/Event/Limits/Fits.antt =====
-- The JSON of an event never exceeds the sum of WorstCaseSize: the parts of the envelope.
pub mod Never
use webitel_emails.Prelude.{
  ℕ, zero, suc, ◌+◌, ◌-◌, ◌*◌, ◌/◌, ◌%◌, ◌^◌, ◌≤◌, ◌<◌, min, ◌≡◌, refl, ◌∙◌, ap, ◌⊎◌, inl, inr,
  Bool, true, false, ◌||◌, ltb, Option, none, some, List, [], ◌∷◌, ◌++◌, map, length, length-append,
  length-take, length-sort, take, sort, All, All-sort, Bytes, ascii, arith, format_int, IsInt64,
  IsNullableInt64, length-format_int,
}
use webitel_emails.Prelude.Utf8.{decode, decode_from, decode_rune}
use webitel_emails.Model.Runtime.{Time}
use webitel_emails.Model.Email.{
  EmailKind, EmailThreadKind, EmailMessage, EmailThread, EmailRecipient, EmailRecipientType,
  EmailMessageAttachment,
}
use webitel_emails.Event.Clean.{clean, line, field}
use webitel_emails.Event.Snapshot.{
  Limits, Address, Attachment, InboundMessageSource, InboundMessageSnapshot, InboundMessage,
  max_address_size, max_display_name_size, max_mime_type_size, attachment_channel, clean_addresses,
  addresses, of_type, by_ordinal, stored_parts, by_position, clean_attachments, attachments,
}
use webitel_emails.Event.Snapshot.Bounds.{
  length-clean_addresses, length-clean_attachments, addresses_lem, attachments_lem,
}
use webitel_emails.Event.Envelope.{envelope, snapshot_of}
use webitel_emails.Event.Json.{
  json_rune, json_runes, json_string, json_bool, json_nullable_int, json_nullable_string, json_list,
  json_object, joined, further, json_time, civil, month_day, two_digits, fraction, second_fraction,
  encode_address, encode_attachment, encode_snapshot, encode_envelope, encode_message,
  addresses_json,
}
use webitel_emails.Event.Json.Size.{
  length-json_string-clean, length-json_object, members_size, length-json_time,
  length-json_nullable_int, length-json_list,
}
use webitel_emails.Event.Limits.{
  fill, max_id, latest, worst_address, worst_attachment, worst_snapshot, worst_message, list_size,
}

length-json_runes-fill : (n : ℕ) → length (json_runes (decode_from 0 (fill n))) ≡ 2 * n
unfolding json_runes json_rune decode_from decode_rune fill
length-json_runes-fill zero = refl
length-json_runes-fill (suc n) = omega (arith, length-json_runes-fill n)

pub length-json_string-fill : (n : ℕ) → length (json_string (fill n)) ≡ 2 * n + 2
unfolding json_string decode
length-json_string-fill n = omega (
  arith,
  length-json_runes-fill n,
  length-append (json_runes (decode_from 0 (fill n))) (b'"' ∷ []),
)

module _ (address name : Bytes) where
  encode_address-size :
      length (encode_address (record { address = address; name = name }))
      ≡ length (json_string address) + length (json_string name) + 20
  unfolding encode_address
  encode_address-size = omega (arith, length-json_object _ _)

-- An address of the snapshot.
clean_address_fits :
    (r : EmailRecipient)
    → length (
        encode_address (record {
          address = (line r.address max_address_size).0;
          name = (line r.display_name max_display_name_size).0;
        }))
      ≤ length (encode_address worst_address)
unfolding line
clean_address_fits r = omega (
  arith,
  encode_address-size (line r.address max_address_size).0
      (line r.display_name max_display_name_size).0,
  encode_address-size (fill max_address_size) (fill max_display_name_size),
  length-json_string-clean r.address max_address_size true,
  length-json_string-clean r.display_name max_display_name_size true,
  length-json_string-fill max_address_size,
  length-json_string-fill max_display_name_size,
)

abbrev pub worst_address_size : ℕ
worst_address_size = length (encode_address worst_address)

clean_addresses_fit :
    (truncated : Bool) (rs : List EmailRecipient)
    → All (λ v. length v ≤ worst_address_size) (map encode_address (clean_addresses truncated rs).0)
unfolding clean_addresses
clean_addresses_fit truncated [] = tt
clean_addresses_fit truncated (r ∷ rs) = (
  clean_address_fits r,
  clean_addresses_fit
      (truncated
        || (line r.address max_address_size).1
        || (line r.display_name max_display_name_size).1)
      rs,
)

length-map : {A B : Type 0} (f : A → B) (xs : List A) → length (map f xs) ≡ length xs
length-map f [] = refl
length-map f (x ∷ xs) = omega (arith, length-map f xs)

-- One list of addresses of the snapshot.
pub addresses_fit :
    (recipients : List (Option EmailRecipient)) (kind : EmailRecipientType) (l : Limits)
    → length (addresses_json (addresses recipients kind l).0)
      ≤ 2 + list_size l.max_addresses_per_type worst_address_size
unfolding addresses
addresses_fit recipients kind l =
    let matched = sort by_ordinal (of_type kind recipients) in
    let cut = ltb l.max_addresses_per_type (length matched) in
    let listed = take l.max_addresses_per_type matched in
    length-json_list worst_address_size l.max_addresses_per_type
      (map encode_address (clean_addresses cut listed).0) (clean_addresses_fit cut listed)
      (omega (
        arith,
        length-map encode_address (clean_addresses cut listed).0,
        length-clean_addresses cut listed,
        length-take l.max_addresses_per_type matched,
      ))

module _ (a : Attachment) where
  encode_attachment-size :
      length (encode_attachment a)
      ≡ length (format_int a.id)
        + length (json_string a.name)
        + length (format_int a.size)
        + length (json_string a.mime)
        + length (json_nullable_string a.view_name)
        + length (json_string a.channel)
        + 55
  unfolding encode_attachment
  encode_attachment-size = omega (arith, length-json_object _ _)

pub length-format_int-max_id : length (format_int max_id) ≡ 19
unfolding format_int
length-format_int-max_id = refl

-- An attachment of the snapshot, its file id and size being int64.
clean_attachment_fits :
    (l : Limits) (file_id : ℕ) (p : EmailMessageAttachment)
    → IsInt64 file_id
    → IsInt64 p.size
    → length (
        encode_attachment (record {
          id = file_id;
          name = (line p.file_name l.max_field_size).0;
          size = p.size;
          mime = (line p.mime_type max_mime_type_size).0;
          view_name = none;
          channel = attachment_channel;
        }))
      ≤ length (encode_attachment (worst_attachment l))
unfolding line
clean_attachment_fits l file_id p h1 h2 = omega (
  arith,
  encode_attachment-size (record {
    id = file_id;
    name = (line p.file_name l.max_field_size).0;
    size = p.size;
    mime = (line p.mime_type max_mime_type_size).0;
    view_name = none;
    channel = attachment_channel;
  }),
  encode_attachment-size (worst_attachment l),
  length-json_string-clean p.file_name l.max_field_size true,
  length-json_string-clean p.mime_type max_mime_type_size true,
  length-json_string-fill l.max_field_size,
  length-json_string-fill max_mime_type_size,
  length-format_int file_id h1,
  length-format_int p.size h2,
  length-format_int-max_id,
)

abbrev pub IsInt64Part : ℕ × EmailMessageAttachment → Type 0
IsInt64Part (file_id, p) = IsInt64 file_id × IsInt64 p.size

clean_attachments_fit :
    (l : Limits) (truncated : Bool) (ps : List (ℕ × EmailMessageAttachment))
    → All IsInt64Part ps
    → All
        (λ v. length v ≤ length (encode_attachment (worst_attachment l)))
        (map encode_attachment (clean_attachments l.max_field_size truncated ps).0)
unfolding clean_attachments
clean_attachments_fit l truncated [] h = tt
clean_attachments_fit l truncated ((file_id, p) ∷ ps) h = (
  clean_attachment_fits l file_id p h.0.0 h.0.1,
  clean_attachments_fit l
      (truncated
        || (line p.file_name l.max_field_size).1
        || (line p.mime_type max_mime_type_size).1)
      ps h.1,
)

All-take {ℓ κ} : {A : Type ℓ} (P : A → Type κ) (n : ℕ) (xs : List A) → All P xs → All P (take n xs)
All-take P zero xs h = tt
All-take P (suc n) [] h = tt
All-take P (suc n) (x ∷ xs) h = (h.0, All-take P n xs h.1)

-- The list of attachments of the snapshot.
pub attachments_fit :
    (parts : List (Option EmailMessageAttachment)) (l : Limits)
    → All IsInt64Part (stored_parts parts)
    → length (json_list (map encode_attachment (attachments parts l).0))
      ≤ 2 + list_size l.max_attachments (length (encode_attachment (worst_attachment l)))
unfolding attachments
attachments_fit parts l h =
    let stored = sort by_position (stored_parts parts) in
    let cut = ltb l.max_attachments (length stored) in
    let listed = take l.max_attachments stored in
    let int64 =
      All-take IsInt64Part l.max_attachments stored
        (All-sort by_position IsInt64Part (stored_parts parts) h) in
    length-json_list (length (encode_attachment (worst_attachment l))) l.max_attachments
      (map encode_attachment (clean_attachments l.max_field_size cut listed).0)
      (clean_attachments_fit l cut listed int64)
      (omega (
        arith,
        length-map encode_attachment (clean_attachments l.max_field_size cut listed).0,
        length-clean_attachments l.max_field_size cut listed,
        length-take l.max_attachments stored,
      ))
