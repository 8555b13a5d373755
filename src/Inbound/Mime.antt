-- ===== src/Inbound/Mime.antt =====
-- internal/inbound/mime_parser.go: the limits of the parser. The walk of go-message over the parts
-- of an email is a list of what its readers give.
pub mod Limits
use webitel_emails.Prelude.{
  ℕ, ◌+◌, ◌-◌, Bool, true, false, ◌||◌, ltb, leb, min, if◌then◌else◌, Option, none, some, List, [],
  ◌∷◌, length, take, Bytes, empty_text,
}
use webitel_emails.Prelude.Utf8.{to_valid_utf8}
use webitel_emails.Model.Email.{EmailPart, EmailPartSkippedReason}
use webitel_emails.Event.Clean.{cut_back}

-- MIMEParser
pub record MimeParser : Type 0 where
  pub max_body_size : ℕ
  pub max_attachment_size : ℕ
  pub max_attachments_total_size : ℕ
  pub max_attachments : ℕ

abbrev pub max_message_id_bytes : ℕ
max_message_id_bytes = 998

abbrev pub max_references_bytes : ℕ
max_references_bytes = 32_768

-- An io.Reader: the bytes that it gives, and whether an error stands behind them instead of the end.
pub record Reader : Type 0 where
  pub content : Bytes
  pub is_broken : Bool

-- readPartContent: the content, the size, and whether it failed. A reader whose bytes reach past the
-- buffer shows its error only to the copy of the remainder.
unfoldable pub read_part_content : Reader → ℕ → Option Bytes × ℕ × Bool
read_part_content reader buffer_limit =
    let content = take (buffer_limit + 1) reader.content in
    if reader.is_broken then (none, length reader.content, true) else (
      if ltb buffer_limit (length content) then none else some content,
      length reader.content,
      false,
    )

-- The counters of parseMIMEParts.
pub record Accepted : Type 0 where
  pub parts : ℕ
  pub size : ℕ

module _ (p : MimeParser) where
  unfoldable pub buffer_limit : Accepted → ℕ
  buffer_limit a =
      if leb p.max_attachments a.parts
      then 0
      else min p.max_attachment_size (p.max_attachments_total_size - a.size)

  abbrev pub skipped : EmailPart → ℕ → EmailPartSkippedReason → EmailPart
  skipped part size reason = record part { size = size; skipped_reason = some reason }

  -- The switch of parseMIMEParts on one part that parseEmailPart made: it has neither content nor a
  -- reason yet.
  unfoldable pub read_part : EmailPart → Reader → Accepted → EmailPart × Accepted
  unfolding buffer_limit
  read_part part reader a =
      let (content, size, failed) = read_part_content reader (buffer_limit a) in
      if failed
      then (skipped part size EmailPartSkippedReason.read_error, a)
      else if leb p.max_attachments a.parts
      then (skipped part size EmailPartSkippedReason.count_limit, a)
      else if ltb p.max_attachment_size size
      then (skipped part size EmailPartSkippedReason.size_limit, a)
      else if ltb (p.max_attachments_total_size - a.size) size
      then (skipped part size EmailPartSkippedReason.total_limit, a)
      else (
        record part { size = size; content = content },
        record { parts = a.parts + 1; size = a.size + size },
      )

  -- The parts of an email in the order of the walk.
  unfoldable pub read_parts : List (EmailPart × Reader) → Accepted → List EmailPart
  read_parts [] a = []
  read_parts ((part, reader) ∷ rest) a =
      let (read, a') = read_part part reader a in read ∷ read_parts rest a'

abbrev reverse_onto : List Bytes → List Bytes → List Bytes
reverse_onto [] out = out
reverse_onto (v ∷ vs) out = reverse_onto vs (v ∷ out)

-- The loop of limitReferences: the values before `start`, the last one first, and those behind it.
unfoldable pub keep_references : List Bytes → List Bytes → ℕ → List Bytes
keep_references [] kept size = kept
keep_references (v ∷ before) kept size =
    let next = length v + (elim kept as (λ _. ℕ) [ [] ↦ 0 | _ ∷ _ ↦ 1 ]) in
    let rest = keep_references before (v ∷ kept) (size + next) in
    if ltb max_references_bytes (size + next) then kept else rest

unfoldable pub limit_references : List Bytes → List Bytes
limit_references values = keep_references (reverse_onto values []) [] 0

unfoldable pub limit_body : Bytes → ℕ → Bytes
limit_body body limit =
    let value = to_valid_utf8 (if ltb limit (length body) then take limit body else body) in
    if leb (length value) limit then value else take (cut_back limit value) value

-- What cleanMessageID makes of a value whose header text is clean.
unfoldable pub bounded_message_id : Bytes → Bytes
bounded_message_id value =
    if empty_text value || ltb max_message_id_bytes (length value) then [] else value
