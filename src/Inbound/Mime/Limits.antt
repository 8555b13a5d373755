-- ===== src/Inbound/Mime/Limits.antt =====
-- Each part that the parser reads stays within the limits of internal/inbound/mime_parser.go.
use webitel_emails.Prelude.{
  ℕ, ◌+◌, ◌-◌, ◌≤◌, ◌<◌, ◌≡◌, refl, ◌⊎◌, inl, inr, true, false, ltb, leb, Bool-cases, Option, none,
  some, length, take_all, Bytes, arith,
}
use webitel_emails.Model.Email.{EmailPart, EmailPartSkippedReason}
use webitel_emails.Inbound.Mime.{
  MimeParser, Reader, Accepted, read_part_content, buffer_limit, read_part, skipped,
}

ge→ltb : (a b : ℕ) → b ≤ a → ltb a b ≡ false
ge→ltb a b h = ground arith

module _ (p : MimeParser) (part : EmailPart) (reader : Reader) (a : Accepted) where
  abbrev whole_part : EmailPart
  whole_part = record part { size = length reader.content; content = some reader.content }

  abbrev counted : Accepted
  counted = record { parts = a.parts + 1; size = a.size + length reader.content }

  -- Content within the limits makes the buffer hold it.
  limit-room :
      leb p.max_attachments a.parts ≡ false
      → ltb p.max_attachment_size (length reader.content) ≡ false
      → ltb (p.max_attachments_total_size - a.size) (length reader.content) ≡ false
      → length reader.content ≤ buffer_limit p a
  unfolding buffer_limit
  limit-room few small room = ground arith

  read_broken :
      reader.is_broken ≡ true
      → read_part_content reader (buffer_limit p a) ≡ (none, length reader.content, true)
  unfolding read_part_content
  read_broken broken = rw (broken) refl

  -- A reader without an error says its size, whatever fits in the buffer.
  read_sized :
      reader.is_broken ≡ false
      → (content : Option Bytes) × (read_part_content reader (buffer_limit p a)
          ≡ (content, length reader.content, false))
  unfolding read_part_content
  read_sized sound = rw (sound) (_, refl)

  read_whole :
      reader.is_broken ≡ false
      → length reader.content ≤ buffer_limit p a
      → read_part_content reader (buffer_limit p a)
        ≡ (some reader.content, length reader.content, false)
  unfolding read_part_content
  read_whole ok_reader room =
      rw
        (
          ok_reader,
          take_all (buffer_limit p a + 1) reader.content (omega arith),
          ge→ltb (buffer_limit p a) (length reader.content) room,
        )
        refl

  -- Each way to read a part, under exactly the conditions of the limits that lead to it.
  abbrev pub Outcome : EmailPart × Accepted → Type 0
  Outcome (read, a') =
      ((reader.is_broken ≡ true)
        × (read ≡ skipped p part (length reader.content) EmailPartSkippedReason.read_error)
        × (a' ≡ a))
      ⊎ ((reader.is_broken ≡ false)
          × (p.max_attachments ≤ a.parts)
          × (read ≡ skipped p part (length reader.content) EmailPartSkippedReason.count_limit)
          × (a' ≡ a))
      ⊎ ((reader.is_broken ≡ false)
          × (a.parts < p.max_attachments)
          × (p.max_attachment_size < length reader.content)
          × (read ≡ skipped p part (length reader.content) EmailPartSkippedReason.size_limit)
          × (a' ≡ a))
      ⊎ ((reader.is_broken ≡ false)
          × (a.parts < p.max_attachments)
          × (length reader.content ≤ p.max_attachment_size)
          × (p.max_attachments_total_size < a.size + length reader.content)
          × (read ≡ skipped p part (length reader.content) EmailPartSkippedReason.total_limit)
          × (a' ≡ a))
      ⊎ ((reader.is_broken ≡ false)
          × (a.parts < p.max_attachments)
          × (length reader.content ≤ p.max_attachment_size)
          × (a.size + length reader.content ≤ p.max_attachments_total_size)
          × (read ≡ whole_part)
          × (a' ≡ counted))

  -- While the counted size is within its limit: a part is skipped and not counted, with its size
  -- and the first reason that applies, if its reader fails, if as many parts were accepted as the
  -- limit allows, if it is larger than a part may be, or if it does not fit in the total; in every
  -- other case it gets the whole content of its reader and is counted.
  pub read_part-Outcome :
      a.size ≤ p.max_attachments_total_size → Outcome (read_part p part reader a)
  unfolding read_part
  read_part-Outcome within = elim (Bool-cases reader.is_broken) [
    | inl e ↦ rw (read_broken e) (inl (e, refl, refl))
    | inr e ↦
        let (content, sized) = read_sized e in
        elim (Bool-cases (leb p.max_attachments a.parts)) [
          | inl many ↦ rw (sized, many) (inr (inl (e, ground arith, refl, refl)))
          | inr few ↦ elim (Bool-cases (ltb p.max_attachment_size (length reader.content))) [
            | inl large ↦
                rw (sized, few, large) (inr (inr (inl (e, ground arith, ground arith, refl, refl))))
            | inr small ↦
                elim (Bool-cases
                  (ltb (p.max_attachments_total_size - a.size) (length reader.content))) [
                    | inl over ↦
                        rw (sized, few, small, over)
                          (inr (
                            inr (
                              inr (inl (e, ground arith, ground arith, ground arith, refl, refl)))))
                    | inr room ↦
                        rw (read_whole e (limit-room few small room), few, small, room)
                          (inr (
                            inr (
                              inr (inr (e, ground arith, ground arith, ground arith, refl, refl)))))
                  ]
          ]
        ]
  ]
