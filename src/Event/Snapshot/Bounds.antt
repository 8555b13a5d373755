-- ===== src/Event/Snapshot/Bounds.antt =====
-- The lists of the snapshot: their size, and what the truncation flags say.
use webitel_emails.Prelude.{
  ℕ, zero, suc, ◌<◌, ◌↔◌, Bool-cases, Option-cases, ascii, ◌&&◌, some, ◌≡◌, refl, sym, subst, ap,
  ap₂, ◌∙◌, ◌⊎◌, inl, inr, Bool, true, false, ◌||◌, ltb, Option, none, List, [], ◌∷◌, length, take,
  map, sort, length-sort, Bytes, arith,
}
use webitel_emails.Prelude.Utf8.{utf8, map_text}
use webitel_emails.Model.Email.{
  EmailRecipient, EmailRecipientType, EmailMessageAttachment, EmailAttachmentState,
  EmailPartDisposition,
}
use webitel_emails.Event.Clean.{clean, line}
use webitel_emails.Event.Clean.Boundary.{clean_runes, clean-cut}
use webitel_emails.Event.Snapshot.{
  Limits, Address, Attachment, max_address_size, max_display_name_size, max_mime_type_size,
  attachment_channel, same_type, of_type, by_ordinal, clean_addresses, addresses, is_stored,
  is_attachment, stored_parts, by_position, clean_attachments, attachments,
}

-- A header value, cleaned and not cut.
abbrev pub whole_line : Bytes → Bytes
whole_line value = utf8 (clean_runes value true)

line_uncut :
    (value : Bytes) (max_size : ℕ)
    → ((line value max_size).1 ≡ true) ⊎ ((line value max_size).0 ≡ whole_line value)
unfolding line clean clean_runes map_text
line_uncut value max_size = ground arith

abbrev pub whole_address : EmailRecipient → Address
whole_address r = record { address = whole_line r.address; name = whole_line r.display_name }

-- One round of a loop that cleans two values.
uncut_two :
    {A : Type 0} (make : Bytes → Bytes → A) (b1 b2 : Bool) (x x' y y' : Bytes)
    → (b1 ≡ true) ⊎ (x ≡ x')
    → (b2 ≡ true) ⊎ (y ≡ y')
    → b1 || b2 ≡ false
    → make x y ≡ make x' y'
uncut_two make b1 b2 x x' y y' h1 h2 e = ground arith

take_short : {A : Type 0} (n : ℕ) (xs : List A) → ltb n (length xs) ≡ false → take n xs ≡ xs
take_short zero [] h = refl
take_short zero (x ∷ xs) h = ground arith
take_short (suc n) [] h = refl
take_short (suc n) (x ∷ xs) h = ap (λ ys. x ∷ ys) (take_short n xs (ground arith))

clean_addresses_flag : (rs : List EmailRecipient) → (clean_addresses true rs).1 ≡ true
unfolding clean_addresses
clean_addresses_flag [] = refl
clean_addresses_flag (r ∷ rs) = clean_addresses_flag rs

pub length-clean_addresses :
    (truncated : Bool) (rs : List EmailRecipient)
    → length (clean_addresses truncated rs).0 ≡ length rs
unfolding clean_addresses
length-clean_addresses truncated [] = refl
length-clean_addresses truncated (r ∷ rs) =
    let cut = (line r.address max_address_size).1 in
    let name_cut = (line r.display_name max_display_name_size).1 in
    ap suc (length-clean_addresses (truncated || cut || name_cut) rs)

clean_addresses_lem :
    (truncated : Bool) (rs : List EmailRecipient)
    → ((clean_addresses truncated rs).1 ≡ true)
      ⊎ ((truncated ≡ false) × ((clean_addresses truncated rs).0 ≡ map whole_address rs))
unfolding clean_addresses
clean_addresses_lem true rs = inl (clean_addresses_flag rs)
clean_addresses_lem false [] = inr (refl, refl)
clean_addresses_lem false (r ∷ rs) =
    let cut = (line r.address max_address_size).1 in
    let name_cut = (line r.display_name max_display_name_size).1 in
    elim (clean_addresses_lem (cut || name_cut) rs) [
      | inl h ↦ inl h
      | inr (uncut, all) ↦ inr (
        refl,
        ap₂ (λ a rest. a ∷ rest)
            (uncut_two (λ a n. record { address = a; name = n }) cut name_cut _ _ _ _
              (line_uncut r.address max_address_size)
              (line_uncut r.display_name max_display_name_size) uncut)
            all,
      )
    ]

-- Of a list of pointers, what `P` takes of those that are not nil, in the order of the list.
pub data Selected {A B : Type 0} (P : A → B → Type 0) : List (Option A) → List B → Type 0 where
  end : Selected P [] []
  nil : {xs : List (Option A)} {ys : List B} → Selected P xs ys → Selected P (none ∷ xs) ys
  takes :
      {xs : List (Option A)} {ys : List B} (x : A) (y : B)
      → P x y
      → Selected P xs ys
      → Selected P (some x ∷ xs) (y ∷ ys)
  leaves :
      {xs : List (Option A)} {ys : List B} (x : A)
      → ((y : B) → ¬ P x y)
      → Selected P xs ys
      → Selected P (some x ∷ xs) ys

-- A recipient of the type.
abbrev pub IsOfType : EmailRecipientType → EmailRecipient → EmailRecipient → Type 0
IsOfType kind r chosen = (chosen ≡ r) × (r.type ≡ kind)

-- A part that is a stored attachment, with the id of its file.
abbrev pub IsStoredFile : EmailMessageAttachment → ℕ × EmailMessageAttachment → Type 0
IsStoredFile p (file_id, chosen) =
    (chosen ≡ p)
    × (p.file_id ≡ some file_id)
    × (p.state ≡ EmailAttachmentState.stored)
    × (p.disposition ≡ EmailPartDisposition.attachment)

abbrev pub Any : {A : Type 0} → (A → Type 0) → List A → Type 0
Any P [] = ⊥
Any P (x ∷ xs) = P x ⊎ Any P xs

line-flag :
    (value : Bytes) (max_size : ℕ)
    → ((line value max_size).1 ≡ true) ↔ (max_size < length (whole_line value))
unfolding line
line-flag value max_size = (clean-cut value max_size true).1

-- A recipient whose address or name does not fit.
abbrev pub IsLongRecipient : EmailRecipient → Type 0
IsLongRecipient r =
    (320 < length (whole_line r.address)) ⊎ (256 < length (whole_line r.display_name))

-- A recipient as the list shows it.
abbrev pub cut_address : EmailRecipient → Address
cut_address r = record { address = (line r.address 320).0; name = (line r.display_name 256).0 }

clean_addresses-cut :
    (truncated : Bool) (rs : List EmailRecipient)
    → ((clean_addresses truncated rs).0 ≡ map cut_address rs)
      × (((clean_addresses truncated rs).1 ≡ true) ↔ ((truncated ≡ true) ⊎ Any IsLongRecipient rs))
unfolding clean_addresses
clean_addresses-cut truncated [] = (refl, ground arith)
clean_addresses-cut truncated (r ∷ rs) =
    let cut = (line r.address max_address_size).1 in
    let name_cut = (line r.display_name max_display_name_size).1 in
    let rest = clean_addresses-cut (truncated || cut || name_cut) rs in
    let long = line-flag r.address 320 in
    let long_name = line-flag r.display_name 256 in
    (ap (λ listed. cut_address r ∷ listed) rest.0, ground (arith, rest.1, long, long_name))

same_type_sound : (a b : EmailRecipientType) → same_type a b ≡ true → a ≡ b
unfolding same_type
same_type_sound a b h = ground arith

same_type-differs : (a b : EmailRecipientType) → same_type a b ≡ false → ¬ (a ≡ b)
unfolding same_type
same_type-differs a b h = ground arith

of_type-Selected :
    (kind : EmailRecipientType) (rs : List (Option EmailRecipient))
    → Selected (IsOfType kind) rs (of_type kind rs)
unfolding of_type
of_type-Selected kind [] = end
of_type-Selected kind (none ∷ rs) = nil (of_type-Selected kind rs)
of_type-Selected kind (some r ∷ rs) = elim (Bool-cases (same_type r.type kind)) [
  | inl e ↦
      rw (e, of_type) (takes r r (refl, same_type_sound r.type kind e) (of_type-Selected kind rs))
  | inr e ↦
      rw (e, of_type)
        (leaves r (λ y h. same_type-differs r.type kind e h.1) (of_type-Selected kind rs))
]

-- The list of the recipients `chosen` and its flag: the first ones by ordinal, up to the limit, each
-- cleaned and cut to its sizes; the flag is set exactly if one of them is left out or does not fit,
-- and without it the list has all of them whole.
abbrev pub ListedAddresses : Limits → List EmailRecipient → List Address × Bool → Type 0
ListedAddresses limits chosen (listed, flag) =
    let sorted = sort (λ a b. ltb a.ordinal b.ordinal) chosen in
    let first = take limits.max_addresses_per_type sorted in
    (listed ≡ map cut_address first)
    × ((flag ≡ true)
        ↔ ((limits.max_addresses_per_type < length chosen) ⊎ Any IsLongRecipient first))
    × ((flag ≡ true) ⊎ (listed ≡ map whole_address sorted))

-- The recipients of the type, in the order of their ordinals, are listed up to the limit, each
-- cleaned and cut to its sizes. The list is flagged exactly if there are more of them than the limit
-- or one that is listed does not fit, and without the flag it has all of them whole.
pub addresses_lem :
    (recipients : List (Option EmailRecipient)) (kind : EmailRecipientType) (limits : Limits)
    → (chosen : List EmailRecipient) × Selected (IsOfType kind) recipients chosen
      × ListedAddresses limits chosen (addresses recipients kind limits)
unfolding addresses
addresses_lem recipients kind limits =
    let chosen = of_type kind recipients in
    let matched = sort by_ordinal chosen in
    let limit = limits.max_addresses_per_type in
    let cut = clean_addresses-cut (ltb limit (length matched)) (take limit matched) in
    let flag : (ltb limit (length matched) ≡ true) ↔ (limit < length chosen) =
      ground (arith, length-sort by_ordinal chosen) in
    (
      chosen,
      of_type-Selected kind recipients,
      (
        cut.0,
        ground (arith, cut.1, flag),
        elim (clean_addresses_lem (ltb limit (length matched)) (take limit matched)) [
          | inl h ↦ inl h
          | inr (short, all) ↦ inr (all ∙ ap (map whole_address) (take_short limit matched short))
        ],
      ),
    )

abbrev pub whole_attachment : ℕ × EmailMessageAttachment → Attachment
whole_attachment (file_id, p) = record {
  id = file_id;
  name = whole_line p.file_name;
  size = p.size;
  mime = whole_line p.mime_type;
  view_name = none;
  channel = attachment_channel;
}

module _ (max_field_size : ℕ) where
  clean_attachments_flag :
      (ps : List (ℕ × EmailMessageAttachment)) → (clean_attachments max_field_size true ps).1 ≡ true
  unfolding clean_attachments
  clean_attachments_flag [] = refl
  clean_attachments_flag (p ∷ ps) = clean_attachments_flag ps

  pub length-clean_attachments :
      (truncated : Bool) (ps : List (ℕ × EmailMessageAttachment))
      → length (clean_attachments max_field_size truncated ps).0 ≡ length ps
  unfolding clean_attachments
  length-clean_attachments truncated [] = refl
  length-clean_attachments truncated ((file_id, p) ∷ ps) =
      let cut = (line p.file_name max_field_size).1 in
      let mime_cut = (line p.mime_type max_mime_type_size).1 in
      ap suc (length-clean_attachments (truncated || cut || mime_cut) ps)

  clean_attachments_lem :
      (truncated : Bool) (ps : List (ℕ × EmailMessageAttachment))
      → ((clean_attachments max_field_size truncated ps).1 ≡ true)
        ⊎ ((truncated ≡ false)
            × ((clean_attachments max_field_size truncated ps).0 ≡ map whole_attachment ps))
  unfolding clean_attachments
  clean_attachments_lem true ps = inl (clean_attachments_flag ps)
  clean_attachments_lem false [] = inr (refl, refl)
  clean_attachments_lem false ((file_id, p) ∷ ps) =
      let cut = (line p.file_name max_field_size).1 in
      let mime_cut = (line p.mime_type max_mime_type_size).1 in
      elim (clean_attachments_lem (cut || mime_cut) ps) [
        | inl h ↦ inl h
        | inr (uncut, all) ↦ inr (
          refl,
          ap₂ (λ a rest. a ∷ rest)
              (uncut_two
                (λ n m. record {
                  id = file_id;
                  name = n;
                  size = p.size;
                  mime = m;
                  view_name = none;
                  channel = attachment_channel;
                })
                cut mime_cut _ _ _ _ (line_uncut p.file_name max_field_size)
                (line_uncut p.mime_type max_mime_type_size) uncut)
              all,
        )
      ]

stored_parts-Selected :
    (ps : List (Option EmailMessageAttachment)) → Selected IsStoredFile ps (stored_parts ps)
unfolding stored_parts
stored_parts-Selected [] = end
stored_parts-Selected (none ∷ ps) = nil (stored_parts-Selected ps)
stored_parts-Selected (some p ∷ ps) = elim (Option-cases p.file_id) [
  | inl e ↦
      let same : stored_parts (some p ∷ ps) ≡ stored_parts ps = rw (e, stored_parts) refl in
      subst (Selected IsStoredFile (some p ∷ ps)) (sym same)
        (leaves p (λ y h. ground (arith, h.1)) (stored_parts-Selected ps))
  | inr (file_id, e) ↦ elim (Bool-cases (is_stored p.state && is_attachment p.disposition)) [
    | inl f ↦
        let same : stored_parts (some p ∷ ps) ≡ (file_id, p) ∷ stored_parts ps =
          ground (arith, e, f) in
        subst (Selected IsStoredFile (some p ∷ ps)) (sym same)
          (takes p (file_id, p) (refl, e, ground arith, ground arith) (stored_parts-Selected ps))
    | inr f ↦
        let same : stored_parts (some p ∷ ps) ≡ stored_parts ps = rw (e, f, stored_parts) refl in
        subst (Selected IsStoredFile (some p ∷ ps)) (sym same)
          (leaves p (λ y h. ground (arith, h.1)) (stored_parts-Selected ps))
  ]
]

-- An attachment whose name or type does not fit.
abbrev pub IsLongFile : Limits → ℕ × EmailMessageAttachment → Type 0
IsLongFile limits (file_id, p) =
    (limits.max_field_size < length (whole_line p.file_name))
    ⊎ (255 < length (whole_line p.mime_type))

-- An attachment as the list shows it.
abbrev pub cut_attachment : Limits → ℕ × EmailMessageAttachment → Attachment
cut_attachment limits (file_id, p) = record {
  id = file_id;
  name = (line p.file_name limits.max_field_size).0;
  size = p.size;
  mime = (line p.mime_type 255).0;
  view_name = none;
  channel = ascii "mail";
}

clean_attachments-cut :
    (limits : Limits) (truncated : Bool) (ps : List (ℕ × EmailMessageAttachment))
    → let made = clean_attachments limits.max_field_size truncated ps in
      (made.0 ≡ map (cut_attachment limits) ps)
      × ((made.1 ≡ true) ↔ ((truncated ≡ true) ⊎ Any (IsLongFile limits) ps))
unfolding clean_attachments
clean_attachments-cut limits truncated [] = (refl, ground arith)
clean_attachments-cut limits truncated ((file_id, p) ∷ ps) =
    let name_cut = (line p.file_name limits.max_field_size).1 in
    let mime_cut = (line p.mime_type max_mime_type_size).1 in
    let rest = clean_attachments-cut limits (truncated || name_cut || mime_cut) ps in
    let long_name = line-flag p.file_name limits.max_field_size in
    let long_mime = line-flag p.mime_type 255 in
    (
      ap (λ listed. cut_attachment limits (file_id, p) ∷ listed) rest.0,
      ground (arith, rest.1, long_name, long_mime),
    )

-- The list of the attachments `chosen` and its flag: the first ones by position, up to the limit,
-- their texts cleaned and cut; the flag is set exactly if one of them is left out or has a text that
-- does not fit, and without it the list has all of them whole.
abbrev pub ListedAttachments :
    Limits → List (ℕ × EmailMessageAttachment) → List Attachment × Bool → Type 0
ListedAttachments limits chosen (listed, flag) =
    let sorted = sort (λ a b. ltb a.1.position b.1.position) chosen in
    let first = take limits.max_attachments sorted in
    (listed ≡ map (cut_attachment limits) first)
    × ((flag ≡ true) ↔ ((limits.max_attachments < length chosen) ⊎ Any (IsLongFile limits) first))
    × ((flag ≡ true) ⊎ (listed ≡ map whole_attachment sorted))

-- The stored parts that are attachments, in the order of their positions, are listed up to the
-- limit, their texts cleaned and cut. The list is flagged exactly if there are more of them than the
-- limit or one that is listed has a text that does not fit, and without the flag it has all of them
-- whole.
pub attachments_lem :
    (parts : List (Option EmailMessageAttachment)) (limits : Limits)
    → (chosen : List (ℕ × EmailMessageAttachment)) × Selected IsStoredFile parts chosen
      × ListedAttachments limits chosen (attachments parts limits)
unfolding attachments
attachments_lem parts limits =
    let chosen = stored_parts parts in
    let stored = sort by_position chosen in
    let limit = limits.max_attachments in
    let cut = clean_attachments-cut limits (ltb limit (length stored)) (take limit stored) in
    let flag : (ltb limit (length stored) ≡ true) ↔ (limit < length chosen) =
      ground (arith, length-sort by_position chosen) in
    (
      chosen,
      stored_parts-Selected parts,
      (
        cut.0,
        ground (arith, cut.1, flag),
        elim (clean_attachments_lem limits.max_field_size (ltb limit (length stored))
            (take limit stored)) [
              | inl h ↦ inl h
              | inr (short, all) ↦
                  inr (all ∙ ap (map whole_attachment) (take_short limit stored short))
            ],
      ),
    )
