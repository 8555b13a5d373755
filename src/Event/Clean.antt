-- ===== src/Event/Clean.antt =====
-- internal/event/inbound_message.go: clean, line and field.
pub mod Cut
pub mod Boundary
pub mod Idempotent
use webitel_emails.Prelude.{
  ℕ, zero, suc, Bool, true, false, not, ◌&&◌, ◌||◌, ◌==◌, nat_eq, leb, if◌then◌else◌, Option, none,
  some, List, [], ◌∷◌, length, take, Bytes,
}
use webitel_emails.Prelude.Utf8.{rune_start, to_valid_utf8, map_text}

-- The function that clean gives to strings.Map; -1 is none.
unfoldable pub keep_rune : Bool → ℕ → Option ℕ
keep_rune single_line r =
    if leb 0x20 r || r == b'\t'
    then some r
    else if not single_line && (r == b'\n' || r == b'\r')
    then some r
    else if single_line
    then some b' '
    else none

unfoldable pub byte_at : ℕ → Bytes → Option ℕ
byte_at n [] = none
byte_at zero (b ∷ bs) = some b
byte_at (suc n) (b ∷ bs) = byte_at n bs

-- The loop of clean. It starts inside the text, so there is a byte at each position that it reads.
unfoldable pub cut_back : ℕ → Bytes → ℕ
cut_back zero value = 0
cut_back (suc cut) value =
    let before = cut_back cut value in
    elim (byte_at (suc cut) value) [
      | some b ↦ if rune_start b then suc cut else before
      | none ↦ suc cut
    ]

unfoldable pub clean : Bytes → ℕ → Bool → Bytes × Bool
clean value max_size single_line =
    let cleaned = map_text (keep_rune single_line) (to_valid_utf8 value) in
    if leb (length cleaned) max_size
    then (cleaned, false)
    else (take (cut_back max_size cleaned) cleaned, true)

unfoldable pub line : Bytes → ℕ → Bytes × Bool
line value max_size = clean value max_size true

unfoldable pub field : Bytes → ℕ → Bytes
field value max_size = (line value max_size).0
