-- ===== src/Prelude/Utf8.antt =====
-- What the code uses of unicode/utf8 and strings: DecodeRune, EncodeRune, RuneStart, ToValidUTF8
-- and Map, on the bytes of a string.
pub mod RoundTrip
pub mod Decoded
use Prim.Native.Nat.{ℕ, zero, suc, ◌+◌, ◌-◌, ◌*◌, ◌/◌, ◌%◌, ◌≤◌, ◌<◌}
use mathlib.Core.Bool.{Bool, true, false, not, ◌&&◌, ◌||◌}
use mathlib.Core.Option.{Option, none, some}
use mathlib.Core.List.{List, [], ◌∷◌, ◌++◌}
use webitel_emails.Prelude.Tests.{ltb, leb, if◌then◌else◌}
use webitel_emails.Prelude.Text.{Bytes}

abbrev pub rune_error : ℕ
rune_error = 0xfffd

-- utf8.RuneStart
unfoldable pub rune_start : ℕ → Bool
rune_start b = ltb b 0x80 || leb 0xc0 b

abbrev pub within : ℕ → ℕ → ℕ → Bool
within low high n = leb low n && leb n high

-- A Unicode scalar value: no surrogate, at most 10FFFF.
unfoldable pub valid_rune : ℕ → Bool
valid_rune r = ltb r 0xd800 || within 0xe000 0x10ffff r

-- utf8.RuneLen of a scalar value
unfoldable pub rune_len : ℕ → ℕ
rune_len r = if ltb r 0x80 then 1 else if ltb r 0x800 then 2 else if ltb r 0x10000 then 3 else 4

-- utf8.AppendRune of a scalar value
unfoldable pub encode_rune : ℕ → Bytes
encode_rune r =
    if ltb r 0x80
    then r ∷ []
    else if ltb r 0x800
    then (0xc0 + r / 0x40) ∷ (0x80 + r % 0x40) ∷ []
    else if ltb r 0x10000
    then (0xe0 + r / 0x1000) ∷ (0x80 + r / 0x40 % 0x40) ∷ (0x80 + r % 0x40) ∷ []
    else (0xf0 + r / 0x40000)
      ∷ (0x80 + r / 0x1000 % 0x40)
      ∷ (0x80 + r / 0x40 % 0x40)
      ∷ (0x80 + r % 0x40)
      ∷ []

unfoldable pub utf8 : List ℕ → Bytes
utf8 [] = []
utf8 (r ∷ rs) = encode_rune r ++ utf8 rs

abbrev pub continuation : ℕ → Bool
continuation = within 0x80 0xbf

-- The bounds of the second byte behind a first byte of three or four: no overlong form, no
-- surrogate, nothing above 10FFFF.
abbrev second_of_3 : ℕ → ℕ → Bool
second_of_3 a =
    within (if within 0xe0 0xe0 a then 0xa0 else 0x80) (if within 0xed 0xed a then 0x9f else 0xbf)

abbrev second_of_4 : ℕ → ℕ → Bool
second_of_4 a =
    within (if within 0xf0 0xf0 a then 0x90 else 0x80) (if within 0xf4 0xf4 a then 0x8f else 0xbf)

-- utf8.DecodeRuneInString of a text that starts with the byte `a`: the rune and its width, which
-- is (RuneError, 1) for an invalid encoding.
unfoldable pub decode_rune : ℕ → Bytes → ℕ × ℕ
decode_rune a rest =
    if ltb a 0x80
    then (a, 1)
    else if within 0xc2 0xdf a
    then elim rest [
      | [] ↦ (rune_error, 1)
      | b ∷ _ ↦ if continuation b then ((a - 0xc0) * 0x40 + (b - 0x80), 2) else (rune_error, 1)
    ]
    else if within 0xe0 0xef a
    then elim rest [
      | [] ↦ (rune_error, 1)
      | b ∷ bs ↦ elim bs [
        | [] ↦ (rune_error, 1)
        | c ∷ _ ↦
            if second_of_3 a b && continuation c
            then (((a - 0xe0) * 0x40 + (b - 0x80)) * 0x40 + (c - 0x80), 3)
            else (rune_error, 1)
      ]
    ]
    else if within 0xf0 0xf4 a
    then elim rest [
      | [] ↦ (rune_error, 1)
      | b ∷ bs ↦ elim bs [
        | [] ↦ (rune_error, 1)
        | c ∷ cs ↦ elim cs [
          | [] ↦ (rune_error, 1)
          | d ∷ _ ↦
              if second_of_4 a b && continuation c && continuation d
              then ((((a - 0xf0) * 0x40 + (b - 0x80)) * 0x40 + (c - 0x80)) * 0x40 + (d - 0x80), 4)
              else (rune_error, 1)
        ]
      ]
    ]
    else (rune_error, 1)

-- The runes of a text with their widths, as `range` meets them; the first argument counts the
-- bytes of the last rune that are still to pass.
unfoldable pub decode_from : ℕ → Bytes → List (ℕ × ℕ)
decode_from skip [] = []
decode_from (suc skip) (b ∷ bs) = decode_from skip bs
decode_from zero (b ∷ bs) =
    let (r, width) = decode_rune b bs in (r, width) ∷ decode_from (width - 1) bs

unfoldable pub decode : Bytes → List (ℕ × ℕ)
decode s = decode_from 0 s

-- strings.ToValidUTF8 with "\uFFFD": a run of invalid bytes becomes one replacement. The first
-- argument tells that the last byte was invalid, the second counts bytes of a rune to copy.
unfoldable pub to_valid_from : Bool → ℕ → Bytes → Bytes
to_valid_from invalid skip [] = []
to_valid_from invalid (suc skip) (b ∷ bs) = b ∷ to_valid_from false skip bs
to_valid_from invalid zero (b ∷ bs) =
    let (r, width) = decode_rune b bs in
    let copied = b ∷ to_valid_from false (width - 1) bs in
    let replaced = to_valid_from true 0 bs in
    if leb 0x80 b && leb width 1
    then if invalid then replaced else encode_rune rune_error ++ replaced
    else copied

unfoldable pub to_valid_utf8 : Bytes → Bytes
to_valid_utf8 s = to_valid_from false 0 s

-- The runes that strings.Map writes; a rune that `f` maps to none is dropped.
unfoldable pub map_decoded : (ℕ → Option ℕ) → List (ℕ × ℕ) → List ℕ
map_decoded f [] = []
map_decoded f ((r, width) ∷ rs) =
    let rest = map_decoded f rs in elim (f r) [ some r' ↦ r' ∷ rest | none ↦ rest ]

-- strings.Map
unfoldable pub map_text : (ℕ → Option ℕ) → Bytes → Bytes
map_text f s = utf8 (map_decoded f (decode s))
