-- ===== src/Event/Clean/Boundary.antt =====
-- clean keeps the longest run of whole runes that fits.
use webitel_emails.Prelude.{
  ℕ, ◌-◌, ◌≤◌, ◌<◌, ◌≡◌, ◌≢◌, refl, Bool, true, false, nat_eq, leb, Bool-cases, some, List, [], ◌∷◌,
  length, length-append, All, Bytes, arith, ◌↔◌, inl, inr,
}
use webitel_emails.Prelude.Utf8.{
  rune_len, encode_rune, utf8, decode, to_valid_utf8, map_decoded, map_text, valid_rune,
}
use webitel_emails.Prelude.Utf8.RoundTrip.{IsScalar}
use webitel_emails.Prelude.Utf8.Decoded.{All-map_decoded}
use webitel_emails.Event.Clean.{keep_rune, clean}
use webitel_emails.Event.Clean.Cut.{fit_runes, length-encode_rune, take-cut_back}

-- A control character that may not stay: a line may have tabs, a longer text also line ends.
abbrev pub IsControl : Bool → ℕ → Type 0
IsControl true r = (r < 32) × (r ≢ 9)
IsControl false r = (r < 32) × (r ≢ 9) × (r ≢ 10) × (r ≢ 13)

-- The runes of a text without its controls: in a line a space takes the place of each.
pub data WithoutControls (single_line : Bool) : List (ℕ × ℕ) → List ℕ → Type 0 where
  end : WithoutControls single_line [] []
  keeps :
      {rs : List (ℕ × ℕ)} {kept : List ℕ} (r size : ℕ)
      → ¬ IsControl single_line r
      → WithoutControls single_line rs kept
      → WithoutControls single_line ((r, size) ∷ rs) (r ∷ kept)
  blanks :
      {rs : List (ℕ × ℕ)} {kept : List ℕ} (r size : ℕ)
      → single_line ≡ true
      → IsControl single_line r
      → WithoutControls single_line rs kept
      → WithoutControls single_line ((r, size) ∷ rs) (32 ∷ kept)
  leaves_out :
      {rs : List (ℕ × ℕ)} {kept : List ℕ} (r size : ℕ)
      → single_line ≡ false
      → IsControl single_line r
      → WithoutControls single_line rs kept
      → WithoutControls single_line ((r, size) ∷ rs) kept

-- The runes that clean keeps of a text, before it cuts it.
unfoldable pub clean_runes : Bytes → Bool → List ℕ
clean_runes value single_line = map_decoded (keep_rune single_line) (decode (to_valid_utf8 value))

-- A rune that clean leaves as it is.
abbrev pub IsKept : Bool → ℕ → Type 0
IsKept single_line r = IsScalar r × (keep_rune single_line r ≡ some r)

kept :
    (single_line : Bool) (r r' : ℕ)
    → IsScalar r
    → keep_rune single_line r ≡ some r'
    → IsKept single_line r'
unfolding keep_rune valid_rune
kept true r r' v h = ground arith
kept false r r' v h = ground arith

pub clean_runes-IsKept :
    (value : Bytes) (single_line : Bool) → All (IsKept single_line) (clean_runes value single_line)
unfolding clean_runes
clean_runes-IsKept value single_line =
    All-map_decoded (IsKept single_line) (keep_rune single_line) (kept single_line)
      (to_valid_utf8 value)

pub All-fit_runes {κ} :
    (P : ℕ → Type κ) (max_size : ℕ) (rs : List ℕ) → All P rs → All P (fit_runes max_size rs)
unfolding fit_runes
All-fit_runes P max_size [] h = tt
All-fit_runes P max_size (r ∷ rs) h = elim (Bool-cases (leb (rune_len r) max_size)) [
  | inl e ↦ rw (e, All) (h.0, All-fit_runes P (max_size - rune_len r) rs h.1)
  | inr e ↦ rw (e, All) tt
]

pub length-fit_runes :
    (max_size : ℕ) (rs : List ℕ)
    → All IsScalar rs
    → length (utf8 (fit_runes max_size rs)) ≤ max_size
unfolding fit_runes utf8
length-fit_runes max_size [] h = omega arith
length-fit_runes max_size (r ∷ rs) h = elim (Bool-cases (leb (rune_len r) max_size)) [
  | inl e ↦
      rw (e, utf8, length-append (encode_rune r) (utf8 (fit_runes (max_size - rune_len r) rs)))
        (ground (arith, length-encode_rune r h.0, length-fit_runes (max_size - rune_len r) rs h.1))
  | inr e ↦ rw (e, utf8) (omega arith)
]

fit_runes-All :
    (max_size : ℕ) (rs : List ℕ)
    → All IsScalar rs
    → length (utf8 rs) ≤ max_size
    → fit_runes max_size rs ≡ rs
unfolding fit_runes utf8
fit_runes-All max_size [] h short = refl
fit_runes-All max_size (r ∷ rs) h short = ground (
  arith,
  length-append (encode_rune r) (utf8 rs),
  length-encode_rune r h.0,
  fit_runes-All (max_size - rune_len r) rs h.1,
)

All-weaken {ι κ} :
    {P : ℕ → Type ι} {Q : ℕ → Type κ} (f : (r : ℕ) → P r → Q r) (rs : List ℕ) → All P rs → All Q rs
All-weaken f [] h = tt
All-weaken f (r ∷ rs) h = (f r h.0, All-weaken f rs h.1)

pub scalars : (single_line : Bool) (rs : List ℕ) → All (IsKept single_line) rs → All IsScalar rs
scalars single_line rs h = All-weaken (λ r k. k.0) rs h

pub clean_runes-IsScalar :
    (value : Bytes) (single_line : Bool) → All IsScalar (clean_runes value single_line)
clean_runes-IsScalar value single_line =
    scalars single_line (clean_runes value single_line) (clean_runes-IsKept value single_line)

pub clean-cut :
    (value : Bytes) (max_size : ℕ) (single_line : Bool)
    → ((clean value max_size single_line).0
        ≡ utf8 (fit_runes max_size (clean_runes value single_line)))
      × (((clean value max_size single_line).1 ≡ true)
          ↔ (max_size < length (utf8 (clean_runes value single_line))))
unfolding clean clean_runes map_text
clean-cut value max_size single_line =
    let scalar = clean_runes-IsScalar value single_line in
    let all = fit_runes-All max_size (clean_runes value single_line) scalar in
    let cut = take-cut_back (clean_runes value single_line) max_size scalar in
    ground (arith, all, cut)
