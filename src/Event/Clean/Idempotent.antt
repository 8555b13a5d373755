-- ===== src/Event/Clean/Idempotent.antt =====
-- clean leaves a clean text that fits as it is.
use webitel_emails.Prelude.{
  ℕ, ◌≤◌, ◌≡◌, refl, Bool, false, List, [], ◌∷◌, length, map, All, Bytes, arith,
}
use webitel_emails.Prelude.Utf8.{rune_len, utf8, to_valid_utf8, map_decoded, map_text}
use webitel_emails.Prelude.Utf8.Decoded.{decode-utf8, to_valid_utf8-utf8}
use webitel_emails.Event.Clean.{keep_rune, clean}
use webitel_emails.Event.Clean.Cut.{fit_runes}
use webitel_emails.Event.Clean.Boundary.{
  IsKept, scalars, clean_runes, clean_runes-IsKept, clean-cut, All-fit_runes, length-fit_runes,
}

map_decoded-kept :
    (single_line : Bool) (rs : List ℕ)
    → All (IsKept single_line) rs
    → map_decoded (keep_rune single_line) (map (λ r. (r, rune_len r)) rs) ≡ rs
unfolding map_decoded
map_decoded-kept single_line [] h = refl
map_decoded-kept single_line (r ∷ rs) h =
    rw (h.0.1, map_decoded, map_decoded-kept single_line rs h.1)

pub map_text-kept :
    (single_line : Bool) (rs : List ℕ)
    → All (IsKept single_line) rs
    → map_text (keep_rune single_line) (to_valid_utf8 (utf8 rs)) ≡ utf8 rs
unfolding map_text
map_text-kept single_line rs h =
    let scalar = scalars single_line rs h in
    rw (to_valid_utf8-utf8 rs scalar, decode-utf8 rs scalar, map_decoded-kept single_line rs h)

clean-kept :
    (single_line : Bool) (rs : List ℕ) (max_size : ℕ)
    → All (IsKept single_line) rs
    → length (utf8 rs) ≤ max_size
    → clean (utf8 rs) max_size single_line ≡ (utf8 rs, false)
unfolding clean
clean-kept single_line rs max_size h short = ground (arith, map_text-kept single_line rs h)

-- Cleaning a text that was cleaned under the same limit changes nothing and cuts nothing.
pub clean-clean :
    (value : Bytes) (max_size : ℕ) (single_line : Bool)
    → clean (clean value max_size single_line).0 max_size single_line
      ≡ ((clean value max_size single_line).0, false)
clean-clean value max_size single_line =
    let rs = clean_runes value single_line in
    let all = clean_runes-IsKept value single_line in
    rw ((clean-cut value max_size single_line).0) (
      clean-kept single_line (fit_runes max_size rs) max_size
        (All-fit_runes (IsKept single_line) max_size rs all)
        (length-fit_runes max_size rs (scalars single_line rs all)))
