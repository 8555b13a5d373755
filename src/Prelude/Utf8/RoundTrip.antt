-- ===== src/Prelude/Utf8/RoundTrip.antt =====
-- Reading back the UTF-8 of a list of runes.
use Prim.Native.Nat.{ℕ, ◌+◌, ◌*◌, ◌/◌, ◌%◌, ◌≤◌, ◌<◌}
use mathlib.Core.Path.{◌≡◌, refl}
use mathlib.Core.Bool.{true, false}
use mathlib.Core.List.{[], ◌∷◌, ◌++◌}
use native.Mathlib.Omega.{arith}
use webitel_emails.Prelude.Lists.{All, length}
use mathlib.Core.Logic.{◌⊎◌, inl, inr}
use webitel_emails.Prelude.Text.{Bytes}
use webitel_emails.Prelude.Utf8.{valid_rune, rune_len, encode_rune, decode_rune, rune_start}

abbrev pub IsScalar : ℕ → Type 0
IsScalar r = valid_rune r ≡ true

-- One first byte with the continuation bytes that follow it.
decode_2 :
    (x y : ℕ) (s : Bytes)
    → 2 ≤ x
    → x < 0x20
    → y < 0x40
    → decode_rune (0xc0 + x) ((0x80 + y) ∷ s) ≡ (x * 0x40 + y, 2)
unfolding decode_rune
decode_2 x y s h1 h2 h3 = ground arith

decode_3 :
    (x y z : ℕ) (s : Bytes)
    → x < 0x10
    → y < 0x40
    → z < 0x40
    → IsScalar ((x * 0x40 + y) * 0x40 + z)
    → 0x800 ≤ (x * 0x40 + y) * 0x40 + z
    → decode_rune (0xe0 + x) ((0x80 + y) ∷ (0x80 + z) ∷ s) ≡ ((x * 0x40 + y) * 0x40 + z, 3)
unfolding decode_rune valid_rune
decode_3 x y z s h1 h2 h3 v h = ground arith

decode_4 :
    (x y z u : ℕ) (s : Bytes)
    → x < 5
    → y < 0x40
    → z < 0x40
    → u < 0x40
    → ((x * 0x40 + y) * 0x40 + z) * 0x40 + u < 0x110000
    → 0x10000 ≤ ((x * 0x40 + y) * 0x40 + z) * 0x40 + u
    → decode_rune (0xf0 + x) ((0x80 + y) ∷ (0x80 + z) ∷ (0x80 + u) ∷ s)
      ≡ (((x * 0x40 + y) * 0x40 + z) * 0x40 + u, 4)
unfolding decode_rune
decode_4 x y z u s h1 h2 h3 h4 v h = ground arith

decode_1 : (x : ℕ) (s : Bytes) → x < 0x80 → decode_rune x s ≡ (x, 1)
unfolding decode_rune
decode_1 x s h = ground arith

-- The digits of `r` to the base 0x40.
split_2 : (r : ℕ) → r / 0x40 * 0x40 + r % 0x40 ≡ r
split_2 r = omega arith

split_3 : (r : ℕ) → (r / 0x1000 * 0x40 + r / 0x40 % 0x40) * 0x40 + r % 0x40 ≡ r
split_3 r = omega arith

split_4 :
    (r : ℕ)
    → ((r / 0x40000 * 0x40 + r / 0x1000 % 0x40) * 0x40 + r / 0x40 % 0x40) * 0x40 + r % 0x40 ≡ r
split_4 r = omega arith

-- The form of an encoding, and what reads it: a first byte, and `width - 1` further ones.
pub record Encoding (r : ℕ) : Type 0 where
  pub first : ℕ
  pub others : Bytes
  pub is_encoding : encode_rune r ≡ first ∷ others
  pub is_first : rune_start first ≡ true
  pub are_others : All (λ b. rune_start b ≡ false) others
  pub reads_back : (s : Bytes) → decode_rune first (others ++ s) ≡ (r, rune_len r)
  pub has_length : length others + 1 ≡ rune_len r
  pub is_ascii : (r < 0x80 × (first ≡ r)) ⊎ ((0x80 ≤ r) × (0x80 ≤ first))

size_cases :
    (r : ℕ)
    → (r < 0x80) ⊎ ((0x80 ≤ r) × (r < 0x800) ⊎ ((0x800 ≤ r) × (r < 0x10000) ⊎ (0x10000 ≤ r)))
size_cases r = ground arith

pub encoding : (r : ℕ) → IsScalar r → Encoding r
unfolding encode_rune rune_len rune_start valid_rune
encoding r v = elim (size_cases r) [
  | inl h ↦ record {
    first = r;
    others = [];
    is_encoding = ground arith;
    is_first = ground arith;
    are_others = tt;
    reads_back = λ s. ground (arith, decode_1 r s h);
    has_length = ground arith;
    is_ascii = inl (h, refl);
  }
  | inr (inl h) ↦ record {
    first = 0xc0 + r / 0x40;
    others = (0x80 + r % 0x40) ∷ [];
    is_encoding = ground arith;
    is_first = ground arith;
    are_others = ground arith;
    reads_back = λ s. ground (arith, decode_2 (r / 0x40) (r % 0x40) s, split_2 r);
    has_length = ground arith;
    is_ascii = inr (h.0, omega arith);
  }
  | inr (inr (inl h)) ↦ record {
    first = 0xe0 + r / 0x1000;
    others = (0x80 + r / 0x40 % 0x40) ∷ (0x80 + r % 0x40) ∷ [];
    is_encoding = ground arith;
    is_first = ground arith;
    are_others = ground arith;
    reads_back =
        λ s. ground (arith, decode_3 (r / 0x1000) (r / 0x40 % 0x40) (r % 0x40) s, split_3 r);
    has_length = ground arith;
    is_ascii = inr (omega arith, omega arith);
  }
  | inr (inr (inr h)) ↦ record {
    first = 0xf0 + r / 0x40000;
    others = (0x80 + r / 0x1000 % 0x40) ∷ (0x80 + r / 0x40 % 0x40) ∷ (0x80 + r % 0x40) ∷ [];
    is_encoding = ground arith;
    is_first = ground arith;
    are_others = ground arith;
    reads_back = λ s. ground (
      arith,
      decode_4 (r / 0x40000) (r / 0x1000 % 0x40) (r / 0x40 % 0x40) (r % 0x40) s,
      split_4 r,
    );
    has_length = ground arith;
    is_ascii = inr (omega arith, omega arith);
  }
]
