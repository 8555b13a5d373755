-- ===== src/Prelude/Text.antt =====
-- Go strings as their bytes: ASCII literals, equality, and strconv.FormatInt of a number that is
-- not negative.
use Prim.Native.Nat.{ℕ, zero, suc, ◌+◌, ◌/◌, ◌%◌, ◌^◌, ◌≤◌, ◌<◌}
use Prim.Native.Char.{code}
use Prim.Native.String.{String}
use mathlib.Core.Path.{◌≡◌, refl}
use mathlib.Core.Bool.{Bool, true, false, ◌&&◌}
use mathlib.Core.Option.{Option, none, some}
use mathlib.Core.List.{List, [], ◌∷◌}
use native.Mathlib.Omega.{arith}
use webitel_emails.Prelude.Tests.{Comparable, ◌==◌, nat_eq, ltb, if◌then◌else◌}
use webitel_emails.Prelude.Lists.{length}

abbrev pub Bytes : Type 0
Bytes = List ℕ

-- The bytes of an ASCII literal.
abbrev pub ascii : String → Bytes
ascii String.[] = []
ascii (String.◌∷◌ c s) = code c ∷ ascii s

unfoldable pub bytes_beq : Bytes → Bytes → Bool
bytes_beq [] [] = true
bytes_beq [] (b ∷ bs) = false
bytes_beq (a ∷ xs) [] = false
bytes_beq (a ∷ xs) (b ∷ bs) = a == b && bytes_beq xs bs

pub bytes_beq_sound : (a b : Bytes) → bytes_beq a b ≡ true → a ≡ b
unfolding bytes_beq
bytes_beq_sound [] [] h = refl
bytes_beq_sound [] (b ∷ bs) h = cc
bytes_beq_sound (a ∷ xs) [] h = cc
bytes_beq_sound (a ∷ xs) (b ∷ bs) h = ground (arith, bytes_beq_sound xs bs)

bytes_beq_refl : (a : Bytes) → bytes_beq a a ≡ true
unfolding bytes_beq
bytes_beq_refl [] = refl
bytes_beq_refl (a ∷ xs) = ground (arith, bytes_beq_refl xs)

pub bytes_beq_complete : (a b : Bytes) → a ≡ b → bytes_beq a b ≡ true
bytes_beq_complete a b h = rw (h) (bytes_beq_refl b)

instance abbrev pub bytes_eq : Comparable Bytes
unfolding bytes_beq
bytes_eq = record {
  same = bytes_beq;
  same_iff = λ a b. (bytes_beq_sound a b, bytes_beq_complete a b);
}

-- `s == ""`
abbrev pub empty_text : Bytes → Bool
empty_text [] = true
empty_text (b ∷ bs) = false

-- The decimal digits of `n` in front of `out`; a round writes one digit.
unfoldable pub digits : ℕ → ℕ → Bytes → Bytes
digits zero n out = out
digits (suc fuel) n out =
    let next = (b'0' + n % 10) ∷ out in
    let rest = digits fuel (n / 10) next in if ltb n 10 then next else rest

-- An int64 has at most nineteen digits.
unfoldable pub format_int : ℕ → Bytes
unfolding digits
format_int n = digits 20 n []

abbrev pub IsInt64 : ℕ → Type 0
IsInt64 n = n < 2 ^ 63

length-digits :
    (fuel k n : ℕ) (out : Bytes) → n < 10 ^ suc k → length (digits fuel n out) ≤ suc k + length out
unfolding digits
length-digits zero k n out h = omega arith
length-digits (suc fuel) zero n out h = ground arith
length-digits (suc fuel) (suc k) n out h =
    ground (arith, length-digits fuel k (n / 10) ((b'0' + n % 10) ∷ out))

pub length-format_int : (n : ℕ) → IsInt64 n → length (format_int n) ≤ 19
unfolding format_int
length-format_int n h = omega (arith, length-digits 20 18 n [])

abbrev pub IsNullableInt64 : Option ℕ → Type 0
IsNullableInt64 none = Unit
IsNullableInt64 (some n) = IsInt64 n
