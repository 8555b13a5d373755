-- ===== src/Event/Json/Size.antt =====
-- How long the JSON of a value is.
use native.Mathlib.Nat.{mul-le-mul_right}
use webitel_emails.Prelude.{
  ℕ, zero, suc, ◌+◌, ◌-◌, ◌*◌, ◌%◌, ◌^◌, ◌≤◌, ◌≡◌, refl, Bool, nat_eq, Option, none, some, List, [],
  ◌∷◌, ◌++◌, map, length, length-append, All, Bytes, arith, IsNullableInt64, length-format_int,
}
use webitel_emails.Prelude.Utf8.{rune_len, encode_rune, utf8, decode}
use webitel_emails.Prelude.Utf8.Decoded.{decode-utf8}
use webitel_emails.Event.Clean.{keep_rune, clean}
use webitel_emails.Event.Clean.Cut.{fit_runes, length-encode_rune}
use webitel_emails.Event.Clean.Boundary.{
  IsKept, scalars, clean_runes, clean_runes-IsKept, clean-cut, All-fit_runes, length-fit_runes,
}
use webitel_emails.Event.Json.{
  json_rune, json_runes, json_string, json_nullable_int, further, joined, json_list, member,
  json_object, json_time, two_digits, fraction, second_fraction,
}

-- No rune that clean leaves grows more than twice.
length-json_rune :
    (single_line : Bool) (r : ℕ)
    → IsKept single_line r
    → length (json_rune (r, rune_len r)) ≤ 2 * rune_len r
unfolding json_rune keep_rune rune_len
length-json_rune single_line r k = ground (arith, length-encode_rune r k.0)

length-json_runes :
    (single_line : Bool) (rs : List ℕ)
    → All (IsKept single_line) rs
    → length (json_runes (map (λ r. (r, rune_len r)) rs)) ≤ 2 * length (utf8 rs)
unfolding json_runes utf8
length-json_runes single_line [] h = omega arith
length-json_runes single_line (r ∷ rs) h = omega (
  arith,
  length-append (json_rune (r, rune_len r)) (json_runes (map (λ r. (r, rune_len r)) rs)),
  length-append (encode_rune r) (utf8 rs),
  length-json_rune single_line r h.0,
  length-encode_rune r h.0.0,
  length-json_runes single_line rs h.1,
)

-- The quotes of a string.
length-json_string : (s : Bytes) → length (json_string s) ≡ 2 + length (json_runes (decode s))
unfolding json_string
length-json_string s = omega (arith, length-append (json_runes (decode s)) (b'"' ∷ []))

-- A text that clean made takes at most two bytes for each byte of its limit, and its quotes.
pub length-json_string-clean :
    (value : Bytes) (max_size : ℕ) (single_line : Bool)
    → length (json_string (clean value max_size single_line).0) ≤ 2 * max_size + 2
length-json_string-clean value max_size single_line =
    let rs = fit_runes max_size (clean_runes value single_line) in
    let all = clean_runes-IsKept value single_line in
    let kept = All-fit_runes (IsKept single_line) max_size (clean_runes value single_line) all in
    rw
      (
        (clean-cut value max_size single_line).0,
        length-json_string (utf8 rs),
        decode-utf8 rs (scalars single_line rs kept),
      )
      (omega (
        arith,
        length-json_runes single_line rs kept,
        length-fit_runes max_size (clean_runes value single_line)
            (scalars single_line (clean_runes value single_line) all),
      ))

-- The values of an object with their keys.
abbrev pub members_size : List (Bytes × Bytes) → ℕ
members_size [] = 0
members_size ((key, value) ∷ ms) = length key + 4 + length value + members_size ms

length-member : (m : Bytes × Bytes) → length (member m) ≡ length m.0 + 3 + length m.1
unfolding member
length-member (key, value) = omega (arith, length-append key (b'"' ∷ b':' ∷ value))

length-further-members :
    (ms : List (Bytes × Bytes)) → length (further (map member ms)) ≡ members_size ms
unfolding further
length-further-members [] = refl
length-further-members (m ∷ ms) = omega (
  arith,
  length-append (member m) (further (map member ms)),
  length-member m,
  length-further-members ms,
)

pub length-json_object :
    (m : Bytes × Bytes) (ms : List (Bytes × Bytes))
    → length (json_object (m ∷ ms)) ≡ 1 + members_size (m ∷ ms)
unfolding json_object joined
length-json_object m ms = omega (
  arith,
  length-append (member m ++ further (map member ms)) (b'}' ∷ []),
  length-append (member m) (further (map member ms)),
  length-member m,
  length-further-members ms,
)

length-further :
    (size : ℕ) (vs : List Bytes)
    → All (λ v. length v ≤ size) vs
    → length (further vs) ≤ length vs * (size + 1)
unfolding further
length-further size [] h = omega arith
length-further size (v ∷ vs) h =
    omega (arith, length-append v (further vs), h.0, length-further size vs h.1)

length-fraction : (places n : ℕ) → length (fraction places n) ≤ places
unfolding fraction
length-fraction zero n = omega arith
length-fraction (suc places) n = ground (arith, length-fraction places (n % 10 ^ places))

length-second_fraction : (nanos : ℕ) → length (second_fraction nanos) ≤ 10
unfolding second_fraction
length-second_fraction nanos = ground (arith, length-fraction 9 nanos)

pub length-json_time : (t : ℕ) (b : Bytes) → json_time t ≡ some b → length b ≤ 32
unfolding json_time two_digits
length-json_time t b h = ground (
  arith,
  length-append (second_fraction (t % 10 ^ 9)) (b'Z' ∷ b'"' ∷ []),
  length-second_fraction (t % 10 ^ 9),
)

pub length-json_nullable_int :
    (o : Option ℕ) → IsNullableInt64 o → length (json_nullable_int o) ≤ 19
unfolding json_nullable_int
length-json_nullable_int none h = omega arith
length-json_nullable_int (some n) h = length-format_int n h

-- The items are `list_size items item_size` and the brackets.
items_fit :
    (items n size : ℕ) → suc items ≤ n → size + items * (size + 1) + 2 ≤ 2 + (n * size + (n - 1))
items_fit items n size h = omega (arith, mul-le-mul_right size h)

pub length-json_list :
    (size n : ℕ) (vs : List Bytes)
    → All (λ v. length v ≤ size) vs
    → length vs ≤ n
    → length (json_list vs) ≤ 2 + (n * size + (n - 1))
unfolding json_list joined
length-json_list size n [] h short = omega arith
length-json_list size n (v ∷ vs) h short = omega (
  arith,
  length-append (v ++ further vs) (b']' ∷ []),
  length-append v (further vs),
  h.0,
  length-further size vs h.1,
  items_fit (length vs) n size short,
)
