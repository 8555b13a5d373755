-- ===== src/Event/Envelope/DedupKey.antt =====
-- The dedup key of a message tells its domain and its message apart from any other.
use webitel_emails.Prelude.{
  ℕ, zero, suc, ◌+◌, ◌-◌, ◌*◌, ◌/◌, ◌%◌, ◌^◌, ◌<◌, ◌≡◌, refl, sym, ap, ◌∙◌, ◌==◌, nat_eq, ltb,
  if◌then◌else◌, Bool-cases, [], ◌∷◌, ◌++◌, Bytes, arith, digits, format_int, IsInt64, inl, inr,
}
use webitel_emails.Event.Envelope.{inbound_message_dedup_key}

-- Reads decimal digits up to a colon: the number, and what follows it.
unfoldable pub read_int : ℕ → Bytes → ℕ × Bytes
read_int acc [] = (acc, [])
read_int acc (c ∷ s) =
    let rest = read_int (acc * 10 + (c - b'0')) s in if c == b':' then (acc, s) else rest

-- The two numbers of a key.
unfoldable pub read_key : Bytes → ℕ × ℕ
read_key key =
    let (domain_id, rest) = read_int 0 key in
    let (message_id, _) = read_int 0 rest in (domain_id, message_id)

digits-append : (fuel n : ℕ) (out t : Bytes) → digits fuel n out ++ t ≡ digits fuel n (out ++ t)
unfolding digits
digits-append zero n out t = refl
digits-append (suc fuel) n out t =
    ground (arith, digits-append fuel (n / 10) ((b'0' + n % 10) ∷ out) t)

read_int_digit :
    (acc n : ℕ) (out : Bytes)
    → read_int acc ((b'0' + n % 10) ∷ out) ≡ read_int (acc * 10 + n % 10) out
unfolding read_int
read_int_digit acc n out = ground arith

read_int-digits :
    (fuel n : ℕ) (out : Bytes) → n < 10 ^ fuel → read_int 0 (digits fuel n out) ≡ read_int n out
unfolding digits
read_int-digits zero n out h = ap (λ m. read_int m out) (omega arith)
read_int-digits (suc fuel) n out h = elim (Bool-cases (ltb n 10)) [
  | inl small ↦ rw (small, digits, read_int_digit 0 n out) (ap (λ m. read_int m out) (ground arith))
  | inr large ↦
      rw
        (
          large,
          digits,
          read_int-digits fuel (n / 10) ((b'0' + n % 10) ∷ out) (omega arith),
          read_int_digit (n / 10) n out,
        )
        (ap (λ m. read_int m out) (omega arith))
]

below_power : (n : ℕ) → IsInt64 n → n < 10 ^ 20
below_power n h = omega arith

read_int-format_int :
    (n : ℕ) (t : Bytes) → IsInt64 n → read_int 0 (format_int n ++ b':' ∷ t) ≡ (n, t)
unfolding format_int read_int
read_int-format_int n t h =
    ap (read_int 0) (digits-append 20 n [] (b':' ∷ t))
    ∙ read_int-digits 20 n (b':' ∷ t) (below_power n h)

read_int-format_int_last : (n : ℕ) → IsInt64 n → read_int 0 (format_int n) ≡ (n, [])
unfolding format_int read_int
read_int-format_int_last n h = read_int-digits 20 n [] (below_power n h)

-- The ids of a key are read back from it.
pub read_key-dedup_key :
    (domain_id message_id : ℕ)
    → IsInt64 domain_id
    → IsInt64 message_id
    → read_key (inbound_message_dedup_key domain_id message_id) ≡ (domain_id, message_id)
unfolding read_key inbound_message_dedup_key
read_key-dedup_key domain_id message_id h1 h2 =
    ap (λ p. (p.0, (read_int 0 p.1).0)) (read_int-format_int domain_id (format_int message_id) h1)
    ∙ ap (λ p. (domain_id, p.0)) (read_int-format_int_last message_id h2)

-- Two messages with the same dedup key are the same message of the same domain.
pub inbound_message_dedup_key-injective :
    (domain_id message_id domain_id' message_id' : ℕ)
    → IsInt64 domain_id
    → IsInt64 message_id
    → IsInt64 domain_id'
    → IsInt64 message_id'
    → inbound_message_dedup_key domain_id message_id
      ≡ inbound_message_dedup_key domain_id' message_id'
    → (domain_id ≡ domain_id') × (message_id ≡ message_id')
inbound_message_dedup_key-injective d m d' m' h1 h2 h3 h4 h =
    let equal =
      sym (read_key-dedup_key d m h1 h2) ∙ ap read_key h ∙ read_key-dedup_key d' m' h3 h4 in
    (ap (λ p. p.0) equal, ap (λ p. p.1) equal)
