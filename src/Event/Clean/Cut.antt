-- ===== src/Event/Clean/Cut.antt =====
-- The loop of clean: where it cuts UTF-8.
use webitel_emails.Prelude.{
  ℕ, zero, suc, ◌+◌, ◌-◌, ◌≤◌, ◌<◌, ◌≡◌, refl, ap, ◌∙◌, true, false, nat_eq, leb, if◌then◌else◌,
  Bool-cases, Option-cases, none, some, List, [], ◌∷◌, ◌++◌, length, length-append, take, All,
  Bytes, arith, inl, inr,
}
use webitel_emails.Prelude.Utf8.{rune_start, rune_len, encode_rune, utf8}
use webitel_emails.Prelude.Utf8.RoundTrip.{IsScalar, Encoding, encoding}
use webitel_emails.Event.Clean.{byte_at, cut_back}

-- The longest run of whole runes of at most `max_size` bytes.
unfoldable pub fit_runes : ℕ → List ℕ → List ℕ
fit_runes max_size [] = []
fit_runes max_size (r ∷ rs) =
    let rest = fit_runes (max_size - rune_len r) rs in
    if leb (rune_len r) max_size then r ∷ rest else []

byte_at-append : (e t : Bytes) (k n : ℕ) → n ≡ length e + k → byte_at n (e ++ t) ≡ byte_at k t
unfolding byte_at
byte_at-append [] t k n h = ap (λ m. byte_at m t) (omega arith)
byte_at-append (b ∷ e) t k zero h = absurd (omega arith)
byte_at-append (b ∷ e) t k (suc n) h = byte_at-append e t k n (omega arith)

byte_at_first : (c : ℕ) (t : Bytes) → byte_at 0 (c ∷ t) ≡ some c
unfolding byte_at
byte_at_first c t = refl

cut_back_zero : (value : Bytes) → cut_back 0 value ≡ 0
unfolding cut_back
cut_back_zero value = refl

-- One round of the loop.
cut_back_stays :
    (n : ℕ) (value : Bytes) (b : ℕ)
    → byte_at (suc n) value ≡ some b
    → rune_start b ≡ true
    → cut_back (suc n) value ≡ suc n
unfolding cut_back
cut_back_stays n value b at h = rw (at, cut_back, h) refl

cut_back_moves :
    (n : ℕ) (value : Bytes) (b : ℕ)
    → byte_at (suc n) value ≡ some b
    → rune_start b ≡ false
    → cut_back (suc n) value ≡ cut_back n value
unfolding cut_back
cut_back_moves n value b at h = rw (at, cut_back, h) refl

cut_back_outside :
    (n : ℕ) (value : Bytes) → byte_at (suc n) value ≡ none → cut_back (suc n) value ≡ suc n
unfolding cut_back
cut_back_outside n value at = rw (at, cut_back) refl

-- Behind whole runes the loop works as on the rest alone.
cut_back-append :
    (e : Bytes) (c : ℕ) (t : Bytes) (k n : ℕ)
    → rune_start c ≡ true
    → 0 < length e
    → n ≡ length e + k
    → cut_back n (e ++ c ∷ t) ≡ length e + cut_back k (c ∷ t)
cut_back-append e c t k zero h pos eq = absurd (omega arith)
cut_back-append e c t zero (suc n) h pos eq =
    cut_back_stays n (e ++ c ∷ t) c (byte_at-append e (c ∷ t) 0 (suc n) eq ∙ byte_at_first c t) h
    ∙ omega (arith, cut_back_zero (c ∷ t))
cut_back-append e c t (suc k) (suc n) h pos eq =
    let same = byte_at-append e (c ∷ t) (suc k) (suc n) eq in
    let before = cut_back-append e c t k n h pos (omega arith) in
    elim (Option-cases (byte_at (suc k) (c ∷ t))) [
      | inl at ↦
          omega (arith, cut_back_outside n (e ++ c ∷ t) (same ∙ at), cut_back_outside k (c ∷ t) at)
      | inr (b, at) ↦ elim (Bool-cases (rune_start b)) [
        | inl start ↦ omega (
          arith,
          cut_back_stays n (e ++ c ∷ t) b (same ∙ at) start,
          cut_back_stays k (c ∷ t) b at start,
        )
        | inr inside ↦ omega (
          arith,
          before,
          cut_back_moves n (e ++ c ∷ t) b (same ∙ at) inside,
          cut_back_moves k (c ∷ t) b at inside,
        )
      ]
    ]

byte_at-others :
    (others t : Bytes) (k : ℕ)
    → All (λ c. rune_start c ≡ false) others
    → k < length others
    → (c : ℕ) × (byte_at k (others ++ t) ≡ some c) × (rune_start c ≡ false)
unfolding byte_at
byte_at-others [] t k h lt = absurd (omega arith)
byte_at-others (c ∷ others) t zero h lt = (c, refl, h.0)
byte_at-others (c ∷ others) t (suc k) h lt = byte_at-others others t k h.1 (omega arith)

-- Among the continuation bytes of the first rune the loop goes back to the start.
cut_back-others :
    (b : ℕ) (others t : Bytes) (k : ℕ)
    → All (λ c. rune_start c ≡ false) others
    → k ≤ length others
    → cut_back k (b ∷ others ++ t) ≡ 0
unfolding byte_at
cut_back-others b others t zero h le = cut_back_zero (b ∷ others ++ t)
cut_back-others b others t (suc k) h le =
    let (c, at, inside) = byte_at-others others t k h (omega arith) in
    cut_back_moves k (b ∷ others ++ t) c at inside ∙ cut_back-others b others t k h (omega arith)

take-append : (e t : Bytes) (k n : ℕ) → n ≡ length e + k → take n (e ++ t) ≡ e ++ take k t
take-append [] t k n h = ap (λ m. take m t) (omega arith)
take-append (b ∷ e) t k zero h = absurd (omega arith)
take-append (b ∷ e) t k (suc n) h = rw (take-append e t k n (omega arith))

-- The text of at least one rune begins with the first byte of its encoding.
utf8-first :
    (rs : List ℕ)
    → All IsScalar rs
    → 0 < length (utf8 rs)
    → (c : ℕ) × (t : Bytes) × (utf8 rs ≡ c ∷ t) × (rune_start c ≡ true)
unfolding utf8
utf8-first [] h pos = absurd (omega arith)
utf8-first (r ∷ rs) h pos =
    let e = encoding r h.0 in (e.first, e.others ++ utf8 rs, rw (e.is_encoding), e.is_first)

rest_is_long :
    (width max_size encoded rest both : ℕ)
    → leb width max_size ≡ true
    → encoded ≡ width
    → both ≡ encoded + rest
    → max_size < both
    → max_size - width < rest
rest_is_long width max_size encoded rest both fits size total long = ground arith

length-Encoding : (r : ℕ) (e : Encoding r) → length (e.first ∷ e.others) ≡ rune_len r
length-Encoding r e = omega (arith, e.has_length)

take-cut_append :
    (e rest : Bytes) (c : ℕ) (t : Bytes) (k n : ℕ)
    → rest ≡ c ∷ t
    → rune_start c ≡ true
    → 0 < length e
    → n ≡ length e + k
    → take (cut_back n (e ++ rest)) (e ++ rest) ≡ e ++ take (cut_back k rest) rest
take-cut_append e rest c t k n is_rest start pos eq =
    rw (is_rest, cut_back-append e c t k n start pos eq)
      (take-append e (c ∷ t) (cut_back k (c ∷ t)) (length e + cut_back k (c ∷ t)) refl)

pub length-encode_rune : (r : ℕ) → IsScalar r → length (encode_rune r) ≡ rune_len r
length-encode_rune r v = let e = encoding r v in rw (e.is_encoding) (omega (arith, e.has_length))

-- The cut of a text that is too long is the longest run of its runes that fits.
pub take-cut_back :
    (rs : List ℕ) (max_size : ℕ)
    → All IsScalar rs
    → max_size < length (utf8 rs)
    → take (cut_back max_size (utf8 rs)) (utf8 rs) ≡ utf8 (fit_runes max_size rs)
unfolding utf8 fit_runes
take-cut_back [] max_size h long = absurd (omega arith)
take-cut_back (r ∷ rs) max_size h long =
    let e = encoding r h.0 in
    let size = length-encode_rune r h.0 in
    let total = length-append (encode_rune r) (utf8 rs) in
    elim (Bool-cases (leb (rune_len r) max_size)) [
      | inl fits ↦
          let longer = rest_is_long (rune_len r) max_size _ _ _ fits size total long in
          let (c, t, is_text, start) = utf8-first rs h.1 (omega (arith, longer)) in
          rw (
            fits,
            utf8,
            take-cut_append (encode_rune r) (utf8 rs) c t (max_size - rune_len r) max_size is_text
                start (ground (arith, size, e.has_length)) (ground (arith, size)),
            take-cut_back rs (max_size - rune_len r) h.1 longer,
          )
      | inr over ↦ rw (
        over,
        e.is_encoding,
        utf8,
        cut_back-others e.first e.others (utf8 rs) max_size e.are_others
            (ground (arith, e.has_length)),
      )
    ]
