-- ===== src/Prelude/Utf8/Decoded.antt =====
-- decode and to_valid_utf8 on valid text, and what decode gives on any text.
use Prim.Native.Nat.{ℕ, zero, suc, ◌-◌}
use mathlib.Core.Path.{◌≡◌, refl}
use mathlib.Core.Bool.{false, ◌&&◌}
use mathlib.Core.Option.{Option, some}
use mathlib.Core.Logic.{inl, inr}
use mathlib.Core.List.{List, [], ◌∷◌, ◌++◌, map}
use native.Mathlib.Omega.{arith}
use webitel_emails.Prelude.Tests.{leb, Option-cases}
use webitel_emails.Prelude.Lists.{All, length}
use webitel_emails.Prelude.Text.{Bytes}
use webitel_emails.Prelude.Utf8.{
  valid_rune, rune_len, encode_rune, utf8, decode_rune, decode_from, decode, to_valid_from,
  to_valid_utf8, map_decoded,
}
use webitel_emails.Prelude.Utf8.RoundTrip.{IsScalar, Encoding, encoding}

decode_from-skip : (s t : Bytes) → decode_from (length s) (s ++ t) ≡ decode_from 0 t
unfolding decode_from
decode_from-skip [] t = refl
decode_from-skip (b ∷ s) t = decode_from-skip s t

to_valid_from-skip :
    (s t : Bytes) → to_valid_from false (length s) (s ++ t) ≡ s ++ to_valid_from false 0 t
unfolding to_valid_from
to_valid_from-skip [] t = refl
to_valid_from-skip (b ∷ s) t = rw (to_valid_from-skip s t)

width_of_others : (r : ℕ) (e : Encoding r) → rune_len r - 1 ≡ length e.others
width_of_others r e = omega (arith, e.has_length)

decode_from-encode :
    (r : ℕ) (s : Bytes)
    → IsScalar r
    → decode_from 0 (encode_rune r ++ s) ≡ (r, rune_len r) ∷ decode_from 0 s
unfolding decode_from
decode_from-encode r s v =
    let e = encoding r v in
    rw (e.is_encoding, e.reads_back s, width_of_others r e, decode_from-skip e.others s)

-- ToValidUTF8 does not take the encoding for an invalid byte.
not_invalid : (r : ℕ) (e : Encoding r) → leb 0x80 e.first && leb (rune_len r) 1 ≡ false
unfolding rune_len
not_invalid r e = elim e.is_ascii [ inl h ↦ ground (arith, h) | inr h ↦ ground (arith, h) ]

to_valid_from-encode :
    (r : ℕ) (s : Bytes)
    → IsScalar r
    → to_valid_from false 0 (encode_rune r ++ s) ≡ encode_rune r ++ to_valid_from false 0 s
unfolding to_valid_from
to_valid_from-encode r s v =
    let e = encoding r v in
    rw (
      e.is_encoding,
      e.reads_back s,
      not_invalid r e,
      width_of_others r e,
      to_valid_from-skip e.others s,
    )

-- The runes of valid text are read back with their widths.
pub decode-utf8 : (rs : List ℕ) → All IsScalar rs → decode (utf8 rs) ≡ map (λ r. (r, rune_len r)) rs
unfolding decode decode_from utf8
decode-utf8 [] h = refl
decode-utf8 (r ∷ rs) h = rw (decode_from-encode r (utf8 rs) h.0, decode-utf8 rs h.1)

-- Valid text stays as it is.
pub to_valid_utf8-utf8 : (rs : List ℕ) → All IsScalar rs → to_valid_utf8 (utf8 rs) ≡ utf8 rs
unfolding to_valid_utf8 to_valid_from utf8
to_valid_utf8-utf8 [] h = refl
to_valid_utf8-utf8 (r ∷ rs) h = rw (to_valid_from-encode r (utf8 rs) h.0, to_valid_utf8-utf8 rs h.1)

decode_rune-IsScalar : (a : ℕ) (s : Bytes) → IsScalar (decode_rune a s).0
unfolding decode_rune valid_rune
decode_rune-IsScalar a [] = ground arith
decode_rune-IsScalar a (b ∷ []) = ground arith
decode_rune-IsScalar a (b ∷ c ∷ []) = ground arith
decode_rune-IsScalar a (b ∷ c ∷ d ∷ s) = ground arith

decode_from-IsScalar : (skip : ℕ) (s : Bytes) → All (λ p. IsScalar p.0) (decode_from skip s)
unfolding decode_from
decode_from-IsScalar skip [] = tt
decode_from-IsScalar (suc skip) (b ∷ s) = decode_from-IsScalar skip s
decode_from-IsScalar zero (b ∷ s) =
    (decode_rune-IsScalar b s, decode_from-IsScalar ((decode_rune b s).1 - 1) s)

module _ {κ} (P : ℕ → Type κ) (f : ℕ → Option ℕ)
    (keeps : (r r' : ℕ) → IsScalar r → f r ≡ some r' → P r') where
  All-map_scalars : (ds : List (ℕ × ℕ)) → All (λ p. IsScalar p.0) ds → All P (map_decoded f ds)
  unfolding map_decoded
  All-map_scalars [] h = tt
  All-map_scalars ((r, width) ∷ ds) h = elim (Option-cases (f r)) [
    | inl e ↦ rw (e, All) (All-map_scalars ds h.1)
    | inr (r', e) ↦ rw (e, All) (keeps r r' h.0 e, All-map_scalars ds h.1)
  ]

  -- What strings.Map writes for a text: each rune is the image of a scalar value.
  pub All-map_decoded : (s : Bytes) → All P (map_decoded f (decode s))
  unfolding decode
  All-map_decoded s = All-map_scalars (decode_from 0 s) (decode_from-IsScalar 0 s)
