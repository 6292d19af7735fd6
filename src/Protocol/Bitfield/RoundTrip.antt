-- ===== src/Protocol/Bitfield/RoundTrip.antt =====
-- Decoding an encoded bitfield: the bits, then the padding of the last byte.
use Prim.Native.Nat.{bit_or}
use mathlib.Core.List.{append_assoc}
use tortillas.Prelude.{
  ℕ, zero, suc, ◌+◌, ◌-◌, ◌*◌, ◌/◌, ◌%◌, ◌^◌, ◌<◌, ◌≡◌, refl, arith, Bool, true, false, ◌&&◌, List,
  [], ◌∷◌, ◌++◌, length, set, replicate, All, ltb, if◌then◌else◌, list_eqb, list_eqb_iff, bool_eq,
  length-append, length-replicate, set-append_left, set-append_right, replicate-append, ltb→lt, ap,
  ◌∙◌, sym,
}
use tortillas.Bytes.{IsByte}
use tortillas.Protocol.Bitfield.{
  or_at, encode_bits, byte_count, encode_bitfield, byte_bits, decode_bitfield,
}

-- A table over small numbers.
module _ (p : ℕ → Bool) where
  all_below : ℕ → Bool
  all_below zero = true
  all_below (suc n) = p n && all_below n

  all_below_sound : (n x : ℕ) → all_below n ≡ true → x < n → p x ≡ true
  unfolding all_below
  all_below_sound zero x h lt = absurd (omega arith)
  all_below_sound (suc n) x h lt = ground (arith, all_below_sound n x)

-- Setting bit `n % 8`, counted from the top, of the byte `n / 8`.
abbrev sets_bit : ℕ → Bool
sets_bit n =
    list_eqb (byte_bits (bit_or (n / 8) (2 ^ (7 - n % 8)))) (set (byte_bits (n / 8)) (n % 8) true)
    && ltb (bit_or (n / 8) (2 ^ (7 - n % 8))) 256

sets_bit_table : all_below sets_bit 2048 ≡ true
unfolding all_below byte_bits
sets_bit_table = refl

sets_bit_sound : (b r : ℕ) → b < 256 → r < 8 → sets_bit (8 * b + r) ≡ true
sets_bit_sound b r hb hr = all_below_sound sets_bit 2048 (8 * b + r) sets_bit_table (omega arith)

byte_bits-or :
    (b r : ℕ)
    → b < 256
    → r < 8
    → (byte_bits (bit_or b (2 ^ (7 - r))) ≡ set (byte_bits b) r true)
      × (bit_or b (2 ^ (7 - r)) < 256)
byte_bits-or b r hb hr =
    let q : (8 * b + r) / 8 ≡ b = omega arith in
    let m : (8 * b + r) % 8 ≡ r = omega arith in
    let t = rw (q, m) at (sets_bit_sound b r hb hr) in
    ((list_eqb_iff _ _).0 (ground arith), ltb→lt _ _ (ground arith))

length-byte_bits : (b : ℕ) → length (byte_bits b) ≡ 8
unfolding byte_bits
length-byte_bits b = refl

decode-or_at :
    (payload : List ℕ) (k r : ℕ)
    → All IsByte payload
    → r < 8
    → decode_bitfield (or_at payload k (2 ^ (7 - r)))
      ≡ set (decode_bitfield payload) (8 * k + r) true
unfolding or_at decode_bitfield
decode-or_at [] k r h hr = refl
decode-or_at (b ∷ bs) zero r h hr =
    let e : 8 * 0 + r ≡ r = omega arith in
    let room : r < length (byte_bits b) = omega (arith, length-byte_bits b) in
    rw (e, (byte_bits-or b r h.0 hr).0)
      (sym (set-append_left (byte_bits b) (decode_bitfield bs) r true room))
decode-or_at (b ∷ bs) (suc k) r h hr =
    let e : 8 * suc k + r ≡ length (byte_bits b) + (8 * k + r) =
      omega (arith, length-byte_bits b) in
    rw e (
      rw (set-append_right (byte_bits b) (decode_bitfield bs) (8 * k + r) true)
        (rw (decode-or_at bs k r h.1 hr)))

or_at-IsByte :
    (payload : List ℕ) (k r : ℕ)
    → All IsByte payload
    → r < 8
    → All IsByte (or_at payload k (2 ^ (7 - r)))
unfolding or_at
or_at-IsByte [] k r h hr = tt
or_at-IsByte (b ∷ bs) zero r h hr = ((byte_bits-or b r h.0 hr).1, h.1)
or_at-IsByte (b ∷ bs) (suc k) r h hr = (h.0, or_at-IsByte bs k r h.1 hr)

-- What the encoder does to the decoded bits.
overlay : ℕ → List Bool → List Bool → List Bool
overlay i [] out = out
overlay i (available ∷ bits) out = overlay (i + 1) bits (if available then set out i true else out)

decode-encode_bits :
    (i : ℕ) (bits : List Bool) (payload : List ℕ)
    → All IsByte payload
    → decode_bitfield (encode_bits i bits payload) ≡ overlay i bits (decode_bitfield payload)
unfolding encode_bits overlay
decode-encode_bits i [] payload h = refl
decode-encode_bits i (false ∷ bits) payload h = decode-encode_bits (i + 1) bits payload h
decode-encode_bits i (true ∷ bits) payload h =
    let e : 8 * (i / 8) + i % 8 ≡ i = omega arith in
    let s = rw e at (decode-or_at payload (i / 8) (i % 8) h (omega arith)) in
    decode-encode_bits (i + 1) bits _ (or_at-IsByte payload (i / 8) (i % 8) h (omega arith))
    ∙ ap (overlay (i + 1) bits) s

-- Setting the first of the padding bits.
set-length :
    (front rest : List Bool) (available : Bool)
    → (if available then set (front ++ false ∷ rest) (length front) true else front ++ false ∷ rest)
      ≡ (front ++ available ∷ []) ++ rest
set-length front rest false = sym (append_assoc front (false ∷ []) rest)
set-length front rest true =
    let e : length front ≡ length front + 0 = omega arith in
    ap (λ i. set (front ++ false ∷ rest) i true) e
    ∙ set-append_right front (false ∷ rest) 0 true
    ∙ sym (append_assoc front (true ∷ []) rest)

overlay-replicate :
    (front bits : List Bool) (n : ℕ)
    → overlay (length front) bits (front ++ replicate (length bits + n) false)
      ≡ front ++ (bits ++ replicate n false)
unfolding overlay
overlay-replicate front [] n = let e : 0 + n ≡ n = omega arith in rw e
overlay-replicate front (b ∷ bits) n =
    let e : suc (length bits) + n ≡ suc (length bits + n) = omega arith in
    let l : length front + 1 ≡ length (front ++ b ∷ []) =
      omega (arith, length-append front (b ∷ [])) in
    rw e (
      rw (set-length front (replicate (length bits + n) false) b) (
        rw l (
          overlay-replicate (front ++ b ∷ []) bits n
          ∙ append_assoc front (b ∷ []) (bits ++ replicate n false))))

decode-replicate : (n : ℕ) → decode_bitfield (replicate n 0) ≡ replicate (8 * n) false
unfolding decode_bitfield byte_bits
decode-replicate zero = refl
decode-replicate (suc n) =
    let e : 8 * suc n ≡ 8 + 8 * n = omega arith in
    rw (e, decode-replicate n) (replicate-append 8 (8 * n) false)

replicate-IsByte : (n : ℕ) → All IsByte (replicate n 0)
replicate-IsByte zero = tt
replicate-IsByte (suc n) = (omega arith, replicate-IsByte n)

length-or_at : (payload : List ℕ) (k mask : ℕ) → length (or_at payload k mask) ≡ length payload
unfolding or_at
length-or_at [] k mask = refl
length-or_at (b ∷ bs) zero mask = refl
length-or_at (b ∷ bs) (suc k) mask = ap suc (length-or_at bs k mask)

length-encode_bits :
    (i : ℕ) (bits : List Bool) (payload : List ℕ)
    → length (encode_bits i bits payload) ≡ length payload
unfolding encode_bits
length-encode_bits i [] payload = refl
length-encode_bits i (false ∷ bits) payload = length-encode_bits (i + 1) bits payload
length-encode_bits i (true ∷ bits) payload =
    length-encode_bits (i + 1) bits _ ∙ length-or_at payload (i / 8) (2 ^ (7 - i % 8))

pub length-encode_bitfield :
    (bits : List Bool) → length (encode_bitfield bits) ≡ byte_count (length bits)
unfolding encode_bitfield
length-encode_bitfield bits =
    length-encode_bits 0 bits _ ∙ length-replicate (byte_count (length bits)) 0

-- The number of padding bits.
abbrev pub padding : ℕ → ℕ
padding n = 8 * byte_count n - n

-- A decoded bitfield is the bits that were encoded, piece 0 first, followed by as many zeros as fill
-- the last byte, fewer than eight.
pub decode_bitfield-encode_bitfield :
    (bits : List Bool)
    → (decode_bitfield (encode_bitfield bits) ≡ bits ++ replicate (padding (length bits)) false)
      × (padding (length bits) < 8)
unfolding encode_bitfield
decode_bitfield-encode_bitfield bits =
    let n = length bits in
    let fits : 8 * byte_count n ≡ n + padding n = omega arith in
    (
      decode-encode_bits 0 bits (replicate (byte_count n) 0) (replicate-IsByte (byte_count n))
          ∙ ap (overlay 0 bits) (decode-replicate (byte_count n))
          ∙ ap (λ k. overlay 0 bits (replicate k false)) fits
          ∙ overlay-replicate [] bits (padding n),
      omega arith,
    )
