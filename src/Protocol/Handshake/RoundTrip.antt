-- ===== src/Protocol/Handshake/RoundTrip.antt =====
-- Reading a handshake back, whatever follows it.
use mathlib.Core.List.{append_assoc}
use tortillas.Prelude.{
  ℕ, ◌+◌, ◌-◌, ◌%◌, ◌<◌, ◌≡◌, sym, ap, ◌∙◌, arith, true, List, [], ◌∷◌, ◌++◌, length, length-append,
  take, take-append_of_eq, drop-append_of_eq, list_eqb, list_eqb_iff, nat_eq, if◌then◌else◌,
  Bool-cases, inl, inr, leb,
}
use tortillas.Prelude.Outcome.{ok}
use tortillas.Bytes.{slice}
use tortillas.Protocol.Message.{Handshake, magic_string}
use tortillas.Protocol.Handshake.{to_bytes, from_bytes}

-- The widths of the fields; the protocol's length has one byte.
pub record IsWellFormed (h : Handshake) : Type 0 where
  pub protocol_fits : length h.protocol < 256
  pub reserved_width : length h.reserved ≡ 8
  pub info_hash_width : length h.info_hash ≡ 20
  pub peer_id_width : length h.peer_id ≡ 20

slice-append :
    (a b : ℕ) (xs ys zs : List ℕ)
    → a ≡ length xs
    → b - a ≡ length ys
    → slice a b (xs ++ (ys ++ zs)) ≡ ys
slice-append a b xs ys zs p q =
    ap (take (b - a)) (drop-append_of_eq a xs (ys ++ zs) p) ∙ take-append_of_eq (b - a) ys zs q

copy_protocol :
    (bytes : List ℕ) → (if list_eqb bytes magic_string then magic_string else bytes) ≡ bytes
copy_protocol bytes = elim (Bool-cases (list_eqb bytes magic_string)) [
  | inl same ↦ rw same (sym ((list_eqb_iff bytes magic_string).0 same))
  | inr other ↦ rw other
]

-- The bytes of a handshake in front of `rest`, regrouped around each field.
module _ (h : Handshake) (rest : List ℕ) where
  abbrev layout : List ℕ
  layout =
      (length h.protocol % 256)
      ∷ (h.protocol ++ (h.reserved ++ (h.info_hash ++ (h.peer_id ++ rest))))

  pub to_bytes-append : to_bytes h ++ rest ≡ layout
  unfolding to_bytes
  to_bytes-append = simp append_assoc

  around_info_hash :
      layout
      ≡ (((length h.protocol % 256) ∷ h.protocol) ++ h.reserved)
        ++ (h.info_hash ++ (h.peer_id ++ rest))
  around_info_hash = simp append_assoc

  around_peer_id :
      layout
      ≡ ((((length h.protocol % 256) ∷ h.protocol) ++ h.reserved) ++ h.info_hash)
        ++ (h.peer_id ++ rest)
  around_peer_id = simp append_assoc

module _ (h : Handshake) (rest : List ℕ) (w : IsWellFormed h) where
  abbrev width : ℕ
  width = length h.protocol % 256

  width_eq : width ≡ length h.protocol
  width_eq = omega (arith, w.protocol_fits)

  read_protocol : slice 1 (1 + width) (layout h rest) ≡ h.protocol
  read_protocol =
      slice-append 1 (1 + width) (width ∷ []) h.protocol _ (omega arith) (omega (arith, width_eq))

  read_reserved : slice (1 + width) (1 + width + 8) (layout h rest) ≡ h.reserved
  read_reserved =
      slice-append (1 + width) (1 + width + 8) (width ∷ h.protocol) h.reserved _
        (omega (arith, width_eq)) (omega (arith, w.reserved_width))

  read_info_hash : slice (1 + width + 8) (1 + width + 8 + 20) (layout h rest) ≡ h.info_hash
  read_info_hash =
      ap (slice (1 + width + 8) (1 + width + 8 + 20)) (around_info_hash h rest)
      ∙ slice-append (1 + width + 8) (1 + width + 8 + 20) ((width ∷ h.protocol) ++ h.reserved)
          h.info_hash _
          (omega (arith, width_eq, w.reserved_width, length-append (width ∷ h.protocol) h.reserved))
          (omega (arith, w.info_hash_width))

  read_peer_id : slice (1 + width + 8 + 20) (1 + width + 8 + 40) (layout h rest) ≡ h.peer_id
  read_peer_id =
      ap (slice (1 + width + 8 + 20) (1 + width + 8 + 40)) (around_peer_id h rest)
      ∙ slice-append (1 + width + 8 + 20) (1 + width + 8 + 40)
          (((width ∷ h.protocol) ++ h.reserved) ++ h.info_hash) h.peer_id rest
          (omega (
            arith,
            width_eq,
            w.reserved_width,
            w.info_hash_width,
            length-append (width ∷ h.protocol) h.reserved,
            length-append ((width ∷ h.protocol) ++ h.reserved) h.info_hash,
          ))
          (omega (arith, w.peer_id_width))

  pub length-layout : length (layout h rest) ≡ 1 + length h.protocol + 48 + length rest
  length-layout = omega (
    arith,
    w.reserved_width,
    w.info_hash_width,
    w.peer_id_width,
    length-append h.protocol (h.reserved ++ (h.info_hash ++ (h.peer_id ++ rest))),
    length-append h.reserved (h.info_hash ++ (h.peer_id ++ rest)),
    length-append h.info_hash (h.peer_id ++ rest),
    length-append h.peer_id rest,
  )

  room : leb (1 + width + 8 + 40) (length (layout h rest)) ≡ true
  room = ground (arith, width_eq, length-layout)

  from_bytes-layout : from_bytes (layout h rest) ≡ ok h
  unfolding from_bytes
  from_bytes-layout = rw room (λ i. ok (record {
    protocol =
        (ap (λ (p : List ℕ). if list_eqb p magic_string then magic_string else p) read_protocol
            ∙ copy_protocol h.protocol)
          i;
    reserved = read_reserved i;
    info_hash = read_info_hash i;
    peer_id = read_peer_id i;
  }))

-- A handshake whose protocol name has fewer than 256 bytes and whose other fields have their widths
-- is read back as it was written, whatever follows it.
pub from_bytes-to_bytes :
    (h : Handshake) (rest : List ℕ) → IsWellFormed h → from_bytes (to_bytes h ++ rest) ≡ ok h
from_bytes-to_bytes h rest w = rw (to_bytes-append h rest) (from_bytes-layout h rest w)
