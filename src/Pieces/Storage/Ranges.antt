-- ===== src/Pieces/Storage/Ranges.antt =====
-- Reading and writing at file ranges.
use tortillas.Prelude.{
  ℕ, zero, suc, ◌+◌, ◌-◌, ◌≡◌, refl, sym, ap, ◌∙◌, arith, true, false, some, inl, inr, List, [],
  ◌∷◌, ◌++◌, length, length-append, length-take, length-replicate, take, drop, take-append_of_eq,
  drop-append_of_eq, replicate, leb, list_eqb_iff, list_eq, nat_eq, ◌==◌, is_same_refl, Bool-cases,
  All,
}
use tortillas.Prelude.Cuts.{take_nil}
use tortillas.Pieces.Files.{PathBuf, FileRange}
use tortillas.Pieces.Storage.{write_at, read_at}

-- What was written at an offset is read there.
pub read_at-write_at :
    (contents : List ℕ) (offset : ℕ) (bytes : List ℕ)
    → read_at (write_at contents offset bytes) offset (length bytes) ≡ some bytes
unfolding read_at write_at
read_at-write_at contents offset bytes =
    let padded = contents ++ replicate (offset - length contents) 0 in
    let front = take offset padded in
    let back = drop (offset + length bytes) contents in
    let l : length front ≡ offset = omega (
      arith,
      length-take offset padded,
      length-append contents (replicate (offset - length contents) 0),
      length-replicate {A = ℕ} (offset - length contents) 0,
    ) in
    let fits : leb (offset + length bytes) (length (front ++ (bytes ++ back))) ≡ true =
      ground (arith, l, length-append front (bytes ++ back), length-append bytes back) in
    rw fits (
      rw (drop-append_of_eq offset front (bytes ++ back) (sym l))
        (ap some (take-append_of_eq (length bytes) bytes back refl)))

pub take-take-drop {ℓ} :
    {A : Type ℓ} (m n : ℕ) (xs : List A) → take m xs ++ take n (drop m xs) ≡ take (m + n) xs
take-take-drop zero n xs = let e : 0 + n ≡ n = omega arith in rw e
take-take-drop (suc m) n [] = take_nil n ∙ sym (take_nil (suc m + n))
take-take-drop (suc m) n (x ∷ xs) =
    let e : suc m + n ≡ suc (m + n) = omega arith in rw e (ap (λ l. x ∷ l) (take-take-drop m n xs))

-- Two paths under a directory are one where they are one.
pub same_under : (base p q : PathBuf) → ((base ++ p) == (base ++ q)) ≡ (p == q)
same_under [] p q = refl
same_under (s ∷ base) p q = rw (is_same_refl s) (same_under base p q)

-- No two ranges lie in one file.
abbrev pub IsDistinct : List FileRange → Type 0
IsDistinct [] = Unit {0}
IsDistinct ((path, offset, len) ∷ ranges) =
    All (λ r. (path == r.0) ≡ false) ranges × IsDistinct ranges

pub same_false_symm : (p q : PathBuf) → (p == q) ≡ false → (q == p) ≡ false
same_false_symm p q h = elim (Bool-cases (q == p)) [
  | inl same ↦ ground (arith, list_eqb_iff q p, list_eqb_iff p q)
  | inr other ↦ other
]
