-- ===== src/Pieces/Storage/RoundTrip.antt =====
-- What was written to the files of a torrent is read back.
use tortillas.Prelude.{
  ℕ, ◌+◌, ◌≤◌, ◌≡◌, refl, sym, ap, ◌∙◌, arith, Bool, true, false, some, List, [], ◌∷◌, ◌++◌, length,
  length-take, length-drop, take, drop, leb, list_eq, nat_eq, ◌==◌, is_same_refl, All,
}
use mathlib.Core.List.{append_assoc, append-nil}
use tortillas.Prelude.Cuts.{drop-drop}
use tortillas.Prelude.Map.{lookup, insert, lookup-insert}
use tortillas.Prelude.Outcome.{ok}
use tortillas.Pieces.Files.{PathBuf, FileRange}
use tortillas.Pieces.Storage.{Files, write_at, contents_or_new, write_loop, read_loop, sum_lengths}
use tortillas.Pieces.Storage.Ranges.{
  read_at-write_at, take-take-drop, same_under, same_false_symm, IsDistinct,
}

module _ (works : PathBuf → Bool) where
  -- Every file can be opened.
  abbrev pub Works : PathBuf → List FileRange → Type 0
  Works base ranges = All (λ r. works (base ++ r.0) ≡ true) ranges

  -- The bytes of a range that has been written, in the files that the later writes leave.
  read_range :
      (base path : PathBuf) (offset len : ℕ) (chunk : List ℕ) (segments : List FileRange)
      (files after : Files) (bytes : List ℕ)
      → length chunk ≡ len
      → works (base ++ path) ≡ true
      → lookup (base ++ path) after
        ≡ some (write_at (contents_or_new (lookup (base ++ path) files)) offset chunk)
      → read_loop works base ((path, offset, len) ∷ segments) after bytes
        ≡ read_loop works base segments after (bytes ++ chunk)
  unfolding read_loop
  read_range base path offset len chunk segments files after bytes l opens has = rw (← l) (
      rw opens (
        rw has (
          rw (read_at-write_at (contents_or_new (lookup (base ++ path) files)) offset chunk) refl)))

  read_nothing :
      (base : PathBuf) (files : Files) (read : List ℕ)
      → read_loop works base [] files read ≡ ok (read ++ [])
  unfolding read_loop
  read_nothing base files read = ap ok (sym (append-nil read))

  chunks_append :
      (read bytes : List ℕ) (start len more : ℕ)
      → (read ++ take len (drop start bytes)) ++ take more (drop (start + len) bytes)
        ≡ read ++ take (len + more) (drop start bytes)
  chunks_append read bytes start len more =
      append_assoc read (take len (drop start bytes)) (take more (drop (start + len) bytes))
      ∙ ap (λ l. read ++ l)
          (rw (sym (drop-drop len start bytes)) (take-take-drop len more (drop start bytes)))

  pub write_loop_lem :
      (base : PathBuf) (segments : List FileRange) (bytes : List ℕ) (start : ℕ) (files : Files)
      → IsDistinct segments
      → Works base segments
      → start + sum_lengths segments ≤ length bytes
      → (after : Files) × (write_loop works base segments bytes start files ≡ (ok tt, after))
        × ((path : PathBuf)
            → All (λ r. (path == r.0) ≡ false) segments
            → lookup (base ++ path) after ≡ lookup (base ++ path) files)
        × ((read : List ℕ)
            → read_loop works base segments after read
              ≡ ok (read ++ take (sum_lengths segments) (drop start bytes)))
  unfolding write_loop
  write_loop_lem base [] bytes start files d o fits =
      (files, refl, (λ path h. refl), λ read. read_nothing base files read)
  write_loop_lem base ((path, offset, len) ∷ segments) bytes start files (apart, d) (opens, o)
        fits =
      let chunk = take len (drop start bytes) in
      let l : length chunk ≡ len =
        omega (arith, length-take len (drop start bytes), length-drop start bytes) in
      let contents = write_at (contents_or_new (lookup (base ++ path) files)) offset chunk in
      let written = insert (base ++ path) contents files in
      let (after, done, kept, back) =
        write_loop_lem base segments bytes (start + len) written d o (omega arith) in
      let room : leb (start + len) (length bytes) ≡ true = ground arith in
      let has : lookup (base ++ path) after ≡ some contents =
        kept path apart
        ∙ lookup-insert (base ++ path) (base ++ path) contents files
        ∙ rw (is_same_refl (base ++ path)) refl in
      (
        after,
        rw opens (rw room done),
        (λ p h.
            kept p h.1
            ∙ lookup-insert (base ++ path) (base ++ p) contents files
            ∙ rw (same_under base path p) (rw (same_false_symm p path h.0) refl)),
        λ read.
            read_range base path offset len chunk segments files after read l opens has
            ∙ back (read ++ chunk)
            ∙ ap ok (chunks_append read bytes start len (sum_lengths segments)),
      )
