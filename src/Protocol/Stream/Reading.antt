-- ===== src/Protocol/Stream/Reading.antt =====
-- `read_exact` over the reader half, on a transport that neither fails nor ends.
use tortillas.Prelude.{
  ℕ, zero, suc, ◌+◌, ◌-◌, ◌≤◌, ◌<◌, ◌≡◌, ◌⊎◌, refl, sym, ap, ◌∙◌, arith, false, none, some, inl,
  inr, List, [], ◌∷◌, ◌++◌, length, length-append, length-take, length-drop, take, drop, ltb, eqb,
  Bool-cases,
}
use mathlib.Core.List.{append_assoc}
use tortillas.Prelude.Cuts.{take-append-drop}
use tortillas.Prelude.Outcome.{ok}
use tortillas.Protocol.Stream.{Read, bytes_read, failed}
use tortillas.Protocol.Stream.Framing.{IsOpen, bytes_of, front_of}
use tortillas.Protocol.Stream.Reader.{
  PeerReader, Polled, and_then, poll_transport, poll_read, read_on, IsReadExact,
}

-- The bytes that are still to be read.
abbrev pub pending : PeerReader → List ℕ
pending r = r.read_buffer ++ bytes_of r.reads

-- One read that gave some of the pending bytes.
pub record IsChunk (room : ℕ) (r : PeerReader) : Type 0 where
  pub first : ℕ
  pub others : List ℕ
  pub after : PeerReader
  pub polled : poll_read room r ≡ some (ok (first ∷ others), after)
  pub fits : suc (length others) ≤ room
  pub still_open : IsOpen after.reads
  pub front : pending r ≡ (first ∷ others) ++ pending after

take-cons :
    (room : ℕ) (b : ℕ) (bytes : List ℕ)
    → 0 < room
    → take room (b ∷ bytes) ≡ b ∷ take (room - 1) bytes
take-cons zero b bytes h = absurd (omega arith)
take-cons (suc n) b bytes h = let e : suc n - 1 ≡ n = omega arith in rw e

poll_read-buffered :
    (room b : ℕ) (bytes : List ℕ) (reads : List Read) (n : ℕ)
    → 0 < room
    → IsOpen reads
    → IsChunk room (record { read_buffer = b ∷ bytes; reads = reads; bytes_downloaded = n })
poll_read-buffered room b bytes reads n h o = record {
  first = b;
  others = take (room - 1) bytes;
  after = record { read_buffer = drop room (b ∷ bytes); reads = reads; bytes_downloaded = n };
  polled =
      unfold poll_read in
      rw (let filled : eqb (suc (length bytes)) 0 ≡ false = ground arith in filled)
        (rw (take-cons room b bytes h) refl);
  fits = omega (arith, length-take (room - 1) bytes);
  still_open = o;
  front =
      ap (λ l. l ++ bytes_of reads)
        (sym (take-append-drop room (b ∷ bytes))
          ∙ ap (λ l. l ++ drop room (b ∷ bytes)) (take-cons room b bytes h))
      ∙ append_assoc (b ∷ take (room - 1) bytes) (drop room (b ∷ bytes)) (bytes_of reads);
}

poll_read-transport :
    (room b : ℕ) (bytes : List ℕ) (reads : List Read) (n : ℕ)
    → 0 < room
    → IsOpen reads
    → IsChunk room
        (record { read_buffer = []; reads = bytes_read (b ∷ bytes) ∷ reads; bytes_downloaded = n })
poll_read-transport room b bytes reads n h o = elim (Bool-cases (ltb room (suc (length bytes)))) [
  | inl long ↦ record {
    first = b;
    others = take (room - 1) bytes;
    after = record {
      read_buffer = [];
      reads = bytes_read (drop room (b ∷ bytes)) ∷ reads;
      bytes_downloaded = n + suc (length (take (room - 1) bytes));
    };
    polled = unfold poll_read poll_transport in rw long (rw (take-cons room b bytes h) refl);
    fits = omega (arith, length-take (room - 1) bytes);
    still_open = (ground (arith, long, length-drop room (b ∷ bytes)), o);
    front =
        ap (λ l. l ++ bytes_of reads)
          (sym (take-append-drop room (b ∷ bytes))
            ∙ ap (λ l. l ++ drop room (b ∷ bytes)) (take-cons room b bytes h))
        ∙ append_assoc (b ∷ take (room - 1) bytes) (drop room (b ∷ bytes)) (bytes_of reads);
  }
  | inr short ↦ record {
    first = b;
    others = bytes;
    after = record { read_buffer = []; reads = reads; bytes_downloaded = n + suc (length bytes) };
    polled = unfold poll_read poll_transport in rw short refl;
    fits = ground (arith, short);
    still_open = o;
    front = refl;
  }
]

-- A read waits where nothing is pending, and gives some of it otherwise.
poll_read-open :
    (room : ℕ) (buffer : List ℕ) (reads : List Read) (n : ℕ)
    → 0 < room
    → IsOpen reads
    → ((buffer ++ bytes_of reads ≡ [])
        × (poll_read room (record { read_buffer = buffer; reads = reads; bytes_downloaded = n })
            ≡ none))
      ⊎ IsChunk room (record { read_buffer = buffer; reads = reads; bytes_downloaded = n })
poll_read-open room (b ∷ bytes) reads n h o = inr (poll_read-buffered room b bytes reads n h o)
poll_read-open room [] [] n h o = inl (refl, unfold poll_read poll_transport in refl)
poll_read-open room [] (failed ∷ reads) n h (o, os) = absurd o
poll_read-open room [] (bytes_read [] ∷ reads) n h (o, os) = absurd (omega arith)
poll_read-open room [] (bytes_read (b ∷ bytes) ∷ reads) n h (o, os) =
    inr (poll_read-transport room b bytes reads n h os)

-- A `read_exact` that gave `bytes` and left `rest`.
pub record Gives (bytes rest : List ℕ) (result : Polled PeerReader (List ℕ)) : Type 0 where
  pub after : PeerReader
  pub done : result ≡ some (ok bytes, after)
  pub still_open : IsOpen after.reads
  pub left : pending after ≡ rest

module _ (read_exact : ℕ → PeerReader → Polled PeerReader (List ℕ))
    (exact : IsReadExact poll_read read_exact) where
  read_exact-Gives_fuel :
      (fuel : ℕ) (xs ys : List ℕ) (r : PeerReader)
      → length xs ≤ fuel
      → IsOpen r.reads
      → pending r ≡ xs ++ ys
      → Gives xs ys (read_exact (length xs) r)
  read_exact-Gives_fuel fuel [] ys r h o e = record {
    after = r;
    done = exact.all_read r;
    still_open = o;
    left = e;
  }
  read_exact-Gives_fuel zero (x ∷ xs) ys r h o e = absurd (omega arith)
  read_exact-Gives_fuel (suc fuel) (x ∷ xs) ys r h o e =
      elim (poll_read-open (suc (length xs)) r.read_buffer r.reads r.bytes_downloaded (omega arith)
        o) [
          | inl (empty, _) ↦ cc
          | inr c ↦
              let same : x ∷ (xs ++ ys) ≡ c.first ∷ (c.others ++ pending c.after) =
                sym e ∙ c.front in
              let heads : x ≡ c.first = cc in
              let tails : xs ++ ys ≡ c.others ++ pending c.after = cc in
              let room : length c.others ≤ length xs = omega (arith, c.fits) in
              let (more, split, back) = front_of xs ys c.others (pending c.after) tails room in
              let l : length xs ≡ length c.others + length more =
                ap length split ∙ length-append c.others more in
              let whole : c.first ∷ (c.others ++ more) ≡ x ∷ xs = cc in
              let rest =
                read_exact-Gives_fuel fuel more ys c.after (omega arith) c.still_open (sym back) in
              let count : suc (length xs) - suc (length c.others) ≡ length more = omega arith in
              record {
                after = rest.after;
                done =
                    exact.reads_on (length xs) r
                    ∙ ap (read_on poll_read read_exact (suc (length xs))) c.polled
                    ∙ ap
                        (λ k.
                          and_then (read_exact k c.after)
                            (λ more s. some (ok (c.first ∷ c.others ++ more), s)))
                        count
                    ∙ ap (λ k. and_then k (λ more s. some (ok (c.first ∷ c.others ++ more), s)))
                        rest.done
                    ∙ ap (λ l. some (ok l, rest.after)) whole;
                still_open = rest.still_open;
                left = rest.left;
              }
        ]

  pub read_exact-Gives :
      (n : ℕ) (xs ys : List ℕ) (r : PeerReader)
      → length xs ≡ n
      → IsOpen r.reads
      → pending r ≡ xs ++ ys
      → Gives xs ys (read_exact n r)
  read_exact-Gives n xs ys r h o e =
      rw (← h) (read_exact-Gives_fuel (length xs) xs ys r (omega arith) o e)

  read_exact-waits_fuel :
      (fuel n : ℕ) (r : PeerReader)
      → n ≤ fuel
      → IsOpen r.reads
      → length (pending r) < n
      → read_exact n r ≡ none
  read_exact-waits_fuel fuel zero r h o short = absurd (omega arith)
  read_exact-waits_fuel zero (suc n) r h o short = absurd (omega arith)
  read_exact-waits_fuel (suc fuel) (suc n) r h o short =
      elim (poll_read-open (suc n) r.read_buffer r.reads r.bytes_downloaded (omega arith) o) [
        | inl (_, waits) ↦ exact.reads_on n r ∙ ap (read_on poll_read read_exact (suc n)) waits
        | inr c ↦
            let l : length (pending r) ≡ suc (length c.others) + length (pending c.after) =
              ap length c.front ∙ length-append (c.first ∷ c.others) (pending c.after) in
            let next =
              read_exact-waits_fuel fuel (suc n - suc (length c.others)) c.after (omega arith)
                c.still_open (omega (arith, l, c.fits)) in
            exact.reads_on n r
            ∙ ap (read_on poll_read read_exact (suc n)) c.polled
            ∙ ap (λ k. and_then k (λ more s. some (ok (c.first ∷ c.others ++ more), s))) next
      ]

  pub read_exact-waits :
      (n : ℕ) (r : PeerReader) → IsOpen r.reads → length (pending r) < n → read_exact n r ≡ none
  read_exact-waits n r o short = read_exact-waits_fuel n n r (omega arith) o short
