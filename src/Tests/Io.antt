-- ===== src/Tests/Io.antt =====
-- `read_exact` and `write_all` as plain loops, for the streams of the tests.
use tortillas.Prelude.{
  ℕ, zero, suc, ◌-◌, ◌≤◌, ◌≡◌, refl, ap, ◌∙◌, arith, true, false, none, some, List, [], ◌∷◌, ◌++◌,
  length, length-drop, drop, eqb, if◌then◌else◌,
}
use tortillas.Prelude.Outcome.{ok, err, panicked}
use tortillas.Protocol.Stream.Reader.{PeerReader, Polled, and_then, poll_read, read_on, IsReadExact}
use tortillas.Protocol.Stream.Writer.{
  PeerWriter, Buffer, slice, chain, poll_write, write_on, IsWriteAll,
}
use tortillas.Protocol.Stream.Sending.{drop-append-chain}

unfoldable pub exact_loop : ℕ → ℕ → PeerReader → Polled PeerReader (List ℕ)
exact_loop fuel zero r = some (ok [], r)
exact_loop zero (suc n) r = none
exact_loop (suc fuel) (suc n) r = read_on poll_read (exact_loop fuel) (suc n) (poll_read (suc n) r)

unfoldable pub read_exact : ℕ → PeerReader → Polled PeerReader (List ℕ)
unfolding exact_loop
read_exact n r = exact_loop n n r

read_on-same :
    (f g : ℕ → PeerReader → Polled PeerReader (List ℕ)) (n : ℕ) (p : Polled PeerReader (List ℕ))
    → ((k : ℕ) (r : PeerReader) → k ≤ n → f k r ≡ g k r)
    → read_on poll_read f (suc n) p ≡ read_on poll_read g (suc n) p
read_on-same f g n none h = refl
read_on-same f g n (some (err e, r)) h = refl
read_on-same f g n (some (panicked, r)) h = refl
read_on-same f g n (some (ok [], r)) h = refl
read_on-same f g n (some (ok (b ∷ bytes), r)) h =
    ap (λ k. and_then k (λ more s. some (ok (b ∷ bytes ++ more), s)))
      (h (suc n - suc (length bytes)) r (omega arith))

exact_loop-fuel : (f g n : ℕ) (r : PeerReader) → n ≤ f → n ≤ g → exact_loop f n r ≡ exact_loop g n r
unfolding exact_loop
exact_loop-fuel f g zero r hf hg = refl
exact_loop-fuel zero g (suc n) r hf hg = absurd (omega arith)
exact_loop-fuel (suc f) zero (suc n) r hf hg = absurd (omega arith)
exact_loop-fuel (suc f) (suc g) (suc n) r hf hg =
    read_on-same (exact_loop f) (exact_loop g) n (poll_read (suc n) r)
      (λ k r h. exact_loop-fuel f g k r (omega (arith, h)) (omega (arith, h)))

pub read_exact-IsReadExact : IsReadExact poll_read read_exact
unfolding read_exact exact_loop
read_exact-IsReadExact = record {
  all_read = λ r. refl;
  reads_on = λ n r.
      read_on-same (exact_loop n) read_exact n (poll_read (suc n) r)
        (λ k r h. exact_loop-fuel n k k r h (omega arith));
}

module _ {B : Type 0} (buffer : Buffer B) where
  unfoldable pub write_loop : ℕ → B → PeerWriter → Polled PeerWriter (Unit {0})
  write_loop zero b w = some (ok tt, w)
  write_loop (suc fuel) b w =
      let written = write_on buffer (write_loop fuel) b (poll_write (buffer.bytes b) w) in
      if eqb (length (buffer.bytes b)) 0 then some (ok tt, w) else written

  unfoldable pub write_all : B → PeerWriter → Polled PeerWriter (Unit {0})
  unfolding write_loop
  write_all b w = write_loop (length (buffer.bytes b)) b w

  module _
      (advances : (n : ℕ) (b : B)
        → buffer.bytes (buffer.advance n b) ≡ drop n (buffer.bytes b)) where
    write_on-same :
        (f g : B → PeerWriter → Polled PeerWriter (Unit {0})) (b : B) (p : Polled PeerWriter ℕ)
        → ((n : ℕ) (w : PeerWriter)
            → f (buffer.advance (suc n) b) w ≡ g (buffer.advance (suc n) b) w)
        → write_on buffer f b p ≡ write_on buffer g b p
    write_on-same f g b none h = refl
    write_on-same f g b (some (err e, w)) h = refl
    write_on-same f g b (some (panicked, w)) h = refl
    write_on-same f g b (some (ok zero, w)) h = refl
    write_on-same f g b (some (ok (suc n), w)) h = h n w

    write_loop-fuel :
        (f g : ℕ) (b : B) (w : PeerWriter)
        → length (buffer.bytes b) ≤ f
        → length (buffer.bytes b) ≤ g
        → write_loop f b w ≡ write_loop g b w
    unfolding write_loop
    write_loop-fuel zero zero b w hf hg = refl
    write_loop-fuel zero (suc g) b w hf hg =
        let empty : eqb (length (buffer.bytes b)) 0 ≡ true = ground (arith, hf) in rw empty refl
    write_loop-fuel (suc f) zero b w hf hg =
        let empty : eqb (length (buffer.bytes b)) 0 ≡ true = ground (arith, hg) in rw empty refl
    write_loop-fuel (suc f) (suc g) b w hf hg =
        ap
          (λ (p : Polled PeerWriter (Unit {0})).
            if eqb (length (buffer.bytes b)) 0 then some (ok tt, w) else p)
          (write_on-same (write_loop f) (write_loop g) b (poll_write (buffer.bytes b) w) (λ n w.
            let l : length (buffer.bytes (buffer.advance (suc n) b))
                ≡ length (buffer.bytes b) - suc n =
              ap length (advances (suc n) b) ∙ length-drop (suc n) (buffer.bytes b) in
            write_loop-fuel f g (buffer.advance (suc n) b) w (omega (arith, l, hf))
              (omega (arith, l, hg))))

    write_all-IsWriteAll : IsWriteAll buffer write_all
    unfolding write_all write_loop
    write_all-IsWriteAll = record {
      all_written = λ b w e. rw e refl;
      writes_on = λ b w first rest e.
          let l : length (buffer.bytes b) ≡ suc (length rest) = ap length e in
          let full : eqb (length (buffer.bytes b)) 0 ≡ false = ground (arith, l) in
          write_loop-fuel (length (buffer.bytes b)) (suc (length rest)) b w (omega arith)
            (omega (arith, l))
          ∙ rw full refl
          ∙ write_on-same (write_loop (length rest)) write_all b (poll_write (buffer.bytes b) w)
              (λ n w.
                let m : length (buffer.bytes (buffer.advance (suc n) b))
                    ≡ length (buffer.bytes b) - suc n =
                  ap length (advances (suc n) b) ∙ length-drop (suc n) (buffer.bytes b) in
                write_loop-fuel (length rest) _ (buffer.advance (suc n) b) w (omega (arith, l, m))
                  (omega arith));
    }

pub slice-IsWriteAll : IsWriteAll slice (write_all slice)
slice-IsWriteAll = write_all-IsWriteAll slice (λ n b. refl)

pub chain-IsWriteAll : IsWriteAll chain (write_all chain)
chain-IsWriteAll = write_all-IsWriteAll chain (λ n b. drop-append-chain n b.0 b.1)
