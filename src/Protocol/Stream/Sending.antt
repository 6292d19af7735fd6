-- ===== src/Protocol/Stream/Sending.antt =====
-- What `send` writes, whatever the transport takes at a time.
use tortillas.Prelude.{
  ℕ, zero, suc, ◌+◌, ◌-◌, ◌≤◌, ◌<◌, ◌≡◌, refl, sym, ap, ◌∙◌, arith, none, some, List, [], ◌∷◌, ◌++◌,
  length, length-append, length-take, length-drop, take, drop, min, All,
}
use mathlib.Core.List.{append_assoc, append-nil}
use tortillas.Prelude.Cuts.{take-append-drop, take-min_length}
use tortillas.Prelude.Outcome.{ok, err, bind_ok, ok_inj}
use tortillas.Protocol.Message.{PeerMessages}
use tortillas.Protocol.Bencode.{Bencode}
use tortillas.Protocol.Codec.{EncodedPeerMessage, contiguous, split, encode, into_bytes, to_bytes}
use tortillas.Protocol.Stream.{send_failed}
use tortillas.Protocol.Stream.Reader.{Polled}
use tortillas.Protocol.Stream.Writer.{
  Write, accepts, refused, PeerWriter, poll_write, Buffer, slice, chain, write_on, IsWriteAll,
  sending, send_encoded, send,
}

-- The bytes a result has added to what was written before it: all of them where it is a success, some
-- from the front where it is the transport's error. Each byte is counted once.
pub data IsSend (bytes : List ℕ) (w : PeerWriter) : Polled PeerWriter (Unit {0}) → Type 0 where
  waits : IsSend bytes w none
  sent :
      (after : PeerWriter)
      → after.written ≡ w.written ++ bytes
      → after.bytes_uploaded ≡ w.bytes_uploaded + length bytes
      → IsSend bytes w (some (ok tt, after))
  fails :
      (after : PeerWriter) (front back : List ℕ)
      → bytes ≡ front ++ back
      → after.written ≡ w.written ++ front
      → after.bytes_uploaded ≡ w.bytes_uploaded + length front
      → IsSend bytes w (some (err send_failed, after))

-- A write that took `n` bytes, and then what another result has added.
IsSend-after :
    (n : ℕ) (bytes : List ℕ) (w : PeerWriter) (writes : List Write)
    (result : Polled PeerWriter (Unit {0}))
    → n ≤ length bytes
    → IsSend
        (drop n bytes)
        (record {
          writes = writes;
          written = w.written ++ take n bytes;
          bytes_uploaded = w.bytes_uploaded + n;
        })
        result
    → IsSend bytes w result
IsSend-after n bytes w writes _ h waits = waits
IsSend-after n bytes w writes _ h (sent after e count) =
    sent after
      (e
        ∙ append_assoc w.written (take n bytes) (drop n bytes)
        ∙ ap (λ l. w.written ++ l) (take-append-drop n bytes))
      (omega (arith, count, length-drop n bytes))
IsSend-after n bytes w writes _ h (fails after front back e written count) =
    fails after (take n bytes ++ front) back
      (sym (take-append-drop n bytes)
        ∙ ap (λ l. take n bytes ++ l) e
        ∙ sym (append_assoc (take n bytes) front back))
      (written ∙ append_assoc w.written (take n bytes) front)
      (omega (arith, count, length-append (take n bytes) front, length-take n bytes))

-- A transport that takes some bytes at each of its writes.
abbrev pub IsTaking : List Write → Type 0
IsTaking writes = All takes writes
  where
    takes : Write → Type 0
    takes refused = ⊥
    takes (accepts n) = 0 < n

abbrev writer : List Write → List ℕ → ℕ → PeerWriter
writer writes written uploaded = record {
  writes = writes;
  written = written;
  bytes_uploaded = uploaded;
}

poll_write-accepts :
    (n x : ℕ) (bytes : List ℕ) (writes : List Write) (written : List ℕ) (uploaded : ℕ) (k : ℕ)
    → k ≡ suc (min n (length bytes))
    → poll_write (x ∷ bytes) (writer (accepts (suc n) ∷ writes) written uploaded)
      ≡ some (ok k, writer writes (written ++ take k (x ∷ bytes)) (uploaded + k))
unfolding poll_write
poll_write-accepts n x bytes writes written uploaded k e =
    let count : min (suc n) (suc (length bytes)) ≡ k = omega (arith, e) in
    let front : take (suc n) (x ∷ bytes) ≡ take k (x ∷ bytes) =
      sym (take-min_length (suc n) (x ∷ bytes)) ∙ ap (λ k. take k (x ∷ bytes)) count in
    rw count (rw front refl)

module _ {ℓ} {B : Type ℓ} (buffer : Buffer B)
    (write_all : B → PeerWriter → Polled PeerWriter (Unit {0}))
    (writes_all : IsWriteAll buffer write_all)
    (advances : (n : ℕ) (b : B) → buffer.bytes (buffer.advance n b) ≡ drop n (buffer.bytes b)) where
  -- The first write.
  write_all-on :
      (b : B) (x : ℕ) (bytes : List ℕ) (w : PeerWriter) (result : Polled PeerWriter ℕ)
      → buffer.bytes b ≡ x ∷ bytes
      → poll_write (x ∷ bytes) w ≡ result
      → write_all b w ≡ write_on buffer write_all b result
  write_all-on b x bytes w result e h =
      writes_all.writes_on b w x bytes e
      ∙ ap (write_on buffer write_all b) (ap (λ l. poll_write l w) e ∙ h)

  write_all-IsSend :
      (fuel : ℕ) (b : B) (bytes : List ℕ) (writes : List Write) (written : List ℕ) (uploaded : ℕ)
      → buffer.bytes b ≡ bytes
      → length bytes ≤ fuel
      → IsSend bytes (writer writes written uploaded) (write_all b (writer writes written uploaded))
  unfolding poll_write
  write_all-IsSend fuel b [] writes written uploaded e h =
      rw (writes_all.all_written b (writer writes written uploaded) e)
        (sent _ (sym (append-nil written)) (omega arith))
  write_all-IsSend zero b (x ∷ bytes) writes written uploaded e h = absurd (omega arith)
  write_all-IsSend (suc fuel) b (x ∷ bytes) [] written uploaded e h =
      rw (write_all-on b x bytes (writer [] written uploaded) none e refl) waits
  write_all-IsSend (suc fuel) b (x ∷ bytes) (refused ∷ writes) written uploaded e h =
      rw (write_all-on b x bytes (writer (refused ∷ writes) written uploaded) _ e refl)
        (fails _ [] (x ∷ bytes) refl (sym (append-nil written)) (omega arith))
  write_all-IsSend (suc fuel) b (x ∷ bytes) (accepts zero ∷ writes) written uploaded e h =
      let none_ : min 0 (suc (length bytes)) ≡ 0 = omega arith in
      rw
        (write_all-on b x bytes (writer (accepts zero ∷ writes) written uploaded)
          (some (ok 0, writer writes (written ++ []) (uploaded + 0))) e (rw none_ refl))
        (fails _ [] (x ∷ bytes) refl refl (omega arith))
  write_all-IsSend (suc fuel) b (x ∷ bytes) (accepts (suc n) ∷ writes) written uploaded e h =
      let k = suc (min n (length bytes)) in
      let next =
        write_all-IsSend fuel (buffer.advance k b) (drop k (x ∷ bytes)) writes
          (written ++ take k (x ∷ bytes)) (uploaded + k) (advances k b ∙ ap (drop k) e)
          (omega (arith, length-drop k (x ∷ bytes))) in
      rw
        (write_all-on b x bytes (writer (accepts (suc n) ∷ writes) written uploaded) _ e
          (poll_write-accepts n x bytes writes written uploaded k refl))
        (IsSend-after k (x ∷ bytes) (writer (accepts (suc n) ∷ writes) written uploaded) writes _
          (omega arith) next)

  write_all-ends :
      (bytes : List ℕ) (b : B) (writes : List Write) (written : List ℕ) (uploaded fuel : ℕ)
      → buffer.bytes b ≡ bytes
      → IsTaking writes
      → length bytes ≤ length writes
      → length bytes ≤ fuel
      → (after : PeerWriter) × (write_all b (writer writes written uploaded) ≡ some (ok tt, after))
        × IsTaking after.writes
        × (length writes ≤ length after.writes + length bytes)
  write_all-ends [] b writes written uploaded fuel e t h f =
      (_, writes_all.all_written b (writer writes written uploaded) e, t, omega arith)
  write_all-ends (x ∷ bytes) b [] written uploaded fuel e t h f = absurd (omega arith)
  write_all-ends (x ∷ bytes) b writes written uploaded zero e t h f = absurd (omega arith)
  write_all-ends (x ∷ bytes) b (refused ∷ writes) written uploaded (suc fuel) e (t, ts) h f =
      absurd t
  write_all-ends (x ∷ bytes) b (accepts zero ∷ writes) written uploaded (suc fuel) e (t, ts) h f =
      absurd (omega arith)
  write_all-ends (x ∷ bytes) b (accepts (suc n) ∷ writes) written uploaded (suc fuel) e (t, ts) h
        f =
      let k = suc (min n (length bytes)) in
      let (after, done, taking, left) =
        write_all-ends (drop k (x ∷ bytes)) (buffer.advance k b) writes
          (written ++ take k (x ∷ bytes)) (uploaded + k) fuel (advances k b ∙ ap (drop k) e) ts
          (omega (arith, length-drop k (x ∷ bytes))) (omega (arith, length-drop k (x ∷ bytes))) in
      (
        after,
        write_all-on b x bytes (writer (accepts (suc n) ∷ writes) written uploaded) _ e
              (poll_write-accepts n x bytes writes written uploaded k refl)
            ∙ done,
        taking,
        omega (arith, left, length-drop k (x ∷ bytes)),
      )

pub drop-append-chain :
    (n : ℕ) (xs ys : List ℕ) → drop n xs ++ drop (n - length xs) ys ≡ drop n (xs ++ ys)
drop-append-chain zero xs ys = let e : 0 - length xs ≡ 0 = omega arith in rw e refl
drop-append-chain (suc n) [] ys = let e : suc n - 0 ≡ suc n = omega arith in rw e refl
drop-append-chain (suc n) (x ∷ xs) ys =
    let e : suc n - suc (length xs) ≡ n - length xs = omega arith in
    rw e (drop-append-chain n xs ys)

module _ (bencode : Bencode) (write_all : List ℕ → PeerWriter → Polled PeerWriter (Unit {0}))
    (write_all_buf : List ℕ × List ℕ → PeerWriter → Polled PeerWriter (Unit {0}))
    (all : IsWriteAll slice write_all) (all_buf : IsWriteAll chain write_all_buf) where
  sending-IsSend :
      (bytes : List ℕ) (w : PeerWriter) (result : Polled PeerWriter (Unit {0}))
      → IsSend bytes w result
      → IsSend bytes w (sending bencode write_all write_all_buf result)
  sending-IsSend bytes w _ waits = waits
  sending-IsSend bytes w _ (sent after e count) = sent after e count
  sending-IsSend bytes w _ (fails after front back e written count) =
      fails after front back e written count

  send_encoded-IsSend :
      (m : EncodedPeerMessage) (w : PeerWriter)
      → IsSend (into_bytes m) w (send_encoded bencode write_all write_all_buf (ok m) w)
  unfolding send_encoded into_bytes
  send_encoded-IsSend (contiguous bytes) w = sending-IsSend bytes w (write_all bytes w) (
      write_all-IsSend slice write_all all (λ n b. refl) (length bytes) bytes bytes w.writes
        w.written w.bytes_uploaded refl (omega arith))
  send_encoded-IsSend (split header block) w =
      sending-IsSend (header ++ block) w (write_all_buf (header, block) w) (
        write_all-IsSend chain write_all_buf all_buf (λ n b. drop-append-chain n b.0 b.1)
          (length (header ++ block)) (header, block) (header ++ block) w.writes w.written
          w.bytes_uploaded refl (omega arith))

  encoded_as :
      (m : PeerMessages) (bytes : List ℕ)
      → to_bytes bencode m ≡ ok bytes
      → (e : EncodedPeerMessage) × (encode bencode m ≡ ok e) × (into_bytes e ≡ bytes)
  unfolding to_bytes
  encoded_as m bytes h =
      let (e, done, same) = bind_ok (encode bencode m) (λ e. ok (into_bytes e)) bytes h in
      (e, done, ok_inj same)

  -- Sending a message that encodes waits, or writes its bytes, or fails after some of them, whatever the
  -- transport takes at a time; bytes are written in order and counted once.
  pub send-IsSend :
      (m : PeerMessages) (bytes : List ℕ) (w : PeerWriter)
      → to_bytes bencode m ≡ ok bytes
      → IsSend bytes w (send bencode write_all write_all_buf m w)
  unfolding send
  send-IsSend m bytes w h =
      let (e, done, same) = encoded_as m bytes h in rw done (rw same at (send_encoded-IsSend e w))

  send_encoded-ends :
      (m : EncodedPeerMessage) (w : PeerWriter)
      → IsTaking w.writes
      → length (into_bytes m) ≤ length w.writes
      → (after : PeerWriter) × (send_encoded bencode write_all write_all_buf (ok m) w
          ≡ some (ok tt, after))
        × IsTaking after.writes
        × (length w.writes ≤ length after.writes + length (into_bytes m))
  unfolding send_encoded into_bytes
  send_encoded-ends (contiguous bytes) w t room =
      let (after, done, taking, left) =
        write_all-ends slice write_all all (λ n b. refl) bytes bytes w.writes w.written
          w.bytes_uploaded (length bytes) refl t room (omega arith) in
      (after, ap (sending bencode write_all write_all_buf) done, taking, left)
  send_encoded-ends (split header block) w t room =
      let (after, done, taking, left) =
        write_all-ends chain write_all_buf all_buf (λ n b. drop-append-chain n b.0 b.1)
          (header ++ block) (header, block) w.writes w.written w.bytes_uploaded
          (length (header ++ block)) refl t room (omega arith) in
      (after, ap (sending bencode write_all write_all_buf) done, taking, left)

  -- Over a transport that takes some bytes at each of its writes, and has at least as many writes to come
  -- as the message has bytes, sending a message that encodes succeeds: its bytes are written, and at
  -- most as many writes are made as it has bytes.
  pub send-sent :
      (m : PeerMessages) (bytes : List ℕ) (w : PeerWriter)
      → to_bytes bencode m ≡ ok bytes
      → IsTaking w.writes
      → length bytes ≤ length w.writes
      → (after : PeerWriter) × (send bencode write_all write_all_buf m w ≡ some (ok tt, after))
        × (after.written ≡ w.written ++ bytes)
        × IsTaking after.writes
        × (length w.writes ≤ length after.writes + length bytes)
  unfolding send
  send-sent m bytes w h t room =
      let (e, done, same) = encoded_as m bytes h in
      let (after, end, taking, left) = send_encoded-ends e w t (rw same room) in
      let result : send bencode write_all write_all_buf m w ≡ some (ok tt, after) = rw done end in
      (
        after,
        result,
        written after (rw result at (send-IsSend m bytes w h)),
        taking,
        rw same at left,
      )
    where
      written :
          (after : PeerWriter)
          → IsSend bytes w (some (ok tt, after))
          → after.written ≡ w.written ++ bytes
      written _ (sent after e count) = e
