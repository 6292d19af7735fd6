-- ===== src/Protocol/Stream/Writer.antt =====
-- protocol/stream.rs: the writer half and `send`. Tokio's `write_all` and `write_all_buf` are parameters.
use tortillas.Prelude.{
  ℕ, zero, suc, ◌+◌, ◌-◌, ◌≡◌, none, some, List, [], ◌∷◌, ◌++◌, length, take, drop, min,
}
use tortillas.Prelude.Outcome.{Outcome, ok, err, panicked}
use tortillas.Protocol.Message.{PeerMessages, PeerActorError}
use tortillas.Protocol.Bencode.{Bencode}
use tortillas.Protocol.Codec.{EncodedPeerMessage, contiguous, split, encode}
use tortillas.Protocol.Stream.{send_failed, encoding_failed}
use tortillas.Protocol.Stream.Reader.{Polled}

-- The transport is the script of its writes: how many bytes each takes at most.
pub data Write : Type 0 where
  accepts : ℕ → Write
  refused : Write

pub record PeerWriter : Type 0 where
  pub writes : List Write
  pub written : List ℕ
  pub bytes_uploaded : ℕ

-- `poll_write`, and `poll_write_vectored` on slices that stand for these bytes: those that the
-- transport took are counted.
unfoldable pub poll_write : List ℕ → PeerWriter → Polled PeerWriter ℕ
poll_write bytes w = taken w.writes
  where
    taken : List Write → Polled PeerWriter ℕ
    taken [] = none
    taken (refused ∷ writes) = some (
      err send_failed,
      record { writes = writes; written = w.written; bytes_uploaded = w.bytes_uploaded },
    )
    taken (accepts n ∷ writes) = some (
      ok (min n (length bytes)),
      record {
        writes = writes;
        written = w.written ++ take n bytes;
        bytes_uploaded = w.bytes_uploaded + min n (length bytes);
      },
    )

-- What tokio writes out: a slice, or a chain of two, which a write of `n` bytes advances by `n`.
pub record Buffer {ℓ} (B : Type ℓ) : Type ℓ where
  pub bytes : B → List ℕ
  pub advance : ℕ → B → B

abbrev pub slice : Buffer (List ℕ)
slice = record { bytes = λ b. b; advance = drop }

abbrev pub chain : Buffer (List ℕ × List ℕ)
chain = record { bytes = λ c. c.0 ++ c.1; advance = λ n c. (drop n c.0, drop (n - length c.0) c.1) }

-- `write_all` and `write_all_buf`: they write until nothing is left; a write of no bytes is an error,
-- `WriteZero`, and an error is passed on.
module _ {ℓ} {B : Type ℓ} (buffer : Buffer B)
    (write_all : B → PeerWriter → Polled PeerWriter (Unit {0})) where
  abbrev pub write_on : B → Polled PeerWriter ℕ → Polled PeerWriter (Unit {0})
  write_on b none = none
  write_on b (some (err e, w)) = some (err e, w)
  write_on b (some (panicked, w)) = some (panicked, w)
  write_on b (some (ok zero, w)) = some (err send_failed, w)
  write_on b (some (ok (suc n), w)) = write_all (buffer.advance (suc n) b) w

  pub record IsWriteAll : Type ℓ where
    pub all_written :
        (b : B) (w : PeerWriter) → buffer.bytes b ≡ [] → write_all b w ≡ some (ok tt, w)
    pub writes_on :
        (b : B) (w : PeerWriter) (first : ℕ) (rest : List ℕ)
        → buffer.bytes b ≡ first ∷ rest
        → write_all b w ≡ write_on b (poll_write (buffer.bytes b) w)

module _ (bencode : Bencode) (write_all : List ℕ → PeerWriter → Polled PeerWriter (Unit {0}))
    (write_all_buf : List ℕ × List ℕ → PeerWriter → Polled PeerWriter (Unit {0})) where
  -- `map_err(SendFailed)`.
  abbrev pub sending : Polled PeerWriter (Unit {0}) → Polled PeerWriter (Unit {0})
  sending (some (err e, w)) = some (err send_failed, w)
  sending result = result

  unfoldable pub send_encoded :
      Outcome PeerActorError EncodedPeerMessage → PeerWriter → Polled PeerWriter (Unit {0})
  send_encoded (err e) w = some (err (encoding_failed e), w)
  send_encoded panicked w = some (panicked, w)
  send_encoded (ok (contiguous bytes)) w = sending (write_all bytes w)
  send_encoded (ok (split header block)) w = sending (write_all_buf (header, block) w)

  unfoldable pub send : PeerMessages → PeerWriter → Polled PeerWriter (Unit {0})
  send message w = send_encoded (encode bencode message) w
