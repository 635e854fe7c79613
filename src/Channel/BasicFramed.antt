-- ===== src/Channel/BasicFramed.antt =====
-- oak_channel/src/basic_framed.rs: a payload sent in acknowledged chunks of 4096 bytes. The last
-- chunk is the remainder, which is sent and acknowledged even when it is empty.
use not_an_oak_fork.Base.{
  ℕ, zero, suc, ◌/◌, ◌%◌, ◌^◌, List, ◌++◌, ok, err, panic, bail, ltb, ◌==◌, if◌then◌else◌, length,
  take, drop, to_le_bytes, from_le_bytes,
}
use not_an_oak_fork.Channel.Transport.{M, Channel, Outcome, done, unfinished, lift, ◌>>=◌, ◌>>◌}

abbrev pub chunk_size : ℕ
chunk_size = 4096

-- `expect` on the result of a computation
abbrev pub expect_outcome : {S A : Type 0} → Outcome A × S → Outcome A × S
expect_outcome (done (ok a), s) = (done (ok a), s)
expect_outcome (done (err e), s) = (done panic, s)
expect_outcome (done panic, s) = (done panic, s)
expect_outcome (unfinished, s) = (unfinished, s)

abbrev pub expecting : {S A : Type 0} → M S A → M S A
expecting m s = expect_outcome (m s)

module _ {S : Type 0} (c : Channel S) where
  -- a chunk of `n` bytes
  unfoldable pub read_chunk : ℕ → M S (List ℕ)
  read_chunk n =
      if ltb n (2 ^ 32)
      then (do chunk ← c.read_exact n; c.write_all (to_le_bytes 4 n); lift (ok chunk))
      else lift (bail "chunk too big")

  -- the reads of `receive_raw` behind the length: `n` chunks of the given size, and the remainder
  unfoldable pub receive_chunks : ℕ → ℕ → ℕ → M S (List ℕ)
  unfolding read_chunk
  receive_chunks size zero remainder = read_chunk remainder
  receive_chunks size (suc n) remainder = do
    chunk ← read_chunk size
    rest ← receive_chunks size n remainder
    lift (ok (chunk ++ rest))

  unfoldable pub receive_raw : M S (List ℕ)
  unfolding receive_chunks
  receive_raw = do
    length_bytes ← c.read_exact 4
    receive_chunks chunk_size (from_le_bytes length_bytes / chunk_size)
        (from_le_bytes length_bytes % chunk_size)

  -- the closure of `send_raw`
  unfoldable pub write_chunk : List ℕ → M S (Unit {0})
  write_chunk chunk = do
    c.write_all chunk
    ack ← c.read_exact 4
    if from_le_bytes ack == length chunk
        then lift (ok tt)
        else lift (bail "ack wasn't of correct length")

  unfoldable pub send_chunks : ℕ → ℕ → List ℕ → M S (Unit {0})
  unfolding write_chunk
  send_chunks size zero payload = write_chunk payload
  send_chunks size (suc n) payload = do
    write_chunk (take size payload)
    send_chunks size n (drop size payload)

  -- `payload.len() as u32` drops the high bits.
  unfoldable pub send_raw : List ℕ → M S (Unit {0})
  unfolding send_chunks
  send_raw payload = do
    expecting (c.write_all (to_le_bytes 4 (length payload % 2 ^ 32)))
    send_chunks chunk_size (length payload / chunk_size) payload
