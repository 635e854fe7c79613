-- ===== src/Channel/Memory.antt =====
-- A channel in memory, on which the tests run: a queue of bytes to read, and the bytes written.
use not_an_oak_fork.Base.{
  ℕ, refl, inl, inr, Bool-cases, List, [], ◌∷◌, ◌++◌, arith, leb→le, length-drop, ok, bail, leb,
  le→leb, if◌then◌else◌, length, take, drop,
}
use not_an_oak_fork.Channel.Transport.{Channel, IsStream, done}
use not_an_oak_fork.Channel.Termination.{IsFinite, Shrinks}

pub record Memory : Type 0 where
  pub unread : List ℕ
  pub written : List ℕ

abbrev pub memory_channel : Channel Memory
memory_channel = record {
  read_exact = λ n s.
      if leb n (length s.unread)
      then (done (ok (take n s.unread)), record s { unread = drop n s.unread })
      else (done (bail "end of the stream"), s);
  write_all = λ bytes s. (done (ok tt), record s { written = s.written ++ bytes });
  flush = λ s. (done (ok tt), s);
}

abbrev pub memory_stream : IsStream Memory memory_channel
memory_stream = record {
  incoming = λ s. s.unread;
  outgoing = λ s. s.written;
  reads = λ n s h.
      (record s { unread = drop n s.unread }, rw (le→leb n (length s.unread) h) refl, refl, refl);
  writes = λ bytes s. (record s { written = s.written ++ bytes }, refl, refl, refl);
  flushes = λ s. (s, refl, refl, refl);
}

abbrev pub memory_left : Memory → ℕ
memory_left s = length s.unread

pub memory-IsFinite : IsFinite memory_left memory_channel
memory-IsFinite n s = elim (Bool-cases (leb n (length s.unread))) [
  | inl e ↦
      Shrinks.returns (take n s.unread) (record s { unread = drop n s.unread }) (rw e refl)
        (omega (arith, leb→le n (length s.unread) e, length-drop n s.unread))
  | inr e ↦ Shrinks.fails ("end of the stream" ∷ []) s (rw e refl)
]
