-- ===== src/Channel/Frame.antt =====
-- oak_channel/src/frame.rs: frames on the wire, and a message cut into frames. The timer that
-- `read_frame` starts is dropped: nothing depends on it.
use not_an_oak_fork.Base.{
  ℕ, zero, suc, ◌+◌, ◌-◌, ◌/◌, ◌%◌, ◌^◌, Bool, true, false, List, [], ◌∷◌, ◌++◌, map, Result, ok,
  bail, ltb, leb, ◌==◌, if◌then◌else◌, length, take, drop, replicate, to_le_bytes, from_le_bytes,
}
use not_an_oak_fork.Channel.Transport.{M, Channel, lift, ◌>>=◌, ◌>>◌}

abbrev pub padding_size : ℕ
padding_size = 4

abbrev pub length_size : ℕ
length_size = 2

abbrev pub flags_size : ℕ
flags_size = 2

abbrev pub body_offset : ℕ
body_offset = 8

abbrev pub padding : List ℕ
padding = replicate padding_size 0

abbrev pub max_size : ℕ
max_size = 4000

abbrev pub max_body_size : ℕ
max_body_size = max_size - body_offset

-- The bitflags type `Flags`: START is bit 0, END is bit 1.
pub record Flags : Type 0 where
  pub start : Bool
  pub end : Bool

abbrev bit : Bool → ℕ
bit true = 1
bit false = 0

unfoldable pub bits : Flags → ℕ
bits f = bit f.start + (bit f.end + bit f.end)

-- Unknown bits are dropped.
unfoldable pub from_bits_truncate : ℕ → Flags
from_bits_truncate n = record { start = n % 2 == 1; end = n / 2 % 2 == 1 }

abbrev pub no_flags : Flags
no_flags = record { start = false; end = false }

pub record Frame : Type 0 where
  pub flags : Flags
  pub body : List ℕ

unfoldable pub check_length : ℕ → Result ℕ
check_length len =
    if leb len body_offset
    then bail "frame is too small"
    else if ltb max_size len
    then bail "frame exceeds the maximum frame size"
    else ok len

module _ {S : Type 0} (c : Channel S) where
  -- `Frame::write`: the length is a u16.
  unfoldable pub write : Frame → M S (Unit {0})
  write f =
      if ltb (body_offset + length f.body) (2 ^ 16)
      then (do
        c.write_all padding
        c.write_all (to_le_bytes length_size (body_offset + length f.body))
        c.write_all (to_le_bytes flags_size (bits f.flags))
        c.write_all f.body)
      else lift (bail "could convert the frame length usize to u16")

  -- the body, read behind the bytes that the message buffer holds; returned with the buffer
  unfoldable pub read_body : List ℕ → ℕ → Flags → M S (Frame × List ℕ)
  read_body buffer len flags = do
    body ← c.read_exact (len - body_offset)
    lift (ok (record { flags = flags; body = body }, buffer ++ body))

  unfoldable pub read_frame : List ℕ → M S (Frame × List ℕ)
  unfolding read_body from_bits_truncate check_length
  read_frame buffer = do
    _ ← c.read_exact padding_size
    length_bytes ← c.read_exact length_size
    len ← lift (check_length (from_le_bytes length_bytes))
    flags_bytes ← c.read_exact flags_size
    read_body buffer len (from_bits_truncate (from_le_bytes flags_bytes))

  unfoldable pub write_frame : Frame → M S (Unit {0})
  unfolding write
  write_frame f = do write f; c.flush

-- `data.chunks(n)`; `fuel` is the length of the data, and each chunk takes at least one byte.
unfoldable pub chunks_of : ℕ → ℕ → List ℕ → List (List ℕ)
chunks_of zero n xs = []
chunks_of (suc fuel) n [] = []
chunks_of (suc fuel) n (x ∷ xs) = take n (x ∷ xs) ∷ chunks_of fuel n (drop n (x ∷ xs))

unfoldable pub set_first_start : List Frame → List Frame
set_first_start [] = []
set_first_start (f ∷ fs) = record f { flags = record { start = true; end = f.flags.end } } ∷ fs

unfoldable pub set_last_end : List Frame → List Frame
set_last_end [] = []
set_last_end (f ∷ []) = record f { flags = record { start = f.flags.start; end = true } } ∷ []
set_last_end (f ∷ g ∷ fs) = f ∷ set_last_end (g ∷ fs)

abbrev pub plain_frame : List ℕ → Frame
plain_frame body = record { flags = no_flags; body = body }

-- `first_mut` and `last_mut` find a frame, since the data is not empty.
unfoldable pub bytes_into_frames : List ℕ → Result (List Frame)
unfolding chunks_of set_first_start set_last_end
bytes_into_frames [] = bail "cannot convert empty payloads into frames"
bytes_into_frames (x ∷ xs) = ok (
    set_last_end
      (set_first_start (map plain_frame (chunks_of (length (x ∷ xs)) max_body_size (x ∷ xs)))))
