-- ===== src/Socket.antt =====
-- src/shared/socket.cpp: the line buffer of a connection and the writing of a line. What the
-- kernel answers to each `read` and `write` is a list that the caller hands in.
pub mod Lines
pub mod Listening
pub mod Open
pub mod Write
use mathlib.Core.Option
use draind.Base.{
  ℕ, zero, suc, ◌-◌, Bool, true, false, Option, none, some, List, [], ◌∷◌, ◌++◌, Text, length, drop,
  take, ◌==◌, if◌then◌else◌,
}

-- What `read` returns: some bytes, an error (`errno`) or the end of the stream.
pub data ReadResult : Type 0 where
  bytes : Text → ReadResult
  would_block interrupted broken eof : ReadResult

-- The loop of `LineBuffer::feed` that reads until nothing is left. A script that ends leaves
-- nothing to read.
unfoldable pub read_all : Text → List ReadResult → Bool × Text
read_all buf [] = (true, buf)
read_all buf (bytes b ∷ rs) = read_all (buf ++ b) rs
read_all buf (would_block ∷ rs) = (true, buf)
read_all buf (interrupted ∷ rs) = read_all buf rs
read_all buf (broken ∷ rs) = (false, buf)
read_all buf (eof ∷ rs) = (false, buf)

-- The text in front of the first line break, and what stands behind it.
unfoldable pub cut_line : Text → Option (Text × Text)
cut_line [] = none
cut_line (c ∷ s) =
    let found = Option.map (λ (l, r). (c ∷ l, r)) (cut_line s) in
    if c == 10 then some ([], s) else found

-- The loop that takes the complete lines out of the buffer, in at most `f` rounds.
unfoldable pub take_lines : ℕ → Text → List Text × Text
take_lines zero s = ([], s)
take_lines (suc f) s = elim (cut_line s) [
  | none ↦ ([], s)
  | some (l, r) ↦ let (ls, b) = take_lines f r in (l ∷ ls, b)
]

-- The complete lines of a text and what is left of it; each round takes a character at least.
unfoldable pub extract : Text → List Text × Text
extract s = take_lines (length s) s

-- `LineBuffer::feed`: the result, the lines and the new buffer. A stream that ends or fails
-- yields no lines, and keeps what was read.
unfoldable pub feed : Text → List ReadResult → Bool × List Text × Text
unfolding read_all
feed buf rs =
    let (ok, all) = read_all buf rs in
    let (lines, rest) = extract all in if ok then (true, lines, rest) else (false, [], all)

-- What `write` returns.
pub data WriteResult : Type 0 where
  wrote : ℕ → WriteResult
  interrupted failed : WriteResult

-- How `write_line` stands: it returned true, it returned false, or it still waits for the kernel.
pub data WriteState : Type 0 where
  complete refused waiting : WriteState

-- The loop of `write_line` over the text that is left; with it the bytes that went out.
unfoldable pub write_all : Text → List WriteResult → WriteState × Text
write_all [] rs = (complete, [])
write_all (c ∷ s) [] = (waiting, [])
write_all (c ∷ s) (wrote n ∷ rs) =
    let (st, out) = write_all (drop n (c ∷ s)) rs in (st, take n (c ∷ s) ++ out)
write_all (c ∷ s) (interrupted ∷ rs) = write_all (c ∷ s) rs
write_all (c ∷ s) (failed ∷ rs) = (refused, [])

unfoldable pub write_line : Text → List WriteResult → WriteState × Text
unfolding write_all
write_line msg rs = write_all (msg ++ 10 ∷ []) rs
