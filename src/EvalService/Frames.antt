-- ===== src/EvalService/Frames.antt =====
-- crates/gz-eval-service/src/frames.rs: length-prefixed frames. A stream is the list of bytes that
-- are still to be read; a write gives the bytes that enter it. Both sides reuse a buffer, which may
-- hold bytes of earlier frames.
use Prim.Native.String.{String}
use graphzero.Base.{
  ℕ, ◌+◌, ◌-◌, Bool, ◌&&◌, not, List, [], ◌∷◌, ◌++◌, if◌then◌else◌, ◌==◌, ltb, leb, length, take,
  skip, replicate, u64_mod,
}
use graphzero.Base.Bytes.{to_le, from_le}
use graphzero.Base.Result.{Result, ok, err, ◌>>=◌, ◌>>◌, guard}

pub data ServiceError : Type 0 where
  handshake protocol io : String → ServiceError
  backend : ℕ → String → ServiceError

abbrev pub max_frame : ℕ
max_frame = 268435456

-- The frame types go from HELLO, 1, to MODEL_RELEASE, 8.
unfoldable pub known_frame_type : ℕ → Bool
known_frame_type frame_type = leb 1 frame_type && leb frame_type 8

-- `resize` with zeros where the buffer is too short.
abbrev pub grow : List ℕ → ℕ → List ℕ
grow buf len = if ltb (length buf) len then buf ++ replicate (len - length buf) 0 else buf

-- `buf[start..start + bytes.len()].copy_from_slice(bytes)`.
abbrev pub overwrite : List ℕ → ℕ → List ℕ → List ℕ
overwrite buf start bytes = take start buf ++ bytes ++ skip (start + length bytes) buf

-- `read_exact`: so many bytes, and the rest of the stream.
abbrev pub read_exact : List ℕ → ℕ → Result ServiceError (List ℕ × List ℕ)
read_exact stream len =
    if leb len (length stream)
    then ok (take len stream, skip len stream)
    else err (io "unexpected end")

-- The type and the body of a frame in a buffer. A frame is never empty here.
abbrev pub frame_of :
    List ℕ → List ℕ → List ℕ → Result ServiceError ((ℕ × List ℕ) × List ℕ × List ℕ)
frame_of buf stream [] = err (protocol "empty frame")
frame_of buf stream (frame_type ∷ body) =
    if known_frame_type frame_type
    then ok ((frame_type, body), stream, buf)
    else err (protocol "unknown frame type")

-- `read_frame`: the type and the body, the rest of the stream, and the buffer as it is then.
unfoldable pub read_frame : List ℕ → List ℕ → Result ServiceError ((ℕ × List ℕ) × List ℕ × List ℕ)
unfolding known_frame_type
read_frame stream buf = do
  (header, after) ← read_exact stream 4
  guard (not (from_le header == 0)) (protocol "empty frame")
  guard (leb (from_le header) max_frame) (protocol "frame exceeds maximum size")
  (body, rest) ← read_exact after (from_le header)
  frame_of (overwrite (grow buf (from_le header)) 0 body) rest
      (take (from_le header) (overwrite (grow buf (from_le header)) 0 body))

-- The sum of the parts' lengths, from `total` on, which must fit a usize.
unfoldable pub body_length : ℕ → List (List ℕ) → Result ServiceError ℕ
body_length total [] = ok total
body_length total (part ∷ parts) =
    let rest = body_length (total + length part) parts in
    if ltb (total + length part) u64_mod then rest else err (protocol "frame length overflow")

-- The loop that copies the parts into the buffer.
unfoldable pub write_parts : List ℕ → ℕ → List (List ℕ) → List ℕ
write_parts buf cursor [] = buf
write_parts buf cursor (part ∷ parts) =
    write_parts (overwrite buf cursor part) (cursor + length part) parts

-- The buffer with a frame of that body length in it.
unfoldable pub fill_frame : List ℕ → ℕ → ℕ → List (List ℕ) → List ℕ
unfolding write_parts
fill_frame buf len frame_type parts =
    write_parts (overwrite (overwrite (grow buf (4 + len)) 0 (to_le 4 len)) 4 (frame_type ∷ [])) 5
      parts

-- `write_frame`: the bytes that enter the stream, and the buffer. `sent` is what the write to the
-- socket gives.
unfoldable pub write_frame :
    List ℕ
    → ℕ
    → List (List ℕ)
    → Result ServiceError (Unit {0})
    → Result ServiceError (List ℕ × List ℕ)
unfolding known_frame_type body_length fill_frame
write_frame buf frame_type parts sent = do
  guard (known_frame_type frame_type) (protocol "unknown frame type")
  len ← body_length 1 parts
  guard (leb len max_frame) (protocol "frame exceeds maximum size")
  sent
  ok (take (4 + len) (fill_frame buf len frame_type parts), fill_frame buf len frame_type parts)
