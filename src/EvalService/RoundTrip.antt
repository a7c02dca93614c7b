-- ===== src/EvalService/RoundTrip.antt =====
-- A frame that is written is read back: crates/gz-eval-service/src/frames.rs.
use graphzero.Base.{
  ℕ, ◌+◌, ◌-◌, ◌≤◌, ◌≡◌, refl, ap, ◌∙◌, sym, true, List, [], ◌∷◌, ◌++◌, length, take, skip,
  replicate, arith, length-append, length-replicate, length-take_within, length-skip_within,
  take-append, skip-append,
}
use graphzero.Base.Bytes.{to_le, from_le, length-to_le, from_le-to_le}
use graphzero.Base.Result.{ok}
use graphzero.EvalService.Frames.{
  max_frame, known_frame_type, grow, overwrite, read_frame, body_length, write_parts, fill_frame,
  write_frame,
}

-- All bytes of the parts, in order.
unfoldable pub joined : List (List ℕ) → List ℕ
joined [] = []
joined (part ∷ parts) = part ++ joined parts

module _ {A : Type 0} where
  append_nil : (xs : List A) → xs ++ [] ≡ xs
  append_nil [] = refl
  append_nil (x ∷ xs) = ap (λ rest. x ∷ rest) (append_nil xs)

  append_assoc : (xs ys zs : List A) → (xs ++ ys) ++ zs ≡ xs ++ (ys ++ zs)
  append_assoc [] ys zs = refl
  append_assoc (x ∷ xs) ys zs = ap (λ rest. x ∷ rest) (append_assoc xs ys zs)

length-grow : (buf : List ℕ) (len : ℕ) → len ≤ length (grow buf len)
length-grow buf len = ground (
  arith,
  length-append buf (replicate (len - length buf) 0),
  length-replicate {A = ℕ} (len - length buf) 0,
)

-- A write into the buffer leaves what stands before it, and its length.
take-overwrite :
    (buf : List ℕ) (start : ℕ) (bytes : List ℕ)
    → start ≤ length buf
    → take (start + length bytes) (overwrite buf start bytes) ≡ take start buf ++ bytes
take-overwrite buf start bytes h =
    take-append (start + length bytes) (take start buf ++ bytes) (skip (start + length bytes) buf)
      (omega (arith, length-append (take start buf) bytes, length-take_within start buf h))

length-overwrite :
    (buf : List ℕ) (start : ℕ) (bytes : List ℕ)
    → start + length bytes ≤ length buf
    → length (overwrite buf start bytes) ≡ length buf
length-overwrite buf start bytes h = omega (
  arith,
  length-append (take start buf ++ bytes) (skip (start + length bytes) buf),
  length-append (take start buf) bytes,
  length-take_within start buf (omega (arith, h)),
  length-skip_within (start + length bytes) buf h,
)

take-write_parts :
    (parts : List (List ℕ)) (buf : List ℕ) (cursor : ℕ)
    → cursor + length (joined parts) ≤ length buf
    → take (cursor + length (joined parts)) (write_parts buf cursor parts)
      ≡ take cursor buf ++ joined parts
unfolding joined write_parts
take-write_parts [] buf cursor h =
    ap (λ n. take n buf) (omega arith) ∙ sym (append_nil (take cursor buf))
take-write_parts (part ∷ parts) buf cursor h =
    let size = length-append part (joined parts) in
    let grown = length-overwrite buf cursor part (omega (arith, size, h)) in
    ap (λ n. take n (write_parts (overwrite buf cursor part) (cursor + length part) parts))
      (omega (arith, size))
    ∙ take-write_parts parts (overwrite buf cursor part) (cursor + length part)
        (omega (arith, size, grown, h))
    ∙ ap (λ front. front ++ joined parts) (take-overwrite buf cursor part (omega (arith, size, h)))
    ∙ append_assoc (take cursor buf) part (joined parts)

body_length-ok :
    (total : ℕ) (parts : List (List ℕ))
    → total + length (joined parts) ≤ max_frame
    → body_length total parts ≡ ok (total + length (joined parts))
unfolding joined body_length
body_length-ok total [] h = ground arith
body_length-ok total (part ∷ parts) h = ground (
  arith,
  length-append part (joined parts),
  body_length-ok (total + length part) parts (omega (arith, length-append part (joined parts), h)),
  h,
)

-- A write at the start of the buffer.
take-overwrite_start :
    (n : ℕ) (buf bytes : List ℕ) → length bytes ≡ n → take n (overwrite buf 0 bytes) ≡ bytes
unfolding take
take-overwrite_start n buf bytes h = take-append n bytes (skip (0 + length bytes) buf) h

-- What stands at the front of the buffer is the frame, whatever the buffer held before.
fill_frame-take :
    (buf : List ℕ) (frame_type : ℕ) (parts : List (List ℕ))
    → let len = 1 + length (joined parts) in
      take (4 + len) (fill_frame buf len frame_type parts)
      ≡ to_le 4 len ++ (frame_type ∷ joined parts)
unfolding fill_frame
fill_frame-take buf frame_type parts =
    let size = length (joined parts) in
    let len = 1 + size in
    let b0 = grow buf (4 + len) in
    let b1 = overwrite b0 0 (to_le 4 len) in
    let b2 = overwrite b1 4 (frame_type ∷ []) in
    let l0 = length-grow buf (4 + len) in
    let header = length-to_le 4 len in
    let l1 = length-overwrite b0 0 (to_le 4 len) (omega (arith, l0, header)) in
    let l2 = length-overwrite b1 4 (frame_type ∷ []) (omega (arith, l0, l1)) in
    let front : take 5 b2 ≡ to_le 4 len ++ (frame_type ∷ []) =
      take-overwrite b1 4 (frame_type ∷ []) (omega (arith, l0, l1))
      ∙ ap (λ xs. xs ++ (frame_type ∷ [])) (take-overwrite_start 4 b0 (to_le 4 len) header) in
    ap (λ n. take n (write_parts b2 5 parts)) (omega arith)
    ∙ take-write_parts parts b2 5 (omega (arith, l0, l1, l2))
    ∙ ap (λ xs. xs ++ joined parts) front
    ∙ append_assoc (to_le 4 len) (frame_type ∷ []) (joined parts)

write_frame-bytes :
    (buf : List ℕ) (frame_type : ℕ) (parts : List (List ℕ))
    → known_frame_type frame_type ≡ true
    → 1 + length (joined parts) ≤ max_frame
    → write_frame buf frame_type parts (ok tt)
      ≡ ok (
        to_le 4 (1 + length (joined parts)) ++ (frame_type ∷ joined parts),
        fill_frame buf (1 + length (joined parts)) frame_type parts,
      )
unfolding write_frame
write_frame-bytes buf frame_type parts k h =
    ground (arith, k, h, body_length-ok 1 parts h, fill_frame-take buf frame_type parts)

-- What `read_frame` makes of a frame at the front of its stream.
read_frame-bytes :
    (buf : List ℕ) (frame_type : ℕ) (body rest : List ℕ)
    → known_frame_type frame_type ≡ true
    → 1 + length body ≤ max_frame
    → read_frame (to_le 4 (1 + length body) ++ ((frame_type ∷ body) ++ rest)) buf
      ≡ ok ((frame_type, body), rest, overwrite (grow buf (1 + length body)) 0 (frame_type ∷ body))
unfolding read_frame
read_frame-bytes buf frame_type body rest k h =
    let len = 1 + length body in
    let stream = to_le 4 len ++ ((frame_type ∷ body) ++ rest) in
    let header = length-to_le 4 len in
    let total = length-append (to_le 4 len) ((frame_type ∷ body) ++ rest) in
    let size = length-append (frame_type ∷ body) rest in
    let number : from_le (to_le 4 len) ≡ len = from_le-to_le 4 len (omega (arith, h)) in
    let payload = frame_type ∷ body in
    ground (
      arith,
      h,
      k,
      total,
      size,
      header,
      number,
      take-append 4 (to_le 4 len) (payload ++ rest) header,
      skip-append 4 (to_le 4 len) (payload ++ rest) header,
      take-append len payload rest (omega arith),
      skip-append len payload rest (omega arith),
      take-overwrite_start len (grow buf len) payload (omega arith),
    )

-- A frame of a known type whose type and parts have at most `max_frame` bytes is written whatever the
-- writer's buffer held, and reading from a stream that starts with what was written gives the type
-- and the parts put together and leaves the rest of the stream, whatever the reader's buffer held.
pub read_frame-write_frame :
    (wbuf rbuf : List ℕ) (frame_type : ℕ) (parts : List (List ℕ)) (rest : List ℕ)
    → known_frame_type frame_type ≡ true
    → 1 + length (joined parts) ≤ max_frame
    → (bytes wbuf' rbuf' : List ℕ) × (write_frame wbuf frame_type parts (ok tt) ≡ ok (bytes, wbuf'))
      × (read_frame (bytes ++ rest) rbuf ≡ ok ((frame_type, joined parts), rest, rbuf'))
read_frame-write_frame wbuf rbuf frame_type parts rest k h =
    let len = 1 + length (joined parts) in
    (
      to_le 4 len ++ (frame_type ∷ joined parts),
      fill_frame wbuf len frame_type parts,
      overwrite (grow rbuf len) 0 (frame_type ∷ joined parts),
      write_frame-bytes wbuf frame_type parts k h,
      ap (λ stream. read_frame stream rbuf)
            (append_assoc (to_le 4 len) (frame_type ∷ joined parts) rest)
          ∙ read_frame-bytes rbuf frame_type (joined parts) rest k h,
    )
