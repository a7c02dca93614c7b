-- ===== src/EvalService/Handshake.antt =====
-- The handshake messages are decoded to what was encoded: crates/gz-eval-service/src/hello.rs.
use Prim.Native.String.{String}
use graphzero.Base.{
  ℕ, zero, suc, ◌+◌, ◌<◌, ◌≡◌, refl, ap, ◌∙◌, List, [], ◌∷◌, ◌++◌, if◌then◌else◌, leb, length, take,
  skip, arith, length-append, take-append, skip-append,
}
use graphzero.Base.Bytes.{space, to_le, length-to_le, from_le-to_le}
use graphzero.Base.Result.{ok, err}
use graphzero.EvalService.Hello.{
  protocol, Hello, HelloAck, read_array, read_u32, encode_hello, decode_hello, encode_hello_ack,
  decode_hello_ack, decode_error,
}

skip-past : (n : ℕ) (xs ys : List ℕ) (m : ℕ) → length xs ≡ m → skip (m + n) (xs ++ ys) ≡ skip n ys
unfolding skip
skip-past n [] ys zero h = let e : 0 + n ≡ n = omega arith in ap (λ k. skip k ys) e
skip-past n [] ys (suc m) h = absurd (omega (arith, h))
skip-past n (x ∷ xs) ys zero h = absurd (omega (arith, h))
skip-past n (x ∷ xs) ys (suc m) h =
    let e : suc m + n ≡ suc (m + n) = omega arith in
    ap (λ k. skip k (x ∷ (xs ++ ys))) e ∙ skip-past n xs ys m (omega (arith, h))

-- The first field, and a field behind the first.
read_array-first : (n : ℕ) (xs ys : List ℕ) → length xs ≡ n → read_array (xs ++ ys) 0 n ≡ ok xs
unfolding read_array skip
read_array-first n xs ys h = ground (arith, length-append xs ys, take-append n xs ys h, h)

read_array-later :
    (offset n : ℕ) (xs ys : List ℕ) (m : ℕ)
    → length xs ≡ m
    → read_array (xs ++ ys) (m + offset) n ≡ read_array ys offset n
unfolding read_array
read_array-later offset n xs ys m h =
    ground (arith, length-append xs ys, skip-past offset xs ys m h, h)

take_all : (n : ℕ) (xs : List ℕ) → length xs ≡ n → take n xs ≡ xs
unfolding take
take_all zero [] h = refl
take_all zero (x ∷ xs) h = absurd (omega (arith, h))
take_all (suc n) [] h = absurd (omega (arith, h))
take_all (suc n) (x ∷ xs) h = ap (λ rest. x ∷ rest) (take_all n xs (omega (arith, h)))

read_array-only : (n : ℕ) (xs : List ℕ) → length xs ≡ n → read_array xs 0 n ≡ ok xs
unfolding read_array skip
read_array-only n xs h = ground (arith, take_all n xs h, h)

read_u32-first : (n : ℕ) (ys : List ℕ) → n < space 4 → read_u32 (to_le 4 n ++ ys) 0 ≡ ok n
unfolding read_u32 skip
read_u32-first n ys h = ground (
  arith,
  length-append (to_le 4 n) ys,
  length-to_le 4 n,
  take-append 4 (to_le 4 n) ys (length-to_le 4 n),
  from_le-to_le 4 n h,
)

read_u32-later :
    (offset : ℕ) (xs ys : List ℕ) (m : ℕ)
    → length xs ≡ m
    → read_u32 (xs ++ ys) (m + offset) ≡ read_u32 ys offset
unfolding read_u32
read_u32-later offset xs ys m h = ground (arith, length-append xs ys, skip-past offset xs ys m h, h)

-- A HELLO whose numbers fit 32 bits and whose hashes and ids have their widths is decoded to itself.
pub decode_hello-encode_hello :
    (h : Hello)
    → h.protocol_version < space 4
    → h.encoding_version < space 4
    → length h.feature_schema_hash ≡ 32
    → h.batch_capacity < space 4
    → length h.engine_id ≡ 16
    → length h.engine_version ≡ 16
    → length h.action_set_hash ≡ 32
    → decode_hello (encode_hello h) ≡ ok h
unfolding decode_hello encode_hello
decode_hello-encode_hello h hp he hf hb hi hv ha =
    let t6 = h.action_set_hash in
    let t5 = h.engine_version ++ t6 in
    let t4 = h.engine_id ++ t5 in
    let t3 = to_le 4 h.batch_capacity ++ t4 in
    let t2 = h.feature_schema_hash ++ t3 in
    let t1 = to_le 4 h.encoding_version ++ t2 in
    let t0 = to_le 4 h.protocol_version ++ t1 in
    ground (
      arith,
      length-append (to_le 4 h.protocol_version) t1,
      length-append (to_le 4 h.encoding_version) t2,
      length-append (h.feature_schema_hash) t3,
      length-append (to_le 4 h.batch_capacity) t4,
      length-append (h.engine_id) t5,
      length-append (h.engine_version) t6,
      length-to_le 4 h.protocol_version,
      length-to_le 4 h.encoding_version,
      hf,
      length-to_le 4 h.batch_capacity,
      hi,
      hv,
      ha,
      read_u32-first (h.protocol_version) t1 hp,
      read_u32-later 0 (to_le 4 h.protocol_version) t1 4 (length-to_le 4 h.protocol_version),
      read_u32-first (h.encoding_version) t2 he,
      read_array-later 4 32 (to_le 4 h.protocol_version) t1 4 (length-to_le 4 h.protocol_version),
      read_array-later 0 32 (to_le 4 h.encoding_version) t2 4 (length-to_le 4 h.encoding_version),
      read_array-first 32 (h.feature_schema_hash) t3 hf,
      read_u32-later 36 (to_le 4 h.protocol_version) t1 4 (length-to_le 4 h.protocol_version),
      read_u32-later 32 (to_le 4 h.encoding_version) t2 4 (length-to_le 4 h.encoding_version),
      read_u32-later 0 (h.feature_schema_hash) t3 32 (hf),
      read_u32-first (h.batch_capacity) t4 hb,
      read_array-later 40 16 (to_le 4 h.protocol_version) t1 4 (length-to_le 4 h.protocol_version),
      read_array-later 36 16 (to_le 4 h.encoding_version) t2 4 (length-to_le 4 h.encoding_version),
      read_array-later 4 16 (h.feature_schema_hash) t3 32 (hf),
      read_array-later 0 16 (to_le 4 h.batch_capacity) t4 4 (length-to_le 4 h.batch_capacity),
      read_array-first 16 (h.engine_id) t5 hi,
      read_array-later 56 16 (to_le 4 h.protocol_version) t1 4 (length-to_le 4 h.protocol_version),
      read_array-later 52 16 (to_le 4 h.encoding_version) t2 4 (length-to_le 4 h.encoding_version),
      read_array-later 20 16 (h.feature_schema_hash) t3 32 (hf),
      read_array-later 16 16 (to_le 4 h.batch_capacity) t4 4 (length-to_le 4 h.batch_capacity),
      read_array-later 0 16 (h.engine_id) t5 16 (hi),
      read_array-first 16 (h.engine_version) t6 hv,
      read_array-later 72 32 (to_le 4 h.protocol_version) t1 4 (length-to_le 4 h.protocol_version),
      read_array-later 68 32 (to_le 4 h.encoding_version) t2 4 (length-to_le 4 h.encoding_version),
      read_array-later 36 32 (h.feature_schema_hash) t3 32 (hf),
      read_array-later 32 32 (to_le 4 h.batch_capacity) t4 4 (length-to_le 4 h.batch_capacity),
      read_array-later 16 32 (h.engine_id) t5 16 (hi),
      read_array-later 0 32 (h.engine_version) t6 16 (hv),
      read_array-only 32 (h.action_set_hash) ha,
    )

-- A HELLO_ACK whose numbers fit 32 and 64 bits and whose version has 16 bytes is decoded to itself.
pub decode_hello_ack-encode_hello_ack :
    (h : HelloAck)
    → h.protocol_version < space 4
    → length h.model_version ≡ 16
    → h.model_generation < space 8
    → decode_hello_ack (encode_hello_ack h) ≡ ok h
unfolding decode_hello_ack encode_hello_ack
decode_hello_ack-encode_hello_ack h hp hv hg =
    let t2 = to_le 8 h.model_generation in
    let t1 = h.model_version ++ t2 in
    let lp = length-to_le 4 h.protocol_version in
    let lg = length-to_le 8 h.model_generation in
    ground (
      arith,
      length-append (to_le 4 h.protocol_version) t1,
      length-append h.model_version t2,
      lp,
      hv,
      lg,
      read_u32-first h.protocol_version t1 hp,
      read_array-later 0 16 (to_le 4 h.protocol_version) t1 4 lp,
      read_array-first 16 h.model_version t2 hv,
      read_array-later 16 8 (to_le 4 h.protocol_version) t1 4 lp,
      read_array-later 0 8 h.model_version t2 16 hv,
      read_array-only 8 t2 lg,
      from_le-to_le 8 h.model_generation hg,
    )

-- An ERROR body with a code of four bytes, the message's length in two and the message is decoded to
-- the code and the message exactly where the message has at most 512 bytes.
pub decode_error_lem :
    (lossy : List ℕ → String) (code : ℕ) (message : List ℕ)
    → code < space 4
    → length message < space 2
    → decode_error lossy (to_le 4 code ++ (to_le 2 (length message) ++ message)) ≡ (
        if leb (length message) 512
        then ok (code, lossy message)
        else err (protocol "bad ERROR frame length"))
unfolding decode_error
decode_error_lem lossy code message hc hm =
    let n = length message in
    let t1 = to_le 2 n ++ message in
    let lc = length-to_le 4 code in
    let ln = length-to_le 2 n in
    let from_header : skip 4 (to_le 4 code ++ t1) ≡ t1 = skip-append 4 (to_le 4 code) t1 lc in
    let from_message : skip 6 (to_le 4 code ++ t1) ≡ message =
      skip-past 2 (to_le 4 code) t1 4 lc ∙ skip-append 2 (to_le 2 n) message ln in
    ground (
      arith,
      length-append (to_le 4 code) t1,
      length-append (to_le 2 n) message,
      lc,
      ln,
      read_u32-first code t1 hc,
      from_header,
      from_message,
      take-append 2 (to_le 2 n) message ln,
      from_le-to_le 2 n hm,
    )
