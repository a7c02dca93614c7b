-- ===== src/Tests/Codecs.antt =====
-- crates/gz-eval-service/src/frames.rs and hello.rs and crates/gz-replay/src/keys.rs at concrete
-- inputs.
use graphzero.Base.{
  ℕ, ◌≡◌, refl, true, some, List, [], ◌∷◌, ◌++◌, ◌&&◌, ◌||◌, ◌==◌, ltb, leb, replicate,
  if◌then◌else◌, arith,
}
use graphzero.Base.Bytes.{before, to_le}
use graphzero.Base.Result.{ok, err}
use graphzero.EvalService.Frames.{read_frame, write_frame, known_frame_type}
use graphzero.EvalService.RoundTrip.{joined, read_frame-write_frame}
use graphzero.EvalService.Hello.{
  protocol, Hello, HelloAck, encode_hello, decode_hello, encode_hello_ack, decode_hello_ack,
  decode_error,
}
use graphzero.EvalService.Handshake.{
  decode_hello-encode_hello, decode_hello_ack-encode_hello_ack, decode_error_lem,
}
use graphzero.Replay.Keys.{
  episode_key, row_key, row_index_key, decode_u64_key, decode_episode_from_row_key,
  decode_step_from_row_key, encode_u32, decode_u32, encode_u64, decode_u64, decode-row_key,
  before-row_key,
}

decode-row_key_example :
    (decode_episode_from_row_key (row_key 300 70000) ≡ some 300)
    × (decode_step_from_row_key (row_key 300 70000) ≡ some 70000)
    × (decode_u64_key (episode_key 300) ≡ some 300)
    × (decode_u64_key (row_index_key 300) ≡ some 300)
    × (decode_u64 (encode_u64 300) ≡ some 300)
    × (decode_u32 (encode_u32 70000) ≡ some 70000)
decode-row_key_example = decode-row_key 300 70000 (omega arith) (omega arith)

before-row_key_example :
    before (row_key 255 9) (row_key 256 2) ≡ (ltb 255 256 || (255 == 256 && ltb 9 2))
before-row_key_example =
    before-row_key 255 9 256 2 (omega arith) (omega arith) (omega arith) (omega arith)

abbrev stale : List ℕ
stale = replicate 20 7

abbrev parts : List (List ℕ)
parts = (1 ∷ 2 ∷ []) ∷ [] ∷ (3 ∷ []) ∷ []

known : known_frame_type 3 ≡ true
unfolding known_frame_type
known = refl

short : joined parts ≡ 1 ∷ 2 ∷ 3 ∷ []
unfolding joined
short = refl

read_frame-write_frame_example :
    (bytes wbuf' rbuf' : List ℕ) × (write_frame stale 3 parts (ok tt) ≡ ok (bytes, wbuf'))
    × (read_frame (bytes ++ (9 ∷ [])) [] ≡ ok ((3, joined parts), 9 ∷ [], rbuf'))
read_frame-write_frame_example =
    read_frame-write_frame stale [] 3 parts (9 ∷ []) known (rw short (omega arith))

abbrev greeting : Hello
greeting = record {
  protocol_version = 2;
  encoding_version = 1;
  feature_schema_hash = replicate 32 5;
  batch_capacity = 64;
  engine_id = replicate 16 6;
  engine_version = replicate 16 7;
  action_set_hash = replicate 32 8;
}

decode_hello-encode_hello_example : decode_hello (encode_hello greeting) ≡ ok greeting
decode_hello-encode_hello_example =
    decode_hello-encode_hello greeting (omega arith) (omega arith) refl (omega arith) refl refl refl

abbrev answer : HelloAck
answer = record {
  protocol_version = 2;
  model_version = replicate 16 9;
  model_generation = 1000000000000;
}

decode_hello_ack-encode_hello_ack_example : decode_hello_ack (encode_hello_ack answer) ≡ ok answer
decode_hello_ack-encode_hello_ack_example =
    decode_hello_ack-encode_hello_ack answer (omega arith) refl (omega arith)

decode_error_lem_example :
    decode_error (λ bytes. "text") (to_le 4 5 ++ (to_le 2 2 ++ (104 ∷ 105 ∷ [])))
    ≡ (if leb 2 512 then ok (5, "text") else err (protocol "bad ERROR frame length"))
decode_error_lem_example =
    decode_error_lem (λ bytes. "text") 5 (104 ∷ 105 ∷ []) (omega arith) (omega arith)
