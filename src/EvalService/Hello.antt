-- ===== src/EvalService/Hello.antt =====
-- crates/gz-eval-service/src/hello.rs: the handshake and error frames' bodies. A hash or an id is the
-- list of its bytes.
use Prim.Native.String.{String}
use graphzero.Base.{ℕ, ◌+◌, ◌&&◌, List, ◌++◌, if◌then◌else◌, ◌==◌, leb, length, take, skip}
use graphzero.Base.Bytes.{to_le, from_le}
use graphzero.Base.Result.{Result, ok, err, ◌>>=◌, ◌>>◌, guard}

pub data HelloError : Type 0 where
  handshake protocol : String → HelloError

pub record Hello : Type 0 where
  pub protocol_version : ℕ
  pub encoding_version : ℕ
  pub feature_schema_hash : List ℕ
  pub batch_capacity : ℕ
  pub engine_id : List ℕ
  pub engine_version : List ℕ
  pub action_set_hash : List ℕ

pub record HelloAck : Type 0 where
  pub protocol_version : ℕ
  pub model_version : List ℕ
  pub model_generation : ℕ

unfoldable pub read_array : List ℕ → ℕ → ℕ → Result HelloError (List ℕ)
read_array bytes offset n =
    if leb (offset + n) (length bytes)
    then ok (take n (skip offset bytes))
    else err (protocol "byte array truncated")

unfoldable pub read_u32 : List ℕ → ℕ → Result HelloError ℕ
read_u32 bytes offset =
    if leb (offset + 4) (length bytes)
    then ok (from_le (take 4 (skip offset bytes)))
    else err (protocol "u32 truncated")

-- `Hello::encode`: what the buffer holds after the last append.
unfoldable pub encode_hello : Hello → List ℕ
encode_hello h =
    to_le 4 h.protocol_version
    ++ (to_le 4 h.encoding_version
        ++ (h.feature_schema_hash
            ++ (to_le 4 h.batch_capacity
                ++ (h.engine_id ++ (h.engine_version ++ h.action_set_hash)))))

unfoldable pub decode_hello : List ℕ → Result HelloError Hello
unfolding read_u32 read_array
decode_hello bytes = do
  guard (length bytes == 108) (handshake "bad HELLO length")
  protocol_version ← read_u32 bytes 0
  encoding_version ← read_u32 bytes 4
  feature_schema_hash ← read_array bytes 8 32
  batch_capacity ← read_u32 bytes 40
  engine_id ← read_array bytes 44 16
  engine_version ← read_array bytes 60 16
  action_set_hash ← read_array bytes 76 32
  ok (record {
    protocol_version = protocol_version;
    encoding_version = encoding_version;
    feature_schema_hash = feature_schema_hash;
    batch_capacity = batch_capacity;
    engine_id = engine_id;
    engine_version = engine_version;
    action_set_hash = action_set_hash;
  })

unfoldable pub encode_hello_ack : HelloAck → List ℕ
encode_hello_ack h = to_le 4 h.protocol_version ++ (h.model_version ++ to_le 8 h.model_generation)

unfoldable pub decode_hello_ack : List ℕ → Result HelloError HelloAck
unfolding read_u32 read_array
decode_hello_ack bytes = do
  guard (length bytes == 28) (handshake "bad HELLO_ACK length")
  protocol_version ← read_u32 bytes 0
  model_version ← read_array bytes 4 16
  model_generation ← read_array bytes 20 8
  ok (record {
    protocol_version = protocol_version;
    model_version = model_version;
    model_generation = from_le model_generation;
  })

-- `decode_error`: the code and the message, whose bytes `lossy` (`String::from_utf8_lossy`) reads.
unfoldable pub decode_error : (List ℕ → String) → List ℕ → Result HelloError (ℕ × String)
unfolding read_u32
decode_error lossy bytes = do
  guard (leb 6 (length bytes)) (protocol "ERROR frame truncated")
  code ← read_u32 bytes 0
  guard
      (leb (from_le (take 2 (skip 4 bytes))) 512
        && length bytes == 6 + from_le (take 2 (skip 4 bytes)))
      (protocol "bad ERROR frame length")
  ok (code, lossy (skip 6 bytes))
