-- ===== src/Whittle/Artifact.antt =====
-- The serialized form WAV1 of a graph, in crates/gz-engine-whittle/src/graph.rs. Bytes are numbers.
use graphzero.Base.{
  ℕ, zero, suc, ◌+◌, ◌*◌, ◌<◌, ◌≡◌, refl, ◌∙◌, true, ◌&&◌, List, [], ◌∷◌, ◌++◌, ◌==◌, leb,
  if◌then◌else◌, length, get_or, skip, take, All, u16_mod, u32_mod, arith,
}
use graphzero.Base.Bytes.{to_le, from_le, same, from_le-to_le}
use graphzero.Base.Result.{Result, ok, err, ◌>>=◌, ◌>>◌, guard}
use graphzero.Whittle.Graph.{
  OpCode, input, const, and, or, not, output, GraphError, invalid_input, bad_op, GraphBody, Arrays,
  new,
}
use graphzero.Whittle.Graph.Meaning.{Validated, Validated-validate}

-- `OpCode::as_i8` as a byte.
unfoldable pub as_i8 : OpCode → ℕ
as_i8 input = 0
as_i8 const = 1
as_i8 and = 2
as_i8 or = 3
as_i8 not = 4
as_i8 output = 5

-- `OpCode::from_i8` of a byte. The error keeps the byte, of which the source prints the signed value.
unfoldable pub from_i8 : ℕ → Result GraphError OpCode
from_i8 value =
    if value == 0
    then ok input
    else (if value == 1
        then ok const
        else (if value == 2
            then ok and
            else (if value == 3
                then ok or
                else (if value == 4
                    then ok not
                    else (if value == 5 then ok output else err (bad_op value))))))

-- The loop over the nodes, whose three arrays have the same length.
unfoldable pub write_nodes : List OpCode → List ℕ → List ℕ → List ℕ
write_nodes (code ∷ op) (a ∷ arg0) (b ∷ arg1) =
    as_i8 code ∷ (to_le 4 a ++ (to_le 4 b ++ write_nodes op arg0 arg1))
write_nodes _ _ _ = []

abbrev pub magic : List ℕ
magic = b'W' ∷ b'A' ∷ b'V' ∷ b'1' ∷ []

-- `serialize_wav1_parts`.
unfoldable pub serialize : GraphBody → List ℕ
unfolding write_nodes
serialize g =
    magic
    ++ (to_le 2 g.arity
        ++ (to_le 2 g.capacity
            ++ (to_le 4 (length g.op)
                ++ (to_le 4 g.output_node ++ write_nodes g.op g.arg0 g.arg1))))

-- The loop of `deserialize_wav1`, on the bytes that are left: nine for each node.
unfoldable pub read_nodes : ℕ → List ℕ → Result GraphError Arrays
unfolding from_i8
read_nodes zero bytes = ok (record { op = []; arg0 = []; arg1 = [] })
read_nodes (suc rounds) bytes = do
  code ← from_i8 (get_or 0 bytes 0)
  rest ← read_nodes rounds (skip 9 bytes)
  ok (record {
    op = code ∷ rest.op;
    arg0 = from_le (take 4 (skip 1 bytes)) ∷ rest.arg0;
    arg1 = from_le (take 4 (skip 5 bytes)) ∷ rest.arg1;
  })

unfoldable pub deserialize : List ℕ → Result GraphError GraphBody
unfolding read_nodes new
deserialize bytes =
    let node_count = from_le (take 4 (skip 8 bytes)) in
    do
      guard (leb 16 (length bytes) && same (take 4 bytes) magic)
          (invalid_input "bad WAV1 graph artifact")
      guard (length bytes == 16 + node_count * 9) (invalid_input "wrong WAV1 graph artifact length")
      arrays ← read_nodes node_count (skip 16 bytes)
      new (record {
        arity = from_le (take 2 (skip 4 bytes));
        capacity = from_le (take 2 (skip 6 bytes));
        output_node = from_le (take 4 (skip 12 bytes));
        op = arrays.op;
        arg0 = arrays.arg0;
        arg1 = arrays.arg1;
      })

-- The numbers of a graph fit their fields: two bytes for the arity and the capacity, four for the rest.
pub record Fits (g : GraphBody) : Type 0 where
  pub arity : g.arity < u16_mod
  pub capacity : g.capacity < u16_mod
  pub arg0 : All (λ a. a < u32_mod) g.arg0
  pub arg1 : All (λ a. a < u32_mod) g.arg1

from_i8-as_i8 : (code : OpCode) → from_i8 (as_i8 code) ≡ ok code
unfolding from_i8 as_i8
from_i8-as_i8 input = refl
from_i8-as_i8 const = refl
from_i8-as_i8 and = refl
from_i8-as_i8 or = refl
from_i8-as_i8 not = refl
from_i8-as_i8 output = refl

length-write_nodes :
    (op : List OpCode) (arg0 arg1 : List ℕ)
    → length arg0 ≡ length op
    → length arg1 ≡ length op
    → length (write_nodes op arg0 arg1) ≡ length op * 9
unfolding write_nodes to_le
length-write_nodes [] arg0 arg1 e f = refl
length-write_nodes (code ∷ op) [] arg1 e f = absurd (omega (arith, e))
length-write_nodes (code ∷ op) (a ∷ arg0) [] e f = absurd (omega (arith, f))
length-write_nodes (code ∷ op) (a ∷ arg0) (b ∷ arg1) e f =
    omega (arith, length-write_nodes op arg0 arg1 (omega (arith, e)) (omega (arith, f)))

read_nodes-write_nodes :
    (op : List OpCode) (arg0 arg1 : List ℕ)
    → length arg0 ≡ length op
    → length arg1 ≡ length op
    → All (λ a. a < u32_mod) arg0
    → All (λ a. a < u32_mod) arg1
    → read_nodes (length op) (write_nodes op arg0 arg1)
      ≡ ok (record { op = op; arg0 = arg0; arg1 = arg1 })
unfolding read_nodes write_nodes to_le from_le skip take
read_nodes-write_nodes [] [] [] e f p q = refl
read_nodes-write_nodes [] (a ∷ arg0) arg1 e f p q = absurd (omega (arith, e))
read_nodes-write_nodes [] [] (b ∷ arg1) e f p q = absurd (omega (arith, f))
read_nodes-write_nodes (code ∷ op) [] arg1 e f p q = absurd (omega (arith, e))
read_nodes-write_nodes (code ∷ op) (a ∷ arg0) [] e f p q = absurd (omega (arith, f))
read_nodes-write_nodes (code ∷ op) (a ∷ arg0) (b ∷ arg1) e f p q =
    rw
      (
        from_i8-as_i8 code,
        read_nodes-write_nodes op arg0 arg1 (omega (arith, e)) (omega (arith, f)) p.1 q.1,
        from_le-to_le 4 a (omega (arith, p.0)),
        from_le-to_le 4 b (omega (arith, q.0)),
      )
      refl

-- What `deserialize` makes of a header, by what it finds in its fields.
deserialize_fields :
    (bytes : List ℕ) (n : ℕ) (arrays : Arrays)
    → from_le (take 4 (skip 8 bytes)) ≡ n
    → same (take 4 bytes) magic ≡ true
    → length bytes ≡ 16 + n * 9
    → read_nodes n (skip 16 bytes) ≡ ok arrays
    → deserialize bytes
      ≡ new (record {
        arity = from_le (take 2 (skip 4 bytes));
        capacity = from_le (take 2 (skip 6 bytes));
        output_node = from_le (take 4 (skip 12 bytes));
        op = arrays.op;
        arg0 = arrays.arg0;
        arg1 = arrays.arg1;
      })
unfolding deserialize
deserialize_fields bytes n arrays e m l r =
    let long : leb 16 (length bytes) ≡ true = ground (arith, l) in
    let exact : (length bytes == 16 + n * 9) ≡ true = ground (arith, l) in
    rw (e, long, m, exact, r, deserialize) refl

length-serialize : (g : GraphBody) → Validated g → length (serialize g) ≡ 16 + length g.op * 9
unfolding serialize to_le
length-serialize g v =
    omega (arith, length-write_nodes g.op g.arg0 g.arg1 v.arg0_sized v.arg1_sized)

-- A graph that passes `validate` and whose numbers fit their fields is read back from its bytes.
pub deserialize-serialize :
    (g : GraphBody) → Validated g → Fits g → deserialize (serialize g) ≡ ok g
unfolding serialize new to_le from_le skip take same
deserialize-serialize g v f =
    deserialize_fields (serialize g) (length g.op)
      (record { op = g.op; arg0 = g.arg0; arg1 = g.arg1 })
      (from_le-to_le 4 (length g.op) (omega (arith, v.fits, f.capacity))) refl
      (length-serialize g v)
      (read_nodes-write_nodes g.op g.arg0 g.arg1 v.arg0_sized v.arg1_sized f.arg0 f.arg1)
    ∙ rw
        (
          from_le-to_le 2 g.arity f.arity,
          from_le-to_le 2 g.capacity f.capacity,
          from_le-to_le 4 g.output_node (omega (arith, v.output_in_range, v.fits, f.capacity)),
          Validated-validate g v,
        )
        refl
