-- ===== src/Replay/Keys.antt =====
-- crates/gz-replay/src/keys.rs: the keys under which episodes and rows are stored. A u64 or u32 is a
-- number below `space 8` or `space 4`.
use graphzero.Base.{
  ℕ, ◌<◌, ◌≡◌, ◌&&◌, ◌||◌, Option, none, some, List, ◌++◌, if◌then◌else◌, ◌==◌, ltb, length, take,
  skip, arith, length-append, take-append, skip-append,
}
use graphzero.Base.Bytes.{
  space, to_be, from_be, before, length-to_be, from_be-to_be, before-append, before-to_be,
  same-to_be,
}

unfoldable pub episode_key : ℕ → List ℕ
episode_key seq = to_be 8 seq

unfoldable pub row_key : ℕ → ℕ → List ℕ
row_key episode_seq step_index = to_be 8 episode_seq ++ to_be 4 step_index

unfoldable pub row_index_key : ℕ → List ℕ
row_index_key seq = to_be 8 seq

unfoldable pub decode_u64_key : List ℕ → Option ℕ
decode_u64_key key = if length key == 8 then some (from_be 0 key) else none

unfoldable pub decode_episode_from_row_key : List ℕ → Option ℕ
decode_episode_from_row_key key = if length key == 12 then some (from_be 0 (take 8 key)) else none

unfoldable pub decode_step_from_row_key : List ℕ → Option ℕ
decode_step_from_row_key key = if length key == 12 then some (from_be 0 (skip 8 key)) else none

unfoldable pub encode_u32 : ℕ → List ℕ
encode_u32 value = to_be 4 value

unfoldable pub decode_u32 : List ℕ → Option ℕ
decode_u32 value = if length value == 4 then some (from_be 0 value) else none

unfoldable pub encode_u64 : ℕ → List ℕ
encode_u64 value = to_be 8 value

unfoldable pub decode_u64 : List ℕ → Option ℕ
decode_u64 value = if length value == 8 then some (from_be 0 value) else none

-- For every episode and step number that fits its field, the key of a row gives both back, and the
-- keys of episodes and of the row index and the stored counters give their numbers back.
pub decode-row_key :
    (episode step : ℕ)
    → episode < space 8
    → step < space 4
    → (decode_episode_from_row_key (row_key episode step) ≡ some episode)
      × (decode_step_from_row_key (row_key episode step) ≡ some step)
      × (decode_u64_key (episode_key episode) ≡ some episode)
      × (decode_u64_key (row_index_key episode) ≡ some episode)
      × (decode_u64 (encode_u64 episode) ≡ some episode)
      × (decode_u32 (encode_u32 step) ≡ some step)
unfolding row_key decode_episode_from_row_key decode_step_from_row_key decode_u64_key episode_key
    row_index_key decode_u64 encode_u64 decode_u32 encode_u32
decode-row_key episode step h k =
    let e = from_be-to_be 8 episode h in
    let s = from_be-to_be 4 step k in
    let le = length-to_be 8 episode in
    let ls = length-to_be 4 step in
    let total = length-append (to_be 8 episode) (to_be 4 step) in
    (
      ground (arith, total, le, ls, e, take-append 8 (to_be 8 episode) (to_be 4 step) le),
      ground (arith, total, le, ls, s, skip-append 8 (to_be 8 episode) (to_be 4 step) le),
      ground (arith, le, e),
      ground (arith, le, e),
      ground (arith, le, e),
      ground (arith, ls, s),
    )

-- The byte order of row keys, in which the store iterates, is the order of the episodes and, within
-- an episode, of the steps.
pub before-row_key :
    (episode step episode' step' : ℕ)
    → episode < space 8
    → step < space 4
    → episode' < space 8
    → step' < space 4
    → before (row_key episode step) (row_key episode' step')
      ≡ (ltb episode episode' || (episode == episode' && ltb step step'))
unfolding row_key
before-row_key episode step episode' step' h k h' k' = ground (
  arith,
  before-append (to_be 8 episode) (to_be 8 episode') (to_be 4 step) (to_be 4 step'),
  length-to_be 8 episode,
  length-to_be 8 episode',
  before-to_be 8 episode episode' h h',
  same-to_be 8 episode episode' h h',
  before-to_be 4 step step' k k',
)
