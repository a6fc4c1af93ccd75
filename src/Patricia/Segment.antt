-- ===== src/Patricia/Segment.antt =====
-- common/src/patricia_map.rs: `bits`, `Side`, `Segment` and `FollowStatus`. `len` and the positions are
-- `u8`.
pub mod Bytes
pub mod RoundTrip
pub mod Follow
use Prim.Native.Nat.{bit_or}
use samizdat.Prelude.{
  ℕ, ◌+◌, ◌/◌, ◌%◌, ◌^◌, Bool, true, false, List, [], ◌∷◌, ◌++◌, Option, none, some, ◌==◌,
  if◌then◌else◌, ◌>>=◌, set, get_elem?, take, drop,
}
use samizdat.Hash.{Hash, default}

pub data Side : Type 0 where
  left right : Side

abbrev pub other : Side → Side
other left = right
other right = left

abbrev pub side_eq : Side → Side → Bool
side_eq left left = true
side_eq right right = true
side_eq left right = false
side_eq right left = false

-- `byte & (1 << i) != 0`
abbrev pub byte_bit : ℕ → ℕ → Side
byte_bit byte i = if (byte / 2 ^ i) % 2 == 0 then right else left

-- `(0..8).map(..)` over the bits of one byte, the lowest first.
unfoldable pub byte_bits : ℕ → List Side
byte_bits byte =
    byte_bit byte 0
    ∷ byte_bit byte 1
    ∷ byte_bit byte 2
    ∷ byte_bit byte 3
    ∷ byte_bit byte 4
    ∷ byte_bit byte 5
    ∷ byte_bit byte 6
    ∷ byte_bit byte 7
    ∷ []

unfoldable pub bits : Hash → List Side
bits [] = []
bits (byte ∷ bytes) = byte_bits byte ++ bits bytes

pub record Segment : Type 0 where
  pub slice : Hash
  pub len : ℕ

-- `slice.0[i] |= 1 << k`, which panics where `i` is out of bounds.
unfoldable pub set_bit : Hash → ℕ → ℕ → Option Hash
set_bit slice i k = do byte ← get_elem? slice i; some (set slice i (bit_or byte (2 ^ k)))

-- The body of the `for` loop: `len` is a `u8`.
unfoldable pub push_side : Side → Segment → Option Segment
push_side left s = do
  slice ← set_bit s.slice (s.len / 8) (s.len % 8)
  some (record { slice = slice; len = (s.len + 1) % 256 })
push_side right s = some (record { slice = s.slice; len = (s.len + 1) % 256 })

unfoldable pub push_sides : List Side → Segment → Option Segment
push_sides [] s = some s
push_sides (side ∷ it) s = push_side side s >>= push_sides it

unfoldable pub from_bits : List Side → Option Segment
from_bits it = push_sides it (record { slice = default; len = 0 })

unfoldable pub segment_bits : Segment → List Side
segment_bits s = take s.len (bits s.slice)

pub data FollowStatus : Type 0 where
  split : Side → ℕ → FollowStatus
  follow_node : Side → FollowStatus
  found_leaf : FollowStatus

-- The loop of `Segment::follow` over the two iterators. It returns the status and what is left of
-- the second iterator; `none` is the panic "iterator should be bigger than segment".
unfoldable pub follow_loop : List Side → List Side → ℕ → Option (FollowStatus × List Side)
follow_loop [] [] position = some (found_leaf, [])
follow_loop [] (o ∷ it) position = some (follow_node o, it)
follow_loop (t ∷ this) [] position = none
follow_loop (t ∷ this) (o ∷ it) position =
    let rest = follow_loop this it ((position + 1) % 256) in
    if side_eq t o then rest else some (split o position, it)

unfoldable pub follow : Segment → List Side → Option (FollowStatus × List Side)
follow s it = follow_loop (segment_bits s) it 0

unfoldable pub split_at : Segment → ℕ → Option (Segment × Segment)
split_at s at_position = do
  prefix ← from_bits (take at_position (segment_bits s))
  suffix ← from_bits (drop ((at_position + 1) % 256) (segment_bits s))
  some (prefix, suffix)
