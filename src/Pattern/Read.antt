-- ===== src/Pattern/Read.antt =====
-- ganymede-pattern-core/src/pattern/scan.rs: the little-endian reads, the displacements and the
-- conversions between image offsets and virtual addresses. `usize` is 64 bits wide.
use ganymede.Common.{
  ℕ, zero, suc, ◌+◌, ◌*◌, ◌^◌, List, [], ◌∷◌, Option, none, some, leb, if◌then◌else◌, get_range,
  set, checked_add, checked_sub, ℤ, pos, negsuc, signed,
}
use ganymede.Pattern.Atom.{PointerWidth, bytes}
use mathlib.Core.Option

abbrev pub Bytes : Type 0
Bytes = List ℕ

abbrev pub Saves : Type 0
Saves = List ℕ

infixl 5 ◌>>=◌
abbrev pub ◌>>=◌ {ℓ κ} : {A : Type ℓ} {B : Type κ} → Option A → (A → Option B) → Option B
none >>= f = none
some a >>= f = f a

-- `from_le_bytes`
abbrev pub from_le_bytes : Bytes → ℕ
from_le_bytes [] = 0
from_le_bytes (b ∷ bs) = b + 256 * from_le_bytes bs

-- The `n` bytes at the cursor as one little-endian number, which every read begins with.
unfoldable pub read_le : Bytes → ℕ → ℕ → Option ℕ
read_le haystack cursor n = do
  end ← checked_add cursor n
  window ← get_range haystack cursor end
  some (from_le_bytes window)

unfoldable pub read_i16 : Bytes → ℕ → Option ℤ
unfolding read_le
read_i16 haystack cursor = Option.map (signed (2 ^ 15)) (read_le haystack cursor 2)

unfoldable pub read_u16 : Bytes → ℕ → Option ℕ
unfolding read_le
read_u16 haystack cursor = read_le haystack cursor 2

unfoldable pub read_i32 : Bytes → ℕ → Option ℤ
unfolding read_le
read_i32 haystack cursor = Option.map (signed (2 ^ 31)) (read_le haystack cursor 4)

unfoldable pub read_u32 : Bytes → ℕ → Option ℕ
unfolding read_le
read_u32 haystack cursor = read_le haystack cursor 4

unfoldable pub read_pointer : PointerWidth → Bytes → ℕ → Option ℕ
unfolding read_le bytes
read_pointer width haystack cursor = read_le haystack cursor (bytes width)

-- Both `relative`, on offsets, and `relative_u64`, on addresses: the two words are 64 bits wide.
unfoldable pub relative : ℕ → ℤ → Option ℕ
relative base (pos d) = checked_add base d
relative base (negsuc d) = checked_sub base (d + 1)

unfoldable pub absolute : ℕ → ℕ → Option ℕ
absolute base offset = checked_add base offset

unfoldable pub offset_of : ℕ → ℕ → ℕ → Option ℕ
offset_of base address image_length = do
  off ← checked_sub address base
  if leb off image_length then some off else none

-- Zero movement stands for the target's pointer width.
unfoldable pub movement : PointerWidth → ℕ → ℕ
unfolding bytes
movement width zero = bytes width
movement width (suc n) = suc n

-- A slot that the caller did not supply is ignored.
unfoldable pub write : Saves → ℕ → ℕ → Saves
write saves slot value = set saves slot value
