-- ===== src/GraduallyUpdate/Bytes.antt =====
-- Little-endian bytes (gradually-update/src/lib.rs): `convert_vec_to_u8` with `from_le_bytes`, and the
-- encoding of a `u128`.
use open_runtime_module_libr.Prelude.{
  none, refl, some, arith, leb, if◌then◌else◌, ◌*◌, ◌^◌, ◌/◌, ◌≡◌, min, ◌<◌, Option, length, ◌+◌,
  ◌%◌, List, ℕ, [], ◌∷◌, zero, suc,
}

-- The value of bytes, missing ones being 0
unfoldable pub from_le_bytes : List ℕ → ℕ
from_le_bytes [] = 0
from_le_bytes (b ∷ bytes) = b + 256 * from_le_bytes bytes

-- `u128::from_le_bytes(Self::convert_vec_to_u8(input))`: it panics beyond 16 bytes.
unfoldable pub le_value : List ℕ → Option ℕ
le_value input = if leb (length input) 16 then some (from_le_bytes input) else none

-- The first `count` bytes of a value
unfoldable pub le_bytes : (count : ℕ) → ℕ → List ℕ
le_bytes zero n = []
le_bytes (suc count) n = n % 256 ∷ le_bytes count (n / 256)

-- `new_value_u128.encode()`, truncated to a length
abbrev pub encode : (len : ℕ) → ℕ → List ℕ
encode len n = le_bytes (min len 16) n

-- Each is a byte.
abbrev pub AllBytes : List ℕ → Type 0
AllBytes [] = Unit
AllBytes (b ∷ bytes) = (b < 256) × AllBytes bytes

pub length-le_bytes : (count n : ℕ) → length (le_bytes count n) ≡ count
unfolding le_bytes
length-le_bytes zero n = refl
length-le_bytes (suc count) n = omega (arith, length-le_bytes count (n / 256))

pub from_le_bytes_lt : (bytes : List ℕ) → AllBytes bytes → from_le_bytes bytes < 256 ^ length bytes
unfolding from_le_bytes
from_le_bytes_lt [] a = omega arith
from_le_bytes_lt (b ∷ bytes) (lt, a) = ground (arith, from_le_bytes_lt bytes a)

pub from-le_bytes : (count n : ℕ) → n < 256 ^ count → from_le_bytes (le_bytes count n) ≡ n
unfolding from_le_bytes le_bytes
from-le_bytes zero n lt = omega arith
from-le_bytes (suc count) n lt = omega (arith, from-le_bytes count (n / 256) (omega arith))
