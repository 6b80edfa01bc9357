-- ===== src/Prelude/Words.antt =====
-- Machine words: wrap-around, saturation, and the bytes of a number.
use Prim.Native.Nat.{ℕ, zero, suc, ◌+◌, ◌*◌, ◌/◌, ◌%◌, min}
use mathlib.Core.List.{[], ◌∷◌, ◌++◌}
use stellarconduit_core.Prelude.ByteArrays.{Bytes}

-- `u64` (and `usize` on a 64-bit target).
abbrev pub u64 : ℕ → ℕ
u64 n = n % 18446744073709551616

abbrev pub u64_max : ℕ
u64_max = 18446744073709551615

abbrev pub u8 : ℕ → ℕ
u8 n = n % 256

-- `u8::saturating_add`.
abbrev pub saturating_add_u8 : ℕ → ℕ → ℕ
saturating_add_u8 a b = min (a + b) 255

-- `n` bytes of a number, the lowest first: `u64::to_le_bytes` at `n = 8`.
unfoldable pub to_le_bytes : ℕ → ℕ → Bytes
to_le_bytes zero x = []
to_le_bytes (suc n) x = x % 256 ∷ to_le_bytes n (x / 256)

-- The highest first: `u64::to_be_bytes` at `n = 8`.
unfoldable pub to_be_bytes : ℕ → ℕ → Bytes
to_be_bytes zero x = []
to_be_bytes (suc n) x = to_be_bytes n (x / 256) ++ x % 256 ∷ []

-- `u32::from_le_bytes` of four bytes.
unfoldable pub from_le_bytes : Bytes → ℕ
from_le_bytes [] = 0
from_le_bytes (b ∷ bs) = b + 256 * from_le_bytes bs

-- `[0u8; n]`.
abbrev pub zeros : ℕ → Bytes
zeros zero = []
zeros (suc n) = 0 ∷ zeros n
