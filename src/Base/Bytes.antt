-- ===== src/Base/Bytes.antt =====
-- os/linux.hpp:77-82: numbers of 32 bits as bytes, on a little-endian machine; and `memcmp`.
use Prim.Native.Nat.{ℕ, ◌+◌, ◌*◌, ◌/◌, ◌%◌, ◌<◌}
use mathlib.Core.Path.{◌≡◌, refl}
use mathlib.Core.Bool.{Bool, true, false, ◌&&◌}
use mathlib.Core.Logic.{◌↔◌}
use mathlib.Core.List.{List, [], ◌∷◌, ◌++◌}
use native.Mathlib.Omega.{arith}
use d3b.Base.Lists.{length}
use d3b.Base.Tests.{◌==◌}

-- `unpackLe32`, of the four bytes at an offset.
unfoldable pub unpack_le32 : List ℕ → ℕ
unpack_le32 (a ∷ b ∷ c ∷ d ∷ _) = a + 256 * b + 65536 * c + 16777216 * d
unpack_le32 _ = 0

unfoldable pub pack_le32 : ℕ → List ℕ
pack_le32 n = n % 256 ∷ (n / 256) % 256 ∷ (n / 65536) % 256 ∷ (n / 16777216) % 256 ∷ []

pub unpack_le32-pack_le32 :
    (n : ℕ) (rest : List ℕ) → n < 4294967296 → unpack_le32 (pack_le32 n ++ rest) ≡ n
unfolding unpack_le32 pack_le32
unpack_le32-pack_le32 n rest h = omega (arith, h)

pub length-pack_le32 : (n : ℕ) → length (pack_le32 n) ≡ 4
unfolding pack_le32
length-pack_le32 n = refl

abbrev pub same_bytes : List ℕ → List ℕ → Bool
same_bytes [] [] = true
same_bytes (a ∷ xs) (b ∷ bs) = a == b && same_bytes xs bs
same_bytes [] (b ∷ bs) = false
same_bytes (a ∷ xs) [] = false

pub same_bytes_iff : (xs bs : List ℕ) → (same_bytes xs bs ≡ true) ↔ (xs ≡ bs)
same_bytes_iff [] [] = ground arith
same_bytes_iff (a ∷ xs) (b ∷ bs) = ground (arith, same_bytes_iff xs bs)
same_bytes_iff [] (b ∷ bs) = ground arith
same_bytes_iff (a ∷ xs) [] = ground arith
