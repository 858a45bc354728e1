-- ===== src/Prelude/Bytes.antt =====
-- Byte arrays as functions of the offset, and the little-endian 32-bit words that the program
-- reads and writes in them through a cast pointer.
use Prim.Native.Nat.{ℕ, ◌+◌, ◌-◌, ◌*◌, ◌/◌, ◌%◌, ◌^◌, ◌≤◌, ◌<◌}
use mathlib.Core.Path.{◌≡◌}
use mathlib.Core.Bool.{◌&&◌}
use mathlib.Core.Logic.{◌⊎◌, inl, inr}
use native.Mathlib.Omega.{arith}
use os_hw.Prelude.Tests.{◌==◌, ltb, leb, if◌then◌else◌}

abbrev pub Bytes : Type 0
Bytes = ℕ → ℕ

-- one place of a function changed
abbrev pub update {ℓ} : {A : Type ℓ} → (ℕ → A) → ℕ → A → ℕ → A
update f p v q = if p == q then v else f q

-- *(uint*)(m + a)
unfoldable pub get_word : Bytes → ℕ → ℕ
get_word m a = m a + 256 * m (a + 1) + 65536 * m (a + 2) + 16777216 * m (a + 3)

-- *(uint*)(m + a) = v
unfoldable pub put_word : Bytes → ℕ → ℕ → Bytes
put_word m a v =
    update
      (update (update (update m a (v % 256)) (a + 1) (v / 256 % 256)) (a + 2) (v / 65536 % 256))
      (a + 3) (v / 16777216 % 256)

-- *(ushort*)(m + a), and a store to it
unfoldable pub get_half : Bytes → ℕ → ℕ
get_half m a = m a + 256 * m (a + 1)

unfoldable pub put_half : Bytes → ℕ → ℕ → Bytes
put_half m a v = update (update m a (v % 256)) (a + 1) (v / 256 % 256)

-- the memory `m` once `n` bytes of `src` from `s` on are moved to `d`
abbrev pub paste : (d s n : ℕ) → Bytes → Bytes → Bytes
paste d s n src m a = if leb d a && ltb a (d + n) then src (s + (a - d)) else m a

pub get_word-put_word_self : (m : Bytes) (a v : ℕ) → v < 2 ^ 32 → get_word (put_word m a v) a ≡ v
unfolding get_word put_word
get_word-put_word_self m a v h = ground arith

pub get_word-put_word_ne :
    (m : Bytes) (a b v : ℕ) → (a + 4 ≤ b) ⊎ (b + 4 ≤ a) → get_word (put_word m a v) b ≡ get_word m b
unfolding get_word put_word
get_word-put_word_ne m a b v (inl h) = ground arith
get_word-put_word_ne m a b v (inr h) = ground arith
