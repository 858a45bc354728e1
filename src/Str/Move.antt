-- ===== src/Str/Move.antt =====
-- memmove and memset: what they leave at each address.
use os_hw.Prelude.{
  ℕ, zero, suc, ◌+◌, ◌-◌, ◌*◌, ◌/◌, ◌%◌, ◌≤◌, ◌<◌, ◌≡◌, ◌∙◌, ◌⊎◌, inl, inr, ◌&&◌, arith, ltb, leb,
  ◌==◌, if◌then◌else◌, Bool-cases,
}
use os_hw.Prelude.Bytes.{Bytes, update, put_word}
use os_hw.Str.{copy_up, copy_down, memmove, stosb, stosl, memset}

-- the memory once the block at `s` has moved to `d`
abbrev pub moved : (d s n : ℕ) → Bytes → Bytes
moved d s n m a = if leb d a && ltb a (d + n) then m (s + (a - d)) else m a

copy_up_lem :
    (n d s : ℕ) (m : Bytes) (a : ℕ) → (d ≤ s) ⊎ (s + n ≤ d) → copy_up n d s m a ≡ moved d s n m a
unfolding copy_up
copy_up_lem zero d s m a h = ground arith
copy_up_lem (suc n) d s m a h =
    copy_up_lem n (d + 1) (s + 1) (update m d (m s)) a (omega arith) ∙ ground arith

copy_down_lem : (n d s : ℕ) (m : Bytes) (a : ℕ) → s ≤ d → copy_down n d s m a ≡ moved d s n m a
unfolding copy_down
copy_down_lem zero d s m a h = ground arith
copy_down_lem (suc n) d s m a h =
    copy_down_lem n d s (update m (d + n) (m (s + n))) a h ∙ ground arith

-- `memmove` moves the block as it was before the call, though the two blocks may overlap, and
-- changes no other byte.
pub memmove_lem : (d s n : ℕ) (m : Bytes) (a : ℕ) → memmove d s n m a ≡ moved d s n m a
unfolding memmove
memmove_lem d s n m a = elim (Bool-cases (ltb s d && ltb d (s + n))) [
  | inl e ↦ rw e (copy_down_lem n d s m a (ground arith))
  | inr e ↦ rw e (copy_up_lem n d s m a (ground arith))
]

abbrev pub filled : (d c n : ℕ) → Bytes → Bytes
filled d c n m a = if leb d a && ltb a (d + n) then c % 256 else m a

stosb_lem : (n d c : ℕ) (m : Bytes) (a : ℕ) → stosb n d c m a ≡ filled d c n m a
unfolding stosb
stosb_lem zero d c m a = ground arith
stosb_lem (suc n) d c m a = stosb_lem n (d + 1) c (update m d (c % 256)) a ∙ ground arith

-- one store of four equal bytes
four_bytes :
    (d b : ℕ) (m : Bytes) (a : ℕ)
    → b < 256
    → put_word m d (b * 16777216 + b * 65536 + b * 256 + b) a
      ≡ (if leb d a && ltb a (d + 4) then b else m a)
unfolding put_word
four_bytes d b m a h = ground arith

stosl_lem :
    (n d b : ℕ) (m : Bytes) (a : ℕ)
    → b < 256
    → stosl n d (b * 16777216 + b * 65536 + b * 256 + b) m a
      ≡ (if leb d a && ltb a (d + n * 4) then b else m a)
unfolding stosl
stosl_lem zero d b m a h = ground arith
stosl_lem (suc n) d b m a h = stosl_lem n (d + 4) b _ a h ∙ ground (arith, four_bytes d b m a h)

-- `memset` sets each byte of the block to the low byte of `c`, whether it stores words or bytes,
-- and changes no other byte.
pub memset_lem : (d c n : ℕ) (m : Bytes) (a : ℕ) → memset d c n m a ≡ filled d c n m a
unfolding memset
memset_lem d c n m a = elim (Bool-cases ((d % 4 == 0) && (n % 4 == 0))) [
  | inl e ↦ rw e (stosl_lem (n / 4) d (c % 256) m a (omega arith) ∙ ground arith)
  | inr e ↦ rw e (stosb_lem n d c m a)
]
