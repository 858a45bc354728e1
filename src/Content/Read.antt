-- ===== src/Content/Read.antt =====
-- readi: the bytes of a file, as a sequence.
use os_hw.Prelude.{
  ℕ, zero, suc, ◌+◌, ◌-◌, ◌/◌, ◌%◌, ◌^◌, ◌≤◌, ◌<◌, ◌≡◌, ◌≢◌, refl, subst, ◌∙◌, ◌⊎◌, inl, inr, Bool,
  true, false, ◌&&◌, ◌||◌, arith, min, ltb, leb, ◌==◌, ne→==, if◌then◌else◌, Bool-cases, dec_lt,
}
use os_hw.Prelude.Bytes.{Bytes, paste}
use os_hw.Prelude.Outcome.{ok}
use os_hw.Log.{bsize}
use os_hw.Fs.{Fs, block}
use os_hw.Content.{part, cut, read_from, readi, failed, moved, t_dev}
use os_hw.Content.Map.{addr_of, IsMapped, bmap-IsMapped}

-- byte `p` of the file
abbrev pub file_byte : Fs → ℕ → ℕ → ℕ
file_byte fs i p = block fs (addr_of fs i (p / bsize)) (p % bsize)

-- the memory `dst` with `n` bytes of the file, from `off` on, at `d`
abbrev pub with_file : Fs → (i d off n : ℕ) → Bytes → Bytes
with_file fs i d off n dst x =
    if leb d x && ltb x (d + n) then file_byte fs i (off + (x - d)) else dst x

pub part_bounds :
    (off left : ℕ)
    → 0 < left
    → let m = part off left in (0 < m) × (m ≤ left) × (off % bsize + m ≤ bsize)
part_bounds off left pos = omega arith

-- A round takes `m` bytes within one part of a file, whose parts are `parts`.
round_bytes :
    (parts : ℕ → Bytes) (d off left m x : ℕ) (dst : Bytes)
    → m ≤ left
    → off % bsize + m ≤ bsize
    → (if leb (d + m) x && ltb x (d + m + (left - m))
        then parts ((off + m + (x - (d + m))) / bsize) ((off + m + (x - (d + m))) % bsize)
        else paste d (off % bsize) m (parts (off / bsize)) dst x)
      ≡ (if leb d x && ltb x (d + left)
          then parts ((off + (x - d)) / bsize) ((off + (x - d)) % bsize)
          else dst x)
round_bytes parts d off left m x dst le fits = elim (dec_lt x (d + m)) [
  | yes p ↦ elim (dec_lt x d) [
    | yes q ↦ ground arith
    | no q ↦
        let same : (off + (x - d)) / bsize ≡ off / bsize = omega arith in
        let place : (off + (x - d)) % bsize ≡ off % bsize + (x - d) = omega arith in
        rw (same, place) (ground arith)
  ]
  | no p ↦
      let same : off + m + (x - (d + m)) ≡ off + (x - d) = omega arith in rw same (ground arith)
]

read_from_lem :
    (fuel i off left d : ℕ) (dst : Bytes) (fs : Fs)
    → left ≤ fuel
    → ((p : ℕ) → off ≤ p → p < off + left → IsMapped fs i (p / bsize))
    → (dst' : Bytes) × (read_from fuel i off left d dst fs ≡ ok (dst', fs))
      × ((x : ℕ) → dst' x ≡ with_file fs i d off left dst x)
unfolding read_from
read_from_lem zero i off left d dst fs le mapped = (dst, refl, λ x. ground arith)
read_from_lem (suc fuel) i off left d dst fs le mapped = elim (Bool-cases (left == 0)) [
  | inl z ↦ (dst, rw (read_from, z) refl, λ x. ground arith)
  | inr pos ↦
      let m = part off left in
      let (some, le_left, fits) = part_bounds off left (ground arith) in
      let (dst', run, bytes) =
        read_from_lem fuel i (off + m) (left - m) (d + m)
          (paste d (off % bsize) m (block fs (addr_of fs i (off / bsize))) dst) fs (omega arith)
          (λ p lo hi. mapped p (omega arith) (omega arith)) in
      (
        dst',
        rw
            (
              read_from,
              pos,
              bmap-IsMapped i (off / bsize) fs (mapped off (omega arith) (ground arith)),
            )
            run,
        λ x. bytes x ∙ round_bytes (λ b. block fs (addr_of fs i b)) d off left m x dst le_left fits,
      )
]

-- `readi` of a file that is no device, from an offset within it, copies the bytes from there on,
-- `n` of them or as many as there are before its end, to `dst`, returns how many, changes no other
-- byte of the memory, and leaves the file system alone. Every part of the file up to its end has a
-- block, and `off + n` is below 2^32.
pub readi-with_file :
    (can_read : ℕ → Bool) (i d off n : ℕ) (dst : Bytes) (fs : Fs)
    → (fs.inode i).type ≢ t_dev
    → off ≤ (fs.inode i).size
    → off + n < 2 ^ 32
    → ((p : ℕ) → p < (fs.inode i).size → IsMapped fs i (p / bsize))
    → let m = min n ((fs.inode i).size - off) in
      (dst' : Bytes) × (readi can_read i d off n dst fs ≡ ok (moved m, dst', fs))
      × ((x : ℕ) → dst' x ≡ with_file fs i d off m dst x)
unfolding readi
readi-with_file can_read i d off n dst fs file within small mapped =
    let size = (fs.inode i).size in
    let m = min n (size - off) in
    let kind : ((fs.inode i).type == t_dev) ≡ false = ne→== _ _ file in
    let start : (ltb size off || ltb ((off + n) % 2 ^ 32) off) ≡ false = ground arith in
    let end : cut off n size ≡ m = ground arith in
    let (dst', run, bytes) =
      read_from_lem (cut off n size) i off (cut off n size) d dst fs (omega arith)
        (λ p lo hi. mapped p (omega (arith, end))) in
    subst
      (λ m.
        (dst' : Bytes) × (readi can_read i d off n dst fs ≡ ok (moved m, dst', fs))
        × ((x : ℕ) → dst' x ≡ with_file fs i d off m dst x))
      end (dst', rw (kind, start, run) refl, bytes)

-- `readi` from beyond the end of the file, or with an offset that wraps around, returns -1 and
-- changes nothing.
pub readi-failed :
    (can_read : ℕ → Bool) (i d off n : ℕ) (dst : Bytes) (fs : Fs)
    → (fs.inode i).type ≢ t_dev
    → ((fs.inode i).size < off) ⊎ ((off + n) % 2 ^ 32 < off)
    → readi can_read i d off n dst fs ≡ ok (failed, dst, fs)
unfolding readi
readi-failed can_read i d off n dst fs file bad =
    let kind : ((fs.inode i).type == t_dev) ≡ false = ne→== _ _ file in
    let start : (ltb (fs.inode i).size off || ltb ((off + n) % 2 ^ 32) off) ≡ true = ground arith in
    rw (kind, start) refl
