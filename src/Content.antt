-- ===== src/Content.antt =====
-- fs.c: the content of a file. `bmap` finds or allocates the block of a part of it, and `readi` and
-- `writei` move bytes to and from memory: `dst` and `src` are the caller's, from its address on.
pub mod Map
pub mod Read
pub mod Locked
pub mod Write
pub mod Tests
use os_hw.Prelude.{
  ℕ, zero, suc, ◌+◌, ◌-◌, ◌*◌, ◌/◌, ◌%◌, ◌^◌, Bool, true, false, not, ◌&&◌, ◌||◌, min, ltb, leb,
  ◌==◌, if◌then◌else◌,
}
use os_hw.Prelude.Bytes.{Bytes, update, get_word, put_word, paste}
use os_hw.Prelude.Outcome.{Outcome, ok, panic, ◌>>=◌}
use os_hw.Log.{bsize}
use os_hw.Fs.{Fs, Inode, block, put_block, balloc}
use os_hw.Inode.{ndirect, nindirect, set_inode, iupdate}

-- `T_DIR` and `T_DEV`
abbrev pub t_dir : ℕ
t_dir = 1

abbrev pub t_dev : ℕ
t_dev = 3

abbrev pub ndev : ℕ
ndev = 10

abbrev pub max_file : ℕ
max_file = ndirect + nindirect

abbrev pub set_addr : Fs → ℕ → ℕ → ℕ → Fs
set_addr fs i n a = set_inode fs i (record (fs.inode i) { addrs = update (fs.inode i).addrs n a })

-- `if((addr = ip->addrs[n]) == 0) ip->addrs[n] = addr = balloc(ip->dev);`
pub get_addr : ℕ → ℕ → Fs → Outcome (ℕ × Fs)
get_addr i n fs =
    let a = (fs.inode i).addrs n in
    if a == 0 then (balloc fs >>= (λ (b, fs'). ok (b, set_addr fs' i n b))) else ok (a, fs)

-- the same for word `n` of the indirect block `addr`
pub get_indirect : ℕ × Fs → ℕ → Outcome (ℕ × Fs)
get_indirect (addr, fs) n =
    let a = get_word (block fs addr) (4 * n) in
    if a == 0
    then (balloc fs >>= (λ (b, fs').
        put_block fs' addr (put_word (block fs' addr) (4 * n) b) >>= (λ fs''. ok (b, fs''))))
    else ok (a, fs)

pub bmap : ℕ → ℕ → Fs → Outcome (ℕ × Fs)
unfolding get_addr get_indirect
bmap i bn fs =
    if ltb bn ndirect
    then get_addr i bn fs
    else if ltb (bn - ndirect) nindirect
    then (get_addr i ndirect fs >>= (λ r. get_indirect r (bn - ndirect)))
    else panic

-- How `readi` and `writei` end: with -1, with what the device returns, or with a count of bytes.
pub data Moved : Type 0 where
  failed : Moved
  by_device : (major : ℕ) → Moved
  moved : ℕ → Moved

-- the bytes of a round, within one block
abbrev pub part : (off left : ℕ) → ℕ
part off left = min left (bsize - off % bsize)

-- The loop of `readi`, with `left` bytes to read from `off` to `d` on: a round reads one byte at
-- least, so that as many rounds as bytes are left are enough.
pub read_from : (fuel : ℕ) → (i off left d : ℕ) → Bytes → Fs → Outcome (Bytes × Fs)
read_from zero i off left d dst fs = ok (dst, fs)
read_from (suc fuel) i off left d dst fs = elim (left == 0) [
  | true ↦ ok (dst, fs)
  | false ↦
      let m = part off left in
      bmap i (off / bsize) fs >>= (λ (a, fs').
        read_from fuel i (off + m) (left - m) (d + m) (paste d (off % bsize) m (block fs' a) dst)
          fs')
]

abbrev pub end_of_read : ℕ → Bytes × Fs → Outcome (Moved × Bytes × Fs)
end_of_read n (dst, fs) = ok (moved n, dst, fs)

-- `n` once it is cut to the end of the file
abbrev pub cut : (off n size : ℕ) → ℕ
cut off n size = if ltb size (off + n) then size - off else n

-- `can_read major` says whether `devsw[major].read` is set.
pub readi : (can_read : ℕ → Bool) → (i d off n : ℕ) → Bytes → Fs → Outcome (Moved × Bytes × Fs)
unfolding read_from
readi can_read i d off n dst fs =
    let p = fs.inode i in
    if p.type == t_dev
    then (if leb ndev p.major || not (can_read p.major)
        then ok (failed, dst, fs)
        else ok (by_device p.major, dst, fs))
    else if ltb p.size off || ltb ((off + n) % 2 ^ 32) off
    then ok (failed, dst, fs)
    else read_from (cut off n p.size) i off (cut off n p.size) d dst fs
      >>= end_of_read (cut off n p.size)

-- The loop of `writei`, from `s` on in `src`; the offset it ends at, and the state.
pub write_from : (fuel : ℕ) → (i off left s : ℕ) → Bytes → Fs → Outcome (ℕ × Fs)
write_from zero i off left s src fs = ok (off, fs)
write_from (suc fuel) i off left s src fs = elim (left == 0) [
  | true ↦ ok (off, fs)
  | false ↦
      let m = part off left in
      bmap i (off / bsize) fs >>= (λ (a, fs').
        put_block fs' a (paste (off % bsize) s m src (block fs' a))
        >>= write_from fuel i (off + m) (left - m) (s + m) src)
]

-- `writei` after its loop
pub end_of_write : (i n : ℕ) → ℕ × Fs → Outcome (Moved × Fs)
end_of_write i n (off, fs) =
    if ltb 0 n && ltb (fs.inode i).size off
    then (iupdate i (set_inode fs i (record (fs.inode i) { size = off }))
        >>= (λ fs'. ok (moved n, fs')))
    else ok (moved n, fs)

pub writei : (can_write : ℕ → Bool) → (i s off n : ℕ) → Bytes → Fs → Outcome (Moved × Fs)
unfolding write_from end_of_write
writei can_write i s off n src fs =
    let p = fs.inode i in
    if p.type == t_dev
    then (if leb ndev p.major || not (can_write p.major)
        then ok (failed, fs)
        else ok (by_device p.major, fs))
    else if ltb p.size off || ltb ((off + n) % 2 ^ 32) off
    then ok (failed, fs)
    else if ltb (max_file * bsize) (off + n)
    then ok (failed, fs)
    else write_from n i off n s src fs >>= end_of_write i n
