-- ===== src/Fs.antt =====
-- fs.c, its lowest layer: the super block, zeroing, and the bitmap of free blocks. The file system
-- works on the log and the store of log.c; a buffer is held from `bread` to `brelse`, so its
-- content changes only where the code writes it.
pub mod Room
pub mod Bitmap
pub mod Tests
use os_hw.Prelude.{
  ℕ, zero, suc, ◌+◌, ◌-◌, ◌*◌, ◌/◌, ◌%◌, ◌^◌, Bool, true, false, not, ◌&&◌, Option, none, some, ltb,
  ◌==◌, if◌then◌else◌,
}
use os_hw.Prelude.Bits.{bit_at, set_bit, clear_bit}
use os_hw.Prelude.Bytes.{Bytes, update, get_word}
use os_hw.Prelude.Outcome.{Outcome, ok, panic, ◌>>=◌}
use os_hw.Store.{Store, bread}
use os_hw.Log.{Log, bsize, log_write}
use os_hw.Str.{memset}

-- `struct superblock`
pub record Superblock : Type 0 where
  pub size : ℕ
  pub nblocks : ℕ
  pub ninodes : ℕ
  pub nlog : ℕ
  pub logstart : ℕ
  pub inodestart : ℕ
  pub bmapstart : ℕ

-- `struct inode`, its flags as fields; a `short` is its bit pattern.
pub record Inode : Type 0 where
  pub dev : ℕ
  pub inum : ℕ
  pub ref : ℕ
  pub busy : Bool
  pub valid : Bool
  pub type : ℕ
  pub major : ℕ
  pub minor : ℕ
  pub nlink : ℕ
  pub size : ℕ
  pub addrs : ℕ → ℕ

-- The log, the blocks, `sb` and `icache`.
pub record Fs : Type 0 where
  pub log : Log
  pub store : Store
  pub sb : Superblock
  pub inode : ℕ → Inode

-- the content of block `b` in its buffer
abbrev pub block : Fs → ℕ → Bytes
block fs b = bread fs.store b

-- the bits in a block of the bitmap
abbrev pub bpb : ℕ
bpb = bsize * 8

-- the block of the bitmap that has the bit of block `b`
abbrev pub bblock : Superblock → ℕ → ℕ
bblock sb b = b / bpb + sb.bmapstart

pub with_log : Fs → Log × Store → Outcome Fs
with_log fs (l, s) = ok (record fs { log = l; store = s })

-- `log_write` of the buffer of block `b`, whose content is now `x`
pub put_block : Fs → ℕ → Bytes → Outcome Fs
unfolding with_log
put_block fs b x = log_write fs.log fs.store b x >>= with_log fs

pub readsb : Fs → Superblock
readsb fs = record {
  size = get_word (block fs 1) 0;
  nblocks = get_word (block fs 1) 4;
  ninodes = get_word (block fs 1) 8;
  nlog = get_word (block fs 1) 12;
  logstart = get_word (block fs 1) 16;
  inodestart = get_word (block fs 1) 20;
  bmapstart = get_word (block fs 1) 24;
}

pub bzero : Fs → ℕ → Outcome Fs
bzero fs b = put_block fs b (memset 0 0 bsize (block fs b))

-- the inner loop of `balloc`, over the bits of one block `h` of the bitmap from `bi` on
pub scan_bits : (k bi : ℕ) → (b size : ℕ) → Bytes → Option ℕ
scan_bits zero bi b size h = none
scan_bits (suc k) bi b size h =
    let rest = scan_bits k (bi + 1) b size h in
    if not (ltb (b + bi) size)
    then none
    else if bit_at (h (bi / 8)) (bi % 8) == 0
    then some bi
    else rest

-- the body of the test: block `a`, whose bit is clear, is taken
take_block : Fs → ℕ → Outcome (ℕ × Fs)
take_block fs a =
    let bb = bblock fs.sb a in
    let bi = a % bpb in
    let h = block fs bb in
    put_block fs bb (update h (bi / 8) (set_bit (h (bi / 8)) (bi % 8)))
    >>= (λ fs'. bzero fs' a >>= (λ fs''. ok (a, fs'')))

-- the outer loop, from block `b` on, with `k` blocks of the bitmap left
balloc_from : (k b : ℕ) → Fs → Outcome (ℕ × Fs)
unfolding scan_bits take_block
balloc_from zero b fs = panic
balloc_from (suc k) b fs = elim (scan_bits bpb 0 b fs.sb.size (block fs (bblock fs.sb b))) [
  | none ↦ balloc_from k (b + bpb) fs
  | some bi ↦ take_block fs (b + bi)
]

-- The block, and the new state.
pub balloc : Fs → Outcome (ℕ × Fs)
unfolding balloc_from
balloc fs = balloc_from ((fs.sb.size + bpb - 1) / bpb) 0 fs

-- `bfree` reads the super block again.
pub bfree : Fs → ℕ → Outcome Fs
bfree fs₀ b =
    let fs : Fs = record fs₀ { sb = readsb fs₀ } in
    let bb = bblock fs.sb b in
    let bi = b % bpb in
    let h = block fs bb in
    if bit_at (h (bi / 8)) (bi % 8) == 0
    then panic
    else put_block fs bb (update h (bi / 8) (clear_bit (h (bi / 8)) (bi % 8)))
