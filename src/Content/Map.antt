-- ===== src/Content/Map.antt =====
-- bmap: where the parts of a file are on the disk.
use os_hw.Prelude.{
  ℕ, suc, ◌-◌, ◌*◌, ◌≤◌, ◌<◌, ◌≡◌, ◌≢◌, refl, ap, ◌∙◌, true, false, arith, ltb, ◌==◌, ne→==,
  if◌then◌else◌, dec_lt,
}
use os_hw.Prelude.Bytes.{get_word}
use os_hw.Prelude.Outcome.{ok, panic}
use os_hw.Fs.{Fs, block}
use os_hw.Fs.Room.{HasRoom}
use os_hw.Fs.Bitmap.{used, OffBitmap, IsTaken, balloc-IsTaken}
use os_hw.Inode.{ndirect, nindirect}
use os_hw.Content.{max_file, set_addr, get_addr, get_indirect, bmap}

-- the address of part `bn` of the file: in the inode, or in its indirect block
abbrev pub addr_of : Fs → ℕ → ℕ → ℕ
addr_of fs i bn =
    if ltb bn ndirect
    then (fs.inode i).addrs bn
    else get_word (block fs ((fs.inode i).addrs ndirect)) (4 * (bn - ndirect))

-- Part `bn` of the file has a block.
pub record IsMapped (fs : Fs) (i bn : ℕ) : Type 0 where
  pub range : bn < max_file
  pub address : addr_of fs i bn ≢ 0
  pub indirect : ndirect ≤ bn → (fs.inode i).addrs ndirect ≢ 0

-- `bmap` of a part that has a block returns it, and changes nothing.
pub bmap-IsMapped :
    (i bn : ℕ) (fs : Fs) → IsMapped fs i bn → bmap i bn fs ≡ ok (addr_of fs i bn, fs)
unfolding bmap get_addr get_indirect
bmap-IsMapped i bn fs m = elim (dec_lt bn ndirect) [
  | yes p ↦
      let direct : ltb bn ndirect ≡ true = ground arith in
      let there : ((fs.inode i).addrs bn == 0) ≡ false = ground (arith, m.address) in
      rw (direct, there) refl
  | no p ↦
      let direct : ltb bn ndirect ≡ false = ground arith in
      let small : ltb (bn - ndirect) nindirect ≡ true = ground (arith, m.range) in
      let there : ((fs.inode i).addrs ndirect == 0) ≡ false =
        ne→== _ _ (m.indirect (omega arith)) in
      let word : (get_word (block fs ((fs.inode i).addrs ndirect)) (4 * (bn - ndirect)) == 0)
          ≡ false =
        ground (arith, m.address) in
      rw (direct, small, there, word) refl
]

-- `bmap` of a part beyond the largest file panics.
pub bmap-panic : (i bn : ℕ) (fs : Fs) → max_file ≤ bn → bmap i bn fs ≡ panic
unfolding bmap
bmap-panic i bn fs le =
    let direct : ltb bn ndirect ≡ false = ground arith in
    let small : ltb (bn - ndirect) nindirect ≡ false = ground arith in rw (direct, small) refl

-- `bmap` of one of the first parts of a file, which has no block yet, gives it the first free
-- block, zeroed and marked as used; from then on that is the part's block. The log has room for two
-- more blocks; the block is not block 0, and none of the bitmap's.
pub bmap-IsTaken :
    (k i bn a : ℕ) (fs : Fs)
    → bn < ndirect
    → (fs.inode i).addrs bn ≡ 0
    → HasRoom (suc (suc k)) fs
    → a < fs.sb.size
    → a ≢ 0
    → used fs a ≡ 0
    → ((c : ℕ) → c < a → used fs c ≢ 0)
    → OffBitmap fs a
    → (fs' : Fs) × (bmap i bn fs ≡ ok (a, set_addr fs' i bn a))
      × IsTaken k fs a fs'
      × IsMapped (set_addr fs' i bn a) i bn
      × (bmap i bn (set_addr fs' i bn a) ≡ ok (a, set_addr fs' i bn a))
unfolding bmap get_addr
bmap-IsTaken k i bn a fs lt none_yet room small nonzero free before off =
    let (fs', run, t) = balloc-IsTaken k fs a room small free before off in
    let direct : ltb bn ndirect ≡ true = ground arith in
    let mapped : IsMapped (set_addr fs' i bn a) i bn = record {
      range = omega arith;
      address = λ z. nonzero (ground (arith, z));
      indirect = λ le. absurd (omega arith);
    } in
    let here : addr_of (set_addr fs' i bn a) i bn ≡ a = ground arith in
    (
      fs',
      rw (direct, none_yet, run) refl,
      t,
      mapped,
      bmap-IsMapped i bn (set_addr fs' i bn a) mapped
          ∙ ap (λ (x : ℕ). ok (x, set_addr fs' i bn a)) here,
    )
