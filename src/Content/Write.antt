-- ===== src/Content/Write.antt =====
-- writei within a file: the bytes that it replaces, and what readi gives after it.
use os_hw.Prelude.{
  ℕ, zero, suc, ◌+◌, ◌-◌, ◌*◌, ◌/◌, ◌%◌, ◌^◌, ◌≤◌, ◌<◌, ◌≡◌, ◌≢◌, refl, sym, ap, ◌∙◌, inl, inr,
  Bool, true, false, ◌&&◌, ◌||◌, arith, min, ltb, leb, ◌==◌, ne→==, ==→ne, if◌then◌else◌,
  Bool-cases, dec_lt,
}
use os_hw.Prelude.Bytes.{Bytes, get_word, paste}
use os_hw.Prelude.Outcome.{ok}
use os_hw.Log.{bsize}
use os_hw.Fs.{Fs, block}
use os_hw.Fs.Room.{HasRoom, IsPut, put_block-IsPut}
use os_hw.Inode.{ndirect}
use os_hw.Content.{part, write_from, end_of_write, writei, readi, moved, t_dev, max_file}
use os_hw.Content.Map.{addr_of, IsMapped, bmap-IsMapped}
use os_hw.Content.Read.{file_byte, with_file, part_bounds, readi-with_file}

-- The parts of the file lie in blocks of their own, none of them its indirect block.
pub record IsSeparate (fs : Fs) (i : ℕ) : Type 0 where
  pub distinct :
      (p q : ℕ) → IsMapped fs i p → IsMapped fs i q → addr_of fs i p ≡ addr_of fs i q → p ≡ q
  pub apart : (p : ℕ) → IsMapped fs i p → addr_of fs i p ≢ (fs.inode i).addrs ndirect

-- The blocks that a write of `left` bytes at `off` touches.
abbrev pub touched : (off left : ℕ) → ℕ
touched off left = if left == 0 then 0 else (off % bsize + left + bsize - 1) / bsize

-- What a write of `left` bytes, from `s` on in `src`, at `off` leaves.
pub record IsWritten (k : ℕ) (fs : Fs) (i off left s : ℕ) (src : Bytes) (fs' : Fs) : Type 0 where
  pub room : HasRoom k fs'
  pub bytes :
      (p : ℕ)
      → IsMapped fs i (p / bsize)
      → file_byte fs' i p
        ≡ (if leb off p && ltb p (off + left) then src (s + (p - off)) else file_byte fs i p)
  pub address : (q : ℕ) → addr_of fs' i q ≡ addr_of fs i q
  pub other : (b : ℕ) → ((q : ℕ) → IsMapped fs i q → addr_of fs i q ≢ b) → block fs' b ≡ block fs b
  pub inode : fs'.inode ≡ fs.inode

-- Where inodes and addresses stay, so do the parts of the file.
IsMapped-same :
    (fs fs' : Fs) (i : ℕ)
    → fs'.inode ≡ fs.inode
    → ((q : ℕ) → addr_of fs' i q ≡ addr_of fs i q)
    → (q : ℕ) → IsMapped fs i q
    → IsMapped fs' i q
IsMapped-same fs fs' i e same q m = record {
  range = m.range;
  address = λ z. m.address (sym (same q) ∙ z);
  indirect = λ le z. m.indirect le (sym (ap (λ f. (f i).addrs ndirect) e) ∙ z);
}

-- one round: the block of one part is written
module _ (k : ℕ) (fs fs' : Fs) (i q : ℕ) (x : Bytes) (sep : IsSeparate fs i) (m : IsMapped fs i q)
    (w : IsPut k fs (addr_of fs i q) x fs') where
  addr_of-put : (r : ℕ) → addr_of fs' i r ≡ addr_of fs i r
  addr_of-put r = elim (dec_lt r ndirect) [
    | yes p ↦
        let direct : ltb r ndirect ≡ true = ground arith in
        rw (direct) (ap (λ f. (f i).addrs r) w.inode)
    | no p ↦
        let direct : ltb r ndirect ≡ false = ground arith in
        rw (direct) (
          ap (λ f. get_word (block fs' ((f i).addrs ndirect)) (4 * (r - ndirect))) w.inode
          ∙ ap (λ h. get_word h (4 * (r - ndirect)))
              (w.other ((fs.inode i).addrs ndirect) (sep.apart q m)))
  ]

  forth : (r : ℕ) → IsMapped fs i r → IsMapped fs' i r
  forth = IsMapped-same fs fs' i w.inode addr_of-put

  back : (r : ℕ) → IsMapped fs' i r → IsMapped fs i r
  back = IsMapped-same fs' fs i (sym w.inode) (λ r. sym (addr_of-put r))

  put-IsSeparate : IsSeparate fs' i
  put-IsSeparate = record {
    distinct = λ a b ma mb e.
        sep.distinct a b (back a ma) (back b mb) (sym (addr_of-put a) ∙ e ∙ addr_of-put b);
    apart = λ a ma e.
        sep.apart a (back a ma) (sym (addr_of-put a) ∙ e ∙ ap (λ f. (f i).addrs ndirect) w.inode);
  }

  -- the bytes of the part that is written, and of the others
  put-part : (p : ℕ) → p / bsize ≡ q → file_byte fs' i p ≡ x (p % bsize)
  put-part p e =
      ap (λ r. block fs' r (p % bsize)) (addr_of-put (p / bsize) ∙ ap (addr_of fs i) e)
      ∙ ap (λ (h : Bytes). h (p % bsize)) w.here

  put-other :
      (p : ℕ) → IsMapped fs i (p / bsize) → q ≢ p / bsize → file_byte fs' i p ≡ file_byte fs i p
  put-other p mp ne =
      ap (λ r. block fs' r (p % bsize)) (addr_of-put (p / bsize))
      ∙ ap (λ (h : Bytes). h (p % bsize))
          (w.other (addr_of fs i (p / bsize)) (λ e. ne (sep.distinct q (p / bsize) m mp e)))

-- the content that a round of `writei` gives the block of a part
abbrev round_block : Fs → (i off s m : ℕ) → Bytes → Bytes
round_block fs i off s m src = paste (off % bsize) s m src (block fs (addr_of fs i (off / bsize)))

round_byte :
    (k : ℕ) (fs fs' : Fs) (i off s m p : ℕ) (src : Bytes)
    → IsSeparate fs i
    → IsMapped fs i (off / bsize)
    → 0 < m
    → off % bsize + m ≤ bsize
    → IsPut k fs (addr_of fs i (off / bsize)) (round_block fs i off s m src) fs'
    → IsMapped fs i (p / bsize)
    → file_byte fs' i p
      ≡ (if leb off p && ltb p (off + m) then src (s + (p - off)) else file_byte fs i p)
round_byte k fs fs' i off s m p src sep mo pos fits w mp =
    elim (Bool-cases (off / bsize == p / bsize)) [
      | inl e ↦
          let same : p / bsize ≡ off / bsize = ground arith in
          put-part k fs fs' i (off / bsize) (round_block fs i off s m src) sep mo w p same
          ∙ elim (dec_lt p off) [
            | yes a ↦
                let out : (leb (off % bsize) (p % bsize) && ltb (p % bsize) (off % bsize + m))
                    ≡ false =
                  ground arith in
                let out' : (leb off p && ltb p (off + m)) ≡ false = ground arith in
                rw (out, out', same) refl
            | no a ↦
                let in_part : p % bsize - off % bsize ≡ p - off = omega arith in
                let test : (leb (off % bsize) (p % bsize) && ltb (p % bsize) (off % bsize + m))
                    ≡ (leb off p && ltb p (off + m)) =
                  ground arith in
                rw (in_part, test, same) refl
          ]
      | inr e ↦
          let out : (leb off p && ltb p (off + m)) ≡ false = ground arith in
          put-other k fs fs' i (off / bsize) (round_block fs i off s m src) sep mo w p mp
            (==→ne _ _ e)
          ∙ rw out refl
    ]

-- the rest of the write after a round
rest_byte :
    (off left m s p : ℕ) (src : Bytes) (a b c : ℕ)
    → m ≤ left
    → a ≡ (
        if leb (off + m) p && ltb p (off + m + (left - m))
        then src (s + m + (p - (off + m)))
        else b)
    → b ≡ (if leb off p && ltb p (off + m) then src (s + (p - off)) else c)
    → a ≡ (if leb off p && ltb p (off + left) then src (s + (p - off)) else c)
rest_byte off left m s p src a b c le e f = elim (dec_lt p (off + m)) [
  | yes q ↦ ground arith
  | no q ↦
      let same : s + m + (p - (off + m)) ≡ s + (p - off) = omega arith in
      let e' = rw same at e in ground arith
]

touched_bounds :
    (off left : ℕ)
    → 0 < left
    → let m = part off left in touched (off + m) (left - m) + 1 ≤ touched off left
touched_bounds off left pos = ground arith

HasRoom-le : (j k : ℕ) (fs : Fs) → j ≤ k → HasRoom k fs → HasRoom j fs
HasRoom-le j k fs le r = record {
  fits = omega (arith, r.fits);
  on_disk = omega (arith, r.on_disk);
  busy = r.busy;
  few = r.few;
}

write_from-IsWritten :
    (fuel k i off left s : ℕ) (src : Bytes) (fs : Fs)
    → left ≤ fuel
    → HasRoom (k + touched off left) fs
    → IsSeparate fs i
    → ((p : ℕ) → off ≤ p → p < off + left → IsMapped fs i (p / bsize))
    → (fs' : Fs) × (write_from fuel i off left s src fs ≡ ok (off + left, fs'))
      × IsWritten k fs i off left s src fs'
unfolding write_from
write_from-IsWritten zero k i off left s src fs le room sep mapped =
    let none_left : left ≡ 0 = omega arith in
    (
      fs,
      ap (λ e. ok (e, fs)) (omega arith),
      record {
        room = HasRoom-le k (k + touched off left) fs (omega arith) room;
        bytes = λ p m. ground arith;
        address = λ q. refl;
        other = λ b h. refl;
        inode = refl;
      },
    )
write_from-IsWritten (suc fuel) k i off left s src fs le room sep mapped =
    elim (Bool-cases (left == 0)) [
      | inl z ↦ (
        fs,
        rw (write_from, z) (ap (λ e. ok (e, fs)) (ground arith)),
        record {
          room = HasRoom-le k (k + touched off left) fs (omega arith) room;
          bytes = λ p m. ground arith;
          address = λ q. refl;
          other = λ b h. refl;
          inode = refl;
        },
      )
      | inr pos ↦
          let some : 0 < left = ground arith in
          let m = part off left in
          let (go, le_left, fits) = part_bounds off left some in
          let mo = mapped off (omega arith) (omega arith) in
          let a = addr_of fs i (off / bsize) in
          let rounds = k + touched (off + m) (left - m) in
          let (fs₁, run, w) = put_block-IsPut rounds fs a (round_block fs i off s m src) (
            HasRoom-le (suc rounds) (k + touched off left) fs
              (omega (arith, touched_bounds off left some)) room) in
          let forth₁ =
            forth rounds fs fs₁ i (off / bsize) (round_block fs i off s m src) sep mo w in
          let back₁ = back rounds fs fs₁ i (off / bsize) (round_block fs i off s m src) sep mo w in
          let addr₁ =
            addr_of-put rounds fs fs₁ i (off / bsize) (round_block fs i off s m src) sep mo w in
          let (fs₂, later, r) =
            write_from-IsWritten fuel k i (off + m) (left - m) (s + m) src fs₁ (omega arith) w.room
              (put-IsSeparate rounds fs fs₁ i (off / bsize) (round_block fs i off s m src) sep mo w)
              (λ p lo hi. forth₁ (p / bsize) (mapped p (omega arith) (omega arith))) in
          (
            fs₂,
            rw (write_from, pos, bmap-IsMapped i (off / bsize) fs mo, run)
                (later ∙ ap (λ e. ok (e, fs₂)) (omega arith)),
            record {
              room = r.room;
              bytes = λ p mp.
                  rest_byte off left m s p src _ _ _ le_left (r.bytes p (forth₁ (p / bsize) mp))
                    (round_byte rounds fs fs₁ i off s m p src sep mo go fits w mp);
              address = λ q. r.address q ∙ addr₁ q;
              other = λ b h.
                  r.other b (λ q mq e. h q (back₁ q mq) (sym (addr₁ q) ∙ e))
                  ∙ w.other b (h (off / bsize) mo);
              inode = r.inode ∙ w.inode;
            },
          )
    ]

-- `writei` over bytes that a file has replaces those, returns how many, and keeps the file's other
-- bytes, its inode, and every block that is none of the file's. The parts of the file have blocks
-- of their own, the size is one that a file may have, and the log has room for the blocks touched.
pub writei-IsWritten :
    (can_write : ℕ → Bool) (k i s off n : ℕ) (src : Bytes) (fs : Fs)
    → (fs.inode i).type ≢ t_dev
    → off + n ≤ (fs.inode i).size
    → (fs.inode i).size ≤ max_file * bsize
    → HasRoom (k + touched off n) fs
    → IsSeparate fs i
    → ((p : ℕ) → p < (fs.inode i).size → IsMapped fs i (p / bsize))
    → (fs' : Fs) × (writei can_write i s off n src fs ≡ ok (moved n, fs'))
      × IsWritten k fs i off n s src fs'
unfolding writei end_of_write
writei-IsWritten can_write k i s off n src fs file within small room sep mapped =
    let (fs', run, w) =
      write_from-IsWritten n k i off n s src fs (omega arith) room sep
        (λ p lo hi. mapped p (omega arith)) in
    let size = (fs.inode i).size in
    let kind : ((fs.inode i).type == t_dev) ≡ false = ne→== _ _ file in
    let start : (ltb size off || ltb ((off + n) % 2 ^ 32) off) ≡ false = ground arith in
    let fits : ltb (max_file * bsize) (off + n) ≡ false = ground arith in
    let end : (ltb 0 n && ltb (fs'.inode i).size (off + n)) ≡ false = rw (w.inode) (ground arith) in
    (fs', rw (kind, start, fits, run, end) refl, w)

in_file :
    (fs : Fs) (i d off n m j : ℕ) (dst : Bytes)
    → m ≡ n
    → j < n
    → with_file fs i d off m dst (d + j) ≡ file_byte fs i (off + j)
in_file fs i d off n m j dst e lt =
    let inside : (leb d (d + j) && ltb (d + j) (d + m)) ≡ true = ground arith in
    let place : d + j - d ≡ j = omega arith in rw (inside, place) refl

-- What `writei` puts into a file, `readi` reads from it: after a write of `n` bytes over bytes
-- that the file has, a read of `n` bytes there returns them, and the file system stays as it was
-- written. The parts of the file have blocks of their own, the size is one that a file may have,
-- and the log has room for the blocks touched.
pub readi-writei :
    (can_read can_write : ℕ → Bool) (k i s d off n : ℕ) (src dst : Bytes) (fs : Fs)
    → (fs.inode i).type ≢ t_dev
    → off + n ≤ (fs.inode i).size
    → (fs.inode i).size ≤ max_file * bsize
    → HasRoom (k + touched off n) fs
    → IsSeparate fs i
    → ((p : ℕ) → p < (fs.inode i).size → IsMapped fs i (p / bsize))
    → (fs' : Fs) × (dst' : Bytes) × (writei can_write i s off n src fs ≡ ok (moved n, fs'))
      × (readi can_read i d off n dst fs' ≡ ok (moved n, dst', fs'))
      × ((j : ℕ) → j < n → dst' (d + j) ≡ src (s + j))
readi-writei can_read can_write k i s d off n src dst fs file within small room sep mapped =
    let (fs', wrote, w) =
      writei-IsWritten can_write k i s off n src fs file within small room sep mapped in
    let entry : fs'.inode i ≡ fs.inode i = ap (λ f. f i) w.inode in
    let (dst', read, bytes) =
      readi-with_file can_read i d off n dst fs' (rw entry file) (rw entry (omega arith))
        (omega arith)
        (λ p lt.
          IsMapped-same fs fs' i w.inode w.address (p / bsize) (mapped p (rw entry at lt))) in
    let all : min n ((fs'.inode i).size - off) ≡ n = rw entry (omega arith) in
    (
      fs',
      dst',
      wrote,
      read ∙ ap (λ m. ok (moved m, dst', fs')) all,
      λ j lt.
          bytes (d + j)
          ∙ in_file fs' i d off n (min n ((fs'.inode i).size - off)) j dst all lt
          ∙ w.bytes (off + j) (mapped (off + j) (omega arith))
          ∙ ground arith,
    )
