-- ===== src/Log.antt =====
-- log.c: the redo log. Each function of the source that changes the log or a block takes and
-- returns them. A loop over `log.lh.n` entries is a recursion on the rounds left.
pub mod Head
pub mod Area
pub mod Install
pub mod Recover
pub mod Commit
pub mod Durable
pub mod Write
pub mod Reserve
pub mod Tests
use os_hw.Prelude.{
  ℕ, zero, suc, ◌+◌, ◌-◌, ◌*◌, ◌%◌, ◌^◌, Bool, true, false, ◌||◌, Option, none, some, ltb, leb,
  ◌==◌, if◌then◌else◌,
}
use os_hw.Prelude.Bytes.{Bytes, update, get_word, put_word}
use os_hw.Prelude.Outcome.{Outcome, ok, panic, ◌>>=◌}
use os_hw.Store.{Store, bread, bwrite, pin}

abbrev pub max_op_blocks : ℕ
max_op_blocks = 10

abbrev pub log_size : ℕ
log_size = max_op_blocks * 3

abbrev pub bsize : ℕ
bsize = 512

-- `struct log` with its `struct logheader lh`; an `int` is its bit pattern. The comparisons of
-- `begin_op` and `log_write` take `n` for one that is not negative, as it is once recovery has
-- set it to 0.
pub record Log : Type 0 where
  pub start : ℕ
  pub size : ℕ
  pub outstanding : ℕ
  pub committing : Bool
  pub dev : ℕ
  pub n : ℕ
  pub block : ℕ → ℕ

-- the rounds of `for (i = 0; i < n; i++)`: none for a negative `int`
abbrev pub rounds : ℕ → ℕ
rounds n = if ltb n (2 ^ 31) then n else 0

install_from : (k tail : ℕ) → Log → Store → Store
install_from zero tail l s = s
install_from (suc k) tail l s =
    install_from k (tail + 1) l (bwrite s (l.block tail) (bread s (l.start + tail + 1)))

pub install_trans : Log → Store → Store
unfolding install_from
install_trans l s = install_from (rounds l.n) 0 l s

-- the loop of `read_head`: `log.lh.block[i] = lh->block[i]`
read_blocks : (k i : ℕ) → Bytes → (ℕ → ℕ) → ℕ → ℕ
read_blocks zero i h f = f
read_blocks (suc k) i h f = read_blocks k (i + 1) h (update f i (get_word h (4 + 4 * i)))

pub read_head : Log → Store → Log
unfolding read_blocks
read_head l s =
    let h = bread s l.start in
    let n = get_word h 0 in record l { n = n; block = read_blocks (rounds n) 0 h l.block }

-- the loop of `write_head`: `hb->block[i] = log.lh.block[i]`
put_blocks : (k i : ℕ) → (ℕ → ℕ) → Bytes → Bytes
put_blocks zero i f h = h
put_blocks (suc k) i f h = put_blocks k (i + 1) f (put_word h (4 + 4 * i) (f i))

pub write_head : Log → Store → Store
unfolding put_blocks
write_head l s =
    bwrite s l.start (put_blocks (rounds l.n) 0 l.block (put_word (bread s l.start) 0 l.n))

unfoldable pub recover_from_log : Log → Store → Log × Store
recover_from_log l s =
    let m = read_head l s in
    let done = record m { n = 0 } in (done, write_head done (install_trans m s))

-- `readsb` finds `nlog` and `logstart` in block 1, at offsets 12 and 16. The check that the header
-- fits is one on constants: `sizeof(struct logheader)` is `4 + 4 * LOGSIZE`.
pub initlog : ℕ → Log → Store → Outcome (Log × Store)
initlog dev l s =
    if leb bsize (4 + 4 * log_size)
    then panic
    else ok (
        recover_from_log
          (record l { start = get_word (bread s 1) 16; size = get_word (bread s 1) 12; dev = dev })
          s)

write_from : (k tail : ℕ) → Log → Store → Store
write_from zero tail l s = s
write_from (suc k) tail l s =
    write_from k (tail + 1) l (bwrite s (l.start + tail + 1) (bread s (l.block tail)))

pub write_log : Log → Store → Store
unfolding write_from
write_log l s = write_from (rounds l.n) 0 l s

pub commit : Log → Store → Log × Store
commit l s =
    if ltb 0 (rounds l.n)
    then (let s' = install_trans l (write_head l (write_log l s)) in
        let done = record l { n = 0 } in (done, write_head done s'))
    else (l, s)

-- One pass of the loop of `begin_op`: `none` when the caller goes to sleep and tries again.
pub begin_op : Log → Option Log
begin_op l =
    if l.committing
    then none
    else if ltb log_size (l.n + (l.outstanding + 1) * max_op_blocks)
    then none
    else some (record l { outstanding = l.outstanding + 1 })

-- `end_op` up to the first `release`: whether this call is to commit.
pub leave : Log → Outcome (Log × Bool)
leave l =
    let left = (l.outstanding + 2 ^ 32 - 1) % 2 ^ 32 in
    if l.committing
    then panic
    else if left == 0
    then ok (record l { outstanding = left; committing = true }, true)
    else ok (record l { outstanding = left }, false)

pub end_op : Log → Store → Outcome (Log × Store)
end_op l s = do
  (l', do_commit) ← leave l
  if do_commit
      then (let (done, s') = commit l' s in ok (record done { committing = false }, s'))
      else ok (l', s)

-- the loop of `log_write`: the first `i` with `block[i] == b`, or `n`
pub find_block : (k i : ℕ) → (ℕ → ℕ) → ℕ → ℕ
find_block zero i f b = i
find_block (suc k) i f b = let rest = find_block k (i + 1) f b in if f i == b then i else rest

-- `log_write` of the buffer of block `b`, whose content is now `x`.
pub log_write : Log → Store → ℕ → Bytes → Outcome (Log × Store)
unfolding find_block
log_write l s b x =
    let i = find_block (rounds l.n) 0 l.block b in
    if leb log_size l.n || leb (l.size - 1) l.n
    then panic
    else if ltb (rounds l.outstanding) 1
    then panic
    else ok
        (record l { n = if i == l.n then l.n + 1 else l.n; block = update l.block i b }, pin s b x)
