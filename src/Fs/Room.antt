-- ===== src/Fs/Room.antt =====
-- Room in the log for some more blocks, and what one `log_write` does to the blocks.
use os_hw.Prelude.{ℕ, suc, ◌+◌, ◌^◌, ◌≤◌, ◌<◌, ◌≡◌, ◌≢◌, refl, ap, sym, ◌∙◌, arith}
use os_hw.Prelude.Bytes.{Bytes}
use os_hw.Prelude.Outcome.{ok, ◌>>=◌}
use os_hw.Store.{pin}
use os_hw.Log.{log_size, rounds, find_block}
use os_hw.Log.Write.{entered, log_write-inv, log_write-returns}
use os_hw.Fs.{Fs, block, with_log, put_block}

-- The transaction may log `k` more blocks.
pub record HasRoom (k : ℕ) (fs : Fs) : Type 0 where
  pub fits : fs.log.n + k ≤ log_size
  pub on_disk : fs.log.n + k < fs.log.size
  pub busy : 0 < fs.log.outstanding
  pub few : fs.log.outstanding < 2 ^ 31

-- The file system `fs'` is `fs` with `x` as the content of block `b`, and room for `k` more.
pub record IsPut (k : ℕ) (fs : Fs) (b : ℕ) (x : Bytes) (fs' : Fs) : Type 0 where
  pub room : HasRoom k fs'
  pub here : block fs' b ≡ x
  pub other : (c : ℕ) → b ≢ c → block fs' c ≡ block fs c
  pub sb : fs'.sb ≡ fs.sb
  pub inode : fs'.inode ≡ fs.inode

-- the state after the write
abbrev written : Fs → ℕ → Bytes → Fs
written fs b x = record fs {
  log = entered fs.log b (find_block (rounds fs.log.n) 0 fs.log.block b);
  store = pin fs.store b x;
}

put_block-written :
    (k : ℕ) (fs : Fs) (b : ℕ) (x : Bytes)
    → HasRoom (suc k) fs
    → put_block fs b x ≡ ok (written fs b x)
unfolding put_block
put_block-written k fs b x h =
    let (r, e) =
      log_write-returns fs.log fs.store b x (omega (arith, h.fits)) (omega (arith, h.on_disk))
        h.busy h.few in
    let (few, room, same) = log_write-inv fs.log fs.store b x e in
    ap (λ q. q >>= with_log fs) (e ∙ ap ok (sym same))

-- With room in the log a `log_write` returns, and changes the one block.
pub put_block-IsPut :
    (k : ℕ) (fs : Fs) (b : ℕ) (x : Bytes)
    → HasRoom (suc k) fs
    → (fs' : Fs) × (put_block fs b x ≡ ok fs') × IsPut k fs b x fs'
put_block-IsPut k fs b x h = (
  written fs b x,
  put_block-written k fs b x h,
  record {
    room = record {
      fits = ground (arith, h.fits);
      on_disk = ground (arith, h.on_disk);
      busy = h.busy;
      few = h.few;
    };
    here = ground arith;
    other = λ c ne. ground arith;
    sb = refl;
    inode = refl;
  },
)
