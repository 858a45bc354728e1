-- ===== src/Log/Area.antt =====
-- The disk as the recovery sees it: the log's own blocks, and the rest.
use os_hw.Prelude.{ℕ, ◌+◌, ◌≤◌, ◌<◌, ◌≡◌, ◌⊎◌, Bool, none}
use os_hw.Prelude.Bytes.{Bytes, get_word}
use os_hw.Store.{Disk, Store, boot}
use os_hw.Log.{Log, recover_from_log}
use os_hw.Log.Head.{Lists}

-- Block `b` is not one of the log's.
abbrev pub Outside : Log → ℕ → Type 0
Outside l b = (b < l.start) ⊎ (l.start + l.size ≤ b)

-- A log whose entries have room on the disk, and name blocks outside the log.
pub record Placed (l : Log) : Type 0 where
  pub room : l.n < l.size
  pub apart : (i : ℕ) → i < l.n → Outside l (l.block i)

-- No block of the log is pinned in the cache.
abbrev pub LogUnpinned : Log → Store → Type 0
LogUnpinned l s = (b : ℕ) → l.start ≤ b → b < l.start + l.size → s.pinned b ≡ none

-- The log on `d` is empty, and the other blocks hold `old`.
pub record Empty (l : Log) (old : ℕ → Bytes) (d : Disk) : Type 0 where
  pub none_listed : get_word (d l.start) 0 ≡ 0
  pub home : (b : ℕ) → Outside l b → d b ≡ old b

-- The log on `d` holds the blocks `new` of the entries of `l`. Each other block holds `new`,
-- but for those of the entries from `t` on.
pub record Logged (l : Log) (new : ℕ → Bytes) (t : ℕ) (d : Disk) : Type 0 where
  pub head : Lists l (d l.start)
  pub copy : (i : ℕ) → i < l.n → d (l.start + i + 1) ≡ new (l.block i)
  pub home :
      (b : ℕ) → Outside l b → (d b ≡ new b) ⊎ ((i : ℕ) × (t ≤ i) × (i < l.n) × (l.block i ≡ b))

-- An in-memory log as it is after a reset: the superblock gives its place.
abbrev pub reset : Log → Log
reset l = record {
  start = l.start;
  size = l.size;
  outstanding = 0;
  committing = Bool.false;
  dev = l.dev;
  n = 0;
  block = λ _. 0;
}

-- what recovery after a crash makes of the disk `d`
unfoldable pub recovered : Log → Disk → Disk
recovered l d = (recover_from_log (reset l) (boot d)).1.disk
