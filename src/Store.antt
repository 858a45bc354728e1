-- ===== src/Store.antt =====
-- What log.c and fs.c rely on in the buffer cache (bio.c, ide.c), one device. A block has one
-- current content, the one that `bread` returns. It differs from the block on the disk only while
-- the buffer is dirty: B_DIRTY keeps it in the cache. A block write reaches the disk whole.
use os_hw.Prelude.{ℕ, ◌≡◌, Option, none, some, List, [], ◌∷◌, ap, ap₂}
use os_hw.Prelude.Bytes.{Bytes, update}

abbrev pub Disk : Type 0
Disk = ℕ → Bytes

-- `pinned` holds the dirty buffers. `past` records the disks that there were before each write
-- so far, the latest first: what a crash could have left.
pub record Store : Type 0 where
  pub disk : Disk
  pub pinned : ℕ → Option Bytes
  pub past : List Disk

abbrev pub content : Option Bytes → Bytes → Bytes
content none y = y
content (some x) y = x

-- the content of the buffer that `bread` returns
abbrev pub bread : Store → ℕ → Bytes
bread s b = content (s.pinned b) (s.disk b)

-- `bwrite` of a buffer whose content is now `x`: on the disk, and no longer dirty
abbrev pub bwrite : Store → ℕ → Bytes → Store
bwrite s b x = record s {
  disk = update s.disk b x;
  pinned = update s.pinned b none;
  past = s.disk ∷ s.past;
}

-- a buffer whose content is now `x`, marked B_DIRTY and not written
abbrev pub pin : Store → ℕ → Bytes → Store
pin s b x = record s { pinned = update s.pinned b (some x) }

-- the machine after a reset: the disk alone is left
abbrev pub boot : Disk → Store
boot d = record { disk = d; pinned = λ _. none; past = [] }

pub bread-unpinned : (s : Store) (b : ℕ) → s.pinned b ≡ none → bread s b ≡ s.disk b
bread-unpinned s b e = ap (λ p. content p (s.disk b)) e

pub bread-eq :
    (s s' : Store) (b : ℕ)
    → s.pinned b ≡ s'.pinned b
    → s.disk b ≡ s'.disk b
    → bread s b ≡ bread s' b
bread-eq s s' b p q = ap₂ content p q
