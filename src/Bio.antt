-- ===== src/Bio.antt =====
-- bio.c over the disk of memide.c. A buffer is a slot of `bcache.buf`. A call holds `bcache.lock`
-- from its start until it returns or sleeps; `bget` is one pass from `loop` on.
pub mod Lookup
pub mod Current
pub mod Get
pub mod Read
pub mod Write
pub mod Tests
use os_hw.Prelude.{
  ℕ, zero, suc, ◌-◌, ◌^◌, Bool, true, false, not, ◌&&◌, ◌||◌, Option, none, some, List, [], ◌∷◌,
  leb, ◌==◌, if◌then◌else◌,
}
use os_hw.Prelude.Bytes.{Bytes, update}
use os_hw.Prelude.Outcome.{Outcome, ok, panic, ◌>>=◌}
use os_hw.Store.{Disk}

abbrev pub nbuf : ℕ
nbuf = 30

-- `struct buf`, its flags as fields, its `data` as `bytes`; the list is one of slots, in `Cache`
pub record Buf : Type 0 where
  pub busy : Bool
  pub valid : Bool
  pub dirty : Bool
  pub dev : ℕ
  pub blockno : ℕ
  pub bytes : Bytes

-- `bcache`, with the slots from `head.next` on, and the disk
pub record Cache : Type 0 where
  pub bufs : ℕ → Buf
  pub order : List ℕ
  pub disk : Disk

abbrev pub no_dev : ℕ
no_dev = 2 ^ 32 - 1

abbrev pub set_buf : Cache → ℕ → Buf → Cache
set_buf c i b = record c { bufs = update c.bufs i b }

-- the slots below `n`, the last first: each is put at the head of the list
abbrev pub slots : ℕ → List ℕ
slots zero = []
slots (suc n) = n ∷ slots n

pub binit : Disk → Cache
binit d = record {
  bufs = λ _. record {
    busy = false;
    valid = false;
    dirty = false;
    dev = no_dev;
    blockno = 0;
    bytes = λ _. 0;
  };
  order = slots nbuf;
  disk = d;
}

-- b->dev == dev && b->blockno == blockno
abbrev pub caches : ℕ → ℕ → Buf → Bool
caches dev blockno b = (b.dev == dev) && (b.blockno == blockno)

-- the first loop of `bget`
pub find_cached : List ℕ → (dev blockno : ℕ) → (ℕ → Buf) → Option ℕ
find_cached [] dev blockno bs = none
find_cached (i ∷ is) dev blockno bs =
    let rest = find_cached is dev blockno bs in if caches dev blockno (bs i) then some i else rest

-- the second loop of `bget`, from the end of the list
pub find_clean : List ℕ → (ℕ → Buf) → Option ℕ
find_clean [] bs = none
find_clean (i ∷ is) bs = elim (find_clean is bs) [
  | some j ↦ some j
  | none ↦ if not (bs i).busy && not (bs i).dirty then some i else none
]

-- `bget` where no buffer caches the block
recycle : (dev blockno : ℕ) → Cache → Option ℕ → Outcome (Option (Cache × ℕ))
recycle dev blockno c none = panic
recycle dev blockno c (some i) = ok (
    some (
      set_buf c i (record (c.bufs i) {
        dev = dev;
        blockno = blockno;
        busy = true;
        valid = false;
        dirty = false;
      }),
      i,
    ))

-- `bget` once it has looked for the block
get_at : (dev blockno : ℕ) → Cache → Option ℕ → Outcome (Option (Cache × ℕ))
unfolding find_clean recycle
get_at dev blockno c none = recycle dev blockno c (find_clean c.order c.bufs)
get_at dev blockno c (some i) =
    if not (c.bufs i).busy
    then ok (some (set_buf c i (record (c.bufs i) { busy = true }), i))
    else ok none

-- The new cache and the slot; `none` inside `ok` when the caller sleeps and tries again.
pub bget : (dev blockno : ℕ) → Cache → Outcome (Option (Cache × ℕ))
unfolding find_cached get_at
bget dev blockno c = get_at dev blockno c (find_cached c.order dev blockno c.bufs)

-- `iderw` of the buffer in slot `i`, on a disk of `size` blocks
pub iderw : (size : ℕ) → Cache → ℕ → Outcome Cache
iderw size c i =
    let b = c.bufs i in
    if not b.busy || (b.valid && not b.dirty) || not (b.dev == 1) || leb size b.blockno
    then panic
    else if b.dirty
    then ok (record c {
      disk = update c.disk b.blockno b.bytes;
      bufs = update c.bufs i (record b { dirty = false; valid = true });
    })
    else ok (set_buf c i (record b { bytes = c.disk b.blockno; valid = true }))

abbrev pub with_slot : ℕ → Cache → Outcome (Option (Cache × ℕ))
with_slot i c = ok (some (c, i))

-- `bread` once `bget` has returned a buffer
fill : (size : ℕ) → Option (Cache × ℕ) → Outcome (Option (Cache × ℕ))
fill size none = ok none
fill size (some (c, i)) =
    if not (c.bufs i).valid then (iderw size c i >>= with_slot i) else with_slot i c

pub bread : (size dev blockno : ℕ) → Cache → Outcome (Option (Cache × ℕ))
unfolding fill
bread size dev blockno c = bget dev blockno c >>= fill size

pub bwrite : (size : ℕ) → Cache → ℕ → Outcome Cache
bwrite size c i =
    if not (c.bufs i).busy
    then panic
    else iderw size (set_buf c i (record (c.bufs i) { dirty = true })) i

-- What a call does to other parts of the kernel: `wakeup` of a buffer.
pub data Event : Type 0 where
  wakeup : ℕ → Event

-- the list without slot `i`
abbrev pub without : ℕ → List ℕ → List ℕ
without i [] = []
without i (j ∷ js) = if i == j then without i js else j ∷ without i js

-- The new cache, and the calls of other parts of the kernel, in order.
pub brelse : Cache → ℕ → Outcome (Cache × List Event)
brelse c i =
    if not (c.bufs i).busy
    then panic
    else ok (
      record c {
        order = i ∷ without i c.order;
        bufs = update c.bufs i (record (c.bufs i) { busy = false });
      },
      wakeup i ∷ [],
    )
