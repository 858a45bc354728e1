-- ===== src/Kalloc.antt =====
-- kalloc.c: the free list of physical pages. Memory is that of the kernel, by its addresses; `end`
-- is the address that the linker puts after the kernel. The lock is left out: a call runs alone.
pub mod Pages
pub mod Machine
pub mod Tests
use os_hw.Prelude.{
  ℕ, zero, suc, ◌+◌, ◌-◌, ◌*◌, ◌/◌, ◌%◌, ◌^◌, not, ◌||◌, ltb, leb, ◌==◌, if◌then◌else◌,
}
use os_hw.Prelude.Bytes.{Bytes, get_word, put_word}
use os_hw.Prelude.Outcome.{Outcome, ok, panic, ◌>>=◌}
use os_hw.Str.{memset}

-- `PGSIZE`, `PHYSTOP` and `KERNBASE`
abbrev pub page_size : ℕ
page_size = 4096

abbrev pub phys_top : ℕ
phys_top = 234881024

abbrev pub kern_base : ℕ
kern_base = 2147483648

abbrev pub v2p : ℕ → ℕ
v2p a = (a + 2 ^ 32 - kern_base) % 2 ^ 32

-- `kmem`, with the memory that its list lies in
pub record Kmem : Type 0 where
  pub mem : Bytes
  pub freelist : ℕ

-- The page, 0 when there is none.
unfoldable pub kalloc : Kmem → ℕ × Kmem
kalloc k =
    if k.freelist == 0
    then (0, k)
    else (k.freelist, record k { freelist = get_word k.mem k.freelist })

abbrev pub page_round_up : ℕ → ℕ
page_round_up a = (a + page_size - 1) / page_size * page_size

module _ (end : ℕ) where
  pub kfree : ℕ → Kmem → Outcome Kmem
  kfree v k =
      if not (v % page_size == 0) || ltb v end || leb phys_top (v2p v)
      then panic
      else ok (record { mem = put_word (memset v 1 page_size k.mem) v k.freelist; freelist = v })

  -- the loop of `freerange`, with at most `n` pages left from `p` on
  pub free_pages : (n p : ℕ) → (vend : ℕ) → Kmem → Outcome Kmem
  free_pages zero p vend k = ok k
  free_pages (suc n) p vend k =
      if leb (p + page_size) vend then (kfree p k >>= free_pages n (p + page_size) vend) else ok k

  pub freerange : (vstart vend : ℕ) → Kmem → Outcome Kmem
  unfolding free_pages
  freerange vstart vend k = free_pages (vend / page_size) (page_round_up vstart) vend k
