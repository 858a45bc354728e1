-- ===== src/Vm.antt =====
-- vm.c: page tables, in the memory of the kernel and with its allocator. `end` and `data` are the
-- addresses that the linker script gives them. The registers of the processor are left out.
pub mod Words
pub mod Tables
pub mod Grow
pub mod User
pub mod Space
pub mod Range
pub mod Lookup
pub mod Tests
use os_hw.Prelude.{
  ℕ, zero, suc, ◌+◌, ◌-◌, ◌*◌, ◌/◌, ◌%◌, ◌^◌, Bool, true, false, not, ◌&&◌, ◌||◌, Option, none,
  some, List, [], ◌∷◌, min, ltb, leb, ◌==◌, if◌then◌else◌, bit_or,
}
use os_hw.Prelude.Bits.{bit_at, clear_bit}
use os_hw.Prelude.Bytes.{Bytes, get_word, put_word}
use os_hw.Prelude.Outcome.{Outcome, ok, panic, ◌>>=◌}
use os_hw.Str.{memset, memmove}
use os_hw.Kalloc.{page_size, phys_top, kern_base, v2p, Kmem, kalloc, page_round_up, kfree}

abbrev pub p2v : ℕ → ℕ
p2v a = (a + kern_base) % 2 ^ 32

abbrev pub pdx : ℕ → ℕ
pdx va = va / 2 ^ 22 % 1024

abbrev pub ptx : ℕ → ℕ
ptx va = va / 2 ^ 12 % 1024

abbrev pub page_round_down : ℕ → ℕ
page_round_down a = a / page_size * page_size

abbrev pub pte_addr : ℕ → ℕ
pte_addr e = e / page_size * page_size

abbrev pub pte_flags : ℕ → ℕ
pte_flags e = e % page_size

-- `PTE_W`, `PTE_U`, and the bits of `PTE_P` and `PTE_U`
abbrev pub pte_w : ℕ
pte_w = 2

abbrev pub pte_u : ℕ
pte_u = 4

abbrev pub present : ℕ → Bool
present e = bit_at e 0 == 1

abbrev pub user : ℕ → Bool
user e = bit_at e 2 == 1

abbrev pub set_word : Kmem → (a v : ℕ) → Kmem
set_word k a v = record k { mem = put_word k.mem a v }

-- the part of `walkpgdir` that makes a page table, for what `kalloc` returned
abbrev pub add_table : (pde va : ℕ) → ℕ × Kmem → Option ℕ × Kmem
add_table pde va (pgtab, k) = if pgtab == 0 then (none, k) else (
  some (pgtab + 4 * ptx va),
  record k { mem = put_word (memset pgtab 0 page_size k.mem) pde (bit_or (v2p pgtab) 7) },
)

-- The address of the entry; `none` for 0.
pub walkpgdir : (pgdir va : ℕ) → (alloc : Bool) → Kmem → Option ℕ × Kmem
walkpgdir pgdir va alloc k =
    let pde = pgdir + 4 * pdx va in
    let e = get_word k.mem pde in
    if present e
    then (some (p2v (pte_addr e) + 4 * ptx va), k)
    else if not alloc
    then (none, k)
    else add_table pde va (kalloc k)

-- a round of `mappages` once it has the entry
abbrev pub set_pte : (pa perm : ℕ) → Option ℕ × Kmem → Outcome (Bool × Kmem)
set_pte pa perm (none, k) = ok (false, k)
set_pte pa perm (some pte, k) =
    if present (get_word k.mem pte)
    then panic
    else ok (true, set_word k pte (bit_or (bit_or pa perm) 1))

pub map_page : (pgdir a pa perm : ℕ) → Kmem → Outcome (Bool × Kmem)
map_page pgdir a pa perm k = set_pte pa perm (walkpgdir pgdir a true k)

-- The loop of `mappages`, from `a` to `last`, with as many rounds as there are pages.
pub map_from : (rounds : ℕ) → (pgdir a last pa perm : ℕ) → Kmem → Outcome (Bool × Kmem)
map_from zero pgdir a last pa perm k = ok (true, k)
map_from (suc n) pgdir a last pa perm k = map_page pgdir a pa perm k >>= (λ (done, k').
    elim (done && not (a == last)) [
      | true ↦ map_from n pgdir ((a + page_size) % 2 ^ 32) last ((pa + page_size) % 2 ^ 32) perm k'
      | false ↦ ok (done, k')
    ])

-- The Boolean is whether `mappages` returns 0 (and not -1).
pub mappages : (pgdir va size pa perm : ℕ) → Kmem → Outcome (Bool × Kmem)
unfolding map_from
mappages pgdir va size pa perm k =
    let a = page_round_down va in
    let last = page_round_down ((va + size + 2 ^ 32 - 1) % 2 ^ 32) in
    map_from ((last + 2 ^ 32 - a) % 2 ^ 32 / page_size + 1) pgdir a last pa perm k

-- `struct kmap`
pub record Kmap : Type 0 where
  pub virt : ℕ
  pub phys_start : ℕ
  pub phys_end : ℕ
  pub perm : ℕ

abbrev pub dev_space : ℕ
dev_space = 4261412864

abbrev pub ext_mem : ℕ
ext_mem = 1048576

abbrev pub kmap : (data_start : ℕ) → List Kmap
kmap data_start =
    record { virt = kern_base; phys_start = 0; phys_end = ext_mem; perm = pte_w }
    ∷ record {
      virt = kern_base + ext_mem;
      phys_start = ext_mem;
      phys_end = v2p data_start;
      perm = 0;
    }
    ∷ record { virt = data_start; phys_start = v2p data_start; phys_end = phys_top; perm = pte_w }
    ∷ record { virt = dev_space; phys_start = dev_space; phys_end = 0; perm = pte_w }
    ∷ []

-- the loop of `setupkvm`
pub map_all : (pgdir : ℕ) → List Kmap → Kmem → Outcome (ℕ × Kmem)
map_all pgdir [] k = ok (pgdir, k)
map_all pgdir (m ∷ ms) k =
    mappages pgdir m.virt ((m.phys_end + 2 ^ 32 - m.phys_start) % 2 ^ 32) m.phys_start m.perm k
    >>= (λ (done, k'). if done then map_all pgdir ms k' else ok (0, k'))

-- The page directory, or 0.
pub setupkvm : (data_start : ℕ) → Kmem → Outcome (ℕ × Kmem)
unfolding map_all
setupkvm data_start k =
    let (pgdir, k') = kalloc k in
    if pgdir == 0
    then ok (0, k')
    else if ltb dev_space (p2v phys_top)
    then panic
    else map_all pgdir (kmap data_start) (record k' { mem = memset pgdir 0 page_size k'.mem })

-- `init` is the address of the program.
pub inituvm : (pgdir init sz : ℕ) → Kmem → Outcome Kmem
inituvm pgdir init sz k =
    if leb page_size sz
    then panic
    else (let (mem, k') = kalloc k in
        mappages pgdir 0 page_size (v2p mem) (bit_or pte_w pte_u)
          (record k' { mem = memset mem 0 page_size k'.mem })
        >>= (λ (_, k''). ok (record k'' { mem = memmove mem init sz k''.mem })))

module _ (end : ℕ) where
  -- `deallocuvm` at a page with an entry
  pub free_at : (pte : ℕ) → Kmem → Outcome Kmem
  free_at pte k =
      let e = get_word k.mem pte in
      if present e
      then (if pte_addr e == 0
          then panic
          else kfree end (p2v (pte_addr e)) k >>= (λ k'. ok (set_word k' pte 0)))
      else ok k

  -- a round of `deallocuvm`, with the address that it leaves in `a`
  abbrev pub dealloc_at : (a : ℕ) → Option ℕ × Kmem → Outcome (ℕ × Kmem)
  dealloc_at a (none, k) = ok ((a + (1024 - 1) * page_size) % 2 ^ 32, k)
  dealloc_at a (some pte, k) = free_at pte k >>= (λ k'. ok (a, k'))

  pub dealloc_from : (rounds : ℕ) → (pgdir a oldsz : ℕ) → Kmem → Outcome Kmem
  dealloc_from zero pgdir a oldsz k = ok k
  dealloc_from (suc n) pgdir a oldsz k = elim (ltb a oldsz) [
    | true ↦
        dealloc_at a (walkpgdir pgdir a false k)
        >>= (λ (a', k'). dealloc_from n pgdir ((a' + page_size) % 2 ^ 32) oldsz k')
    | false ↦ ok k
  ]

  pub deallocuvm : (pgdir oldsz newsz : ℕ) → Kmem → Outcome (ℕ × Kmem)
  unfolding dealloc_from
  deallocuvm pgdir oldsz newsz k =
      if leb oldsz newsz
      then ok (oldsz, k)
      else dealloc_from (oldsz / page_size + 1) pgdir (page_round_up newsz) oldsz k
        >>= (λ k'. ok (newsz, k'))

  -- The loop of `allocuvm`; the result of `mappages` is not looked at.
  pub alloc_from : (rounds : ℕ) → (pgdir a oldsz newsz : ℕ) → Kmem → Outcome (ℕ × Kmem)
  alloc_from zero pgdir a oldsz newsz k = ok (newsz, k)
  alloc_from (suc n) pgdir a oldsz newsz k =
      let (mem, k') = kalloc k in
      let rest =
        mappages pgdir a page_size (v2p mem) (bit_or pte_w pte_u)
          (record k' { mem = memset mem 0 page_size k'.mem })
        >>= (λ (_, k''). alloc_from n pgdir (a + page_size) oldsz newsz k'') in
      if not (ltb a newsz)
      then ok (newsz, k)
      else if mem == 0
      then (deallocuvm pgdir newsz oldsz k' >>= (λ (_, k''). ok (0, k'')))
      else rest

  pub allocuvm : (pgdir oldsz newsz : ℕ) → Kmem → Outcome (ℕ × Kmem)
  unfolding alloc_from
  allocuvm pgdir oldsz newsz k =
      if leb kern_base newsz
      then ok (0, k)
      else if ltb newsz oldsz
      then ok (oldsz, k)
      else alloc_from (newsz / page_size + 1) pgdir (page_round_up oldsz) oldsz newsz k

  -- the loop of `freevm`, with `n` entries left from `i` on
  pub free_tables : (n i : ℕ) → (pgdir : ℕ) → Kmem → Outcome Kmem
  free_tables zero i pgdir k = ok k
  free_tables (suc n) i pgdir k =
      let e = get_word k.mem (pgdir + 4 * i) in
      (if present e then kfree end (p2v (pte_addr e)) k else ok k) >>= free_tables n (i + 1) pgdir

  pub freevm : (pgdir : ℕ) → Kmem → Outcome Kmem
  unfolding free_tables
  freevm pgdir k =
      if pgdir == 0
      then panic
      else deallocuvm pgdir kern_base 0 k
        >>= (λ (_, k'). free_tables 1024 0 pgdir k')
        >>= kfree end pgdir
