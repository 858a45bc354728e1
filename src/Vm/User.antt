-- ===== src/Vm/User.antt =====
-- vm.c: the memory of a process, copied, loaded and read through its page table.
use os_hw.Prelude.{
  ℕ, zero, suc, ◌+◌, ◌-◌, ◌/◌, ◌%◌, ◌^◌, Bool, true, false, not, Option, none, some, min, ◌==◌,
  if◌then◌else◌,
}
use os_hw.Prelude.Bits.{clear_bit}
use os_hw.Prelude.Bytes.{get_word}
use os_hw.Prelude.Outcome.{Outcome, ok, panic, ◌>>=◌}
use os_hw.Str.{memmove}
use os_hw.Kalloc.{page_size, v2p, Kmem, kalloc}
use os_hw.Fs.{Fs}
use os_hw.Content.{Moved, failed, by_device, moved, readi}
use os_hw.Vm.{
  p2v, page_round_down, pte_addr, pte_flags, present, user, set_word, walkpgdir, mappages, setupkvm,
  freevm,
}

-- what `clearpteu` does with the entry
abbrev clear_user : Option ℕ × Kmem → Outcome Kmem
clear_user (none, k) = panic
clear_user (some pte, k) = ok (set_word k pte (clear_bit (get_word k.mem pte) 2))

pub clearpteu : (pgdir uva : ℕ) → Kmem → Outcome Kmem
clearpteu pgdir uva k = clear_user (walkpgdir pgdir uva false k)

-- A page of `copyuvm`, whose entry is `e`: the Boolean is whether the copy was made.
copy_page : (d i e : ℕ) → Kmem → Outcome (Bool × Kmem)
copy_page d i e k =
    let (mem, k') = kalloc k in
    if not (present e)
    then panic
    else if mem == 0
    then ok (false, k')
    else mappages d i page_size (v2p mem) (pte_flags e)
        (record k' { mem = memmove mem (p2v (pte_addr e)) page_size k'.mem })

copy_at : (d i : ℕ) → Option ℕ × Kmem → Outcome (Bool × Kmem)
unfolding copy_page
copy_at d i (none, k) = panic
copy_at d i (some pte, k) = copy_page d i (get_word k.mem pte) k

-- The loop of `copyuvm`, with `n` pages left from `i` on.
pub copy_from : (n i : ℕ) → (pgdir d : ℕ) → Kmem → Outcome (Bool × Kmem)
unfolding copy_at
copy_from zero i pgdir d k = ok (true, k)
copy_from (suc n) i pgdir d k = copy_at d i (walkpgdir pgdir i false k) >>= (λ (done, k').
    elim done [ true ↦ copy_from n (i + page_size) pgdir d k' | false ↦ ok (false, k') ])

-- The new page directory, or 0.
pub copyuvm : (end data_start : ℕ) → (pgdir sz : ℕ) → Kmem → Outcome (ℕ × Kmem)
unfolding copy_from
copyuvm end data_start pgdir sz k = setupkvm data_start k >>= (λ (d, k').
    if d == 0
    then ok (0, k')
    else copy_from ((sz + page_size - 1) / page_size) 0 pgdir d k'
      >>= (λ (done, k''). if done then ok (d, k'') else freevm end d k'' >>= (λ k3. ok (0, k3))))

-- `*pte`, where `walkpgdir` may have returned 0
abbrev pub entry : Option ℕ → Kmem → ℕ
entry none k = get_word k.mem 0
entry (some pte) k = get_word k.mem pte

-- The address in the kernel, or 0; nothing is allocated.
unfoldable pub uva2ka : (pgdir uva : ℕ) → Kmem → ℕ
uva2ka pgdir uva k =
    let e = entry (walkpgdir pgdir uva false k).0 k in
    if not (present e) then 0 else if not (user e) then 0 else p2v (pte_addr e)

-- The loop of `copyout`, with `len` bytes left at `buf`: a round copies one byte at least, so that
-- as many rounds as bytes are left are enough. The Boolean is whether it returns 0 (and not -1).
pub copy_out_from : (fuel : ℕ) → (pgdir va buf len : ℕ) → Kmem → Bool × Kmem
copy_out_from zero pgdir va buf len k = (true, k)
copy_out_from (suc fuel) pgdir va buf len k =
    let va0 = page_round_down va in
    let pa0 = uva2ka pgdir va0 k in
    let n = min (page_size - (va - va0)) len in
    let rest =
      copy_out_from fuel pgdir ((va0 + page_size) % 2 ^ 32) (buf + n) (len - n)
        (record k { mem = memmove (pa0 + (va - va0)) buf n k.mem }) in
    if len == 0 then (true, k) else if pa0 == 0 then (false, k) else rest

pub copyout : (pgdir va p len : ℕ) → Kmem → Bool × Kmem
unfolding copy_out_from
copyout pgdir va p len k = copy_out_from len pgdir va p len k

-- the `int` that `readi` returns is `n`, for an inode that is no device
abbrev is_read : ℕ → Moved → Bool
is_read n failed = false
is_read n (by_device _) = false
is_read n (moved m) = m == n

module _ (can_read : ℕ → Bool) (ip offset sz : ℕ) where
  -- a page of `loaduvm`, `i` bytes from the start of the segment
  load_page : (i : ℕ) → Option ℕ × Kmem → Fs → Outcome (Bool × Kmem × Fs)
  load_page i (none, k) fs = panic
  load_page i (some pte, k) fs =
      let n = min (sz - i) page_size in
      readi can_read ip (p2v (pte_addr (get_word k.mem pte))) (offset + i) n k.mem fs
      >>= (λ (r, m, fs'). ok (is_read n r, record k { mem = m }, fs'))

  pub load_from : (n i : ℕ) → (pgdir addr : ℕ) → Kmem → Fs → Outcome (Bool × Kmem × Fs)
  unfolding load_page
  load_from zero i pgdir addr k fs = ok (true, k, fs)
  load_from (suc n) i pgdir addr k fs =
      load_page i (walkpgdir pgdir ((addr + i) % 2 ^ 32) false k) fs >>= (λ (done, k', fs').
        elim done [
          | true ↦ load_from n (i + page_size) pgdir addr k' fs'
          | false ↦ ok (false, k', fs')
        ])

  -- The Boolean is whether `loaduvm` returns 0 (and not -1).
  pub loaduvm : (pgdir addr : ℕ) → Kmem → Fs → Outcome (Bool × Kmem × Fs)
  unfolding load_from
  loaduvm pgdir addr k fs =
      if not (addr % page_size == 0)
      then panic
      else load_from ((sz + page_size - 1) / page_size) 0 pgdir addr k fs
