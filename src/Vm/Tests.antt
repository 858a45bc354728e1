-- ===== src/Vm/Tests.antt =====
-- vm.c at work on a page directory without page tables and a free list of one page.
use os_hw.Prelude.{ℕ, ◌+◌, ◌*◌, ◌≡◌, refl, ◌≤◌, ◌≢◌, ◌<◌, true, [], ◌∷◌, if◌then◌else◌, arith}
use os_hw.Prelude.Bits.{bit_at}
use os_hw.Prelude.Bytes.{get_word}
use os_hw.Prelude.Outcome.{ok, panic}
use os_hw.Kalloc.{page_size, Kmem}
use os_hw.Kalloc.Pages.{IsPage}
use os_hw.Vm.{p2v, present, user, mappages, inituvm}
use os_hw.Vm.User.{uva2ka}
use os_hw.Vm.Tables.{pde_at, IsSpace}
use os_hw.Vm.Range.{IsRange}
use os_hw.Vm.Lookup.{uva2ka-mappages}

abbrev end : ℕ
end = 2148532224

abbrev page : ℕ
page = 2151677952

abbrev pgdir : ℕ
pgdir = 2151682048

abbrev kernel : Kmem
kernel = record { mem = λ a. 0; freelist = page }

page-IsPage : IsPage end page
page-IsPage = record {
  aligned = refl;
  after = omega arith;
  below = omega arith;
  word = omega arith;
}

pgdir-IsPage : IsPage end pgdir
pgdir-IsPage = record {
  aligned = refl;
  after = omega arith;
  below = omega arith;
  word = omega arith;
}

no_tables : (i : ℕ) → present (pde_at kernel.mem pgdir i) ≢ true
unfolding bit_at get_word
no_tables i h = absurd (ground (arith, h))

kernel-IsSpace : IsSpace end pgdir kernel (page ∷ [])
unfolding get_word
kernel-IsSpace = record {
  chain = (refl, page-IsPage, refl, refl);
  dir = pgdir-IsPage;
  dir_used = refl;
  page = λ i lt h. absurd (no_tables i h);
  used = λ i lt h. absurd (no_tables i h);
  apart = λ i lt h. absurd (no_tables i h);
  distinct = λ i j hi hj ne h. absurd (no_tables i h);
}

range : IsRange 4096 1003520 6 0
range = record {
  aligned = refl;
  fits = omega arith;
  phys_aligned = refl;
  phys_fits = omega arith;
  flags = omega arith;
}

inituvm-large : inituvm pgdir 0 4096 kernel ≡ panic
unfolding inituvm
inituvm-large = refl

uva2ka-mappages_example :
    (k' : Kmem) × (mappages pgdir 4096 (1 * page_size) 1003520 6 kernel ≡ ok (true, k'))
    × ((j o : ℕ)
        → j ≤ 0
        → o < page_size
        → uva2ka pgdir (4096 + j * page_size + o) k'
          ≡ (if user 6 then p2v (1003520 + j * page_size) else 0))
unfolding bit_at get_word
uva2ka-mappages_example =
    uva2ka-mappages end pgdir 4096 1003520 6 0 kernel (page ∷ []) kernel-IsSpace range
      (λ j le. refl) (omega arith)
