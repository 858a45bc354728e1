-- ===== src/Sysproc/Tests.antt =====
-- sysproc.c at its edges.
use os_hw.Prelude.{◌≡◌, refl, false, some}
use os_hw.Prelude.Outcome.{ok}
use os_hw.Kalloc.{Kmem}
use os_hw.Sysproc.{growproc, asleep, finished, sleep_pass}

abbrev kernel : Kmem
kernel = record { mem = λ a. 0; freelist = 0 }

growproc-nothing : growproc 2148532224 0 4096 0 kernel ≡ ok (some 4096, kernel)
unfolding growproc
growproc-nothing = refl

-- the counter of ticks wraps around
sleep_pass-wrapped : sleep_pass 4294967290 10 3 false ≡ asleep
unfolding sleep_pass
sleep_pass-wrapped = refl

sleep_pass-over : sleep_pass 4294967290 10 4 false ≡ finished
unfolding sleep_pass
sleep_pass-over = refl
