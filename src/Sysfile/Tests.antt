-- ===== src/Sysfile/Tests.antt =====
-- sysfile.c at work on a process with one open descriptor.
use os_hw.Prelude.{
  ℕ, ◌<◌, ◌≡◌, ◌≢◌, ◌⊎◌, refl, true, false, none, some, arith, ◌==◌, if◌then◌else◌, Bool-cases, inl,
  inr,
}
use os_hw.Prelude.Bytes.{get_word, update}
use os_hw.Prelude.Outcome.{ok}
use os_hw.Pipe.{new_pipe}
use os_hw.Fs.Tests.{fs}
use os_hw.Kalloc.{Kmem, kalloc}
use os_hw.Args.{fetchint, argint, argptr}
use os_hw.File.{File, Files, fd_pipe, set_file, filealloc, fileclose}
use os_hw.Sysfile.{Caller, nofile, argfd, fdalloc, sys_dup, sys_close}
use os_hw.Sysfile.Pipes.{set_ends, store_fds, pipealloc, sys_pipe}
use os_hw.Sysfile.Pair.{sys_pipe-IsCounted}
use os_hw.Sysfile.Counts.{IsOpen, IsCounted, IsDup, uses, sys_dup-IsDup, sys_close-IsCounted}

abbrev writer : ℕ → File
writer refs = record {
  type = fd_pipe;
  ref = refs;
  readable = false;
  writable = true;
  pipe = 0;
  ip = 0;
  off = 0;
}

-- Descriptor 0 is the end of a pipe, which another process has too.
abbrev caller : Caller
caller = record {
  user = record { sz = 4096; esp = 100; mem = λ a. 0 };
  ofile = λ fd. if fd == 0 then some 0 else none;
  files = record {
    file = λ f. writer (if f == 0 then 2 else 0);
    pipes = λ p. new_pipe (λ a. 0);
    fs = fs;
  };
}

abbrev others : ℕ → ℕ
others f = if f == 0 then 1 else 0

caller-IsCounted : IsCounted others caller
unfolding uses
caller-IsCounted f = elim (Bool-cases (f == 0)) [
  | inl e ↦ let back : (0 == f) ≡ true = ground (arith, e) in rw (e, back) refl
  | inr e ↦ let back : (0 == f) ≡ false = ground (arith, e) in rw (e, back) refl
]

sys_dup-IsDup_example :
    ((sys_dup caller ≡ ok (none, caller))
      × (((fd f : ℕ) → ¬ IsOpen caller fd f) ⊎ ((j : ℕ) → j < nofile → caller.ofile j ≢ none)))
    ⊎ ((fd new f : ℕ) × (c' : Caller) × (new < nofile)
        × IsOpen caller fd f
        × (sys_dup caller ≡ ok (some new, c'))
        × IsDup others caller fd new f c')
sys_dup-IsDup_example = sys_dup-IsDup others caller (omega arith) caller-IsCounted

abbrev after : Caller
after = record caller {
  ofile = λ fd. if 0 == fd then none else caller.ofile fd;
  files = record (caller.files) { file = λ f. if 0 == f then writer 1 else caller.files.file f };
}

sys_close-after : sys_close caller ≡ ok (some (true, after))
unfolding sys_close argfd argint fetchint get_word fileclose
sys_close-after = refl

sys_close-IsCounted_example : IsCounted others after
sys_close-IsCounted_example =
    sys_close-IsCounted others caller true after caller-IsCounted sys_close-after

abbrev kernel : Kmem
kernel = record { mem = λ a. 0; freelist = 2151677952 }

abbrev two_files : Files
two_files = let s = set_file caller.files 1 (writer 1) in set_file s 2 (writer 1)

abbrev piped : Caller
piped = store_fds 0 1 2 (record caller {
  ofile = update (update caller.ofile 1 (some 1)) 2 (some 2);
  files = set_ends 1 2 2151677952 two_files;
})

sys_pipe-piped : sys_pipe caller kernel ≡ ok (some (true, piped, record kernel { freelist = 0 }))
unfolding sys_pipe argptr argint fetchint get_word pipealloc filealloc kalloc fdalloc
sys_pipe-piped = refl

sys_pipe-IsCounted_example : IsCounted others piped
sys_pipe-IsCounted_example =
    sys_pipe-IsCounted others caller kernel true piped (record kernel { freelist = 0 })
      caller-IsCounted sys_pipe-piped
