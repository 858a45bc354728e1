-- ===== src/Args/Tests.antt =====
-- syscall.c at work on a process of 16 bytes, with its stack at the start: a pointer and a string.
use os_hw.Prelude.{◌≡◌, refl, none, some, ◌==◌, if◌then◌else◌, arith}
use os_hw.Prelude.Bytes.{get_word}
use os_hw.Args.{User, fetchint, fetchstr, argint, argptr, argstr}
use os_hw.Args.Bounds.{argptr_lem}

-- arguments 8 and 12 at addresses 4 and 8, and `hi` at address 12
abbrev user : User
user = record {
  sz = 16;
  esp = 0;
  mem = λ a.
      if a == 4
      then 8
      else if a == 8
      then 12
      else if a == 12
      then b'h'
      else if a == 13
      then b'i'
      else 0;
}

-- The third argument is the bytes of the string, too large for a pointer.
third : argptr user 2 4 ≡ none
unfolding argptr argint fetchint get_word
third = refl

argptr_lem_example : argptr user 0 8 ≡ some 8
unfolding get_word
argptr_lem_example = argptr_lem user 0 8 (omega arith) (omega arith)

argstr_example : argstr user 1 ≡ some (12, 2)
unfolding argstr argint fetchint fetchstr get_word
argstr_example = refl
