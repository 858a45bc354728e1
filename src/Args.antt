-- ===== src/Args.antt =====
-- syscall.c: the arguments of a system call. The kernel reads them from the memory of the process,
-- which starts at address 0, as `proc->sz` and `proc->tf->esp` say. An `int` is its bit pattern.
pub mod Bounds
pub mod Tests
use os_hw.Prelude.{
  ℕ, zero, suc, ◌+◌, ◌-◌, ◌*◌, ◌%◌, ◌^◌, ◌||◌, Option, none, some, ltb, leb, ◌==◌, if◌then◌else◌,
}
use os_hw.Prelude.Bytes.{Bytes, get_word}

pub record User : Type 0 where
  pub sz : ℕ
  pub esp : ℕ
  pub mem : Bytes

unfoldable pub fetchint : User → ℕ → Option ℕ
fetchint u addr =
    if leb u.sz addr || ltb u.sz ((addr + 4) % 2 ^ 32) then none else some (get_word u.mem addr)

-- The loop of `fetchstr`, with `k` bytes left from `s` on: the length of the string at `p`.
pub find_end : (k : ℕ) → (s p : ℕ) → Bytes → Option ℕ
find_end zero s p m = none
find_end (suc k) s p m =
    let rest = find_end k (s + 1) p m in if m s == 0 then some (s - p) else rest

-- The length; `*pp` is `addr`.
pub fetchstr : User → ℕ → Option ℕ
unfolding find_end
fetchstr u addr = if leb u.sz addr then none else find_end (u.sz - addr) addr addr u.mem

unfoldable pub argint : User → ℕ → Option ℕ
argint u n = fetchint u ((u.esp + 4 + 4 * n) % 2 ^ 32)

-- `argptr` once it has the pointer
abbrev pub check_ptr : User → (size : ℕ) → Option ℕ → Option ℕ
check_ptr u size none = none
check_ptr u size (some i) = if leb u.sz i || ltb u.sz ((i + size) % 2 ^ 32) then none else some i

unfoldable pub argptr : User → (n size : ℕ) → Option ℕ
argptr u n size = check_ptr u size (argint u n)

abbrev with_length : ℕ → Option ℕ → Option (ℕ × ℕ)
with_length addr none = none
with_length addr (some len) = some (addr, len)

-- `argstr` once it has the address; with the address, the length of the string
abbrev pub check_str : User → Option ℕ → Option (ℕ × ℕ)
check_str u none = none
check_str u (some addr) = with_length addr (fetchstr u addr)

pub argstr : User → ℕ → Option (ℕ × ℕ)
argstr u n = check_str u (argint u n)
