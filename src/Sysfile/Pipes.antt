-- ===== src/Sysfile/Pipes.antt =====
-- sys_pipe, and pipealloc of pipe.c: a pipe with its two files and descriptors.
use os_hw.Prelude.{ℕ, ◌+◌, Bool, true, false, Option, none, some, ◌==◌, if◌then◌else◌}
use os_hw.Prelude.Bytes.{update, put_word}
use os_hw.Prelude.Outcome.{Outcome, ok, ◌>>=◌}
use os_hw.Pipe.{new_pipe}
use os_hw.Kalloc.{Kmem, kalloc}
use os_hw.Args.{argptr}
use os_hw.File.{Files, fd_pipe, set_file, filealloc, fileclose}
use os_hw.Sysfile.{Caller, fdalloc}

-- `bad` of `pipealloc` where there are files already, but no page; `none` where a call sleeps
unfoldable pub close_both : (f0 f1 : ℕ) → Files → Outcome (Option Files)
close_both f0 f1 s = fileclose f0 s >>= (λ o. elim o [ none ↦ ok none | some s' ↦ fileclose f1 s' ])

-- the fields of both ends of the pipe in the page `p`
abbrev pub set_ends : (f0 f1 p : ℕ) → Files → Files
set_ends f0 f1 p s =
    let s' = record s { pipes = update s.pipes p (new_pipe (s.pipes p).buf) } in
    let r =
      set_file s' f0
        (record (s'.file f0) { type = fd_pipe; readable = true; writable = false; pipe = p }) in
    set_file r f1
      (record (r.file f1) { type = fd_pipe; readable = false; writable = true; pipe = p })

-- `pipealloc` once it has two files; with the result `none` for -1
unfoldable pub pipe_page :
    (f0 f1 : ℕ) → Files → ℕ × Kmem → Outcome (Option (Option (ℕ × ℕ) × Files × Kmem))
unfolding close_both
pipe_page f0 f1 s (p, k) =
    if p == 0
    then (close_both f0 f1 s
        >>= (λ o. elim o [ none ↦ ok none | some s' ↦ ok (some (none, s', k)) ]))
    else ok (some (some (f0, f1), set_ends f0 f1 p s, k))

-- `pipealloc` once it has the first file
abbrev pub second_file :
    (f0 : ℕ) → Option (ℕ × Files) → Files → Kmem → Outcome (Option (Option (ℕ × ℕ) × Files × Kmem))
second_file f0 none s k =
    fileclose f0 s >>= (λ o. elim o [ none ↦ ok none | some s' ↦ ok (some (none, s', k)) ])
second_file f0 (some (f1, s')) s k = pipe_page f0 f1 s' (kalloc k)

abbrev pub first_file :
    Option (ℕ × Files) → Files → Kmem → Outcome (Option (Option (ℕ × ℕ) × Files × Kmem))
first_file none s k = ok (some (none, s, k))
first_file (some (f0, s')) s k = second_file f0 (filealloc s') s' k

-- The two files, reading end first, with the pipe in a new page.
unfoldable pub pipealloc : Files → Kmem → Outcome (Option (Option (ℕ × ℕ) × Files × Kmem))
unfolding pipe_page
pipealloc s k = first_file (filealloc s) s k

-- `sys_pipe` where a descriptor is missing
unfoldable pub unwind : (rf wf : ℕ) → Caller → Kmem → Outcome (Option (Bool × Caller × Kmem))
unfolding close_both
unwind rf wf c k =
    close_both rf wf c.files
    >>= (λ o. elim o [ none ↦ ok none | some s ↦ ok (some (false, record c { files = s }, k)) ])

-- `fd[0] = fd0; fd[1] = fd1;`
abbrev pub store_fds : (fd fd0 fd1 : ℕ) → Caller → Caller
store_fds fd fd0 fd1 c = record c {
  user = record (c.user) { mem = put_word (put_word c.user.mem fd fd0) (fd + 4) fd1 };
}

-- `sys_pipe` with the files, and the first descriptor
abbrev pub second_fd :
    (fd rf wf fd0 : ℕ)
    → Caller
    → Option (ℕ × Caller)
    → Kmem
    → Outcome (Option (Bool × Caller × Kmem))
second_fd fd rf wf fd0 c none k = unwind rf wf (record c { ofile = update c.ofile fd0 none }) k
second_fd fd rf wf fd0 c (some (fd1, c')) k = ok (some (true, store_fds fd fd0 fd1 c', k))

abbrev pub first_fd :
    (fd rf wf : ℕ) → Caller → Option (ℕ × Caller) → Kmem → Outcome (Option (Bool × Caller × Kmem))
first_fd fd rf wf c none k = unwind rf wf c k
first_fd fd rf wf c (some (fd0, c')) k = second_fd fd rf wf fd0 c' (fdalloc wf c') k

abbrev pub pipe_fds :
    (fd : ℕ)
    → Caller
    → Option (Option (ℕ × ℕ) × Files × Kmem)
    → Outcome (Option (Bool × Caller × Kmem))
pipe_fds fd c none = ok none
pipe_fds fd c (some (none, s, k)) = ok (some (false, record c { files = s }, k))
pipe_fds fd c (some (some (rf, wf), s, k)) =
    let c0 = record c { files = s } in first_fd fd rf wf c0 (fdalloc rf c0) k

abbrev pub pipe_at : Option ℕ → Caller → Kmem → Outcome (Option (Bool × Caller × Kmem))
pipe_at none c k = ok (some (false, c, k))
pipe_at (some fd) c k = pipealloc c.files k >>= pipe_fds fd c

-- The Boolean is whether `sys_pipe` returns 0.
unfoldable pub sys_pipe : Caller → Kmem → Outcome (Option (Bool × Caller × Kmem))
sys_pipe c k = pipe_at (argptr c.user 0 8) c k
