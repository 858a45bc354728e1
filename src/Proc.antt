-- ===== src/Proc.antt =====
-- proc.c: the process table and the calls that change it. `ptable.lock` is held from `acquire` to
-- `release`, or to the switch into the scheduler: what runs in between is one step here. The
-- table is a function of the slot, of which the first `NPROC` count; a process pointer is a slot.
pub mod Wake
pub mod Follows
pub mod Wait
pub mod Exit
pub mod Kill
pub mod Zombies
pub mod Tests
use os_hw.Prelude.{
  ℕ, zero, suc, ◌+◌, ◌%◌, ◌^◌, Bool, true, false, not, ◌&&◌, ◌||◌, Option, none, some, List, [],
  ◌∷◌, ◌++◌, map, take, ◌==◌, if◌then◌else◌,
}
use os_hw.Prelude.Bytes.{update}
use os_hw.Prelude.Outcome.{Outcome, ok, panic}

abbrev pub nproc : ℕ
nproc = 64

-- `enum procstate`
pub data ProcState : Type 0 where
  unused embryo sleeping runnable running zombie : ProcState

-- An address to sleep on: a process table entry, or anything else.
pub data Chan : Type 0 where
  of_proc : ℕ → Chan
  of_addr : ℕ → Chan

abbrev pub same_chan : Option Chan → Chan → Bool
same_chan none c = false
same_chan (some (of_proc i)) (of_proc j) = i == j
same_chan (some (of_proc i)) (of_addr b) = false
same_chan (some (of_addr a)) (of_proc j) = false
same_chan (some (of_addr a)) (of_addr b) = a == b

-- `struct trapframe`: the registers that proc.c sets, and the others.
pub record Trapframe : Type 0 where
  pub eax : ℕ
  pub others : List ℕ

-- `struct proc`. A file, inode, page directory or stack is its address, 0 if there is none; the
-- saved kernel context is left out.
pub record Proc : Type 0 where
  pub sz : ℕ
  pub pgdir : ℕ
  pub kstack : ℕ
  pub state : ProcState
  pub pid : ℕ
  pub parent : Option ℕ
  pub tf : Trapframe
  pub chan : Option Chan
  pub killed : Bool
  pub ofile : List ℕ
  pub cwd : ℕ
  pub name : List ℕ

-- `ptable`, `nextpid` and `initproc`
pub record Table : Type 0 where
  pub procs : ℕ → Proc
  pub nextpid : ℕ
  pub initproc : ℕ

abbrev pub is_unused : ProcState → Bool
is_unused unused = true
is_unused _ = false

abbrev pub is_sleeping : ProcState → Bool
is_sleeping sleeping = true
is_sleeping _ = false

abbrev pub is_zombie : ProcState → Bool
is_zombie zombie = true
is_zombie _ = false

abbrev pub is_runnable : ProcState → Bool
is_runnable runnable = true
is_runnable _ = false

abbrev pub is_slot : Option ℕ → ℕ → Bool
is_slot none i = false
is_slot (some j) i = j == i

-- an assignment to fields of `ptable.proc[i]`
abbrev pub set_proc : Table → ℕ → Proc → Table
set_proc t i p = record t { procs = update t.procs i p }

abbrev pub set_state : Table → ℕ → ProcState → Table
set_state t i s = set_proc t i (record (t.procs i) { state = s })

-- the test and the assignment in the loop of `wakeup1`
abbrev pub wake : Chan → Proc → Proc
wake c p = if is_sleeping p.state && same_chan p.chan c then record p { state = runnable } else p

wake_from : (k i : ℕ) → Chan → (ℕ → Proc) → ℕ → Proc
wake_from zero i c ps = ps
wake_from (suc k) i c ps = wake_from k (i + 1) c (update ps i (wake c (ps i)))

pub wakeup1 : Chan → (ℕ → Proc) → ℕ → Proc
unfolding wake_from
wakeup1 c ps = wake_from nproc 0 c ps

pub wakeup : Chan → Table → Table
wakeup c t = record t { procs = wakeup1 c t.procs }

pub find_unused : (k i : ℕ) → (ℕ → Proc) → Option ℕ
find_unused zero i ps = none
find_unused (suc k) i ps =
    let rest = find_unused k (i + 1) ps in if is_unused (ps i).state then some i else rest

-- `allocproc` once it holds a slot: `p->state = EMBRYO; p->pid = nextpid++`
abbrev pub claim : Table → ℕ → Table
claim t i = record (set_proc t i (record (t.procs i) { state = embryo; pid = t.nextpid })) {
  nextpid = (t.nextpid + 1) % 2 ^ 32;
}

-- `p->kstack = stack`, and `p->state = UNUSED` if that is 0
give_stack : (stack : Option ℕ) → Table → ℕ → Table × Option ℕ
give_stack none t i = (set_proc t i (record (t.procs i) { kstack = 0; state = unused }), none)
give_stack (some a) t i = (set_proc t i (record (t.procs i) { kstack = a }), some i)

pub alloc_at : (stack : Option ℕ) → Table → Option ℕ → Table × Option ℕ
unfolding give_stack
alloc_at stack t none = (t, none)
alloc_at stack t (some i) = give_stack stack (claim t i) i

-- The new table, and the slot of the new process. `stack` is what `kalloc` returns.
pub allocproc : (stack : Option ℕ) → Table → Table × Option ℕ
unfolding find_unused alloc_at
allocproc stack t = alloc_at stack t (find_unused nproc 0 t.procs)

find_pid : (k i : ℕ) → ℕ → (ℕ → Proc) → Option ℕ
find_pid zero i pid ps = none
find_pid (suc k) i pid ps =
    let rest = find_pid k (i + 1) pid ps in if (ps i).pid == pid then some i else rest

-- the body of `kill` once a process is found
abbrev pub mark_killed : Proc → Proc
mark_killed p = record p {
  killed = true;
  state = if is_sleeping p.state then runnable else p.state;
}

-- The Boolean is whether `kill` returns 0 (and not -1).
pub kill : ℕ → Table → Table × Bool
unfolding find_pid
kill pid t = elim (find_pid nproc 0 pid t.procs) [
  | none ↦ (t, false)
  | some i ↦ (record t { procs = update t.procs i (mark_killed (t.procs i)) }, true)
]

-- What a call does to other parts of the kernel, in order.
pub data Event : Type 0 where
  filedup fileclose idup iput kfree freevm : ℕ → Event
  begin_op end_op : Event

dup_files : List ℕ → List Event
dup_files [] = []
dup_files (f ∷ fs) = if f == 0 then dup_files fs else filedup f ∷ dup_files fs

-- `np->ofile[i]` is written only where `proc->ofile[i]` is not 0.
copy_files : List ℕ → List ℕ → List ℕ
copy_files [] old = old
copy_files (f ∷ fs) [] = []
copy_files (f ∷ fs) (g ∷ gs) = (if f == 0 then g else f) ∷ copy_files fs gs

-- The new table, the result of the call in the parent (`none` is -1), and the calls of others.
pub record Forked : Type 0 where
  pub table : Table
  pub result : Option ℕ
  pub events : List Event

-- the new process before it is made runnable
child : Proc → ℕ → ℕ → Proc → Proc
unfolding copy_files
child p curr dir np = record np {
  pgdir = dir;
  sz = p.sz;
  parent = some curr;
  tf = record p.tf { eax = 0 };
  ofile = copy_files p.ofile np.ofile;
  cwd = p.cwd;
  name = take 15 p.name;
}

-- `fork` once `allocproc` has returned a slot: `dir` is what `copyuvm` returns.
finish_fork : (dir : Option ℕ) → (curr : ℕ) → Table → ℕ → Forked
unfolding child dup_files
finish_fork none curr t i = record {
  table = set_proc t i (record (t.procs i) { kstack = 0; state = unused });
  result = none;
  events = kfree (t.procs i).kstack ∷ [];
}
finish_fork (some d) curr t i =
    let np : Proc = child (t.procs curr) curr d (t.procs i) in
    record {
      table = set_proc t i (record np { state = runnable });
      result = some np.pid;
      events = dup_files (t.procs curr).ofile ++ (idup (t.procs curr).cwd ∷ []);
    }

pub fork_at : (dir : Option ℕ) → (curr : ℕ) → Table × Option ℕ → Forked
unfolding finish_fork
fork_at dir curr (t, none) = record { table = t; result = none; events = [] }
fork_at dir curr (t, some i) = finish_fork dir curr t i

pub fork : (stack dir : Option ℕ) → (curr : ℕ) → Table → Forked
unfolding fork_at
fork stack dir curr t = fork_at dir curr (allocproc stack t)

close_files : List ℕ → List Event
close_files [] = []
close_files (f ∷ fs) = if f == 0 then close_files fs else fileclose f ∷ close_files fs

-- the body of the loop of `exit` over the table: a child goes to `initproc`
adopt_one : (i curr init : ℕ) → (ℕ → Proc) → ℕ → Proc
adopt_one i curr init ps =
    let moved = update ps i (record (ps i) { parent = some init }) in
    if is_slot (ps i).parent curr
    then (if is_zombie (ps i).state then wakeup1 (of_proc init) moved else moved)
    else ps

pub adopt_from : (k i : ℕ) → (curr init : ℕ) → (ℕ → Proc) → ℕ → Proc
adopt_from zero i curr init ps = ps
adopt_from (suc k) i curr init ps = adopt_from k (i + 1) curr init (adopt_one i curr init ps)

wake_parent : Option ℕ → (ℕ → Proc) → ℕ → Proc
wake_parent none ps = ps
wake_parent (some j) ps = wakeup1 (of_proc j) ps

-- the process once its files and its directory are given up
abbrev pub closed : Proc → Proc
closed p = record p { ofile = map (λ f. 0) p.ofile; cwd = 0 }

-- What `exit` does to the table while it holds the lock, but for `proc->state = ZOMBIE`.
hand_over : (curr : ℕ) → Table → ℕ → Proc
unfolding adopt_from wake_parent
hand_over curr t =
    adopt_from nproc 0 curr t.initproc
      (wake_parent (t.procs curr).parent (update t.procs curr (closed (t.procs curr))))

-- `exit` up to its switch into the scheduler, and the calls that it makes before it takes the
-- lock; those touch only the files of the process.
pub exit : (curr : ℕ) → Table → Outcome (Table × List Event)
unfolding close_files hand_over
exit curr t =
    let left = hand_over curr t in
    if curr == t.initproc
    then panic
    else ok (
      record t { procs = update left curr (record (left curr) { state = zombie }) },
      close_files (t.procs curr).ofile ++ (begin_op ∷ iput (t.procs curr).cwd ∷ end_op ∷ []),
    )

-- the loop of `wait` over the table: whether there is a child, and the first zombie among them
pub scan_from : (k i : ℕ) → (curr : ℕ) → (ℕ → Proc) → Bool × Option ℕ
scan_from zero i curr ps = (false, none)
scan_from (suc k) i curr ps =
    let rest = scan_from k (i + 1) curr ps in
    if is_slot (ps i).parent curr
    then (if is_zombie (ps i).state then (true, some i) else (true, rest.1))
    else rest

-- How a pass of `wait` ends: with the pid of a reaped child, with -1, or in `sleep(proc, …)`.
pub data WaitEnd : Type 0 where
  reaped : ℕ → WaitEnd
  failed asleep : WaitEnd

abbrev pub reap : Proc → Proc
reap p = record p { kstack = 0; state = unused; pid = 0; parent = none; name = []; killed = false }

-- the change that `sleep` makes before it switches to the scheduler, and the one after it resumes
pub sleep : Chan → (curr : ℕ) → Table → Table
sleep c curr t = record t {
  procs = update t.procs curr (record (t.procs curr) { chan = some c; state = sleeping });
}

pub resume : (curr : ℕ) → Table → Table
resume curr t = record t { procs = update t.procs curr (record (t.procs curr) { chan = none }) }

-- `wait` after the loop, which found a child or none, and the zombie `found`.
finish_wait : (curr : ℕ) → Table → Bool → Option ℕ → Table × WaitEnd × List Event
finish_wait curr t havekids (some i) =
    let p = t.procs i in
    (
      record t { procs = update t.procs i (reap p) },
      reaped p.pid,
      kfree p.kstack ∷ freevm p.pgdir ∷ [],
    )
finish_wait curr t havekids none =
    if not havekids || (t.procs curr).killed
    then (t, failed, [])
    else (sleep (of_proc curr) curr t, asleep, [])

pub wait : (curr : ℕ) → Table → Table × WaitEnd × List Event
unfolding scan_from finish_wait
wait curr t =
    let (havekids, found) = scan_from nproc 0 curr t.procs in finish_wait curr t havekids found

pub yield : (curr : ℕ) → Table → Table
yield curr t = set_state t curr runnable

-- One turn of the loop of `scheduler` at slot `i`: whether the process there is switched to.
pub dispatch : (i : ℕ) → Table → Table × Bool
dispatch i t = if is_runnable (t.procs i).state then (set_state t i running, true) else (t, false)
