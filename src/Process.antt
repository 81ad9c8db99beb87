-- ===== src/Process.antt =====
-- Processes and scheduling, kernel/sys/process.c, for the one processor that the kernel is built
-- for (MAX_CPUS is 1). A function that goes through `switch_to` comes in two halves, before and
-- after the switch. Of `struct proc` the fields that these functions do not use are left out;
-- `next_pid` is not wrapped.
pub mod Table
pub mod Alloc
pub mod Switch
pub mod Scheduler
use tuix_os.Base.{
  ℕ, zero, suc, ◌+◌, ◌-◌, Bool, true, false, not, ◌&&◌, Option, none, some, List, [], ◌∷◌,
  get_elem?, map, ◌==◌, if◌then◌else◌,
}
use tuix_os.Base.Outcome.{Outcome, ok, panic, fault, ◌>>=◌}
use tuix_os.Memory.{Mem, null, store32}
use tuix_os.Str.Blocks.{memset}
use tuix_os.Kalloc.{Kmem, kalloc}
use tuix_os.Spinlock.{Cpu, Spinlock, holding, acquire, release}

-- `enum proc_state`
pub data ProcState : Type 0 where
  unused embryo sleeping runnable running zombie : ProcState

abbrev pub state_eq : ProcState → ProcState → Bool
state_eq unused unused = true
state_eq embryo embryo = true
state_eq sleeping sleeping = true
state_eq runnable runnable = true
state_eq running running = true
state_eq zombie zombie = true
state_eq _ _ = false

-- `struct proc`
pub record Proc : Type 0 where
  pub pid : ℕ
  pub state : ProcState
  pub pgdir : ℕ
  pub tf : ℕ
  pub ctx : ℕ
  pub kstack : ℕ
  pub chan : ℕ

abbrev pub max_proc : ℕ
max_proc = 64

abbrev pub kstack_size : ℕ
kstack_size = 4096

-- The sizes of `struct trap_frame` and `struct context`, and the place of `eip` in the latter.
abbrev pub trap_frame_size : ℕ
trap_frame_size = 76

abbrev pub context_size : ℕ
context_size = 20

abbrev pub context_eip : ℕ
context_eip = 16

-- The processor, `ptable`, `next_pid`, the memory, and `c->proc` as an index into the table.
pub record Kernel : Type 0 where
  pub cpu : Cpu
  pub lock : Spinlock
  pub procs : List Proc
  pub next_pid : ℕ
  pub kmem : Kmem
  pub current : Option ℕ

-- A change of the `i`-th process.
unfoldable pub modify : (Proc → Proc) → ℕ → List Proc → List Proc
modify f i [] = []
modify f zero (p ∷ ps) = f p ∷ ps
modify f (suc i) (p ∷ ps) = p ∷ modify f i ps

abbrev pub set_state : ProcState → Proc → Proc
set_state st p = record p { state = st }

-- The first process of the table that is unused.
unfoldable pub find_unused : List Proc → Option ℕ
find_unused [] = none
find_unused (p ∷ ps) =
    if state_eq p.state unused
    then some 0
    else elim (find_unused ps) [ none ↦ none | some i ↦ some (suc i) ]

-- The kernel stack of a new process: the trap frame at the top, the address of `trap_ret`, and a
-- cleared context that starts in `fork_ret`.
unfoldable pub build_stack : Mem → (kstack trap_ret fork_ret : ℕ) → Mem
build_stack m kstack trap_ret fork_ret =
    let tf = kstack + kstack_size - trap_frame_size in
    let ctx = tf - 4 - context_size in
    store32 (memset (store32 m (tf - 4) trap_ret) ctx 0 context_size).1 (ctx + context_eip) fork_ret

-- `config_proc_kstack` behind its `kalloc`.
config_at : (trap_ret fork_ret : ℕ) → (i : ℕ) → Kernel → ℕ × Kmem → Option ℕ × Kernel
config_at trap_ret fork_ret i k (page, m) =
    if page == null
    then (
      none,
      record k {
        procs =
            modify (λ p. record p { state = unused; pid = k.next_pid; kstack = null }) i k.procs;
        next_pid = k.next_pid + 1;
        kmem = m;
      },
    )
    else let tf = page + kstack_size - trap_frame_size in
      (
        some i,
        record k {
          procs =
              modify
                (λ p. record p {
                  state = embryo;
                  pid = k.next_pid;
                  kstack = page;
                  tf = tf;
                  ctx = tf - 4 - context_size;
                })
                i k.procs;
          next_pid = k.next_pid + 1;
          kmem = record m { mem = build_stack m.mem page trap_ret fork_ret };
        },
      )

unfoldable pub config_proc_kstack : (trap_ret fork_ret : ℕ) → (i : ℕ) → Kernel → Option ℕ × Kernel
unfolding config_at
config_proc_kstack trap_ret fork_ret i k = config_at trap_ret fork_ret i k (kalloc k.kmem)

unfoldable pub alloc_process : (trap_ret fork_ret : ℕ) → Kernel → Option ℕ × Kernel
unfolding config_proc_kstack find_unused
alloc_process trap_ret fork_ret k = elim (find_unused k.procs) [
  | none ↦ (none, k)
  | some i ↦ config_proc_kstack trap_ret fork_ret i k
]

-- `acquire(&ptable.lock)` and `release(&ptable.lock)`
unfoldable pub lock_table : (fuel : ℕ) → Kernel → Outcome Kernel
unfolding acquire
lock_table fuel k = do (c, lk) ← acquire fuel k.cpu k.lock; ok (record k { cpu = c; lock = lk })

unfoldable pub unlock_table : Kernel → Outcome Kernel
unfolding release
unlock_table k = do (c, lk) ← release k.cpu k.lock; ok (record k { cpu = c; lock = lk })

-- The state of the current process; reading it without one is a fault.
abbrev pub current_state : Kernel → Outcome ProcState
current_state k = elim k.current [
  | none ↦ fault
  | some i ↦ elim (get_elem? k.procs i) [ none ↦ fault | some p ↦ ok p.state ]
]

abbrev pub change_current : (Proc → Proc) → Kernel → Outcome Kernel
change_current f k = elim k.current [
  | none ↦ fault
  | some i ↦ ok (record k { procs = modify f i k.procs })
]

-- `sched` up to its `switch_to` into the scheduler, with the saved `intena`.
unfoldable pub sched : Kernel → Outcome (Bool × Kernel)
unfolding holding
sched k = do
  (held, c) ← holding k.cpu k.lock
  if not held then panic else if not (c.ncli == 1) then panic else (do
    st ← current_state k
    if state_eq st running
        then panic
        else if c.iflag
        then panic
        else ok (c.intena, record k { cpu = c }))

-- `sched` behind the switch back: `c_cpu()->intena = intena;`
unfoldable pub sched_resume : Bool → Kernel → Kernel
sched_resume intena k = record k { cpu = record (k.cpu) { intena = intena } }

unfoldable pub yield_enter : (fuel : ℕ) → Kernel → Outcome (Bool × Kernel)
unfolding lock_table modify sched
yield_enter fuel k = do k ← lock_table fuel k; k ← change_current (set_state runnable) k; sched k

unfoldable pub yield_resume : Bool → Kernel → Outcome Kernel
unfolding sched_resume unlock_table
yield_resume intena k = unlock_table (sched_resume intena k)

-- The lock that is handed to `sleep`: null, `&ptable.lock`, or another.
pub data SleepLock : Type 0 where
  null_lock table_lock : SleepLock
  other : Spinlock → SleepLock

-- `if (lk != &ptable.lock) { acquire(&ptable.lock); release(lk); }`
unfoldable pub trade_locks : (fuel : ℕ) → Kernel → SleepLock → Outcome (SleepLock × Kernel)
unfolding lock_table release
trade_locks fuel k null_lock = panic
trade_locks fuel k table_lock = ok (table_lock, k)
trade_locks fuel k (other lk) = do
  k ← lock_table fuel k
  (c, lk) ← release k.cpu lk
  ok (other lk, record k { cpu = c })

-- `sleep` of process `i` up to its `sched`.
abbrev pub sleep_as :
    (i : ℕ) (fuel : ℕ) → Kernel → (chan : ℕ) → SleepLock → Outcome (Bool × SleepLock × Kernel)
unfolding trade_locks modify sched
sleep_as i fuel k chan lk = do
  (lk, k) ← trade_locks fuel k lk
  (intena, k) ←
      sched
        (record k { procs = modify (λ p. record p { chan = chan; state = sleeping }) i k.procs })
  ok (intena, lk, k)

unfoldable pub sleep_enter :
    (fuel : ℕ) → Kernel → (chan : ℕ) → SleepLock → Outcome (Bool × SleepLock × Kernel)
unfolding sleep_as
sleep_enter fuel k chan lk = elim k.current [ none ↦ panic | some i ↦ sleep_as i fuel k chan lk ]

-- `sleep` behind the switch back.
unfoldable pub sleep_resume : (fuel : ℕ) → Bool → SleepLock → Kernel → Outcome (SleepLock × Kernel)
unfolding sched_resume modify unlock_table acquire
sleep_resume fuel intena lk k = do
  k ← change_current (λ p. record p { chan = null }) (sched_resume intena k)
  elim lk [
    | null_lock ↦ ok (null_lock, k)
    | table_lock ↦ ok (table_lock, k)
    | other l ↦ do
      k ← unlock_table k
      (c, l) ← acquire fuel k.cpu l
      ok (other l, record k { cpu = c })
  ]

-- A process that sleeps on `chan` becomes runnable.
unfoldable pub wake : (chan : ℕ) → Proc → Proc
wake chan p =
    if state_eq p.state sleeping && (p.chan == chan) then record p { state = runnable } else p

unfoldable pub wakeup : (fuel : ℕ) → (chan : ℕ) → Kernel → Outcome Kernel
unfolding lock_table wake unlock_table
wakeup fuel chan k = do
  k ← lock_table fuel k
  unlock_table (record k { procs = map (wake chan) k.procs })

-- The scheduler at a process that it may run: `switch_uvm` checks it, and it becomes current and
-- running. none: the process is not runnable and is passed over.
unfoldable pub dispatch : Kernel → (i : ℕ) → Proc → Outcome (Option Kernel)
unfolding modify
dispatch k i p =
    if not (state_eq p.state runnable)
    then ok none
    else if p.kstack == null
    then panic
    else if p.pgdir == null
    then panic
    else ok (some (record k { current = some i; procs = modify (set_state running) i k.procs }))

-- The switch into a process ends in `fork_ret`, or behind `sched` in `yield`: both release the
-- table's lock.
unfoldable pub fork_ret : Kernel → Outcome Kernel
unfolding unlock_table
fork_ret k = unlock_table k
