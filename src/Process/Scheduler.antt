-- ===== src/Process/Scheduler.antt =====
-- The scheduler of kernel/sys/process.c and the processes as one system: `launch_first_proc` runs in turn
-- with the process that it has switched to. A step is a call that the code makes without a switch in it.
pub mod Single
pub mod Progress
use tuix_os.Base.{ℕ, zero, suc, ◌+◌, ◌-◌, ◌≡◌, Bool, true, Option, none, some, get_elem?}
use tuix_os.Base.Outcome.{Outcome, ok, panic, hang, fault, out_of_fuel}
use tuix_os.Process.{
  Kernel, SleepLock, max_proc, lock_table, unlock_table, dispatch, fork_ret, yield_enter,
  yield_resume, sleep_enter, sleep_resume, wakeup, alloc_process,
}

-- `sti()`, and `c->proc = 0` behind the switch back.
abbrev pub sti : Kernel → Kernel
sti k = record k { cpu = record (k.cpu) { iflag = true } }

abbrev pub returned : Kernel → Kernel
returned k = record k { current = none }

-- Goes on behind an entry that was passed over.
abbrev pub next :
    Outcome (Option Kernel)
    → (i : ℕ) → Outcome (Option (ℕ × Kernel))
    → Outcome (Option (ℕ × Kernel))
next (ok none) i rest = rest
next (ok (some k)) i rest = ok (some (i, k))
next panic i rest = panic
next hang i rest = hang
next fault i rest = fault
next out_of_fuel i rest = out_of_fuel

-- `for (int i = 0; i < MAX_PROC; i++)` from `i` on, up to the switch into a process.
unfoldable pub scan : (rounds : ℕ) → Kernel → (i : ℕ) → Outcome (Option (ℕ × Kernel))
unfolding dispatch
scan zero k i = ok none
scan (suc rounds) k i =
    let rest = scan rounds k (i + 1) in
    elim (get_elem? k.procs i) [ none ↦ ok none | some p ↦ next (dispatch k i p) i rest ]

-- Where the processor is: in front of `sti()`, in the loop over the table, in a process that the scheduler
-- has just switched to, or in a process.
pub data Place : Type 0 where
  idle : Place
  looking : (i : ℕ) → Place
  entered : (i : ℕ) → Place
  inside : (i : ℕ) → Place

infix 40 ◌⟶◌ ◌⟶*◌
pub data ◌⟶◌ : Place × Kernel → Place × Kernel → Type 0 where
  start : {k k' : Kernel} (fuel : ℕ) → lock_table fuel (sti k) ≡ ok k' → (idle, k) ⟶ (looking 0, k')
  found :
      {i j : ℕ} {k k' : Kernel}
      → scan (max_proc - i) k i ≡ ok (some (j, k'))
      → (looking i, k) ⟶ (entered j, k')
  finish :
      {i : ℕ} {k k' : Kernel}
      → scan (max_proc - i) k i ≡ ok none
      → unlock_table k ≡ ok k'
      → (looking i, k) ⟶ (idle, k')
  leave_fork : {i : ℕ} {k k' : Kernel} → fork_ret k ≡ ok k' → (entered i, k) ⟶ (inside i, k')
  leave_yield :
      {i : ℕ} {k k' : Kernel} (intena : Bool)
      → yield_resume intena k ≡ ok k'
      → (entered i, k) ⟶ (inside i, k')
  leave_sleep :
      {i : ℕ} {k k' : Kernel} (fuel : ℕ) (intena : Bool) (lk lk' : SleepLock)
      → sleep_resume fuel intena lk k ≡ ok (lk', k')
      → (entered i, k) ⟶ (inside i, k')
  wake_up :
      {i : ℕ} {k k' : Kernel} (fuel chan : ℕ)
      → wakeup fuel chan k ≡ ok k'
      → (inside i, k) ⟶ (inside i, k')
  create :
      {i : ℕ} {k k' : Kernel} (trap_ret fork_ret : ℕ) (o : Option ℕ)
      → alloc_process trap_ret fork_ret k ≡ (o, k')
      → (inside i, k) ⟶ (inside i, k')
  give_up :
      {i : ℕ} {k k' : Kernel} (fuel : ℕ) (intena : Bool)
      → yield_enter fuel k ≡ ok (intena, k')
      → (inside i, k) ⟶ (looking (i + 1), returned k')
  fall_asleep :
      {i : ℕ} {k k' : Kernel} (fuel chan : ℕ) (intena : Bool) (lk lk' : SleepLock)
      → sleep_enter fuel k chan lk ≡ ok (intena, lk', k')
      → (inside i, k) ⟶ (looking (i + 1), returned k')

pub data ◌⟶*◌ : Place × Kernel → Place × Kernel → Type 0 where
  here : {s : Place × Kernel} → s ⟶* s
  after : {s t u : Place × Kernel} → s ⟶ t → t ⟶* u → s ⟶* u
