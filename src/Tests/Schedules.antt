-- ===== src/Tests/Schedules.antt =====
-- The scheduler of kernel/sys/process.c with a table of three processes.
use tuix_os.Base.{
  ℕ, zero, suc, ◌≤◌, ◌≡◌, ◌≢◌, refl, ap, ◌∙◌, true, false, none, some, List, [], ◌∷◌, get_elem?,
  arith,
}
use tuix_os.Base.Outcome.{ok, panic}
use mathlib.Core.Option.{some-injective}
use tuix_os.Memory.{null}
use tuix_os.Process.{
  Proc, ProcState, unused, runnable, running, sleeping, Kernel, state_eq, set_state, modify,
  dispatch,
}
use tuix_os.Gdt.{flat}
use tuix_os.Uvm.{Loaded, switch_uvm}
use tuix_os.Uvm.Switch.{IsSwitched, switch_uvm_lem}
use tuix_os.Process.Switch.{yield_enter_lem, locked}
use tuix_os.Process.Scheduler.{looking, entered, inside, returned, ◌⟶◌, ◌⟶*◌, give_up, here, after}
use tuix_os.Process.Scheduler.Single.{IsSingle, steps-IsSingle}
use tuix_os.Process.Scheduler.Progress.{IsReady, looking-progress}

abbrev proc_in : ProcState → Proc
proc_in st = record {
  pid = 7;
  state = st;
  pgdir = 0x9000;
  tf = 0;
  ctx = 0;
  kstack = 0xA000;
  chan = 0x40;
}

abbrev kernel : List Proc → Kernel
kernel procs = record {
  cpu = record { id = 0; iflag = true; ncli = 0; intena = false };
  lock = record { locked = 0; cpu = none };
  procs = procs;
  next_pid = 8;
  kmem = record { mem = λ a. 0; freelist = 0x5000 };
  current = some 1;
}

abbrev table : List Proc
table = proc_in sleeping ∷ proc_in running ∷ proc_in unused ∷ []

state_of : (st st' : ProcState) (p : Proc) → some (proc_in st) ≡ some p → p.state ≡ st' → st ≡ st'
state_of st st' p e r = ap (λ x. x.state) (some-injective _ _ e) ∙ r

only_second : (i : ℕ) (p : Proc) → get_elem? table i ≡ some p → p.state ≡ running → i ≡ 1
only_second zero p e r = let no = state_of sleeping running p e r in ground arith
only_second (suc zero) p e r = refl
only_second (suc (suc zero)) p e r = let no = state_of unused running p e r in ground arith
only_second (suc (suc (suc i))) p e r = cc

abbrev given_up : Kernel
given_up = returned (locked (record (kernel table) { procs = modify (set_state runnable) 1 table }))

abbrev yielded : (inside 1, kernel table) ⟶* (looking 2, given_up)
yielded =
    after
      (give_up 1 true (
        yield_enter_lem 1 (kernel table) 1 (proc_in running)
          (record { outside = refl; here = refl; entry = refl }) refl (omega arith)))
      here

steps_example : IsSingle (looking 2, given_up)
steps_example =
    steps-IsSingle (inside 1, kernel table) (looking 2, given_up) yielded (refl, only_second)

abbrev waiting : List Proc
waiting = proc_in sleeping ∷ proc_in runnable ∷ proc_in runnable ∷ []

has_memory :
    (st : ProcState) (p : Proc) → some (proc_in st) ≡ some p → (p.kstack ≢ null) × (p.pgdir ≢ null)
has_memory st p e =
    let stack : 0xA000 ≡ p.kstack = ap (λ x. x.kstack) (some-injective _ _ e) in
    let directory : 0x9000 ≡ p.pgdir = ap (λ x. x.pgdir) (some-injective _ _ e) in
    (ground arith, ground arith)

waiting-IsReady : IsReady (kernel waiting)
waiting-IsReady zero p e r = has_memory sleeping p e
waiting-IsReady (suc zero) p e r = has_memory runnable p e
waiting-IsReady (suc (suc zero)) p e r = has_memory runnable p e
waiting-IsReady (suc (suc (suc i))) p e r = cc

progress_example :
    (m : ℕ) × (k' : Kernel) × ((looking 0, kernel waiting) ⟶ (entered m, k'))
    × (0 ≤ m)
    × (m ≤ 2)
    × (k'.current ≡ some m)
    × ((q : Proc) × (get_elem? waiting m ≡ some q)
        × (state_eq q.state runnable ≡ true)
        × (get_elem? k'.procs m ≡ some (set_state running q)))
progress_example =
    looking-progress (kernel waiting) 0 2 (proc_in runnable) waiting-IsReady refl refl (omega arith)
      (omega arith)

-- A process that can be run, and a processor that has nothing loaded.
abbrev chosen : Proc
chosen = proc_in runnable

abbrev unloaded : Loaded
unloaded = record {
  gdt = λ k. flat 0x92;
  ts = record { ss0 = 0; esp0 = 0; iomap_base = 0 };
  tr = 0;
  cr3 = 0;
}

abbrev outside : Kernel
outside = kernel (proc_in sleeping ∷ chosen ∷ [])

switch_uvm_example :
    (l' : Loaded) × (switch_uvm 0x3000 (some chosen) unloaded ≡ ok l')
    × IsSwitched 0x3000 chosen unloaded l'
    × (dispatch outside 1 chosen
        ≡ ok (
            some (record outside {
              current = some 1;
              procs = modify (set_state running) 1 outside.procs;
            })))
    × (switch_uvm 0x3000 (some (record chosen { pgdir = null })) unloaded ≡ panic)
    × (dispatch outside 1 (record chosen { pgdir = null }) ≡ panic)
    × (switch_uvm 0x3000 (some (record chosen { kstack = null })) unloaded ≡ panic)
    × (dispatch outside 1 (record chosen { kstack = null }) ≡ panic)
switch_uvm_example =
    switch_uvm_lem 0x3000 1 outside chosen unloaded (omega arith) (omega arith) refl (ground arith)
      (ground arith)
