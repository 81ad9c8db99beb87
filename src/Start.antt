-- ===== src/Start.antt =====
-- How the kernel comes up: the memory that `kernel_main` of init/main.c sets up with `init_kvm` of
-- kernel/mm/vm.c, and the first process, `init_user` of kernel/sys/process.c. The reports of the
-- free memory on the serial line change nothing and are left out.
pub mod Memory
pub mod Frame
pub mod User
pub mod Main
use tuix_os.Base.{ℕ, ◌+◌, ◌*◌, ◌^◌, Option, none, some, ◌==◌, if◌then◌else◌, get_elem?}
use tuix_os.Base.Outcome.{Outcome, ok, panic, fault, out_of_fuel, ◌>>=◌}
use tuix_os.Bits.{bit_or}
use tuix_os.Memory.{Mem, null, load16, store16, store32}
use tuix_os.Mmu.{pgsize, physstop, v2p, p2v}
use tuix_os.Str.Blocks.{memset}
use tuix_os.Kalloc.{Kmem, init_physical_memory}
use tuix_os.Spinlock.{init_lock}
use tuix_os.Vm.{setup_kvm, init_uvm}
use tuix_os.Process.{Proc, runnable, Kernel, trap_frame_size, modify, alloc_process}

-- `kpgdir`, the register CR3, and the memory.
pub record Paging : Type 0 where
  pub kpgdir : ℕ
  pub cr3 : ℕ
  pub kmem : Kmem

-- `setup_kvm` is not checked: on null the register gets the address of page 0.
unfoldable pub init_kvm : (fuel kdata_start_addr : ℕ) → Kmem → Outcome Paging
unfolding setup_kvm
init_kvm fuel kdata s = do
  (pgdir, s') ← setup_kvm fuel kdata s
  ok (record { kpgdir = pgdir; cr3 = v2p pgdir; kmem = s' })

abbrev pub all_rounds : Option Kmem → Outcome Kmem
all_rounds none = out_of_fuel
all_rounds (some s) = ok s

-- `P2V(4*1024*1024)` and `P2V(PHYSTOP)`
abbrev pub first_end : ℕ
first_end = p2v (4 * 1024 * 1024)

abbrev pub memory_end : ℕ
memory_end = p2v physstop

-- The part of `kernel_main` on memory: the pages behind the kernel up to 4 MB, the kernel's page
-- tables out of them, and then the pages behind 4 MB.
unfoldable pub boot_memory : (fuel kernel_end kdata_start_addr : ℕ) → Kmem → Outcome Paging
unfolding init_kvm init_physical_memory
boot_memory fuel kernel_end kdata s = do
  s ← all_rounds (init_physical_memory fuel s kernel_end first_end)
  g ← init_kvm fuel kdata s
  s ← all_rounds (init_physical_memory fuel g.kmem first_end memory_end)
  ok (record g { kmem = s })

-- The selectors of include/Tuix/gdt.h, and `FL_IF`
abbrev pub usr_cs : ℕ
usr_cs = 3 * 2 ^ 3

abbrev pub usr_ds : ℕ
usr_ds = 4 * 2 ^ 3

abbrev pub usr_dpl : ℕ
usr_dpl = 3

abbrev pub fl_if : ℕ
fl_if = 0x200

-- The trap frame of the first process: it starts at address 0 of its page, on a stack from the
-- page's end downwards, with interrupts on.
unfoldable pub user_frame : Mem → (tf : ℕ) → Mem
user_frame m tf =
    let m = (memset m tf 0 trap_frame_size).1 in
    let m = store16 m (tf + 60) (bit_or usr_cs usr_dpl) in
    let m = store16 m (tf + 44) (bit_or usr_ds usr_dpl) in
    let m = store16 m (tf + 40) (load16 m (tf + 44)) in
    let m = store16 m (tf + 72) (load16 m (tf + 44)) in
    let m = store32 m (tf + 64) fl_if in let m = store32 m (tf + 68) pgsize in store32 m (tf + 56) 0

-- The rest of `init_user` for the process in entry `i`.
unfoldable pub enter_entry : (i pgdir : ℕ) → Kmem → Kernel → Option Proc → Outcome Kernel
unfolding modify user_frame
enter_entry i pgdir s k none = fault
enter_entry i pgdir s k (some p) = ok (record k {
  procs = modify (λ q. record q { pgdir = pgdir; state = runnable }) i k.procs;
  kmem = record s { mem = user_frame s.mem p.tf };
})

unfoldable pub enter_table : (i pgdir : ℕ) → Kmem → Kernel → Outcome Kernel
unfolding enter_entry
enter_table i pgdir s k = enter_entry i pgdir s k (get_elem? k.procs i)

-- `init_user` behind its `alloc_process`, which it does not check.
unfoldable pub init_first :
    (fuel kdata_start_addr init size : ℕ) → Option ℕ × Kernel → Outcome Kernel
unfolding setup_kvm init_uvm enter_table
init_first fuel kdata init size (o, k) = do
  (pgdir, s) ← setup_kvm fuel kdata k.kmem
  elim o [
    | none ↦ fault
    | some i ↦
        if pgdir == null
        then panic
        else do s ← init_uvm fuel s pgdir init size; enter_table i pgdir s k
  ]

-- `init` and `size` stand for `user_init_code` and its size. The fields `size` and `name`, which
-- nothing reads, are left out.
unfoldable pub init_user :
    (fuel trap_ret fork_ret kdata_start_addr init size : ℕ) → Kernel → Outcome Kernel
unfolding init_lock alloc_process init_first
init_user fuel trap_ret fork_ret kdata init size k =
    init_first fuel kdata init size
      (alloc_process trap_ret fork_ret (record k { lock = init_lock }))

-- `kernel_main` without the devices and the tables of the processor, up to the scheduler: the
-- memory, and the first process out of it.
unfoldable pub start_kernel :
    (fuel kernel_end kdata_start_addr trap_ret fork_ret init size : ℕ)
    → Kernel
    → Outcome (Paging × Kernel)
unfolding boot_memory init_user
start_kernel fuel kernel_end kdata trap_ret fork_ret init size k = do
  g ← boot_memory fuel kernel_end kdata k.kmem
  k' ← init_user fuel trap_ret fork_ret kdata init size (record k { kmem = g.kmem })
  ok (g, k')
