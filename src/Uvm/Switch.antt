-- ===== src/Uvm/Switch.antt =====
-- What `switch_uvm` of kernel/mm/vm.c loads for a process that the scheduler has chosen.
use tuix_os.Base.{ℕ, ◌+◌, ◌-◌, ◌^◌, ◌<◌, ◌≡◌, ◌≢◌, refl, true, false, some, arith, ◌==◌}
use tuix_os.Base.Outcome.{ok, panic}
use tuix_os.Memory.{null}
use tuix_os.Mmu.{v2p}
use tuix_os.Gdt.Entry.{entry_base, entry_limit, set_tss_entry_lem}
use tuix_os.Process.{Proc, Kernel, runnable, running, set_state, state_eq, modify, dispatch}
use tuix_os.Uvm.{Loaded, tss_index, tss_size, switched, switch_uvm}

-- The processor behind `switch_uvm` for a process with its kernel stack at `kstack`: the task state has its
-- whole address and size, traps go to the top of the stack, right where its trap frame ends, and the
-- page directory is loaded.
pub record IsSwitched (ts_address : ℕ) (p : Proc) (l l' : Loaded) : Type 0 where
  pub base : entry_base (l'.gdt tss_index) ≡ ts_address
  pub limit : entry_limit (l'.gdt tss_index) ≡ tss_size - 1
  pub others : (k : ℕ) → k ≢ tss_index → l'.gdt k ≡ l.gdt k
  pub segment : l'.ts.ss0 ≡ 0x10
  pub stack : l'.ts.esp0 ≡ p.kstack + 4096
  pub task : l'.tr ≡ 0x28
  pub space : l'.cr3 ≡ v2p p.pgdir

-- For a runnable process with a kernel stack that does not wrap and a page directory, `switch_uvm`
-- succeeds, and so does the scheduler's step, which makes the process current and running. Without
-- either the one and the other panic.
pub switch_uvm_lem :
    (ts_address i : ℕ) (k : Kernel) (p : Proc) (l : Loaded)
    → ts_address < 2 ^ 32
    → p.kstack + 4096 < 2 ^ 32
    → state_eq p.state runnable ≡ true
    → p.kstack ≢ null
    → p.pgdir ≢ null
    → (l' : Loaded) × (switch_uvm ts_address (some p) l ≡ ok l')
      × IsSwitched ts_address p l l'
      × (dispatch k i p
          ≡ ok (some (record k { current = some i; procs = modify (set_state running) i k.procs })))
      × (switch_uvm ts_address (some (record p { pgdir = null })) l ≡ panic)
      × (dispatch k i (record p { pgdir = null }) ≡ panic)
      × (switch_uvm ts_address (some (record p { kstack = null })) l ≡ panic)
      × (dispatch k i (record p { kstack = null }) ≡ panic)
unfolding switch_uvm dispatch
switch_uvm_lem ts_address i k p l small fits ready stack dir =
    let s : (p.kstack == null) ≡ false = ground arith in
    let d : (p.pgdir == null) ≡ false = ground arith in
    let (base, limit, _, others) =
      set_tss_entry_lem tss_index ts_address (tss_size - 1) 0x89 0x40 l.gdt small (omega arith)
        (omega arith) in
    (
      switched ts_address p l,
      rw (s, d) refl,
      record {
        base = base;
        limit = limit;
        others = others;
        segment = refl;
        stack = omega arith;
        task = refl;
        space = refl;
      },
      rw (ready, s, d) refl,
      rw s refl,
      rw (ready, s) refl,
      refl,
      rw ready refl,
    )
