-- ===== src/Uvm.antt =====
-- The switch into the address space of a process and back, `switch_uvm` and `switch_kvm` of
-- kernel/mm/vm.c: what the processor has loaded, with the fields of `struct tss_entry` that are set.
pub mod Switch
use tuix_os.Base.{ℕ, ◌+◌, ◌-◌, ◌*◌, ◌^◌, Option, none, some, ◌==◌, if◌then◌else◌}
use tuix_os.Base.Outcome.{Outcome, ok, panic}
use tuix_os.Memory.{null, u32}
use tuix_os.Mmu.{v2p}
use tuix_os.Gdt.{Gdt, set_tss_entry}
use tuix_os.Process.{Proc, kstack_size}

-- `struct tss_entry`
pub record Tss : Type 0 where
  pub ss0 : ℕ
  pub esp0 : ℕ
  pub iomap_base : ℕ

-- The descriptors and the task state of the processor, its task register, and CR3.
pub record Loaded : Type 0 where
  pub gdt : Gdt
  pub ts : Tss
  pub tr : ℕ
  pub cr3 : ℕ

abbrev pub tss_index : ℕ
tss_index = 5

-- `KER_DS` and `TSS_S`
abbrev pub ker_ds : ℕ
ker_ds = 2 * 2 ^ 3

abbrev pub tss_s : ℕ
tss_s = tss_index * 2 ^ 3

-- `sizeof(struct tss_entry)`
abbrev pub tss_size : ℕ
tss_size = 104

-- What a process with a kernel stack and a page directory gets.
abbrev pub switched : (ts_address : ℕ) → Proc → Loaded → Loaded
switched ts_address p l = record {
  gdt = set_tss_entry tss_index ts_address (tss_size - 1) 0x89 0x40 l.gdt;
  ts = record { ss0 = ker_ds; esp0 = u32 (p.kstack + kstack_size); iomap_base = 0xFFFF };
  tr = tss_s;
  cr3 = v2p p.pgdir;
}

-- none stands for the null pointer, `ts_address` for the address of the task state.
unfoldable pub switch_uvm : (ts_address : ℕ) → Option Proc → Loaded → Outcome Loaded
switch_uvm ts_address none l = panic
switch_uvm ts_address (some p) l =
    if p.kstack == null
    then panic
    else if p.pgdir == null
    then panic
    else ok (switched ts_address p l)

unfoldable pub switch_kvm : (kpgdir : ℕ) → Loaded → Loaded
switch_kvm kpgdir l = record l { cr3 = v2p kpgdir }
