-- ===== src/Main.antt =====
-- `kernel_main` of init/main.c: the parts in the order in which it starts them, up to the scheduler. What it
-- prints on the serial line changes nothing and is left out.
pub mod Screen
pub mod Parts
pub mod Ready
use tuix_os.Base.{ℕ, zero, suc, ◌+◌, List, [], ◌∷◌, ◌++◌}
use tuix_os.Base.Outcome.{Outcome, ok, ◌>>=◌}
use tuix_os.Memory.{Mem}
use tuix_os.Kalloc.{Kmem}
use tuix_os.Process.{Kernel}
use tuix_os.Process.Scheduler.{sti}
use tuix_os.Console.Serial.{init_serial}
use tuix_os.Console.Screen.{kprint, clear_screen}
use tuix_os.Boot.{Sections, SystemMemoryInfo, parse_multiboot2_info}
use tuix_os.Gdt.{Gdt, init_gdt}
use tuix_os.Start.{Paging, boot_memory, init_user}
use tuix_os.Machine.{Machine}
use tuix_os.Devices.{init_pic, init_timer, enable_irq}
use tuix_os.Trap.{IdtState, init_idt}
use tuix_os.Ide.{Ide, init_ide}

-- `logo`
abbrev pub logo : List (List ℕ)
logo =
    (0x54 ∷ 0x54 ∷ 0x54 ∷ 0x54 ∷ 0x54 ∷ 0x54 ∷ 0x54 ∷ 0x54 ∷ 0x20 ∷ 0x20 ∷ 0x55 ∷ 0x55 ∷ 0x20 ∷ 0x20
      ∷ 0x20 ∷ 0x55 ∷ 0x55 ∷ 0x20 ∷ 0x20 ∷ 0x49 ∷ 0x49 ∷ 0x49 ∷ 0x49 ∷ 0x49 ∷ 0x49 ∷ 0x20 ∷ 0x20
      ∷ 0x23 ∷ 0x23 ∷ 0x20 ∷ 0x20 ∷ 0x20 ∷ 0x23 ∷ 0x23 ∷ 0x20 ∷ [])
    ∷ (0x20 ∷ 0x20 ∷ 0x20 ∷ 0x54 ∷ 0x54 ∷ 0x20 ∷ 0x20 ∷ 0x20 ∷ 0x20 ∷ 0x20 ∷ 0x55 ∷ 0x55 ∷ 0x20
        ∷ 0x20 ∷ 0x20 ∷ 0x55 ∷ 0x55 ∷ 0x20 ∷ 0x20 ∷ 0x20 ∷ 0x20 ∷ 0x49 ∷ 0x49 ∷ 0x20 ∷ 0x20 ∷ 0x20
        ∷ 0x20 ∷ 0x20 ∷ 0x20 ∷ 0x23 ∷ 0x20 ∷ 0x23 ∷ 0x20 ∷ 0x20 ∷ 0x20 ∷ [])
    ∷ (0x20 ∷ 0x20 ∷ 0x20 ∷ 0x54 ∷ 0x54 ∷ 0x20 ∷ 0x20 ∷ 0x20 ∷ 0x20 ∷ 0x20 ∷ 0x55 ∷ 0x55 ∷ 0x20
        ∷ 0x20 ∷ 0x20 ∷ 0x55 ∷ 0x55 ∷ 0x20 ∷ 0x20 ∷ 0x20 ∷ 0x20 ∷ 0x49 ∷ 0x49 ∷ 0x20 ∷ 0x20 ∷ 0x20
        ∷ 0x20 ∷ 0x20 ∷ 0x20 ∷ 0x20 ∷ 0x23 ∷ 0x20 ∷ 0x20 ∷ 0x20 ∷ 0x20 ∷ [])
    ∷ (0x20 ∷ 0x20 ∷ 0x20 ∷ 0x54 ∷ 0x54 ∷ 0x20 ∷ 0x20 ∷ 0x20 ∷ 0x20 ∷ 0x20 ∷ 0x55 ∷ 0x55 ∷ 0x20
        ∷ 0x20 ∷ 0x20 ∷ 0x55 ∷ 0x55 ∷ 0x20 ∷ 0x20 ∷ 0x20 ∷ 0x20 ∷ 0x49 ∷ 0x49 ∷ 0x20 ∷ 0x20 ∷ 0x20
        ∷ 0x20 ∷ 0x20 ∷ 0x20 ∷ 0x23 ∷ 0x20 ∷ 0x23 ∷ 0x20 ∷ 0x20 ∷ 0x20 ∷ [])
    ∷ (0x20 ∷ 0x20 ∷ 0x20 ∷ 0x54 ∷ 0x54 ∷ 0x20 ∷ 0x20 ∷ 0x20 ∷ 0x20 ∷ 0x20 ∷ 0x20 ∷ 0x55 ∷ 0x55
        ∷ 0x55 ∷ 0x55 ∷ 0x55 ∷ 0x20 ∷ 0x20 ∷ 0x20 ∷ 0x49 ∷ 0x49 ∷ 0x49 ∷ 0x49 ∷ 0x49 ∷ 0x49 ∷ 0x20
        ∷ 0x20 ∷ 0x23 ∷ 0x23 ∷ 0x20 ∷ 0x20 ∷ 0x20 ∷ 0x23 ∷ 0x23 ∷ [])
    ∷ []

-- `for (int i = 0; i < logo_height; i++)` from `i` on.
unfoldable pub print_lines : (i : ℕ) → List (List ℕ) → Mem → Mem
unfolding kprint
print_lines i [] m = m
print_lines i (line ∷ lines) m = print_lines (i + 1) lines (kprint (9 + i) 21 line m)

abbrev pub logo_text : List ℕ
logo_text = 0x4C ∷ 0x4F ∷ 0x47 ∷ 0x4F ∷ 0x21 ∷ []

abbrev pub version_text : List ℕ
version_text =
    0x54 ∷ 0x75 ∷ 0x69 ∷ 0x78 ∷ 0x4F ∷ 0x53 ∷ 0x20 ∷ 0x76 ∷ 0x30 ∷ 0x2E ∷ 0x30 ∷ 0x31 ∷ []

abbrev pub done_text : List ℕ
done_text = 0x44 ∷ 0x6F ∷ 0x6E ∷ 0x65 ∷ 0x21 ∷ []

abbrev pub keyboard_text : List ℕ
keyboard_text =
    0x4B ∷ 0x65 ∷ 0x79 ∷ 0x62 ∷ 0x6F ∷ 0x61 ∷ 0x72 ∷ 0x64 ∷ 0x20 ∷ 0x73 ∷ 0x79 ∷ 0x73 ∷ 0x74 ∷ 0x65
    ∷ 0x6D ∷ 0x20 ∷ 0x72 ∷ 0x65 ∷ 0x61 ∷ 0x64 ∷ 0x79 ∷ 0x2E ∷ 0x2E ∷ 0x2E ∷ []

-- `while (c--) kprint(0, 0, "LOGO!")`
unfoldable pub print_while : (c : ℕ) → Mem → Mem
unfolding kprint
print_while zero m = m
print_while (suc c) m = print_while c (kprint 0 0 logo_text m)

unfoldable pub print_logo : Mem → Mem
unfolding print_lines print_while kprint
print_logo m =
    let m = print_lines 0 logo m in
    let m = kprint 20 33 version_text m in let m = print_while 500_000 m in kprint 0 0 done_text m

unfoldable pub init_show : Mem → Mem
unfolding clear_screen print_logo
init_show m = print_logo (clear_screen m)

-- What `kernel_main` starts: the processor's tables, `mem_info`, the register CR3 with `kpgdir`, the machine
-- with the kernel inside, and the disk driver.
pub record System : Type 0 where
  pub info : SystemMemoryInfo
  pub gdt : Gdt
  pub kpgdir : ℕ
  pub cr3 : ℕ
  pub machine : Machine
  pub idt : IdtState
  pub ide : Ide

-- What the linker decides: its own symbols, and the addresses of the assembly code, of `idt`, and of the code
-- of the first process with its size.
pub record Image : Type 0 where
  pub sections : Sections
  pub kdata_start_addr : ℕ
  pub stub : ℕ → ℕ
  pub idt_address : ℕ
  pub trap_ret : ℕ
  pub fork_ret : ℕ
  pub init : ℕ
  pub size : ℕ

abbrev pub with_mem : (Mem → Mem) → Machine → Machine
with_mem f m = record m {
  kernel = record (m.kernel) {
    kmem = record { mem = f m.kernel.kmem.mem; freelist = m.kernel.kmem.freelist };
  };
}

abbrev pub with_kmem : Kmem → Machine → Machine
with_kmem s m = record m { kernel = record (m.kernel) { kmem = s } }

-- `IRQ_KEYBOARD` is 1.
unfoldable pub init_keyboard_system : (inb : ℕ → ℕ) → Machine → Machine
unfolding enable_irq kprint
init_keyboard_system inb m = with_mem (kprint 5 0 keyboard_text) (enable_irq inb 1 m)

-- `kernel_main` behind `init_show`. `inb` gives the byte of a port that is read back. `elsewhere` stands for the
-- processes that run inside `sched`.
unfoldable pub start_parts :
    (elsewhere : Kernel → Outcome Kernel)
    → Image
    → (fuel magic mbi_addr : ℕ) → (inb : ℕ → ℕ) → System
    → Outcome System
unfolding parse_multiboot2_info init_gdt boot_memory init_pic init_idt init_timer
    init_keyboard_system init_ide init_user
start_parts elsewhere l fuel magic mbi_addr inb s = do
  info ← parse_multiboot2_info fuel l.sections s.machine.kernel.kmem.mem magic mbi_addr s.info
  g ← boot_memory fuel info.sections.kernel_end l.kdata_start_addr s.machine.kernel.kmem
  let m = init_keyboard_system inb (init_timer 20 (init_pic (with_kmem g.kmem s.machine)))
  ide ← init_ide (inb 0xA1) s.ide
  k ← init_user fuel l.trap_ret l.fork_ret l.kdata_start_addr l.init l.size m.kernel
  ok (record {
    info = info;
    gdt = init_gdt s.gdt;
    kpgdir = g.kpgdir;
    cr3 = g.cr3;
    machine = record m { kernel = sti k };
    idt = init_idt elsewhere l.stub l.idt_address s.idt;
    ide = ide;
  })

-- `init_serial` and `init_show`
abbrev pub shown : System → System
shown s = record s {
  machine = with_mem init_show (record (s.machine) { writes = init_serial s.machine.writes });
}

unfoldable pub kernel_main :
    (elsewhere : Kernel → Outcome Kernel)
    → Image
    → (fuel magic mbi_addr : ℕ) → (inb : ℕ → ℕ) → System
    → Outcome System
unfolding start_parts
kernel_main elsewhere l fuel magic mbi_addr inb s =
    start_parts elsewhere l fuel magic mbi_addr inb (shown s)
