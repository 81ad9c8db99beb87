-- ===== src/Main/Parts.antt =====
-- What `kernel_main` of init/main.c has put together when each of its parts has come up.
use tuix_os.Base.{ℕ, ◌≡◌, refl}
use tuix_os.Base.Outcome.{Outcome, ok}
use tuix_os.Process.{Kernel}
use tuix_os.Process.Scheduler.{sti}
use tuix_os.Boot.{SystemMemoryInfo, parse_multiboot2_info}
use tuix_os.Start.{Paging, boot_memory, init_user}
use tuix_os.Start.Main.{booted}
use tuix_os.Gdt.{init_gdt}
use tuix_os.Trap.{init_idt}
use tuix_os.Machine.{Machine}
use tuix_os.Devices.{init_pic, init_timer}
use tuix_os.Ide.{Ide, init_ide}
use tuix_os.Main.{System, Image, with_kmem, start_parts, init_keyboard_system}

-- The machine with its controllers, timer and keyboard set up.
abbrev pub started : (inb : ℕ → ℕ) → System → Paging → Machine
started inb s g = init_keyboard_system inb (init_timer 20 (init_pic (with_kmem g.kmem s.machine)))

-- What `start_parts` puts together.
abbrev pub assembled :
    (elsewhere : Kernel → Outcome Kernel)
    → Image
    → (inb : ℕ → ℕ) → System
    → SystemMemoryInfo
    → Paging
    → Ide
    → Kernel
    → System
assembled elsewhere l inb s info g ide k' = record {
  info = info;
  gdt = init_gdt s.gdt;
  kpgdir = g.kpgdir;
  cr3 = g.cr3;
  machine = record (started inb s g) { kernel = sti k' };
  idt = init_idt elsewhere l.stub l.idt_address s.idt;
  ide = ide;
}

pub start_parts-run :
    (elsewhere : Kernel → Outcome Kernel) (l : Image) (fuel magic mbi_addr : ℕ) (inb : ℕ → ℕ)
    (s : System) (info : SystemMemoryInfo) (g : Paging) (ide : Ide) (k' : Kernel)
    → parse_multiboot2_info fuel l.sections s.machine.kernel.kmem.mem magic mbi_addr s.info
      ≡ ok info
    → boot_memory fuel info.sections.kernel_end l.kdata_start_addr s.machine.kernel.kmem ≡ ok g
    → init_ide (inb 0xA1) s.ide ≡ ok ide
    → init_user fuel l.trap_ret l.fork_ret l.kdata_start_addr l.init l.size (started inb s g).kernel
      ≡ ok k'
    → start_parts elsewhere l fuel magic mbi_addr inb s
      ≡ ok (assembled elsewhere l inb s info g ide k')
unfolding start_parts
start_parts-run elsewhere l fuel magic mbi_addr inb s info g ide k' parsed booted answered made =
    rw (parsed, booted, answered, made) refl
