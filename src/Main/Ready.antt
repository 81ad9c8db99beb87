-- ===== src/Main/Ready.antt =====
-- What `kernel_main` of init/main.c has set up when it comes to the scheduler.
use tuix_os.Base.{
  ℕ, length, ◌+◌, ◌*◌, ◌^◌, ◌<◌, ◌≤◌, ◌≡◌, ◌≢◌, inr, true, some, List, [], ◌∷◌, ◌++◌, All,
  get_elem?, arith,
}
use tuix_os.Base.Outcome.{Outcome, ok}
use tuix_os.Memory.{null, u32}
use tuix_os.Mmu.{pg_round_up, pgsize, kernlink}
use tuix_os.Spinlock.{init_lock}
use tuix_os.Process.Table.{IsFirstUnused}
use tuix_os.Process.{Proc, Kernel}
use tuix_os.Process.Scheduler.{sti}
use tuix_os.Console.Screen.{kprint}
use tuix_os.Boot.{SystemMemoryInfo, tag_loop}
use tuix_os.Boot.Tags.{Tags, IsSane, tag_loop_sane}
use tuix_os.Kalloc.Chain.{IsFree}
use tuix_os.Kalloc.Range.{pages_onto, page_count}
use tuix_os.Vm.Kernel.{IsData}
use tuix_os.Start.{Paging, boot_memory, init_user, first_end}
use tuix_os.Start.Memory.{IsBooted}
use tuix_os.Start.User.{IsFirst}
use tuix_os.Start.Main.{top_page, second_page, booted, init_user-booted}
use tuix_os.Ide.{Ide, byte}
use tuix_os.Ide.Start.{ready, IsBusy}
use tuix_os.Ide.Probe.{silent, before, selected}
use tuix_os.Main.{System, Image, keyboard_text, init_show, shown}
use tuix_os.Main.Parts.{assembled}
use tuix_os.Main.Screen.{kprint_off}

-- The kernel behind `init_keyboard_system`, with the pages as `boot_memory` left them.
abbrev pub greeted : System → Paging → Kernel
greeted s g = record (s.machine.kernel) {
  kmem = record (g.kmem) { mem = kprint 5 0 keyboard_text g.kmem.mem };
}

-- The system behind `kernel_main` with the process of entry `i` as the first: memory and process as
-- `IsBooted` and `IsFirst` say, interrupts on, the information of the boot loader with the linker's addresses,
-- and the masks. The last mask of the first controller, 0xFD, lets the keyboard through and
-- nothing else, neither the timer nor the second controller; the one of the second, 0xBF, the disk.
pub record IsReady (l : Image) (info : SystemMemoryInfo) (ide : Ide) (rest : List ℕ) (s s' : System)
    (i : ℕ) (p : Proc) : Type 1 where
  pub g : Paging
  pub k' : Kernel
  pub memory : IsBooted l.sections.kernel_end l.kdata_start_addr (shown s).machine.kernel.kmem g
  pub loaded : s'.cr3 ≡ 0x3f_f000
  pub directory : s'.kpgdir ≡ g.kpgdir
  pub first :
      IsFirst l.trap_ret l.fork_ret l.kdata_start_addr l.init l.size
        (greeted (shown s) g)
        k'
        i
        p
        top_page
        second_page
        (pages_onto 56_318 first_end memory.left)
  pub pages : List ℕ
  pub free : IsFree s'.machine.kernel.kmem pages
  pub most : 56_320 + page_count (pg_round_up l.sections.kernel_end) first_end ≤ length pages + 137
  pub kernel : s'.machine.kernel ≡ sti k'
  pub interrupts_on : s'.machine.kernel.cpu.iflag ≡ true
  pub information : s'.info ≡ record info { sections = l.sections }
  pub earlier : List (ℕ × ℕ)
  pub masked : s'.machine.writes ≡ earlier ++ ((0x21, 0xFD) ∷ [])
  pub disk : s'.ide ≡ record ide {
    lock = init_lock;
    disk = record (ide.disk) {
      states = rest;
      sent =
          ((ide.disk.sent ++ (byte 0xA1 0xBF ∷ [])) ++ (byte 0x1F6 0xF0 ∷ []))
          ++ (byte 0x1F6 0xE0 ∷ []);
    };
  }

module _ (elsewhere : Kernel → Outcome Kernel) (l : Image) (fuel mbi_addr : ℕ) (inb : ℕ → ℕ)
    (s : System) (i : ℕ) (p : Proc) (ide : Ide) (busy : List ℕ) (r n q tag_count : ℕ)
    (rest : List ℕ) (enough : 2 ^ 20 < fuel) (d : IsData l.kdata_start_addr)
    (behind : kernlink ≤ l.sections.kernel_end)
    (room : l.sections.kernel_end + 68 * pgsize ≤ first_end)
    (empty : s.machine.kernel.kmem.freelist ≡ null)
    (search : IsFirstUnused s.machine.kernel.procs i)
    (at : get_elem? s.machine.kernel.procs i ≡ some p) (fits : l.size ≤ pgsize)
    (set : l.init ≢ null) (inside : l.init + l.size ≤ l.sections.kernel_end)
    (tags : Tags
      (init_show s.machine.kernel.kmem.mem)
      (IsSane (init_show s.machine.kernel.kmem.mem))
      (u32 (mbi_addr + 8))
      tag_count)
    (few : tag_count < fuel) (mask1 : inb 0x21 ≡ 0xFF) (mask2 : inb 0xA1 ≡ 0xFF)
    (port : s.ide ≡ before ide (busy ++ (r ∷ (silent n ++ (q ∷ rest))))) (a : All IsBusy busy)
    (e : ready r ≡ true) (soon : n < 1000) (there : q ≢ 0) where
  walked :
      (info : SystemMemoryInfo) × (tag_loop fuel
          (init_show s.machine.kernel.kmem.mem)
          (u32 (mbi_addr + 8))
          s.info
        ≡ ok info)
  walked =
      tag_loop_sane fuel tag_count (init_show s.machine.kernel.kmem.mem) (u32 (mbi_addr + 8)) s.info
        tags few

  abbrev info : SystemMemoryInfo
  info = walked.0

  abbrev boot :
      (g : Paging) × (boot_memory fuel l.sections.kernel_end l.kdata_start_addr
          (shown s).machine.kernel.kmem
        ≡ ok g)
      × IsBooted l.sections.kernel_end l.kdata_start_addr (shown s).machine.kernel.kmem g
  boot =
      booted fuel l.sections.kernel_end l.kdata_start_addr l.trap_ret l.fork_ret l.init l.size
        (shown s).machine.kernel i p enough d behind room empty search at fits set inside

  abbrev g : Paging
  g = boot.0

  first :
      (k' : Kernel) × (init_user fuel l.trap_ret l.fork_ret l.kdata_start_addr l.init l.size
          (greeted (shown s) g)
        ≡ ok k')
      × IsFirst l.trap_ret l.fork_ret l.kdata_start_addr l.init l.size
          (greeted (shown s) g)
          k'
          i
          p
          top_page
          second_page
          (pages_onto 56_318 first_end boot.2.left)
  first =
      init_user-booted fuel l.sections.kernel_end l.kdata_start_addr l.trap_ret l.fork_ret l.init
        l.size (shown s).machine.kernel i p enough d behind room empty search at fits set inside
        (kprint 5 0 keyboard_text g.kmem.mem)
        (λ x h. kprint_off x (inr (omega arith)) 5 0 keyboard_text g.kmem.mem)

  abbrev answered : Ide
  answered = record ide {
    lock = init_lock;
    disk = record (ide.disk) {
      states = rest;
      sent = selected (inb 0xA1) ide ++ (byte 0x1F6 0xE0 ∷ []);
    };
  }

  abbrev result : System
  result =
      assembled elsewhere l inb (shown s) (record info { sections = l.sections }) g answered first.0
