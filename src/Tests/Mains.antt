-- ===== src/Tests/Mains.antt =====
-- `kernel_main` of init/main.c on a memory of zeros: the boot information has no tag but the last.
use tuix_os.Base.{◌+◌, ◌*◌, false, none, [], ◌∷◌, ◌++◌}
use tuix_os.Spinlock.{init_lock}
use tuix_os.Process.{Proc, Kernel, unused}
use tuix_os.Boot.{SystemMemoryInfo}
use tuix_os.Gdt.{flat}
use tuix_os.Trap.{empty_table}
use tuix_os.Ide.{Ide}
use tuix_os.Ide.Probe.{silent, before}
use tuix_os.Main.{System, Image}

abbrev blank : Proc
blank = record { pid = 0; state = unused; pgdir = 0; tf = 0; ctx = 0; kstack = 0; chan = 0 }

abbrev kernel : Kernel
kernel = record {
  cpu = record { id = 0; iflag = false; ncli = 0; intena = false };
  lock = record { locked = 0; cpu = none };
  procs = blank ∷ [];
  next_pid = 1;
  kmem = record { mem = λ a. 0; freelist = 0 };
  current = none;
}

abbrev image : Image
image = record {
  sections = record {
    kernel_start = 0x8010_0000;
    text_start = 0x8010_0000;
    text_end = 0x8018_0000;
    rodata_start = 0x8018_0000;
    rodata_end = 0x8020_0000;
    data_start = 0x8020_0000;
    data_end = 0x8028_0000;
    bss_start = 0x8028_0000;
    bss_end = 0x8030_0000;
    kernel_end = 0x8030_0000;
  };
  kdata_start_addr = 0x8020_0000;
  stub = λ n. 0x8010_3000 + 16 * n;
  idt_address = 0x8028_0000;
  trap_ret = 0x8010_1000;
  fork_ret = 0x8010_2000;
  init = 0x8020_4000;
  size = 44;
}

abbrev no_info : SystemMemoryInfo
no_info = record {
  memory_map = λ i. record { addr = 0; len = 0; type = 0; zero_word = 0 };
  memory_map_count = 0;
  total_physical_memory = 0;
  total_available_memory = 0;
  first_usable_addr = 0;
  last_usable_addr = 0;
  sections = image.sections;
  mem_lower = 0;
  mem_upper = 0;
}

abbrev ide : Ide
ide = record {
  lock = init_lock;
  queue = [];
  disk = record { states = []; sent = []; input = λ i. 0 };
}

-- The status port gives busy, ready, two zeros, and then the second disk.
abbrev system : System
system = record {
  info = no_info;
  gdt = λ k. flat 0;
  kpgdir = 0;
  cr3 = 0;
  machine = record {
    kernel = kernel;
    ofile = λ n. 0;
    writes = [];
    ticks = 0;
    keyboard = 0;
    keys = [];
  };
  idt = record {
    limit = 0;
    base = 0;
    gates = λ n. record { base_low = 0; selector = 0; zero_byte = 0; flags = 0; base_high = 0 };
    handlers = empty_table;
  };
  ide = before ide ((0x80 ∷ []) ++ (0x40 ∷ (silent 2 ++ (0x50 ∷ []))));
}
