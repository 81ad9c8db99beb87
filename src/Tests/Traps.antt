-- ===== src/Tests/Traps.antt =====
-- Interrupts, drivers and system calls on one frame.
use tuix_os.Base.{
  ℕ, ◌+◌, ◌*◌, ◌==◌, if◌then◌else◌, ◌≡◌, inl, refl, false, true, none, some, [], ◌∷◌, length, arith,
}
use tuix_os.Base.Outcome.{ok, panic, hang}
use tuix_os.Process.{running}
use tuix_os.Machine.{TrapFrame, Machine}
use tuix_os.Devices.{pic1_cmd, pic2_cmd, keyboard_handler}
use tuix_os.Devices.Laws.{keyboard_handler_lem}
use tuix_os.Syscall.{syscall_handlers}
use tuix_os.Syscall.Laws.{syscall_exit-panic}
use tuix_os.Trap.{
  IdtEntry, IdtState, init_idt, empty_table, register_interrupt_handlers, isr_handler,
}
use tuix_os.Trap.Gate.{gate_offset}
use tuix_os.Trap.Gates.{init_idt_lem}
use tuix_os.Trap.Dispatch.{seen, isr_handler_lem}
use tuix_os.Gdt.{Gdt}

abbrev machine : Machine
machine = record {
  kernel = record {
    cpu = record { id = 0; iflag = true; ncli = 0; intena = false };
    lock = record { locked = 0; cpu = none };
    procs =
        record { pid = 1; state = running; pgdir = 0; tf = 0; ctx = 0; kstack = 0; chan = 0 } ∷ [];
    next_pid = 1;
    kmem = record { mem = λ a. 0; freelist = 0 };
    current = some 0;
  };
  ofile = λ fd. 0;
  writes = [];
  ticks = 41;
  keyboard = 0x1E;
  keys = [];
}

-- A frame of the interrupt `n` with `eax`.
abbrev frame : (n eax : ℕ) → TrapFrame
frame n a = record {
  edi = 0;
  esi = 0;
  ebp = 0;
  esp = 0;
  ebx = 0;
  edx = 0;
  ecx = 0;
  eax = a;
  gs = 0;
  fs = 0;
  es = 0;
  ds = 0;
  int_no = n;
  err_code = 0;
  eip = 0x1000;
  cs = 8;
  eflags = 0;
  user_esp = 0;
  ss = 0;
}

isr_handler_example :
    seen (isr_handler (register_interrupt_handlers ok empty_table) (frame 14 0) machine) ≡ hang
isr_handler_example = isr_handler_lem ok (frame 14 0) machine (omega arith) (omega arith)

abbrev no_gates : ℕ → IdtEntry
no_gates k = record { base_low = 0; selector = 0; zero_byte = 0; flags = 0; base_high = 0 }

keyboard_handler_example :
    (m' : Machine) × (keyboard_handler (frame 33 0) machine ≡ ok (frame 33 0, m'))
    × (length m'.keys ≡ 1)
    × (m'.writes ≡ (pic2_cmd, 0x20) ∷ (pic1_cmd, 0x20) ∷ [])
keyboard_handler_example = keyboard_handler_lem (frame 33 0) machine (omega arith) (omega arith)

exit_example : syscall_handlers ok (frame 128 2) machine ≡ panic
exit_example =
    syscall_exit-panic ok (frame 128 2) machine 0 refl refl (record { off = inl refl }) refl

abbrev no_segments : Gdt
no_segments k = record {
  limit_low = 0;
  base_low = 0;
  base_middle = 0;
  access = 0;
  granularity = 0;
  base_high = 0;
}

-- The table before it is set up: all zero.
abbrev idt_before : IdtState
idt_before = record {
  limit = 0;
  base = 0;
  gates = λ n. record { base_low = 0; selector = 0; zero_byte = 0; flags = 0; base_high = 0 };
  handlers = empty_table;
}

init_idt_example :
    ((init_idt ok (λ n. 0x8010_0000 + 16 * n) 0x8020_0000 idt_before).limit ≡ 8 * 255 + 7)
    × ((init_idt ok (λ n. 0x8010_0000 + 16 * n) 0x8020_0000 idt_before).base ≡ 0x8020_0000)
    × (gate_offset ((init_idt ok (λ n. 0x8010_0000 + 16 * n) 0x8020_0000 idt_before).gates 128)
        ≡ 0x8010_0000 + 16 * 128)
    × (((init_idt ok (λ n. 0x8010_0000 + 16 * n) 0x8020_0000 idt_before).gates 128).selector ≡ 0x08)
    × (((init_idt ok (λ n. 0x8010_0000 + 16 * n) 0x8020_0000 idt_before).gates 128).zero_byte ≡ 0)
    × (((init_idt ok (λ n. 0x8010_0000 + 16 * n) 0x8020_0000 idt_before).gates 128).flags
        ≡ (if 128 == 128 then 0xEE else 0x8E))
init_idt_example =
    init_idt_lem ok (λ n. 0x8010_0000 + 16 * n) 0x8020_0000 idt_before 128 (omega arith)
      (omega arith) (omega arith)
