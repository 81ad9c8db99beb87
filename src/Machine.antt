-- ===== src/Machine.antt =====
-- What an interrupt handler of the kernel works on: the frame of registers that the assembly code of
-- `trap` saves (include/Tuix/trap_frame.h, its padding left out) and the machine around it. The text
-- printed on the serial line is not kept, only the key presses that kernel/drivers/keyboard.c reports.
use tuix_os.Base.{ℕ, List, [], ◌∷◌, ◌++◌}
use tuix_os.Base.Outcome.{Outcome}
use tuix_os.Process.{Kernel}

-- `struct trap_frame`
pub record TrapFrame : Type 0 where
  pub edi : ℕ
  pub esi : ℕ
  pub ebp : ℕ
  pub esp : ℕ
  pub ebx : ℕ
  pub edx : ℕ
  pub ecx : ℕ
  pub eax : ℕ
  pub gs : ℕ
  pub fs : ℕ
  pub es : ℕ
  pub ds : ℕ
  pub int_no : ℕ
  pub err_code : ℕ
  pub eip : ℕ
  pub cs : ℕ
  pub eflags : ℕ
  pub user_esp : ℕ
  pub ss : ℕ

-- A report of the keyboard handler.
pub data Key : Type 0 where
  typed : (c scancode : ℕ) → Key
  special : (scancode : ℕ) → Key

-- The kernel, the addresses in `ofile` of the current process, the bytes written to ports with the
-- oldest first, `timer_ticks`, the byte that waits in port 0x60, and the reported keys.
pub record Machine : Type 0 where
  pub kernel : Kernel
  pub ofile : ℕ → ℕ
  pub writes : List (ℕ × ℕ)
  pub ticks : ℕ
  pub keyboard : ℕ
  pub keys : List Key

abbrev pub outb : (port value : ℕ) → Machine → Machine
outb port value m = record m { writes = m.writes ++ ((port, value) ∷ []) }

abbrev pub Handler : Type 0
Handler = TrapFrame → Machine → Outcome (TrapFrame × Machine)
