-- ===== src/Trap.antt =====
-- Interrupt dispatch: kernel/trap/idt.c with the lists of include/Tuix/idt_list.h, and the default
-- and system-call handlers of kernel/trap/interrupts.c.
pub mod Exceptions
pub mod Interrupts
pub mod Gate
pub mod Gates
pub mod Dispatch
use tuix_os.Base.{
  ℕ, zero, suc, ◌+◌, ◌-◌, ◌*◌, ◌/◌, ◌%◌, ◌^◌, Option, none, some, List, [], ◌∷◌, ◌++◌, ltb, ◌==◌,
  if◌then◌else◌,
}
use tuix_os.Base.Outcome.{Outcome, ok, hang}
use tuix_os.Memory.{u8, u16, u32}
use tuix_os.Process.{Kernel}
use tuix_os.Machine.{TrapFrame, Machine, Handler}
use tuix_os.Syscall.{syscall_handlers}
use tuix_os.Trap.Exceptions.{
  isr_divide_error_handler, isr_debug_exception_handler, isr_nmi_handler, isr_breakpoint_handler,
  isr_overflow_handler, isr_bounds_check_handler, isr_invalid_opcode_handler,
  isr_device_not_available_handler, isr_double_fault_handler, isr_coprocessor_segment_handler,
  isr_invalid_tss_handler, isr_segment_not_present_handler, isr_stack_segment_fault_handler,
  isr_general_protection_fault_handler, isr_page_fault_handler, isr_reserved_15_handler,
  isr_floating_point_handler, isr_alignment_check_handler, isr_machine_check_handler,
  isr_simd_floating_point_handler, isr_virtualization_handler, isr_control_protection_handler,
  isr_reserved_22_handler, isr_reserved_23_handler, isr_reserved_24_handler,
  isr_reserved_25_handler, isr_reserved_26_handler, isr_reserved_27_handler,
  isr_hypervisor_injection_handler, isr_vmm_communication_handler, isr_security_exception_handler,
  isr_reserved_31_handler,
}
use tuix_os.Trap.Interrupts.{
  isr_timer_handler, isr_keyboard_handler, isr_cascade_handler, isr_com2_handler, isr_com1_handler,
  isr_lpt2_handler, isr_floppy_handler, isr_lpt1_handler, isr_rtc_handler, isr_reserved_41_handler,
  isr_reserved_42_handler, isr_reserved_43_handler, isr_ps2_mouse_handler, isr_fpu_handler,
  isr_ata1_handler, isr_ata2_handler,
}

unfoldable pub isr_default_handler : Handler
isr_default_handler frame m = if ltb frame.int_no 32 then hang else ok (frame, m)

-- `IDT_LIST_EXP`
unfoldable pub idt_list_exp : List (ℕ × Handler)
unfolding isr_divide_error_handler isr_debug_exception_handler isr_nmi_handler
    isr_breakpoint_handler isr_overflow_handler isr_bounds_check_handler isr_invalid_opcode_handler
    isr_device_not_available_handler isr_double_fault_handler isr_coprocessor_segment_handler
    isr_invalid_tss_handler isr_segment_not_present_handler isr_stack_segment_fault_handler
    isr_general_protection_fault_handler isr_page_fault_handler isr_reserved_15_handler
    isr_floating_point_handler isr_alignment_check_handler isr_machine_check_handler
    isr_simd_floating_point_handler isr_virtualization_handler isr_control_protection_handler
    isr_reserved_22_handler isr_reserved_23_handler isr_reserved_24_handler isr_reserved_25_handler
    isr_reserved_26_handler isr_reserved_27_handler isr_hypervisor_injection_handler
    isr_vmm_communication_handler isr_security_exception_handler isr_reserved_31_handler
idt_list_exp =
    (0, isr_divide_error_handler)
    ∷ (1, isr_debug_exception_handler)
    ∷ (2, isr_nmi_handler)
    ∷ (3, isr_breakpoint_handler)
    ∷ (4, isr_overflow_handler)
    ∷ (5, isr_bounds_check_handler)
    ∷ (6, isr_invalid_opcode_handler)
    ∷ (7, isr_device_not_available_handler)
    ∷ (8, isr_double_fault_handler)
    ∷ (9, isr_coprocessor_segment_handler)
    ∷ (10, isr_invalid_tss_handler)
    ∷ (11, isr_segment_not_present_handler)
    ∷ (12, isr_stack_segment_fault_handler)
    ∷ (13, isr_general_protection_fault_handler)
    ∷ (14, isr_page_fault_handler)
    ∷ (15, isr_reserved_15_handler)
    ∷ (16, isr_floating_point_handler)
    ∷ (17, isr_alignment_check_handler)
    ∷ (18, isr_machine_check_handler)
    ∷ (19, isr_simd_floating_point_handler)
    ∷ (20, isr_virtualization_handler)
    ∷ (21, isr_control_protection_handler)
    ∷ (22, isr_reserved_22_handler)
    ∷ (23, isr_reserved_23_handler)
    ∷ (24, isr_reserved_24_handler)
    ∷ (25, isr_reserved_25_handler)
    ∷ (26, isr_reserved_26_handler)
    ∷ (27, isr_reserved_27_handler)
    ∷ (28, isr_hypervisor_injection_handler)
    ∷ (29, isr_vmm_communication_handler)
    ∷ (30, isr_security_exception_handler)
    ∷ (31, isr_reserved_31_handler)
    ∷ []

-- `IDT_LIST_PIC`
unfoldable pub idt_list_pic : List (ℕ × Handler)
unfolding isr_timer_handler isr_keyboard_handler isr_cascade_handler isr_com2_handler
    isr_com1_handler isr_lpt2_handler isr_floppy_handler isr_lpt1_handler isr_rtc_handler
    isr_reserved_41_handler isr_reserved_42_handler isr_reserved_43_handler isr_ps2_mouse_handler
    isr_fpu_handler isr_ata1_handler isr_ata2_handler
idt_list_pic =
    (32, isr_timer_handler)
    ∷ (33, isr_keyboard_handler)
    ∷ (34, isr_cascade_handler)
    ∷ (35, isr_com2_handler)
    ∷ (36, isr_com1_handler)
    ∷ (37, isr_lpt2_handler)
    ∷ (38, isr_floppy_handler)
    ∷ (39, isr_lpt1_handler)
    ∷ (40, isr_rtc_handler)
    ∷ (41, isr_reserved_41_handler)
    ∷ (42, isr_reserved_42_handler)
    ∷ (43, isr_reserved_43_handler)
    ∷ (44, isr_ps2_mouse_handler)
    ∷ (45, isr_fpu_handler)
    ∷ (46, isr_ata1_handler)
    ∷ (47, isr_ata2_handler)
    ∷ []

-- `interrupt_handlers`
abbrev pub Table : Type 0
Table = ℕ → Option Handler

abbrev pub empty_table : Table
empty_table n = none

unfoldable pub register_interrupt_handler : (n : ℕ) → Handler → Table → Table
register_interrupt_handler n handler t k = if k == u8 n then some handler else t k

unfoldable pub register_all : List (ℕ × Handler) → Table → Table
unfolding register_interrupt_handler
register_all [] t = t
register_all ((n, handler) ∷ l) t = register_all l (register_interrupt_handler n handler t)

module _ (elsewhere : Kernel → Outcome Kernel) where
  unfoldable pub isr_syscall_handler : Handler
  unfolding syscall_handlers
  isr_syscall_handler frame m = syscall_handlers elsewhere frame m

  unfoldable pub register_interrupt_handlers : Table → Table
  unfolding register_all idt_list_exp idt_list_pic isr_syscall_handler
  register_interrupt_handlers t =
      register_all ((128, isr_syscall_handler) ∷ [])
        (register_all idt_list_pic (register_all idt_list_exp t))

unfoldable pub isr_handler : Table → Handler
unfolding isr_default_handler
isr_handler t frame m = elim (t frame.int_no) [
  | none ↦ isr_default_handler frame m
  | some handler ↦ handler frame m
]

-- `struct idt_entry`
pub record IdtEntry : Type 0 where
  pub base_low : ℕ
  pub selector : ℕ
  pub zero_byte : ℕ
  pub flags : ℕ
  pub base_high : ℕ

unfoldable pub gate : (base sel flags : ℕ) → IdtEntry
gate base sel flags = record {
  base_low = base % 2 ^ 16;
  selector = u16 sel;
  zero_byte = 0;
  flags = u8 flags;
  base_high = base / 2 ^ 16 % 2 ^ 16;
}

unfoldable pub idt_set_gate : (num base sel flags : ℕ) → (ℕ → IdtEntry) → ℕ → IdtEntry
unfolding gate
idt_set_gate num base sel flags idt k = if k == u8 num then gate base sel flags else idt k

-- The numbers from `start` on, `n` of them.
unfoldable pub numbers_from : (start n : ℕ) → List ℕ
numbers_from start zero = []
numbers_from start (suc n) = start ∷ numbers_from (start + 1) n

abbrev pub numbers : List (ℕ × Handler) → List ℕ
numbers [] = []
numbers ((n, _) ∷ l) = n ∷ numbers l

-- `IDT_LIST_OTHER`: 48 to 127 and 129 to 255.
unfoldable pub idt_list_other : List ℕ
unfolding numbers_from
idt_list_other = numbers_from 48 80 ++ numbers_from 129 127

-- What `#define X(num, name)` makes of one of the lists: a gate of the kernel's code segment for each
-- number, to the number's stub. `stub` stands for the addresses of the assembly stubs.
unfoldable pub set_gates : (stub : ℕ → ℕ) → (flags : ℕ) → List ℕ → (ℕ → IdtEntry) → ℕ → IdtEntry
unfolding idt_set_gate
set_gates stub flags [] idt = idt
set_gates stub flags (n ∷ l) idt = set_gates stub flags l (idt_set_gate n (stub n) 0x08 flags idt)

unfoldable pub idt_set : (stub : ℕ → ℕ) → (ℕ → IdtEntry) → ℕ → IdtEntry
unfolding set_gates idt_list_exp idt_list_pic idt_list_other
idt_set stub idt = set_gates stub 0x8E idt_list_other (
    set_gates stub 0xEE (128 ∷ [])
      (set_gates stub 0x8E (numbers idt_list_pic) (set_gates stub 0x8E (numbers idt_list_exp) idt)))

-- `idt`, `interrupt_handlers`, and `idtp`, which the processor loads.
pub record IdtState : Type 0 where
  pub limit : ℕ
  pub base : ℕ
  pub gates : ℕ → IdtEntry
  pub handlers : Table

-- `idt_address` stands for the address of `idt`.
unfoldable pub init_idt :
    (elsewhere : Kernel → Outcome Kernel) → (stub : ℕ → ℕ) → (idt_address : ℕ) → IdtState → IdtState
unfolding idt_set register_interrupt_handlers
init_idt elsewhere stub idt_address s = record {
  limit = u16 (8 * 256 - 1);
  base = u32 idt_address;
  gates = idt_set stub s.gates;
  handlers = register_interrupt_handlers elsewhere s.handlers;
}
