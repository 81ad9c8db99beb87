-- ===== src/Trap/Exceptions.antt =====
-- The handlers of the processor's exceptions, 0 to 31, in kernel/trap/interrupts.c. A handler that
-- loops for ever hangs. What they print, and the control registers of the coprocessors that three of
-- them reset, are left out.
use tuix_os.Base.{◌+◌}
use tuix_os.Base.Outcome.{ok, hang}
use tuix_os.Memory.{u32}
use tuix_os.Machine.{Handler}

unfoldable pub isr_divide_error_handler : Handler
isr_divide_error_handler frame m = ok (record frame { eax = 0; eip = u32 (frame.eip + 2) }, m)

unfoldable pub isr_debug_exception_handler : Handler
isr_debug_exception_handler frame m = hang

unfoldable pub isr_nmi_handler : Handler
isr_nmi_handler frame m = hang

unfoldable pub isr_breakpoint_handler : Handler
isr_breakpoint_handler frame m = ok (frame, m)

unfoldable pub isr_overflow_handler : Handler
isr_overflow_handler frame m = ok (frame, m)

unfoldable pub isr_bounds_check_handler : Handler
isr_bounds_check_handler frame m = ok (frame, m)

unfoldable pub isr_invalid_opcode_handler : Handler
isr_invalid_opcode_handler frame m = hang

unfoldable pub isr_device_not_available_handler : Handler
isr_device_not_available_handler frame m = ok (frame, m)

unfoldable pub isr_double_fault_handler : Handler
isr_double_fault_handler frame m = hang

unfoldable pub isr_coprocessor_segment_handler : Handler
isr_coprocessor_segment_handler frame m = ok (frame, m)

unfoldable pub isr_invalid_tss_handler : Handler
isr_invalid_tss_handler frame m = hang

unfoldable pub isr_segment_not_present_handler : Handler
isr_segment_not_present_handler frame m = ok (frame, m)

unfoldable pub isr_stack_segment_fault_handler : Handler
isr_stack_segment_fault_handler frame m = hang

unfoldable pub isr_general_protection_fault_handler : Handler
isr_general_protection_fault_handler frame m = hang

unfoldable pub isr_page_fault_handler : Handler
isr_page_fault_handler frame m = hang

unfoldable pub isr_reserved_15_handler : Handler
isr_reserved_15_handler frame m = ok (frame, m)

unfoldable pub isr_floating_point_handler : Handler
isr_floating_point_handler frame m = ok (frame, m)

unfoldable pub isr_alignment_check_handler : Handler
isr_alignment_check_handler frame m = ok (frame, m)

unfoldable pub isr_machine_check_handler : Handler
isr_machine_check_handler frame m = hang

unfoldable pub isr_simd_floating_point_handler : Handler
isr_simd_floating_point_handler frame m = ok (frame, m)

unfoldable pub isr_virtualization_handler : Handler
isr_virtualization_handler frame m = ok (frame, m)

unfoldable pub isr_control_protection_handler : Handler
isr_control_protection_handler frame m = ok (frame, m)

unfoldable pub isr_reserved_22_handler : Handler
isr_reserved_22_handler frame m = ok (frame, m)

unfoldable pub isr_reserved_23_handler : Handler
isr_reserved_23_handler frame m = ok (frame, m)

unfoldable pub isr_reserved_24_handler : Handler
isr_reserved_24_handler frame m = ok (frame, m)

unfoldable pub isr_reserved_25_handler : Handler
isr_reserved_25_handler frame m = ok (frame, m)

unfoldable pub isr_reserved_26_handler : Handler
isr_reserved_26_handler frame m = ok (frame, m)

unfoldable pub isr_reserved_27_handler : Handler
isr_reserved_27_handler frame m = ok (frame, m)

unfoldable pub isr_hypervisor_injection_handler : Handler
isr_hypervisor_injection_handler frame m = ok (frame, m)

unfoldable pub isr_vmm_communication_handler : Handler
isr_vmm_communication_handler frame m = ok (frame, m)

unfoldable pub isr_security_exception_handler : Handler
isr_security_exception_handler frame m = ok (frame, m)

unfoldable pub isr_reserved_31_handler : Handler
isr_reserved_31_handler frame m = ok (frame, m)
