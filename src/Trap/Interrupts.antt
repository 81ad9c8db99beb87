-- ===== src/Trap/Interrupts.antt =====
-- The handlers of the sixteen lines of the interrupt controllers, 32 to 47, in
-- kernel/trap/interrupts.c.
use tuix_os.Base.Outcome.{ok}
use tuix_os.Machine.{Handler}
use tuix_os.Devices.{send_eoi, timer_handler, keyboard_handler}

unfoldable pub isr_timer_handler : Handler
unfolding timer_handler
isr_timer_handler frame m = timer_handler frame m

unfoldable pub isr_keyboard_handler : Handler
unfolding keyboard_handler
isr_keyboard_handler frame m = keyboard_handler frame m

unfoldable pub isr_cascade_handler : Handler
isr_cascade_handler frame m = ok (frame, m)

unfoldable pub isr_com2_handler : Handler
isr_com2_handler frame m = ok (frame, m)

unfoldable pub isr_com1_handler : Handler
isr_com1_handler frame m = ok (frame, m)

unfoldable pub isr_lpt2_handler : Handler
isr_lpt2_handler frame m = ok (frame, m)

unfoldable pub isr_floppy_handler : Handler
isr_floppy_handler frame m = ok (frame, m)

unfoldable pub isr_lpt1_handler : Handler
isr_lpt1_handler frame m = ok (frame, m)

unfoldable pub isr_rtc_handler : Handler
isr_rtc_handler frame m = ok (frame, m)

unfoldable pub isr_reserved_41_handler : Handler
isr_reserved_41_handler frame m = ok (frame, m)

unfoldable pub isr_reserved_42_handler : Handler
isr_reserved_42_handler frame m = ok (frame, m)

unfoldable pub isr_reserved_43_handler : Handler
isr_reserved_43_handler frame m = ok (frame, m)

unfoldable pub isr_ps2_mouse_handler : Handler
isr_ps2_mouse_handler frame m = ok (frame, m)

unfoldable pub isr_fpu_handler : Handler
isr_fpu_handler frame m = ok (frame, m)

unfoldable pub isr_ata1_handler : Handler
unfolding send_eoi
isr_ata1_handler frame m = ok (frame, send_eoi frame.int_no m)

unfoldable pub isr_ata2_handler : Handler
isr_ata2_handler frame m = ok (frame, m)
