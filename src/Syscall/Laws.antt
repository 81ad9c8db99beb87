-- ===== src/Syscall/Laws.antt =====
-- The system calls of kernel/sys/syscall.c.
use tuix_os.Base.{ℕ, ◌≡◌, ◌≢◌, false, none, some, arith, ap}
use tuix_os.Base.Outcome.{Outcome, ok, panic, fault}
use tuix_os.Process.{Kernel, zombie, set_state, change_current, modify}
use tuix_os.Process.Switch.{sched-unlocked}
use tuix_os.Spinlock.{is_held_by}
use tuix_os.Spinlock.Nesting.{IsSound}
use tuix_os.Machine.{TrapFrame, Machine}
use tuix_os.Syscall.{exit_call, serve, syscall_handlers, minus_one, sys_exit_no, sys_open, sys_read}

exit_call-panic :
    (elsewhere : Kernel → Outcome Kernel) (m : Machine) (i : ℕ)
    → m.kernel.current ≡ some i
    → IsSound m.kernel.cpu
    → is_held_by m.kernel.lock m.kernel.cpu.id ≡ false
    → exit_call elsewhere m ≡ panic
unfolding exit_call
exit_call-panic elsewhere m i here v free =
    let k : Kernel = record (m.kernel) { procs = modify (set_state zombie) i m.kernel.procs } in
    let change : change_current (set_state zombie) m.kernel ≡ ok k =
      ap
        (λ o. elim o [
          | none ↦ fault
          | some j ↦ ok (record (m.kernel) { procs = modify (set_state zombie) j m.kernel.procs })
        ])
        here in
    rw (change, sched-unlocked k (record { off = v.off }) free)

-- The exit call, made as a process makes it, without the lock of the process table, panics in
-- `sched`, whatever the rest of the system does.
pub syscall_exit-panic :
    (elsewhere : Kernel → Outcome Kernel) (frame : TrapFrame) (m : Machine) (i : ℕ)
    → frame.eax ≡ sys_exit_no
    → m.kernel.current ≡ some i
    → IsSound m.kernel.cpu
    → is_held_by m.kernel.lock m.kernel.cpu.id ≡ false
    → syscall_handlers elsewhere frame m ≡ panic
unfolding syscall_handlers serve
syscall_exit-panic elsewhere frame m i e here v free =
    rw (e, exit_call-panic elsewhere m i here v free)

-- A call that is neither exit nor write gives -1 in `eax`, and changes nothing else.
pub syscall_unserved :
    (elsewhere : Kernel → Outcome Kernel) (frame : TrapFrame) (m : Machine)
    → frame.eax ≢ 2
    → frame.eax ≢ 16
    → syscall_handlers elsewhere frame m ≡ ok (record frame { eax = minus_one }, m)
unfolding syscall_handlers serve sys_open sys_read
syscall_unserved elsewhere frame m a b = ground arith
