-- ===== src/Syscall.antt =====
-- System calls, kernel/sys/syscall.c and kernel/sys/sysfile.c. A register is the bit pattern of the
-- `int` that is read from it.
pub mod Laws
use tuix_os.Base.{ℕ, ◌+◌, ◌-◌, ◌^◌, Option, none, some, ◌==◌, if◌then◌else◌}
use tuix_os.Base.Outcome.{Outcome, ok, fault, ◌>>=◌}
use tuix_os.Memory.{null, load32}
use tuix_os.Process.{Kernel, zombie, set_state, change_current, sched, sched_resume, modify}
use tuix_os.Machine.{TrapFrame, Machine}

-- The numbers of the calls that are served.
abbrev pub sys_exit_no : ℕ
sys_exit_no = 2

abbrev pub sys_read_no : ℕ
sys_read_no = 5

abbrev pub sys_open_no : ℕ
sys_open_no = 15

abbrev pub sys_write_no : ℕ
sys_write_no = 16

-- The pattern of -1.
abbrev pub minus_one : ℕ
minus_one = 2 ^ 32 - 1

-- `ref` is the first word of `struct file`. Without a current process, or a file under `fd`, the
-- code reads through a null pointer.
unfoldable pub sys_write : (fd count : ℕ) → Machine → Outcome ℕ
sys_write fd count m = elim m.kernel.current [
  | none ↦ fault
  | some i ↦
      if m.ofile fd == null
      then fault
      else ok (if load32 m.kernel.kmem.mem (m.ofile fd) == 0 then minus_one else count)
]

unfoldable pub sys_open : (path mode : ℕ) → ℕ
sys_open path mode = minus_one

unfoldable pub sys_read : (fd buf count : ℕ) → ℕ
sys_read fd buf count = minus_one

-- `case SYS_EXIT`. `elsewhere` is what the rest of the system does with the kernel between the
-- switch away and a switch back.
unfoldable pub exit_call : (elsewhere : Kernel → Outcome Kernel) → Machine → Outcome (ℕ × Machine)
unfolding sched sched_resume modify
exit_call elsewhere m = do
  k ← change_current (set_state zombie) m.kernel
  (intena, k) ← sched k
  k ← elsewhere k
  ok (0, record m { kernel = sched_resume intena k })

-- The `switch` of `syscall_handlers`: the value for `ret`.
unfoldable pub serve :
    (elsewhere : Kernel → Outcome Kernel) → TrapFrame → Machine → Outcome (ℕ × Machine)
unfolding exit_call sys_write sys_open sys_read
serve elsewhere frame m =
    if frame.eax == sys_exit_no
    then exit_call elsewhere m
    else if frame.eax == sys_write_no
    then (do ret ← sys_write frame.ebx frame.edx m; ok (ret, m))
    else if frame.eax == sys_open_no
    then ok (sys_open frame.ebx frame.ecx, m)
    else if frame.eax == sys_read_no
    then ok (sys_read frame.ebx frame.ecx frame.edx, m)
    else ok (minus_one, m)

unfoldable pub syscall_handlers :
    (elsewhere : Kernel → Outcome Kernel) → TrapFrame → Machine → Outcome (TrapFrame × Machine)
unfolding serve
syscall_handlers elsewhere frame m = do
  (ret, m) ← serve elsewhere frame m
  ok (record frame { eax = ret }, m)
