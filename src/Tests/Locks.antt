-- ===== src/Tests/Locks.antt =====
-- The spin locks of kernel/sys/spinlock.c on one processor.
use tuix_os.Base.{◌≡◌, refl, inl, true, false, none, arith}
use tuix_os.Base.Outcome.{ok, ◌>>=◌}
use tuix_os.Spinlock.{Cpu, Spinlock, init_lock, acquire, release}
use tuix_os.Spinlock.Nesting.{IsSound, settled, push_times, pop_times, pop_times-push_times}
use tuix_os.Spinlock.Locking.{release-acquire}

abbrev cpu0 : Cpu
cpu0 = record { id = 0; iflag = true; ncli = 0; intena = false }

cpu0-IsSound : IsSound cpu0
cpu0-IsSound = record { off = inl refl }

abbrev free : Spinlock
free = record { locked = 0; cpu = none }

nesting_example : pop_times 3 (push_times 3 cpu0) ≡ ok (settled cpu0)
nesting_example = pop_times-push_times 3 cpu0 cpu0-IsSound

release_example :
    (acquire 1 cpu0 free >>= λ (c', lk'). release c' lk') ≡ ok (settled cpu0, init_lock)
release_example = release-acquire 1 cpu0 free cpu0-IsSound refl (omega arith)
