-- ===== src/Sleeplock.antt =====
-- Sleep locks, kernel/sys/sleeplock.c: a lock for which a process waits asleep. `release_sleep` and
-- `holding_sleep` have no body in the source. The field `name` is left out.
pub mod Taking
use tuix_os.Base.{ℕ, Bool, ◌==◌, if◌then◌else◌}
use tuix_os.Base.Outcome.{Outcome, ok, ◌>>=◌}
use tuix_os.Spinlock.{Spinlock, init_lock, acquire, release}
use tuix_os.Process.{Kernel, SleepLock, null_lock, table_lock, other, sleep_enter, sleep_resume}

-- `struct sleeplock`
pub record Sleeplock : Type 0 where
  pub locked : ℕ
  pub lk : Spinlock
  pub pid : ℕ

unfoldable pub init_sleeplock : Sleeplock
unfolding init_lock
init_sleeplock = record { locked = 0; lk = init_lock; pid = 0 }

-- `acquire_sleep` returns with the lock, or is in `sched` with the interrupt flag that `sched` has saved.
pub data Waiting : Type 0 where
  acquired : Kernel → Sleeplock → Waiting
  sleeping_on : (intena : Bool) → Kernel → Sleeplock → Waiting

-- The spin lock that `sleep` hands back.
abbrev pub spinlock_of : SleepLock → Spinlock → Spinlock
spinlock_of null_lock lk = lk
spinlock_of table_lock lk = lk
spinlock_of (other lk') lk = lk'

-- `while(lk->locked)` and what is behind it, with the spin lock held. `address` stands for `lk`, and
-- `cpu_pid` for the field `pid` of the processor.
unfoldable pub take_or_sleep : (fuel cpu_pid address : ℕ) → Kernel → Sleeplock → Outcome Waiting
unfolding release sleep_enter
take_or_sleep fuel cpu_pid address k lk =
    if lk.locked == 0
    then (do
      (c, l) ← release k.cpu lk.lk
      ok (acquired (record k { cpu = c }) (record { locked = 1; lk = l; pid = cpu_pid })))
    else (do
      (intena, l, k) ← sleep_enter fuel k address (other lk.lk)
      ok (sleeping_on intena k (record lk { lk = spinlock_of l lk.lk })))

-- `acquire_sleep` up to its first switch.
unfoldable pub acquire_sleep_enter :
    (fuel cpu_pid address : ℕ) → Kernel → Sleeplock → Outcome Waiting
unfolding acquire take_or_sleep
acquire_sleep_enter fuel cpu_pid address k lk = do
  (c, l) ← acquire fuel k.cpu lk.lk
  take_or_sleep fuel cpu_pid address (record k { cpu = c }) (record lk { lk = l })

-- `acquire_sleep` behind the switch back.
unfoldable pub acquire_sleep_resume :
    (fuel cpu_pid address : ℕ) → Bool → Kernel → Sleeplock → Outcome Waiting
unfolding sleep_resume take_or_sleep
acquire_sleep_resume fuel cpu_pid address intena k lk = do
  (l, k) ← sleep_resume fuel intena (other lk.lk) k
  take_or_sleep fuel cpu_pid address k (record lk { lk = spinlock_of l lk.lk })
