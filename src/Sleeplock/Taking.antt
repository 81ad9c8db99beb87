-- ===== src/Sleeplock/Taking.antt =====
-- `acquire_sleep` of kernel/sys/sleeplock.c on a free lock and on one that is taken.
use tuix_os.Base.{ℕ, ◌<◌, ◌≡◌, ◌≢◌, refl, ap, true, false, ◌==◌, arith}
use tuix_os.Base.Outcome.{ok}
use tuix_os.Spinlock.{init_lock, pushcli, release, is_held_by}
use tuix_os.Spinlock.Nesting.{IsSound, settled, popcli-pushcli}
use tuix_os.Spinlock.Locking.{holding-inside, acquire-free, taken}
use tuix_os.Process.{Kernel, Proc, modify}
use tuix_os.Process.Switch.{IsCurrent, IsInside, asleep, sleep_enter-other, pushcli-intena}
use tuix_os.Sleeplock.{Sleeplock, acquired, sleeping_on, take_or_sleep, acquire_sleep_enter}

-- A free sleep lock is taken at once: its spin lock is free again, and the processor has its interrupt
-- flag and its depth back.
pub acquire_sleep-free :
    (fuel cpu_pid address : ℕ) (k : Kernel) (lk : Sleeplock)
    → IsSound k.cpu
    → lk.lk.locked ≡ 0
    → lk.locked ≡ 0
    → 0 < fuel
    → acquire_sleep_enter fuel cpu_pid address k lk
      ≡ ok (
          acquired
            (record k { cpu = settled k.cpu })
            (record { locked = 1; lk = init_lock; pid = cpu_pid }))
unfolding acquire_sleep_enter take_or_sleep release init_lock
acquire_sleep-free fuel cpu_pid address k lk v spin_free free h =
    let mine : is_held_by (taken lk.lk k.cpu.id) k.cpu.id ≡ true = ground arith in
    rw
      (
        acquire-free fuel k.cpu lk.lk spin_free h,
        free,
        holding-inside k.cpu (taken lk.lk k.cpu.id),
        mine,
        popcli-pushcli k.cpu v,
      )
      refl

-- For a sleep lock that is taken, process `i` outside every lock goes to sleep on the lock's address: at
-- the switch the lock's spin lock is free, only the table's lock is held, and the lock is as it was.
pub acquire_sleep-taken :
    (fuel cpu_pid address i : ℕ) (k : Kernel) (p : Proc) (lk : Sleeplock)
    → IsCurrent k i p
    → lk.lk.locked ≡ 0
    → lk.locked ≢ 0
    → k.lock.locked ≡ 0
    → 0 < fuel
    → acquire_sleep_enter fuel cpu_pid address k lk
      ≡ ok (
          sleeping_on k.cpu.iflag
            (record k {
              cpu = pushcli k.cpu;
              lock = taken k.lock k.cpu.id;
              procs = modify (asleep address) i k.procs;
            })
            (record lk { lk = init_lock }))
unfolding acquire_sleep_enter take_or_sleep pushcli
acquire_sleep-taken fuel cpu_pid address i k p lk v spin_free set table_free h =
    let no : (lk.locked == 0) ≡ false = ground arith in
    let k' : Kernel = record k { cpu = pushcli k.cpu } in
    let outside = v.outside in
    let inside : IsInside (record k' { lock = taken lk.lk k.cpu.id }) i p = record {
      mine = ground arith;
      once = omega arith;
      off = refl;
      here = v.here;
      entry = v.entry;
    } in
    rw
      (
        acquire-free fuel k.cpu lk.lk spin_free h,
        no,
        sleep_enter-other fuel k' address i p (taken lk.lk k.cpu.id) inside table_free h,
      )
      (ap
        (λ b. ok (
          sleeping_on b
            (record k {
              cpu = pushcli k.cpu;
              lock = taken k.lock k.cpu.id;
              procs = modify (asleep address) i k.procs;
            })
            (record lk { lk = init_lock })))
        (pushcli-intena k.cpu v.outside))
