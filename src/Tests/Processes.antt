-- ===== src/Tests/Processes.antt =====
-- kernel/sys/process.c with a table of three entries, of which the second runs.
use tuix_os.Base.{◌≡◌, inl, refl, true, false, none, some, List, [], ◌∷◌, arith}
use tuix_os.Base.Outcome.{ok}
use tuix_os.Kalloc.{kalloc}
use tuix_os.Spinlock.{Spinlock, init_lock, pushcli}
use tuix_os.Spinlock.Nesting.{settled}
use tuix_os.Spinlock.Locking.{taken}
use tuix_os.Process.{
  Proc, ProcState, unused, running, sleeping, Kernel, find_unused, modify, sleep_enter, other,
  wakeup, alloc_process,
}
use tuix_os.Process.Switch.{sleep_enter-other, asleep, IsWoken, wakeup_lem}
use tuix_os.Sleeplock.{Sleeplock, sleeping_on, acquire_sleep_enter}
use tuix_os.Sleeplock.Taking.{acquire_sleep-taken}
use tuix_os.Process.Table.{find_unused_lem}
use tuix_os.Process.Alloc.{IsBorn, alloc_process_lem}

abbrev proc_in : ProcState → Proc
proc_in st = record { pid = 7; state = st; pgdir = 0; tf = 0; ctx = 0; kstack = 0; chan = 0x40 }

abbrev table : List Proc
table = proc_in sleeping ∷ proc_in running ∷ proc_in unused ∷ []

-- Outside every lock, with interrupts on and one page free.
abbrev idle : Kernel
idle = record {
  cpu = record { id = 0; iflag = true; ncli = 0; intena = false };
  lock = record { locked = 0; cpu = none };
  procs = table;
  next_pid = 8;
  kmem = record { mem = λ a. 0; freelist = 0x5000 };
  current = some 1;
}

-- Inside one lock, with interrupts off.
abbrev inside : Kernel
inside = record idle { cpu = record { id = 0; iflag = false; ncli = 1; intena = true } }

abbrev mine : Spinlock
mine = record { locked = 1; cpu = some 0 }

sleep_enter_example :
    sleep_enter 1 inside 9 (other mine)
    ≡ ok (
      true,
      other init_lock,
      record inside { lock = taken inside.lock 0; procs = modify (asleep 9) 1 table },
    )
sleep_enter_example =
    sleep_enter-other 1 inside 9 1 (proc_in running) mine
      (record { mine = refl; once = refl; off = refl; here = refl; entry = refl }) refl
      (omega arith)

wakeup_example :
    (qs : List Proc) × (wakeup 1 0x40 idle
      ≡ ok (record idle { cpu = settled idle.cpu; lock = init_lock; procs = qs }))
    × IsWoken 0x40 table qs
wakeup_example = wakeup_lem 1 idle 0x40 (record { off = inl refl }) refl (omega arith)

alloc_process_example :
    ((alloc_process 0x111 0x222 idle).0 ≡ some 2)
    × IsBorn 0x111 0x222 idle
        (alloc_process 0x111 0x222 idle).1
        2
        (proc_in unused)
        0x5000
        (kalloc idle.kmem).1
unfolding find_unused kalloc
alloc_process_example =
    alloc_process_lem 0x111 0x222 idle 2 (proc_in unused) 0x5000 (kalloc idle.kmem).1
      (find_unused_lem table 2 refl) refl refl (omega arith)

abbrev no_page : Kernel
no_page = record idle { kmem = record { mem = λ a. 0; freelist = 0 } }

abbrev sleep_lock : Sleeplock
sleep_lock = record { locked = 1; lk = init_lock; pid = 0 }

acquire_sleep_example :
    acquire_sleep_enter 1 0 0x700 idle sleep_lock
    ≡ ok (
        sleeping_on true
          (record idle {
            cpu = pushcli idle.cpu;
            lock = taken idle.lock 0;
            procs = modify (asleep 0x700) 1 table;
          })
          sleep_lock)
unfolding init_lock
acquire_sleep_example =
    acquire_sleep-taken 1 0 0x700 1 idle (proc_in running) sleep_lock
      (record { outside = refl; here = refl; entry = refl }) refl (ground arith) refl (omega arith)
