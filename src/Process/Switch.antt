-- ===== src/Process/Switch.antt =====
-- Giving up the processor in kernel/sys/process.c: `sched`, `yield`, `sleep` and `wakeup`.
use tuix_os.Base.{
  ℕ, ◌<◌, ◌≡◌, refl, ap, ◌∙◌, Bool, true, false, none, some, get_elem?, map, arith, ◌⊎◌, inl, inr,
  ◌≢◌, ◌==◌, ◌&&◌, List, length, length-map,
}
use tuix_os.Base.Outcome.{ok, panic}
use tuix_os.Spinlock.{Cpu, Spinlock, init_lock, pushcli, popcli, release, is_held_by}
use tuix_os.Spinlock.Nesting.{IsSound, settled, popcli-pushcli}
use tuix_os.Spinlock.Locking.{holding_lem, holding-inside, acquire-free, taken}
use tuix_os.Process.{
  Kernel, Proc, ProcState, unused, embryo, zombie, sleeping, runnable, running, state_eq, set_state,
  modify, sched, lock_table, unlock_table, yield_enter, yield_resume, SleepLock, null_lock,
  table_lock, other, trade_locks, sleep_as, sleep_enter, wake, wakeup, sched_resume,
}
use tuix_os.Process.Table.{get_elem?-modify_self, get_elem?-map}

-- Process `i`, with the entry `p`, runs outside every lock.
pub record IsCurrent (k : Kernel) (i : ℕ) (p : Proc) : Type 0 where
  pub outside : k.cpu.ncli ≡ 0
  pub here : k.current ≡ some i
  pub entry : get_elem? k.procs i ≡ some p

-- The kernel with the table's lock taken.
abbrev pub locked : Kernel → Kernel
locked k = record k { cpu = pushcli k.cpu; lock = taken k.lock k.cpu.id }

pub lock_table_lem :
    (fuel : ℕ) (k : Kernel) → k.lock.locked ≡ 0 → 0 < fuel → lock_table fuel k ≡ ok (locked k)
unfolding lock_table
lock_table_lem fuel k e h = rw (acquire-free fuel k.cpu k.lock e h)

-- A process that does not hold the table's lock cannot give up the processor: `sched` panics.
pub sched-unlocked :
    (k : Kernel) → IsSound k.cpu → is_held_by k.lock k.cpu.id ≡ false → sched k ≡ panic
unfolding sched
sched-unlocked k v e = rw (holding_lem k.cpu k.lock v, e)

-- `sched` under the table's lock alone, in a process that is no longer running, reaches the switch.
pub sched-locked :
    (k : Kernel) (i : ℕ) (p : Proc)
    → k.cpu.ncli ≡ 0
    → k.current ≡ some i
    → get_elem? k.procs i ≡ some p
    → state_eq p.state running ≡ false
    → sched (locked k) ≡ ok ((pushcli k.cpu).intena, locked k)
unfolding sched pushcli
sched-locked k i p e c g s =
    let mine : is_held_by (taken k.lock k.cpu.id) k.cpu.id ≡ true = ground arith in
    rw (holding-inside k.cpu (taken k.lock k.cpu.id), mine, e, c, g, s)

pub pushcli-intena : (c : Cpu) → c.ncli ≡ 0 → (pushcli c).intena ≡ c.iflag
unfolding pushcli
pushcli-intena c e = rw e

-- `yield` of a running process marks it runnable and reaches the switch to the scheduler under the
-- table's lock, with the interrupt flag of the caller saved.
pub yield_enter_lem :
    (fuel : ℕ) (k : Kernel) (i : ℕ) (p : Proc)
    → IsCurrent k i p
    → k.lock.locked ≡ 0
    → 0 < fuel
    → yield_enter fuel k
      ≡ ok (k.cpu.iflag, locked (record k { procs = modify (set_state runnable) i k.procs }))
unfolding yield_enter
yield_enter_lem fuel k i p v e h =
    let k' : Kernel = record k {
      procs = modify (set_state runnable) i k.procs;
      current = some i;
    } in
    let entry = get_elem?-modify_self (set_state runnable) i k.procs p v.entry in
    let flag : (pushcli k.cpu).intena ≡ k.cpu.iflag = pushcli-intena k.cpu v.outside in
    rw (lock_table_lem fuel k e h, v.here)
      (sched-locked k' i (set_state runnable p) v.outside refl entry refl
        ∙ ap (λ b. ok (b, locked k')) flag)

-- `yield` behind the switch back frees the table's lock, leaves the interrupt-off section and
-- restores the interrupt flag that was saved, whatever `intena` the processor has by then.
pub yield_resume_lem :
    (intena : Bool) (k : Kernel)
    → is_held_by k.lock k.cpu.id ≡ true
    → k.cpu.ncli ≡ 1
    → k.cpu.iflag ≡ false
    → yield_resume intena k
      ≡ ok (record k {
        cpu = record (k.cpu) { iflag = intena; ncli = 0; intena = intena };
        lock = init_lock;
      })
unfolding yield_resume sched_resume unlock_table release popcli init_lock
yield_resume_lem intena k mine one off =
    let k' : Cpu = record (k.cpu) { intena = intena } in
    rw (holding_lem k' k.lock (record { off = inr off }), mine, off, one)

-- `sleep` without a process, or without a lock, panics.
pub sleep-panic :
    (fuel : ℕ) (k : Kernel) (chan : ℕ) (lk : SleepLock)
    → (k.current ≡ none) ⊎ (lk ≡ null_lock)
    → sleep_enter fuel k chan lk ≡ panic
unfolding sleep_enter trade_locks
sleep-panic fuel k chan lk h = ground arith

-- A process `i` that holds the table's lock in the only interrupt-off section.
pub record IsInside (k : Kernel) (i : ℕ) (p : Proc) : Type 0 where
  pub mine : is_held_by k.lock k.cpu.id ≡ true
  pub once : k.cpu.ncli ≡ 1
  pub off : k.cpu.iflag ≡ false
  pub here : k.current ≡ some i
  pub entry : get_elem? k.procs i ≡ some p

-- `sched` under the table's lock alone, in a process that is no longer running, reaches the switch
-- with the state as it is.
pub sched_lem :
    (k : Kernel) (i : ℕ) (p : Proc)
    → IsInside k i p
    → state_eq p.state running ≡ false
    → sched k ≡ ok (k.cpu.intena, k)
unfolding sched
sched_lem k i p v s = rw (
  holding_lem k.cpu k.lock (record { off = inr v.off }),
  v.mine,
  v.once,
  v.off,
  v.here,
  v.entry,
  s,
)

-- A process asleep on `chan`.
abbrev pub asleep : (chan : ℕ) → Proc → Proc
asleep chan p = record p { chan = chan; state = sleeping }

asleep-IsInside :
    (k : Kernel) (chan i : ℕ) (p : Proc)
    → IsInside k i p
    → IsInside (record k { procs = modify (asleep chan) i k.procs }) i (asleep chan p)
asleep-IsInside k chan i p v = record {
  mine = v.mine;
  once = v.once;
  off = v.off;
  here = v.here;
  entry = get_elem?-modify_self (asleep chan) i k.procs p v.entry;
}

sleep_enter_lem :
    (fuel : ℕ) (k k' : Kernel) (chan i : ℕ) (p : Proc) (lk lk' : SleepLock)
    → trade_locks fuel k lk ≡ ok (lk', k')
    → k.current ≡ some i
    → IsInside k' i p
    → sleep_enter fuel k chan lk
      ≡ ok (k'.cpu.intena, lk', record k' { procs = modify (asleep chan) i k'.procs })
unfolding sleep_enter
sleep_enter_lem fuel k k' chan i p lk lk' t here v =
    let s = record k' { procs = modify (asleep chan) i k'.procs } in
    ap (λ o. elim o [ none ↦ panic | some j ↦ sleep_as j fuel k chan lk ]) here
    ∙ rw (t, sched_lem s i (asleep chan p) (asleep-IsInside k' chan i p v) refl)

-- A process that holds the table's lock alone goes to sleep on `chan`, and keeps the lock.
pub sleep_enter-table :
    (fuel : ℕ) (k : Kernel) (chan i : ℕ) (p : Proc)
    → IsInside k i p
    → sleep_enter fuel k chan table_lock
      ≡ ok (k.cpu.intena, table_lock, record k { procs = modify (asleep chan) i k.procs })
unfolding trade_locks
sleep_enter-table fuel k chan i p v =
    sleep_enter_lem fuel k k chan i p table_lock table_lock refl v.here v

trade_locks-other :
    (fuel : ℕ) (k : Kernel) (lk : Spinlock)
    → is_held_by lk k.cpu.id ≡ true
    → k.cpu.ncli ≡ 1
    → k.cpu.iflag ≡ false
    → k.lock.locked ≡ 0
    → 0 < fuel
    → trade_locks fuel k (other lk)
      ≡ ok (other init_lock, record k { lock = taken k.lock k.cpu.id })
unfolding trade_locks release init_lock
trade_locks-other fuel k lk mine once off e h = rw (
  lock_table_lem fuel k e h,
  holding-inside k.cpu lk,
  mine,
  popcli-pushcli k.cpu (record { off = inr off }),
  once,
)

-- A process that holds one lock alone, and not the table's, goes to sleep on `chan`: at the switch
-- that lock is given back and the table's is held.
pub sleep_enter-other :
    (fuel : ℕ) (k : Kernel) (chan i : ℕ) (p : Proc) (lk : Spinlock)
    → IsInside (record k { lock = lk }) i p
    → k.lock.locked ≡ 0
    → 0 < fuel
    → sleep_enter fuel k chan (other lk)
      ≡ ok (
        k.cpu.intena,
        other init_lock,
        record k { lock = taken k.lock k.cpu.id; procs = modify (asleep chan) i k.procs },
      )
sleep_enter-other fuel k chan i p lk v e h =
    let k' : Kernel = record k { lock = taken k.lock k.cpu.id } in
    let inside : IsInside k' i p = record {
      mine = ground arith;
      once = v.once;
      off = v.off;
      here = v.here;
      entry = v.entry;
    } in
    sleep_enter_lem fuel k k' chan i p (other lk) (other init_lock)
      (trade_locks-other fuel k lk v.mine v.once v.off e h) v.here inside

-- The table that `wakeup` leaves, as its loop makes it.
wakeup-table :
    (fuel : ℕ) (k : Kernel) (chan : ℕ)
    → IsSound k.cpu
    → k.lock.locked ≡ 0
    → 0 < fuel
    → wakeup fuel chan k
      ≡ ok (record k { cpu = settled k.cpu; lock = init_lock; procs = map (wake chan) k.procs })
unfolding wakeup unlock_table release init_lock
wakeup-table fuel k chan v e h =
    let mine : is_held_by (taken k.lock k.cpu.id) k.cpu.id ≡ true = ground arith in
    rw (
      lock_table_lem fuel k e h,
      holding-inside k.cpu (taken k.lock k.cpu.id),
      mine,
      popcli-pushcli k.cpu v,
    )

-- The table `qs` behind a wake-up on `chan` of the table `ps`: exactly the processes that sleep on `chan` are
-- runnable, and nothing else has changed.
pub record IsWoken (chan : ℕ) (ps qs : List Proc) : Type 0 where
  pub woken :
      (i : ℕ) (p : Proc)
      → get_elem? ps i ≡ some p
      → p.state ≡ sleeping
      → p.chan ≡ chan
      → get_elem? qs i ≡ some (record p { state = runnable })
  pub kept :
      (i : ℕ) (p : Proc)
      → get_elem? ps i ≡ some p
      → (p.state ≢ sleeping) ⊎ (p.chan ≢ chan)
      → get_elem? qs i ≡ some p
  pub count : length qs ≡ length ps

not_sleeping : (st : ProcState) → st ≢ sleeping → state_eq st sleeping ≡ false
not_sleeping unused ne = refl
not_sleeping embryo ne = refl
not_sleeping sleeping ne = absurd (ne refl)
not_sleeping runnable ne = refl
not_sleeping running ne = refl
not_sleeping zombie ne = refl

wake_woken :
    (chan : ℕ) (p : Proc)
    → p.state ≡ sleeping
    → p.chan ≡ chan
    → wake chan p ≡ record p { state = runnable }
unfolding wake
wake_woken chan p st on =
    let same : (p.chan == chan) ≡ true = ground arith in
    let test : state_eq p.state sleeping ≡ true = rw st refl in rw (test, same) refl

wake_kept : (chan : ℕ) (p : Proc) → (p.state ≢ sleeping) ⊎ (p.chan ≢ chan) → wake chan p ≡ p
unfolding wake
wake_kept chan p (inl ne) = rw (not_sleeping p.state ne) refl
wake_kept chan p (inr ne) =
    let test : (state_eq p.state sleeping && (p.chan == chan)) ≡ false = ground arith in
    rw test refl

map-wake-IsWoken : (chan : ℕ) (ps : List Proc) → IsWoken chan ps (map (wake chan) ps)
map-wake-IsWoken chan ps = record {
  woken = λ i p e st on. get_elem?-map (wake chan) ps i p e ∙ ap some (wake_woken chan p st on);
  kept = λ i p e ne. get_elem?-map (wake chan) ps i p e ∙ ap some (wake_kept chan p ne);
  count = length-map ps (wake chan);
}

-- `wakeup` from outside every lock, with the table's lock free, returns with that lock free again and the
-- processor's flag and depth back. In the table exactly the processes that sleep on the channel have
-- become runnable, and nothing else has changed.
pub wakeup_lem :
    (fuel : ℕ) (k : Kernel) (chan : ℕ)
    → IsSound k.cpu
    → k.lock.locked ≡ 0
    → 0 < fuel
    → (qs : List Proc) × (wakeup fuel chan k
        ≡ ok (record k { cpu = settled k.cpu; lock = init_lock; procs = qs }))
      × IsWoken chan k.procs qs
wakeup_lem fuel k chan v e h =
    (map (wake chan) k.procs, wakeup-table fuel k chan v e h, map-wake-IsWoken chan k.procs)
