-- ===== src/Process/Scheduler/Single.antt =====
-- At most one process of kernel/sys/process.c runs, whatever the scheduler and the processes do.
use tuix_os.Base.{
  ℕ, zero, suc, ◌+◌, ◌-◌, ◌≡◌, ◌≢◌, ◌⊎◌, inl, inr, refl, sym, ap, ◌∙◌, Bool, true, false, not,
  if◌then◌else◌, ◌==◌, Option, none, some, List, [], ◌∷◌, get_elem?, map, arith,
}
use mathlib.Core.Option.{some-injective}
use tuix_os.Base.Outcome.{
  Outcome, ok, panic, hang, fault, out_of_fuel, ◌>>=◌, Holds, Holds-bind, Holds-any, Holds-guard,
  Holds-if, Holds-ok,
}
use tuix_os.Spinlock.{acquire, release, holding}
use tuix_os.Process.Switch.{asleep}
use tuix_os.Memory.{null}
use tuix_os.Kalloc.{Kmem, kalloc}
use tuix_os.Process.{
  Kernel, max_proc, fork_ret, yield_resume, alloc_process, config_at, config_proc_kstack,
  find_unused, dispatch, SleepLock, null_lock, table_lock, other, trade_locks, sleep_as,
  sleep_enter, sleep_resume, sched_resume, wakeup, set_state, runnable, change_current, yield_enter,
  lock_table, unlock_table, sched, current_state, state_eq, Proc, running, modify, wake,
}
use tuix_os.Process.Scheduler.{
  Place, idle, looking, entered, inside, next, scan, sti, start, found, finish, leave_fork,
  leave_yield, leave_sleep, wake_up, create, give_up, fall_asleep, here, after, ◌⟶◌, ◌⟶*◌,
}

-- No entry of the table is running; none but the entry `j` is.
abbrev NoneRuns : List Proc → Type 0
NoneRuns ps = (i : ℕ) (p : Proc) → get_elem? ps i ≡ some p → p.state ≢ running

abbrev OnlyRuns : List Proc → (j : ℕ) → Type 0
OnlyRuns ps j = (i : ℕ) (p : Proc) → get_elem? ps i ≡ some p → p.state ≡ running → i ≡ j

-- An entry of a changed table is the changed one or an old one.
modify-cases :
    (f : Proc → Proc) (i : ℕ) (ps : List Proc) (k : ℕ) (p : Proc)
    → get_elem? (modify f i ps) k ≡ some p
    → ((k ≡ i) × (q : Proc) × (get_elem? ps k ≡ some q) × (p ≡ f q))
      ⊎ ((k ≢ i) × (get_elem? ps k ≡ some p))
unfolding modify
modify-cases f i [] k p e = cc
modify-cases f zero (q ∷ ps) zero p e = inl (refl, q, refl, sym (some-injective _ _ e))
modify-cases f zero (q ∷ ps) (suc k) p e = inr (omega arith, e)
modify-cases f (suc i) (q ∷ ps) zero p e = inr (omega arith, e)
modify-cases f (suc i) (q ∷ ps) (suc k) p e = elim (modify-cases f i ps k p e) [
  | inl (same, q', at, u) ↦ inl (ap suc same, q', at, u)
  | inr (ne, u) ↦ inr (omega arith, u)
]

map-cases :
    (f : Proc → Proc) (ps : List Proc) (k : ℕ) (p : Proc)
    → get_elem? (map f ps) k ≡ some p
    → (q : Proc) × (get_elem? ps k ≡ some q) × (p ≡ f q)
map-cases f [] k p e = cc
map-cases f (q ∷ ps) zero p e = (q, refl, sym (some-injective _ _ e))
map-cases f (q ∷ ps) (suc k) p e = map-cases f ps k p e

-- A process that stops leaves none that runs.
NoneRuns-modify :
    (f : Proc → Proc) (j : ℕ) (ps : List Proc)
    → ((p : Proc) → (f p).state ≢ running)
    → OnlyRuns ps j
    → NoneRuns (modify f j ps)
NoneRuns-modify f j ps stops v i p e r = elim (modify-cases f j ps i p e) [
  | inl (same, q, at, u) ↦ stops q (sym (ap (λ x. x.state) u) ∙ r)
  | inr (ne, u) ↦ ne (v i p u r)
]

OnlyRuns-modify :
    (f : Proc → Proc) (i j : ℕ) (ps : List Proc)
    → ((p : Proc) → (f p).state ≢ running)
    → OnlyRuns ps j
    → OnlyRuns (modify f i ps) j
OnlyRuns-modify f i j ps stops v k p e r = elim (modify-cases f i ps k p e) [
  | inl (same, q, at, u) ↦ absurd (stops q (sym (ap (λ x. x.state) u) ∙ r))
  | inr (ne, u) ↦ v k p u r
]

-- A process that is dispatched is the only one.
OnlyRuns-dispatched :
    (f : Proc → Proc) (j : ℕ) (ps : List Proc) → NoneRuns ps → OnlyRuns (modify f j ps) j
OnlyRuns-dispatched f j ps v k p e r = elim (modify-cases f j ps k p e) [
  | inl (same, q, at, u) ↦ same
  | inr (ne, u) ↦ absurd (v k p u r)
]

wake-running : (chan : ℕ) (p : Proc) → (wake chan p).state ≡ running → p.state ≡ running
unfolding wake
wake-running chan p e = ground arith

OnlyRuns-wake : (chan j : ℕ) (ps : List Proc) → OnlyRuns ps j → OnlyRuns (map (wake chan) ps) j
OnlyRuns-wake chan j ps v k p e r =
    let (q, at, u) = map-cases (wake chan) ps k p e in
    v k q at (wake-running chan q (sym (ap (λ x. x.state) u) ∙ r))

-- A change that keeps the state.
OnlyRuns-kept :
    (f : Proc → Proc) (i j : ℕ) (ps : List Proc)
    → ((p : Proc) → (f p).state ≡ p.state)
    → OnlyRuns ps j
    → OnlyRuns (modify f i ps) j
OnlyRuns-kept f i j ps keeps v k p e r = elim (modify-cases f i ps k p e) [
  | inl (same, q, at, u) ↦ v k q at (sym (keeps q) ∙ sym (ap (λ x. x.state) u) ∙ r)
  | inr (ne, u) ↦ v k p u r
]

-- The process `j` is current, and the only one that runs.
abbrev pub IsIn : (j : ℕ) → Kernel → Type 0
IsIn j k = (k.current ≡ some j) × OnlyRuns k.procs j

abbrev Still : Bool × Kernel → Type 0
Still r = NoneRuns r.1.procs

abbrev Quiet : Kernel → Type 0
Quiet k = NoneRuns k.procs

module _ (j : ℕ) (k : Kernel) (v : IsIn j k) where
  lock_table-IsIn : (fuel : ℕ) → Holds (IsIn j) (lock_table fuel k)
  unfolding lock_table
  lock_table-IsIn fuel = Holds-any (IsIn j) (acquire fuel k.cpu k.lock) _ (λ a. v)

  unlock_table-IsIn : Holds (IsIn j) (unlock_table k)
  unfolding unlock_table
  unlock_table-IsIn = Holds-any (IsIn j) (release k.cpu k.lock) _ (λ a. v)

module _ (k : Kernel) (v : Quiet k) where
  lock_table-Quiet : (fuel : ℕ) → Holds Quiet (lock_table fuel k)
  unfolding lock_table
  lock_table-Quiet fuel = Holds-any Quiet (acquire fuel k.cpu k.lock) _ (λ a. v)

  unlock_table-Quiet : Holds Quiet (unlock_table k)
  unfolding unlock_table
  unlock_table-Quiet = Holds-any Quiet (release k.cpu k.lock) _ (λ a. v)

  sched-Quiet : Holds Still (sched k)
  unfolding sched
  sched-Quiet = Holds-any Still (holding k.cpu k.lock) _ (λ (held, c).
      Holds-guard Still (not held) _ (
        Holds-guard Still (not (c.ncli == 1)) _ (
          Holds-any Still (current_state k) _
            (λ st. Holds-guard Still (state_eq st running) _ (Holds-guard Still c.iflag _ v)))))

stopped : (chan : ℕ) (p : Proc) → (asleep chan p).state ≢ running
stopped chan p e = ground arith

ready : (p : Proc) → (set_state runnable p).state ≢ running
ready p e = ground arith

change_current-Holds {κ} :
    (P : Kernel → Type κ) (f : Proc → Proc) (j : ℕ) (k : Kernel)
    → k.current ≡ some j
    → P (record k { procs = modify f j k.procs })
    → Holds P (change_current f k)
change_current-Holds P f j k e h =
    let changed : change_current f k ≡ ok (record k { procs = modify f j k.procs }) =
      ap (λ o. elim o [ none ↦ fault | some i ↦ ok (record k { procs = modify f i k.procs }) ]) e in
    rw changed h

-- What `sleep` does behind its own change.
abbrev sleep_behind : (fuel : ℕ) → Kernel → SleepLock → Outcome (SleepLock × Kernel)
sleep_behind fuel k lk = elim lk [
  | null_lock ↦ ok (null_lock, k)
  | table_lock ↦ ok (table_lock, k)
  | other l ↦
      unlock_table k >>= λ k. acquire fuel k.cpu l >>= λ (c, l). ok (other l, record k { cpu = c })
]

module _ (j : ℕ) (k : Kernel) (v : IsIn j k) (fuel : ℕ) where
  yield_enter-Quiet : Holds Still (yield_enter fuel k)
  unfolding yield_enter
  yield_enter-Quiet =
      Holds-bind (IsIn j) Still (lock_table fuel k) _ (lock_table-IsIn j k v fuel)
        (λ k1 (now, runs).
          Holds-bind Quiet Still (change_current (set_state runnable) k1) _
            (change_current-Holds Quiet (set_state runnable) j k1 now
              (NoneRuns-modify (set_state runnable) j k1.procs ready runs))
            (λ k2 quiet. sched-Quiet k2 quiet))

  trade_locks-IsIn : (lk : SleepLock) → Holds (λ r. IsIn j (r.1)) (trade_locks fuel k lk)
  unfolding trade_locks
  trade_locks-IsIn null_lock = tt
  trade_locks-IsIn table_lock = v
  trade_locks-IsIn (other lk) =
      Holds-bind (IsIn j) (λ r. IsIn j (r.1)) (lock_table fuel k) _ (lock_table-IsIn j k v fuel)
        (λ k1 v1. Holds-any (λ r. IsIn j (r.1)) (release k1.cpu lk) _ (λ r. v1))

  sleep_as-Quiet :
      (chan : ℕ) (lk : SleepLock) → Holds (λ r. Quiet (r.2)) (sleep_as j fuel k chan lk)
  unfolding sleep_as
  sleep_as-Quiet chan lk =
      Holds-bind (λ r. IsIn j (r.1)) (λ r. Quiet (r.2)) (trade_locks fuel k lk) _
        (trade_locks-IsIn lk)
        (λ (lk1, k1) (now, runs).
          let k2 = record k1 { procs = modify (asleep chan) j k1.procs } in
          Holds-bind Still (λ r. Quiet (r.2)) (sched k2) _
            (sched-Quiet k2 (NoneRuns-modify (asleep chan) j k1.procs (stopped chan) runs))
            (λ r quiet. quiet))

  sleep_enter-Quiet :
      (chan : ℕ) (lk : SleepLock) → Holds (λ r. Quiet (r.2)) (sleep_enter fuel k chan lk)
  unfolding sleep_enter
  sleep_enter-Quiet chan lk =
      let enters : sleep_enter fuel k chan lk ≡ sleep_as j fuel k chan lk =
        ap (λ o. elim o [ none ↦ panic | some i ↦ sleep_as i fuel k chan lk ]) (v.0) in
      rw enters (sleep_as-Quiet chan lk)

  wakeup-IsIn : (chan : ℕ) → Holds (IsIn j) (wakeup fuel chan k)
  unfolding wakeup
  wakeup-IsIn chan =
      Holds-bind (IsIn j) (IsIn j) (lock_table fuel k) _ (lock_table-IsIn j k v fuel)
        (λ k1 (now, runs).
          unlock_table-IsIn j (record k1 { procs = map (wake chan) k1.procs })
            (now, OnlyRuns-wake chan j k1.procs runs))

  sleep_resume-IsIn :
      (intena : Bool) (lk : SleepLock) → Holds (λ r. IsIn j (r.1)) (sleep_resume fuel intena lk k)
  unfolding sleep_resume sched_resume
  sleep_resume-IsIn intena lk =
      let k0 = sched_resume intena k in
      let f : Proc → Proc = λ p. record p { chan = null } in
      Holds-bind (IsIn j) (λ r. IsIn j (r.1)) (change_current f k0) _
        (change_current-Holds (IsIn j) f j k0 (v.0)
          (v.0, OnlyRuns-kept f j j k.procs (λ p. refl) (v.1)))
        (λ k1 v1. elim lk as (λ l. Holds (λ r. IsIn j (r.1)) (sleep_behind fuel k1 l)) [
          | null_lock ↦ v1
          | table_lock ↦ v1
          | other l ↦
              Holds-bind (IsIn j) (λ r. IsIn j (r.1)) (unlock_table k1) _
                (unlock_table-IsIn j k1 v1)
                (λ k2 v2. Holds-any (λ r. IsIn j (r.1)) (acquire fuel k2.cpu l) _ (λ r. v2))
        ])

  if-IsIn :
      (b : Bool) (r r' : Option ℕ × Kernel)
      → IsIn j (r.1)
      → IsIn j (r'.1)
      → IsIn j ((if b then r else r').1)
  if-IsIn true r r' h h' = h
  if-IsIn false r r' h h' = h'

  abbrev behind_search : (trap_ret fork_ret : ℕ) → Option ℕ → Option ℕ × Kernel
  behind_search trap_ret fork_ret o = elim o [
    | none ↦ (none, k)
    | some i ↦ config_at trap_ret fork_ret i k (kalloc k.kmem)
  ]

  config_at-IsIn :
      (trap_ret fork_ret i : ℕ) (m : ℕ × Kmem) → IsIn j ((config_at trap_ret fork_ret i k m).1)
  unfolding config_at
  config_at-IsIn trap_ret fork_ret i (page, m) =
      if-IsIn (page == null) _ _ (v.0, OnlyRuns-modify _ i j k.procs (λ p e. ground arith) (v.1))
        (v.0, OnlyRuns-modify _ i j k.procs (λ p e. ground arith) (v.1))

  alloc_process-IsIn : (trap_ret fork_ret : ℕ) → IsIn j ((alloc_process trap_ret fork_ret k).1)
  unfolding alloc_process config_proc_kstack
  alloc_process-IsIn trap_ret fork_ret =
      elim (find_unused k.procs) as (λ o. IsIn j ((behind_search trap_ret fork_ret o).1)) [
        | none ↦ v
        | some i ↦ config_at-IsIn trap_ret fork_ret i (kalloc k.kmem)
      ]

module _ (k : Kernel) (v : Quiet k) where
  -- What a scan finds is current and the only one that runs.
  abbrev IsFound : Option (ℕ × Kernel) → Type 0
  IsFound none = Unit
  IsFound (some (j, k')) = IsIn j k'

  abbrev IsDispatched : (i : ℕ) → Option Kernel → Type 0
  IsDispatched i none = Unit
  IsDispatched i (some k') = IsIn i k'

  dispatch-IsDispatched : (i : ℕ) (p : Proc) → Holds (IsDispatched i) (dispatch k i p)
  unfolding dispatch
  dispatch-IsDispatched i p =
      let d = IsDispatched i in
      Holds-if d (not (state_eq p.state runnable)) _ _ tt (
        Holds-guard d (p.kstack == null) _ (
          Holds-guard d (p.pgdir == null) _
            (refl, OnlyRuns-dispatched (set_state running) i k.procs v)))

  next-IsFound :
      (i : ℕ) (o : Outcome (Option Kernel)) (rest : Outcome (Option (ℕ × Kernel)))
      → Holds (IsDispatched i) o
      → Holds IsFound rest
      → Holds IsFound (next o i rest)
  next-IsFound i (ok none) rest h r = r
  next-IsFound i (ok (some k')) rest h r = h
  next-IsFound i panic rest h r = tt
  next-IsFound i hang rest h r = tt
  next-IsFound i fault rest h r = tt
  next-IsFound i out_of_fuel rest h r = tt

  scan-IsFound : (rounds i : ℕ) → Holds IsFound (scan rounds k i)
  unfolding scan
  scan-IsFound zero i = tt
  scan-IsFound (suc rounds) i =
      elim (get_elem? k.procs i)
        as (λ o.
          Holds IsFound (elim o [
            | none ↦ ok none
            | some p ↦ next (dispatch k i p) i (scan rounds k (i + 1))
          ])) [
            | none ↦ tt
            | some p ↦
                next-IsFound i (dispatch k i p) (scan rounds k (i + 1)) (dispatch-IsDispatched i p)
                  (scan-IsFound rounds (i + 1))
          ]

-- While the scheduler looks for a process none runs; else the process that it has switched to is current
-- and no other one runs.
abbrev pub IsSingle : Place × Kernel → Type 0
IsSingle (idle, k) = NoneRuns k.procs
IsSingle (looking i, k) = NoneRuns k.procs
IsSingle (entered j, k) = IsIn j k
IsSingle (inside j, k) = IsIn j k

step-IsSingle : {s t : Place × Kernel} → s ⟶ t → IsSingle s → IsSingle t
unfolding fork_ret yield_resume sched_resume
step-IsSingle (start {k = k} fuel e) v = Holds-ok Quiet _ _ e (lock_table-Quiet (sti k) v fuel)
step-IsSingle (found {i = i} {k = k} e) v =
    Holds-ok (IsFound k v) _ _ e (scan-IsFound k v (max_proc - i) i)
step-IsSingle (finish {k = k} none_left e) v = Holds-ok Quiet _ _ e (unlock_table-Quiet k v)
step-IsSingle (leave_fork {i = i} {k = k} e) v = Holds-ok (IsIn i) _ _ e (unlock_table-IsIn i k v)
step-IsSingle (leave_yield {i = i} {k = k} intena e) v =
    Holds-ok (IsIn i) _ _ e (unlock_table-IsIn i (sched_resume intena k) v)
step-IsSingle (leave_sleep {i = i} {k = k} fuel intena lk lk' e) v =
    Holds-ok (λ r. IsIn i (r.1)) _ _ e (sleep_resume-IsIn i k v fuel intena lk)
step-IsSingle (wake_up {i = i} {k = k} fuel chan e) v =
    Holds-ok (IsIn i) _ _ e (wakeup-IsIn i k v fuel chan)
step-IsSingle (create {i = i} {k = k} trap_ret fork_ret o e) v =
    let made = alloc_process-IsIn i k v 0 trap_ret fork_ret in rw e at made
step-IsSingle (give_up {i = i} {k = k} fuel intena e) v =
    Holds-ok Still _ _ e (yield_enter-Quiet i k v fuel)
step-IsSingle (fall_asleep {i = i} {k = k} fuel chan intena lk lk' e) v =
    Holds-ok (λ r. Quiet (r.2)) _ _ e (sleep_enter-Quiet i k v fuel chan lk)

-- Whatever the scheduler and the processes do, in any order: when they start with no process running, or
-- with the current one alone, then at most one process runs at every later time. It is the current one,
-- and none runs while the scheduler looks for one.
pub steps-IsSingle : (s t : Place × Kernel) → s ⟶* t → IsSingle s → IsSingle t
steps-IsSingle s t here v = v
steps-IsSingle s t (after {t = u} step steps) v = steps-IsSingle u t steps (step-IsSingle step v)
