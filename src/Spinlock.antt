-- ===== src/Spinlock.antt =====
-- Spin locks and the nesting of interrupt-off sections, kernel/sys/spinlock.c. The fields `name`
-- and `pcs`, kept for debugging, are left out.
pub mod Nesting
pub mod Locking
use tuix_os.Base.{
  ℕ, zero, suc, ◌+◌, ◌-◌, Bool, true, false, not, ◌&&◌, Option, none, some, ◌==◌, if◌then◌else◌,
}
use tuix_os.Base.Outcome.{Outcome, ok, panic, out_of_fuel, ◌>>=◌}

-- The fields of `struct cpu` that locking uses, with the interrupt flag of the processor. `id`
-- stands for the address of the structure. `ncli` counts up from 0: where C would make it
-- negative, `popcli` panics.
pub record Cpu : Type 0 where
  pub id : ℕ
  pub iflag : Bool
  pub ncli : ℕ
  pub intena : Bool

-- `struct spinlock`: `cpu` is none for the null pointer.
pub record Spinlock : Type 0 where
  pub locked : ℕ
  pub cpu : Option ℕ

unfoldable pub init_lock : Spinlock
init_lock = record { locked = 0; cpu = none }

unfoldable pub pushcli : Cpu → Cpu
pushcli c = record c {
  iflag = false;
  intena = if c.ncli == 0 then c.iflag else c.intena;
  ncli = c.ncli + 1;
}

unfoldable pub popcli : Cpu → Outcome Cpu
popcli c =
    if c.iflag
    then panic
    else if c.ncli == 0
    then panic
    else ok (record c { iflag = (c.ncli - 1 == 0) && c.intena; ncli = c.ncli - 1 })

-- `lock->locked && lock->cpu == c_cpu()`
abbrev pub is_held_by : Spinlock → (id : ℕ) → Bool
is_held_by lk id = not (lk.locked == 0) && elim lk.cpu [ none ↦ false | some k ↦ k == id ]

unfoldable pub holding : Cpu → Spinlock → Outcome (Bool × Cpu)
unfolding pushcli popcli
holding c lk = do c' ← popcli (pushcli c); ok (is_held_by lk c.id, c')

-- `while (xchg(&lk->locked, 1) != 0);` with fuel
spin : ℕ → Spinlock → Outcome Spinlock
spin zero lk = out_of_fuel
spin (suc fuel) lk =
    let again = spin fuel (record lk { locked = 1 }) in
    if lk.locked == 0 then ok (record lk { locked = 1 }) else again

unfoldable pub acquire : (fuel : ℕ) → Cpu → Spinlock → Outcome (Cpu × Spinlock)
unfolding holding spin
acquire fuel c lk = do
  (held, c') ← holding (pushcli c) lk
  if held then panic else (do lk' ← spin fuel lk; ok (c', record lk' { cpu = some c.id }))

unfoldable pub release : Cpu → Spinlock → Outcome (Cpu × Spinlock)
unfolding holding
release c lk = do
  (held, c') ← holding c lk
  if held then (do c'' ← popcli c'; ok (c'', record lk { locked = 0; cpu = none })) else panic
