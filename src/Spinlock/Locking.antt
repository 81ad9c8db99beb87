-- ===== src/Spinlock/Locking.antt =====
-- `acquire`, `release` and `holding` of kernel/sys/spinlock.c.
use tuix_os.Base.{ℕ, zero, suc, ◌<◌, ◌≡◌, ◌≢◌, refl, ◌∙◌, true, false, some, arith, ap}
use tuix_os.Base.Outcome.{ok, panic, out_of_fuel, ◌>>=◌}
use tuix_os.Spinlock.{
  Cpu, Spinlock, init_lock, pushcli, holding, is_held_by, spin, acquire, release,
}
use tuix_os.Spinlock.Nesting.{IsSound, settled, popcli-pushcli, pushcli-IsSound}

-- `holding` tells whether this processor holds the lock, and leaves the flag and the depth alone.
pub holding_lem :
    (c : Cpu) (lk : Spinlock) → IsSound c → holding c lk ≡ ok (is_held_by lk c.id, settled c)
unfolding holding
holding_lem c lk v = rw (popcli-pushcli c v)

settled-pushcli : (c : Cpu) → settled (pushcli c) ≡ pushcli c
unfolding pushcli
settled-pushcli c = ground arith

-- The lock as this processor holds it.
abbrev pub taken : Spinlock → (id : ℕ) → Spinlock
taken lk id = record lk { locked = 1; cpu = some id }

pub holding-inside :
    (c : Cpu) (lk : Spinlock) → holding (pushcli c) lk ≡ ok (is_held_by lk c.id, pushcli c)
unfolding pushcli
holding-inside c lk =
    holding_lem (pushcli c) lk (pushcli-IsSound c)
    ∙ ap (λ d. ok (is_held_by lk c.id, d)) (settled-pushcli c)

spin-free :
    (fuel : ℕ) (lk : Spinlock)
    → lk.locked ≡ 0
    → 0 < fuel
    → spin fuel lk ≡ ok (record lk { locked = 1 })
unfolding spin
spin-free zero lk e k = absurd (omega arith)
spin-free (suc fuel) lk e k = ground arith

spin-busy : (fuel : ℕ) (lk : Spinlock) → lk.locked ≢ 0 → spin fuel lk ≡ out_of_fuel
unfolding spin
spin-busy zero lk ne = refl
spin-busy (suc fuel) lk ne = ground (arith, spin-busy fuel (record lk { locked = 1 }) (omega arith))

-- `acquire` of a free lock takes it for this processor and enters one more interrupt-off section.
pub acquire-free :
    (fuel : ℕ) (c : Cpu) (lk : Spinlock)
    → lk.locked ≡ 0
    → 0 < fuel
    → acquire fuel c lk ≡ ok (pushcli c, taken lk c.id)
unfolding acquire
acquire-free fuel c lk e k =
    let mine : is_held_by lk c.id ≡ false = ground arith in
    rw (holding-inside c lk, mine, spin-free fuel lk e k)

-- A processor that acquires a lock that it holds already panics.
pub acquire_again :
    (fuel : ℕ) (c : Cpu) (lk : Spinlock) → is_held_by lk c.id ≡ true → acquire fuel c lk ≡ panic
unfolding acquire
acquire_again fuel c lk mine = rw (holding-inside c lk, mine)

-- On a lock that another processor holds, `acquire` alone spins through any number of rounds.
pub acquire-busy :
    (fuel : ℕ) (c : Cpu) (lk : Spinlock)
    → lk.locked ≢ 0
    → is_held_by lk c.id ≡ false
    → acquire fuel c lk ≡ out_of_fuel
unfolding acquire
acquire-busy fuel c lk ne mine = rw (holding-inside c lk, mine, spin-busy fuel lk ne)

-- `release` by a processor that does not hold the lock panics.
pub release_stranger :
    (c : Cpu) (lk : Spinlock) → IsSound c → is_held_by lk c.id ≡ false → release c lk ≡ panic
unfolding release
release_stranger c lk v mine = rw (holding_lem c lk v, mine)

-- `release` behind `acquire` of a free lock succeeds, gives back a free lock, and restores the
-- interrupt flag and the depth.
pub release-acquire :
    (fuel : ℕ) (c : Cpu) (lk : Spinlock)
    → IsSound c
    → lk.locked ≡ 0
    → 0 < fuel
    → (acquire fuel c lk >>= λ (c', lk'). release c' lk') ≡ ok (settled c, init_lock)
unfolding release init_lock
release-acquire fuel c lk v e k =
    let mine : is_held_by (taken lk c.id) c.id ≡ true = ground arith in
    rw (acquire-free fuel c lk e k, holding-inside c (taken lk c.id), mine, popcli-pushcli c v)
