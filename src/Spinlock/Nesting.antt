-- ===== src/Spinlock/Nesting.antt =====
-- Interrupt-off sections of kernel/sys/spinlock.c nest.
use tuix_os.Base.{ℕ, zero, suc, ◌≡◌, refl, ◌⊎◌, ◌∙◌, Bool, false, ◌==◌, if◌then◌else◌, arith, inr}
use tuix_os.Base.Outcome.{Outcome, ok, panic, hang, fault, out_of_fuel, ◌>>=◌}
use tuix_os.Spinlock.{Cpu, pushcli, popcli}

-- Inside a section interrupts are off.
pub record IsSound (c : Cpu) : Type 0 where
  pub off : (c.ncli ≡ 0) ⊎ (c.iflag ≡ false)

-- The processor after a section that was entered and left: `intena` remembers the flag.
abbrev pub settled : Cpu → Cpu
settled c = record c { intena = if c.ncli == 0 then c.iflag else c.intena }

pub pushcli-IsSound : (c : Cpu) → IsSound (pushcli c)
unfolding pushcli
pushcli-IsSound c = record { off = inr refl }

pub popcli-IsSound : (c c' : Cpu) → popcli c ≡ ok c' → IsSound c'
unfolding popcli
popcli-IsSound c c' e = ground arith

-- `popcli` undoes `pushcli`: the interrupt flag and the depth are those from before.
pub popcli-pushcli : (c : Cpu) → IsSound c → popcli (pushcli c) ≡ ok (settled c)
unfolding popcli pushcli
popcli-pushcli c v = ground arith

-- `n` calls of `pushcli`, and `n` of `popcli`.
unfoldable pub push_times : ℕ → Cpu → Cpu
push_times zero c = c
push_times (suc n) c = push_times n (pushcli c)

unfoldable pub pop_times : ℕ → Cpu → Outcome Cpu
pop_times zero c = ok c
pop_times (suc n) c = popcli c >>= pop_times n

bind_last :
    (n : ℕ) (o : Outcome Cpu)
    → ((c : Cpu) → pop_times (suc n) c ≡ (pop_times n c >>= popcli))
    → (o >>= pop_times (suc n)) ≡ (o >>= pop_times n >>= popcli)
bind_last n (ok c) h = h c
bind_last n panic h = refl
bind_last n hang h = refl
bind_last n fault h = refl
bind_last n out_of_fuel h = refl

bind-ok : (o : Outcome Cpu) → (o >>= ok) ≡ o
bind-ok (ok c) = refl
bind-ok panic = refl
bind-ok hang = refl
bind-ok fault = refl
bind-ok out_of_fuel = refl

pop_times_last : (n : ℕ) (c : Cpu) → pop_times (suc n) c ≡ (pop_times n c >>= popcli)
unfolding pop_times
pop_times_last zero c = bind-ok (popcli c)
pop_times_last (suc n) c = bind_last n (popcli c) (pop_times_last n)

settled-pushcli : (c : Cpu) (b : Bool) → (if b then pushcli c else settled (pushcli c)) ≡ pushcli c
unfolding pushcli
settled-pushcli c b = ground arith

-- `n` sections inside one another, entered and left, bring the processor back to where it was:
-- the interrupt flag and the depth are those from before the first.
pub pop_times-push_times :
    (n : ℕ) (c : Cpu)
    → IsSound c
    → pop_times n (push_times n c) ≡ ok (if n == 0 then c else settled c)
unfolding push_times pop_times
pop_times-push_times zero c v = refl
pop_times-push_times (suc n) c v =
    pop_times_last n (push_times n (pushcli c))
    ∙ (rw (pop_times-push_times n (pushcli c) (pushcli-IsSound c), settled-pushcli c (n == 0))
        (popcli-pushcli c v ∙ (ground arith)))
