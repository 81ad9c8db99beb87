-- ===== src/Trap/Dispatch.antt =====
-- What the interrupt table of kernel/trap/idt.c does with each interrupt number.
use tuix_os.Base.{
  ℕ, ◌+◌, ◌<◌, ◌≡◌, ◌≢◌, refl, sym, ap, ◌∙◌, Bool, true, false, ◌||◌, Option, none, some, List, [],
  ◌∷◌, ◌++◌, ltb, ◌==◌, if◌then◌else◌, arith, tests, All, Bool-cases, inl, inr,
}
use mathlib.Core.Option.{some-injective}
use tuix_os.Base.Outcome.{Outcome, ok, panic, hang, fault, out_of_fuel}
use tuix_os.Base.Below.{all_below, all_below_lem}
use tuix_os.Memory.{u8, u32}
use tuix_os.Process.{Kernel}
use tuix_os.Machine.{TrapFrame, Machine, Handler}
use tuix_os.Devices.Laws.{send_eoi-kernel}
use tuix_os.Devices.{send_eoi, reported, timer_handler, keyboard_handler}
use tuix_os.Trap.{
  isr_default_handler, idt_list_exp, idt_list_pic, Table, empty_table, register_interrupt_handler,
  register_all, isr_syscall_handler, register_interrupt_handlers, isr_handler,
}

-- What the interrupted code sees of a handler: the frame it resumes from, and the kernel's state.
abbrev pub seen : Outcome (TrapFrame × Machine) → Outcome (TrapFrame × Kernel)
seen (ok (f, m)) = ok (f, m.kernel)
seen panic = panic
seen hang = hang
seen fault = fault
seen out_of_fuel = out_of_fuel

-- The exceptions that stop the system: debug, NMI, invalid opcode, double fault, invalid TSS, stack
-- segment, general protection, page fault and machine check.
abbrev pub is_fatal : ℕ → Bool
is_fatal n =
    (n == 1)
    || (n == 2)
    || (n == 6)
    || (n == 8)
    || (n == 10)
    || (n == 12)
    || (n == 13)
    || (n == 14)
    || (n == 18)

-- A fatal exception hangs; a division error skips two bytes and clears `eax`; every other interrupt
-- resumes where it was.
abbrev pub resumed : (n : ℕ) → TrapFrame → Kernel → Outcome (TrapFrame × Kernel)
resumed n f k =
    if is_fatal n
    then hang
    else if n == 0
    then ok (record f { eax = 0; eip = u32 (f.eip + 2) }, k)
    else ok (f, k)

abbrev Behaves : ℕ → Handler → Type 0
Behaves n h = (f : TrapFrame) (m : Machine) → seen (h f m) ≡ resumed n f m.kernel

abbrev Entry : ℕ × Handler → Type 0
Entry (n, h) = Behaves (u8 n) h

infixr 30 ◌&◌
abbrev ◌&◌ {ℓ κ} : {A : Type ℓ} {B : Type κ} → A → B → A × B
a & b = (a, b)

exceptions-Behave : All Entry idt_list_exp
unfolding idt_list_exp
exceptions-Behave =
    (λ f m. refl)
    & (λ f m. refl)
    & (λ f m. refl)
    & (λ f m. refl)
    & (λ f m. refl)
    & (λ f m. refl)
    & (λ f m. refl)
    & (λ f m. refl)
    & (λ f m. refl)
    & (λ f m. refl)
    & (λ f m. refl)
    & (λ f m. refl)
    & (λ f m. refl)
    & (λ f m. refl)
    & (λ f m. refl)
    & (λ f m. refl)
    & (λ f m. refl)
    & (λ f m. refl)
    & (λ f m. refl)
    & (λ f m. refl)
    & (λ f m. refl)
    & (λ f m. refl)
    & (λ f m. refl)
    & (λ f m. refl)
    & (λ f m. refl)
    & (λ f m. refl)
    & (λ f m. refl)
    & (λ f m. refl)
    & (λ f m. refl)
    & (λ f m. refl)
    & (λ f m. refl)
    & (λ f m. refl)
    & tt

eoi_seen :
    (f : TrapFrame) (irq : ℕ) (m m' : Machine)
    → m'.kernel ≡ m.kernel
    → seen (ok (f, send_eoi irq m')) ≡ ok (f, m.kernel)
eoi_seen f irq m m' e = ap (λ k. ok (f, k)) (send_eoi-kernel irq m' ∙ e)

pics-Behave : All Entry idt_list_pic
unfolding idt_list_pic timer_handler keyboard_handler
pics-Behave =
    (λ f m. eoi_seen f f.int_no m (record m { ticks = u32 (m.ticks + 1) }) refl)
    & (λ f m. eoi_seen f f.int_no m (record m { keys = m.keys ++ reported (u8 m.keyboard) }) refl)
    & (λ f m. refl)
    & (λ f m. refl)
    & (λ f m. refl)
    & (λ f m. refl)
    & (λ f m. refl)
    & (λ f m. refl)
    & (λ f m. refl)
    & (λ f m. refl)
    & (λ f m. refl)
    & (λ f m. refl)
    & (λ f m. refl)
    & (λ f m. refl)
    & (λ f m. eoi_seen f f.int_no m (m) refl)
    & (λ f m. refl)
    & tt

Sound : Table → Type 0
Sound t = (n : ℕ) (h : Handler) → t n ≡ some h → Behaves n h

-- Registering handlers that behave keeps the table's handlers behaving.
register-Sound :
    (n : ℕ) (h : Handler) (t : Table)
    → Entry (n, h)
    → Sound t
    → Sound (register_interrupt_handler n h t)
unfolding register_interrupt_handler Sound
register-Sound n h t b s k g e = elim (Bool-cases (k == u8 n)) [
  | inl y ↦
      let same : k ≡ u8 n = ground arith in
      let taken : h ≡ g = some-injective _ _ (rw y at e) in rw (same, sym taken) b
  | inr x ↦ s k g (rw x at e)
]

register_all-Sound :
    (l : List (ℕ × Handler)) (t : Table) → All Entry l → Sound t → Sound (register_all l t)
unfolding register_all
register_all-Sound [] t b s = s
register_all-Sound ((n, h) ∷ l) t (b, bs) s =
    register_all-Sound l (register_interrupt_handler n h t) bs (register-Sound n h t b s)

-- Every exception has a handler.

-- The table of all interrupts but the system call.
quiet : Table
quiet = register_all idt_list_pic (register_all idt_list_exp empty_table)

quiet-Sound : Sound quiet
unfolding quiet Sound
quiet-Sound =
    register_all-Sound idt_list_pic (register_all idt_list_exp empty_table) pics-Behave
      (register_all-Sound idt_list_exp empty_table exceptions-Behave (λ n h e. cc))

has_handler : Option Handler → Bool
has_handler none = false
has_handler (some h) = true

exceptions_registered : all_below 32 (λ n. has_handler (quiet n)) ≡ true
unfolding quiet all_below has_handler register_all register_interrupt_handler idt_list_pic
    idt_list_exp
exceptions_registered = refl

not_exception : (n : ℕ) → quiet n ≡ none → ltb n 32 ≡ false
unfolding has_handler
not_exception n e = elim (Bool-cases (ltb n 32)) [
  | inl y ↦ absurd (
      ground (
        arith,
        sym (ap has_handler e)
            ∙ all_below_lem 32 (λ k. has_handler (quiet k)) n exceptions_registered (omega tests),
      ))
  | inr x ↦ x
]

resumed_same : (n : ℕ) (f : TrapFrame) (k : Kernel) → ltb n 32 ≡ false → resumed n f k ≡ ok (f, k)
resumed_same n f k e = ground arith

quiet-seen :
    (o : Option Handler) (f : TrapFrame) (m : Machine)
    → quiet f.int_no ≡ o
    → seen (elim o [ none ↦ isr_default_handler f m | some h ↦ h f m ])
      ≡ resumed f.int_no f m.kernel
unfolding isr_default_handler Sound
quiet-seen none f m e =
    rw (resumed_same f.int_no f m.kernel (not_exception f.int_no e), not_exception f.int_no e)
quiet-seen (some h) f m e = quiet-Sound f.int_no h e f m

-- What dispatch does, seen from the interrupted code, for every interrupt number from 0 to 255 but
-- the system call: a fatal exception hangs, a division error skips two bytes and clears `eax`, and
-- every other interrupt resumes where it was, with the kernel's state as it was.
pub isr_handler_lem :
    (elsewhere : Kernel → Outcome Kernel) (f : TrapFrame) (m : Machine)
    → f.int_no < 256
    → f.int_no ≢ 128
    → seen (isr_handler (register_interrupt_handlers elsewhere empty_table) f m)
      ≡ resumed f.int_no f m.kernel
unfolding isr_handler register_interrupt_handlers quiet
isr_handler_lem elsewhere f m l ne =
    let other : (f.int_no == u8 128) ≡ false = ground arith in
    ap
      (λ b. seen (elim (if b then some (isr_syscall_handler elsewhere) else quiet f.int_no) [
        | none ↦ isr_default_handler f m
        | some h ↦ h f m
      ]))
      other
    ∙ quiet-seen (quiet f.int_no) f m refl
