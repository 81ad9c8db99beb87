-- ===== src/Trap/Gates.antt =====
-- The whole interrupt table, `init_idt` of kernel/trap/idt.c.
use tuix_os.Base.{
  ℕ, zero, suc, ◌+◌, ◌*◌, ◌^◌, ◌<◌, ◌≤◌, ◌≡◌, refl, ◌&&◌, List, [], ◌∷◌, ◌++◌, ltb, leb, ◌==◌,
  if◌then◌else◌, arith, ap, ◌∙◌,
}
use tuix_os.Base.Outcome.{Outcome}
use tuix_os.Process.{Kernel}
use tuix_os.Trap.{
  IdtEntry, IdtState, gate, idt_set_gate, numbers, numbers_from, set_gates, idt_list_exp,
  idt_list_pic, idt_list_other, idt_set, init_idt,
}
use tuix_os.Trap.Gate.{gate_offset}

-- The gates behind the setting of `n` numbers from `start` on.
set_gates-numbers_from :
    (stub : ℕ → ℕ) (flags start n : ℕ) (idt : ℕ → IdtEntry) (k : ℕ)
    → start + n ≤ 256
    → set_gates stub flags (numbers_from start n) idt k
      ≡ (if leb start k && ltb k (start + n) then gate (stub k) 0x08 flags else idt k)
unfolding set_gates numbers_from idt_set_gate
set_gates-numbers_from stub flags start zero idt k h = ground arith
set_gates-numbers_from stub flags start (suc n) idt k h = ground (
  arith,
  set_gates-numbers_from stub flags (start + 1) n (idt_set_gate start (stub start) 0x08 flags idt)
      k,
)

set_gates-append :
    (stub : ℕ → ℕ) (flags : ℕ) (l l' : List ℕ) (idt : ℕ → IdtEntry)
    → set_gates stub flags (l ++ l') idt ≡ set_gates stub flags l' (set_gates stub flags l idt)
unfolding set_gates
set_gates-append stub flags [] l' idt = refl
set_gates-append stub flags (n ∷ l) l' idt =
    set_gates-append stub flags l l' (idt_set_gate n (stub n) 0x08 flags idt)

numbers_exp : numbers idt_list_exp ≡ numbers_from 0 32
unfolding idt_list_exp numbers_from
numbers_exp = refl

numbers_pic : numbers idt_list_pic ≡ numbers_from 32 16
unfolding idt_list_pic numbers_from
numbers_pic = refl

module _ (stub : ℕ → ℕ) (idt : ℕ → IdtEntry) where
  abbrev idt_exp : ℕ → IdtEntry
  idt_exp = set_gates stub 0x8E (numbers_from 0 32) idt

  abbrev idt_pic : ℕ → IdtEntry
  idt_pic = set_gates stub 0x8E (numbers_from 32 16) idt_exp

  abbrev idt_syscall : ℕ → IdtEntry
  idt_syscall = set_gates stub 0xEE (128 ∷ []) idt_pic

  abbrev idt_below : ℕ → IdtEntry
  idt_below = set_gates stub 0x8E (numbers_from 48 80) idt_syscall

  idt_set-ranges : idt_set stub idt ≡ set_gates stub 0x8E (numbers_from 129 127) idt_below
  unfolding idt_set idt_list_other
  idt_set-ranges =
      (λ i. set_gates stub 0x8E idt_list_other (
        set_gates stub 0xEE (128 ∷ [])
          (set_gates stub 0x8E (numbers_pic i) (set_gates stub 0x8E (numbers_exp i) idt))))
      ∙ set_gates-append stub 0x8E (numbers_from 48 80) (numbers_from 129 127) idt_syscall

  at_syscall : (k : ℕ) → idt_syscall k ≡ (if k == 128 then gate (stub k) 0x08 0xEE else idt_pic k)
  unfolding set_gates idt_set_gate
  at_syscall k = ground arith

  idt_set-gate :
      (k : ℕ) → k < 256 → idt_set stub idt k ≡ gate (stub k) 0x08 (if k == 128 then 0xEE else 0x8E)
  idt_set-gate k h =
      ap (λ t. t k) idt_set-ranges
      ∙ (ground (
        arith,
        set_gates-numbers_from stub 0x8E 129 127 idt_below k,
        set_gates-numbers_from stub 0x8E 48 80 idt_syscall k,
        at_syscall k,
        set_gates-numbers_from stub 0x8E 32 16 idt_exp k,
        set_gates-numbers_from stub 0x8E 0 32 idt k,
      ))

-- Behind `init_idt` the table that the processor loads is `idt`, and its last byte is that of gate 255. Each of the 256 gates
-- leads to the stub of its own number in the kernel's code segment, with its zero byte 0, and may be
-- used from user mode for the system call, 128, and for no other number.
pub init_idt_lem :
    (elsewhere : Kernel → Outcome Kernel) (stub : ℕ → ℕ) (idt_address : ℕ) (s : IdtState) (n : ℕ)
    → n < 256
    → stub n < 2 ^ 32
    → idt_address < 2 ^ 32
    → ((init_idt elsewhere stub idt_address s).limit ≡ 8 * 255 + 7)
      × ((init_idt elsewhere stub idt_address s).base ≡ idt_address)
      × (gate_offset ((init_idt elsewhere stub idt_address s).gates n) ≡ stub n)
      × (((init_idt elsewhere stub idt_address s).gates n).selector ≡ 0x08)
      × (((init_idt elsewhere stub idt_address s).gates n).zero_byte ≡ 0)
      × (((init_idt elsewhere stub idt_address s).gates n).flags
          ≡ (if n == 128 then 0xEE else 0x8E))
unfolding init_idt gate
init_idt_lem elsewhere stub idt_address s n h fits where_ = (
  omega arith,
  omega arith,
  rw (idt_set-gate stub s.gates n h) (omega arith),
  rw (idt_set-gate stub s.gates n h) refl,
  rw (idt_set-gate stub s.gates n h) refl,
  rw (idt_set-gate stub s.gates n h) (ground arith),
)
