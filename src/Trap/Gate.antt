-- ===== src/Trap/Gate.antt =====
-- The gates of the interrupt table, `idt_set_gate` of kernel/trap/idt.c.
use tuix_os.Base.{ℕ, ◌+◌, ◌*◌, ◌^◌, ◌<◌, ◌≡◌, ◌≢◌, refl, ◌==◌, arith}
use tuix_os.Base.{true}
use tuix_os.Memory.{u8}
use tuix_os.Trap.{IdtEntry, gate, idt_set_gate}

-- The address that the processor reads out of a gate.
abbrev pub gate_offset : IdtEntry → ℕ
gate_offset e = e.base_low + e.base_high * 2 ^ 16

-- `idt_set_gate` with 32-bit and 16-bit arguments: the gate at `num` has the whole address, the
-- selector and the flags, its zero byte is 0, and every other gate is kept.
pub idt_set_gate_lem :
    (num base sel flags : ℕ) (idt : ℕ → IdtEntry)
    → num < 256
    → base < 2 ^ 32
    → sel < 2 ^ 16
    → flags < 2 ^ 8
    → (gate_offset (idt_set_gate num base sel flags idt num) ≡ base)
      × ((idt_set_gate num base sel flags idt num).selector ≡ sel)
      × ((idt_set_gate num base sel flags idt num).flags ≡ flags)
      × ((idt_set_gate num base sel flags idt num).zero_byte ≡ 0)
      × ((k : ℕ) → k ≢ num → idt_set_gate num base sel flags idt k ≡ idt k)
unfolding idt_set_gate gate
idt_set_gate_lem num base sel flags idt n b s f =
    let here : (num == u8 num) ≡ true = ground arith in
    (
      rw here (omega arith),
      rw here (omega arith),
      rw here (omega arith),
      rw here refl,
      λ k ne. ground arith,
    )
