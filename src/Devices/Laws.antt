-- ===== src/Devices/Laws.antt =====
-- The drivers of kernel/drivers/pic.c, kernel/drivers/timer.c and kernel/drivers/keyboard.c.
use tuix_os.Base.{
  ℕ, ◌+◌, ◌*◌, ◌/◌, ◌%◌, ◌^◌, ◌≤◌, ◌<◌, ◌≡◌, ◌≢◌, refl, sym, ◌∙◌, Bool, true, false, not, ◌&&◌, ltb,
  leb, ◌==◌, if◌then◌else◌, List, [], ◌∷◌, ◌++◌, arith, length, length-append, Bool-cases, inl, inr,
}
use mathlib.Core.List.{append_assoc}
use native.Mathlib.Nat.{le-div_iff_mul-le, div-lt_iff_lt-mul}
use tuix_os.Base.Outcome.{ok}
use tuix_os.Memory.{u8, u32}
use tuix_os.Machine.{TrapFrame, Machine}
use tuix_os.Devices.{
  pic1_cmd, pic2_cmd, send_eoi, timer_divisor, init_timer, timer_handler, scancodes, lookup,
  scancode_to_char, reported, keyboard_handler,
}

pub send_eoi-kernel : (irq : ℕ) (m : Machine) → (send_eoi irq m).kernel ≡ m.kernel
unfolding send_eoi
send_eoi-kernel irq m = ground arith

send_eoi-ticks : (irq : ℕ) (m : Machine) → (send_eoi irq m).ticks ≡ m.ticks
unfolding send_eoi
send_eoi-ticks irq m = ground arith

send_eoi-keys : (irq : ℕ) (m : Machine) → (send_eoi irq m).keys ≡ m.keys
unfolding send_eoi
send_eoi-keys irq m = ground arith

-- `send_eoi` given a number from 8 to 255 acknowledges at both controllers.
pub send_eoi-both :
    (irq : ℕ) (m : Machine)
    → 8 ≤ irq
    → irq < 256
    → (send_eoi irq m).writes ≡ m.writes ++ ((pic2_cmd, 0x20) ∷ (pic1_cmd, 0x20) ∷ [])
unfolding send_eoi
send_eoi-both irq m l u =
    let b : leb 8 (u8 irq) ≡ true = ground arith in
    rw b (append_assoc m.writes ((pic2_cmd, 0x20) ∷ []) ((pic1_cmd, 0x20) ∷ []))

-- A timer interrupt counts one tick, wrapped to 32 bits, and acknowledges at both controllers.
pub timer_handler_lem :
    (f : TrapFrame) (m : Machine)
    → 8 ≤ f.int_no
    → f.int_no < 256
    → (m' : Machine) × (timer_handler f m ≡ ok (f, m'))
      × (m'.ticks ≡ u32 (m.ticks + 1))
      × (m'.writes ≡ m.writes ++ ((pic2_cmd, 0x20) ∷ (pic1_cmd, 0x20) ∷ []))
unfolding timer_handler
timer_handler_lem f m l u = (
  send_eoi f.int_no (record m { ticks = u32 (m.ticks + 1) }),
  refl,
  send_eoi-ticks f.int_no (record m { ticks = u32 (m.ticks + 1) }),
  send_eoi-both f.int_no (record m { ticks = u32 (m.ticks + 1) }) l u,
)

-- The divisor that `init_timer` programs fits the 16-bit counter and is not 0.
pub timer_divisor_bounds :
    (frequency : ℕ) → (1 ≤ timer_divisor frequency) × (timer_divisor frequency ≤ 65535)
unfolding timer_divisor
timer_divisor_bounds f = (ground arith, ground arith)

-- For a frequency from 19 to 1193180 the divisor is the quotient of the clock and the frequency.
pub timer_divisor_exact :
    (frequency : ℕ)
    → 19 ≤ frequency
    → frequency ≤ 1193180
    → timer_divisor frequency ≡ 1193180 / frequency
unfolding timer_divisor
timer_divisor_exact f l u =
    let low : 1 ≤ 1193180 / f =
      (le-div_iff_mul-le {k = f} {x = 1} {y = 1193180} (omega arith)).1 (omega arith) in
    let high : 1193180 / f < 65536 =
      (div-lt_iff_lt-mul {k = f} {x = 1193180} {y = 65536} (omega arith)).1 (omega arith) in
    ground arith

-- For a frequency other than 0, `init_timer` writes the control byte, and then the low and the high
-- byte of the divisor.
pub init_timer_lem :
    (frequency : ℕ) (m : Machine)
    → frequency ≢ 0
    → (low : ℕ) × (high : ℕ) × (low < 256)
      × (high < 256)
      × (low + high * 256 ≡ timer_divisor frequency)
      × ((init_timer frequency m).writes
          ≡ m.writes ++ ((0x43, 0x36) ∷ (0x40, low) ∷ (0x40, high) ∷ []))
unfolding init_timer
init_timer_lem f m ne =
    let d = timer_divisor f in
    let on : (f == 0) ≡ false = ground arith in
    (
      d % 2 ^ 8,
      d / 2 ^ 8 % 2 ^ 8,
      omega arith,
      omega arith,
      omega (arith, timer_divisor_bounds f),
      rw on (
          append_assoc (m.writes ++ ((0x43, 0x36) ∷ [])) ((0x40, d % 2 ^ 8) ∷ [])
            ((0x40, d / 2 ^ 8 % 2 ^ 8) ∷ [])
          ∙ append_assoc m.writes ((0x43, 0x36) ∷ [])
              ((0x40, d % 2 ^ 8) ∷ (0x40, d / 2 ^ 8 % 2 ^ 8) ∷ [])),
    )

-- No two entries have the same character.
abbrev fresh_char : (c : ℕ) → List (ℕ × ℕ) → Bool
fresh_char c [] = true
fresh_char c ((k, d) ∷ l) = not (c == d) && fresh_char c l

abbrev distinct_chars : List (ℕ × ℕ) → Bool
distinct_chars [] = true
distinct_chars ((k, c) ∷ l) = not (c == 0) && fresh_char c l && distinct_chars l

fresh_char-lookup : (c s : ℕ) (l : List (ℕ × ℕ)) → c ≢ 0 → fresh_char c l ≡ true → lookup l s ≢ c
fresh_char-lookup c s [] ne e = λ q. ne (sym q)
fresh_char-lookup c s ((k, d) ∷ l) ne e = ground (arith, fresh_char-lookup c s l)

lookup-injective :
    (l : List (ℕ × ℕ)) (s t : ℕ)
    → distinct_chars l ≡ true
    → lookup l s ≢ 0
    → lookup l s ≡ lookup l t
    → s ≡ t
lookup-injective [] s t d ne e = absurd (ne refl)
lookup-injective ((k, c) ∷ l) s t d ne e =
    ground (arith, fresh_char-lookup c s l, fresh_char-lookup c t l, lookup-injective l s t)

-- No two scan codes give the same character.
pub scancode_to_char-injective :
    (s t : ℕ) → s ≢ t → scancode_to_char s ≢ 0 → scancode_to_char s ≢ scancode_to_char t
unfolding scancode_to_char
scancode_to_char-injective s t apart ne e = apart (lookup-injective scancodes s t refl ne e)

length-reported : (s : ℕ) → length (reported s) ≡ (if ltb s 0x80 then 1 else 0)
unfolding reported
length-reported s = elim (Bool-cases (ltb s 0x80)) [ inl y ↦ rw y | inr n ↦ rw n ]

-- A keyboard interrupt reports exactly one key for the code of a press, below 0x80, and none for that
-- of a release; and it acknowledges at both controllers.
pub keyboard_handler_lem :
    (f : TrapFrame) (m : Machine)
    → 8 ≤ f.int_no
    → f.int_no < 256
    → (m' : Machine) × (keyboard_handler f m ≡ ok (f, m'))
      × (length m'.keys ≡ length m.keys + (if ltb (u8 m.keyboard) 0x80 then 1 else 0))
      × (m'.writes ≡ m.writes ++ ((pic2_cmd, 0x20) ∷ (pic1_cmd, 0x20) ∷ []))
unfolding keyboard_handler
keyboard_handler_lem f m l u =
    let m' : Machine = record m { keys = m.keys ++ reported (u8 m.keyboard) } in
    (
      send_eoi f.int_no m',
      refl,
      rw (
        send_eoi-keys f.int_no m',
        length-append m.keys (reported (u8 m.keyboard)),
        length-reported (u8 m.keyboard),
      ),
      send_eoi-both f.int_no m' l u,
    )
