-- ===== src/Devices.antt =====
-- The drivers of the interrupt controller, the timer and the keyboard: kernel/drivers/pic.c,
-- kernel/drivers/timer.c and kernel/drivers/keyboard.c.
pub mod Laws
use tuix_os.Base.{
  ℕ, ◌+◌, ◌-◌, ◌*◌, ◌/◌, ◌%◌, ◌^◌, Bool, true, false, not, ltb, leb, ◌==◌, if◌then◌else◌, Option,
  none, some, List, [], ◌∷◌, ◌++◌,
}
use tuix_os.Base.Outcome.{Outcome, ok}
use tuix_os.Bits.{bit_or}
use tuix_os.Memory.{u8, u32}
use tuix_os.Machine.{TrapFrame, Machine, Handler, Key, typed, special, outb}

-- The ports of the two controllers.
abbrev pub pic1_cmd : ℕ
pic1_cmd = 0x20

abbrev pub pic1_data : ℕ
pic1_data = 0x21

abbrev pub pic2_cmd : ℕ
pic2_cmd = 0xA0

abbrev pub pic2_data : ℕ
pic2_data = 0xA1

unfoldable pub disable_pic : Machine → Machine
disable_pic m = outb pic2_data 0xFF (outb pic1_data 0xFF m)

unfoldable pub init_pic : Machine → Machine
unfolding disable_pic
init_pic m =
    let m = outb pic2_cmd 0x11 (outb pic1_cmd 0x11 m) in
    let m = outb pic2_data 0x28 (outb pic1_data 0x20 m) in
    let m = outb pic2_data 0x02 (outb pic1_data 0x04 m) in
    let m = outb pic2_data 0x01 (outb pic1_data 0x01 m) in disable_pic m

-- `value & ~(1 << k)`, for a byte.
abbrev pub clear_bit : (k value : ℕ) → ℕ
clear_bit k value = if value / 2 ^ k % 2 == 1 then value - 2 ^ k else value

-- The mask of a controller is read from its data port: `inb` gives the byte that a port has.
unfoldable pub enable_irq : (inb : ℕ → ℕ) → (irq : ℕ) → Machine → Machine
enable_irq inb irq m =
    let port = if ltb irq 8 then pic1_data else pic2_data in
    let k = if ltb irq 8 then irq else irq - 8 in outb port (clear_bit k (inb port)) m

unfoldable pub disable_irq : (inb : ℕ → ℕ) → (irq : ℕ) → Machine → Machine
disable_irq inb irq m =
    let port = if ltb irq 8 then pic1_data else pic2_data in
    let k = if ltb irq 8 then irq else irq - 8 in outb port (u8 (bit_or (inb port) (2 ^ k))) m

-- `irq` is a `uint8_t`: the argument is cut to a byte.
unfoldable pub send_eoi : (irq : ℕ) → Machine → Machine
send_eoi irq m = outb pic1_cmd 0x20 (if leb 8 (u8 irq) then outb pic2_cmd 0x20 m else m)

-- The divisor that `init_timer` programs.
unfoldable pub timer_divisor : (frequency : ℕ) → ℕ
timer_divisor frequency =
    let divisor = 1193180 / frequency in
    if ltb 65535 divisor then 65535 else if ltb divisor 1 then 1 else divisor

unfoldable pub init_timer : (frequency : ℕ) → Machine → Machine
unfolding timer_divisor
init_timer frequency m =
    if frequency == 0
    then m
    else let divisor = timer_divisor frequency in
      outb 0x40 (divisor / 2 ^ 8 % 2 ^ 8) (outb 0x40 (divisor % 2 ^ 8) (outb 0x43 0x36 m))

unfoldable pub timer_handler : Handler
unfolding send_eoi
timer_handler frame m = ok (frame, send_eoi frame.int_no (record m { ticks = u32 (m.ticks + 1) }))

-- The cases of `scancode_to_char`: a scan code and the ASCII code of its character.
abbrev pub scancodes : List (ℕ × ℕ)
scancodes =
    (0x02, 0x31)
    ∷ (0x03, 0x32)
    ∷ (0x04, 0x33)
    ∷ (0x05, 0x34)
    ∷ (0x06, 0x35)
    ∷ (0x07, 0x36)
    ∷ (0x08, 0x37)
    ∷ (0x09, 0x38)
    ∷ (0x0A, 0x39)
    ∷ (0x0B, 0x30)
    ∷ (0x10, 0x71)
    ∷ (0x11, 0x77)
    ∷ (0x12, 0x65)
    ∷ (0x13, 0x72)
    ∷ (0x14, 0x74)
    ∷ (0x15, 0x79)
    ∷ (0x16, 0x75)
    ∷ (0x17, 0x69)
    ∷ (0x18, 0x6F)
    ∷ (0x19, 0x70)
    ∷ (0x1E, 0x61)
    ∷ (0x1F, 0x73)
    ∷ (0x20, 0x64)
    ∷ (0x21, 0x66)
    ∷ (0x22, 0x67)
    ∷ (0x23, 0x68)
    ∷ (0x24, 0x6A)
    ∷ (0x25, 0x6B)
    ∷ (0x26, 0x6C)
    ∷ (0x2C, 0x7A)
    ∷ (0x2D, 0x78)
    ∷ (0x2E, 0x63)
    ∷ (0x2F, 0x76)
    ∷ (0x30, 0x62)
    ∷ (0x31, 0x6E)
    ∷ (0x32, 0x6D)
    ∷ (0x29, 0x60)
    ∷ (0x0C, 0x2D)
    ∷ (0x0D, 0x3D)
    ∷ (0x1A, 0x5B)
    ∷ (0x1B, 0x5D)
    ∷ (0x2B, 0x5C)
    ∷ (0x27, 0x3B)
    ∷ (0x28, 0x27)
    ∷ (0x33, 0x2C)
    ∷ (0x34, 0x2E)
    ∷ (0x35, 0x2F)
    ∷ (0x39, 0x20)
    ∷ (0x1C, 0x0A)
    ∷ (0x0E, 0x08)
    ∷ (0x01, 0x1B)
    ∷ []

abbrev pub lookup : (l : List (ℕ × ℕ)) → (scancode : ℕ) → ℕ
lookup [] scancode = 0
lookup ((k, c) ∷ l) scancode = if k == scancode then c else lookup l scancode

unfoldable pub scancode_to_char : (scancode : ℕ) → ℕ
scancode_to_char scancode = lookup scancodes scancode

-- What the keyboard handler reports of a scan code: a press, below 0x80, but not a release.
unfoldable pub reported : (scancode : ℕ) → List Key
unfolding scancode_to_char
reported scancode =
    let c = scancode_to_char scancode in
    if ltb scancode 0x80
    then (if not (c == 0) then typed c scancode else special scancode) ∷ []
    else []

unfoldable pub keyboard_handler : Handler
unfolding reported send_eoi
keyboard_handler frame m =
    ok (frame, send_eoi frame.int_no (record m { keys = m.keys ++ reported (u8 m.keyboard) }))
