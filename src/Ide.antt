-- ===== src/Ide.antt =====
-- The disk driver, kernel/drivers/ide.c. What the status port 0x1F7 gives is a list, one state for each time
-- it is read; what is written to the ports is kept in order. The requests that `qnext` links are a list.
pub mod Start
pub mod Handler
pub mod Probe
use tuix_os.Base.{
  ℕ, zero, suc, ◌+◌, ◌-◌, ◌*◌, ◌/◌, ◌%◌, ◌^◌, Bool, true, false, not, ◌&&◌, ◌||◌, ltb, leb, ◌==◌,
  if◌then◌else◌, List, [], ◌∷◌, ◌++◌, Option, none, some,
}
use tuix_os.Base.Outcome.{Outcome, ok, panic, out_of_fuel, ◌>>=◌}
use tuix_os.Bits.{bit_or}
use tuix_os.Memory.{Mem, u32}
use tuix_os.Fs.{b_size, fs_size}
use tuix_os.Devices.{clear_bit}
use tuix_os.Spinlock.{Spinlock, init_lock, acquire, release}
use tuix_os.Process.{Kernel, wakeup}

-- The bits 0x80, 0x40, 0x20, 0x01 of a state, and the bits of the flags of a buffer.
abbrev pub has_bit : (bit state : ℕ) → Bool
has_bit bit state = state / bit % 2 == 1

abbrev pub ide_bsy : ℕ
ide_bsy = 0x80

abbrev pub ide_drdy : ℕ
ide_drdy = 0x40

abbrev pub ide_df : ℕ
ide_df = 0x20

abbrev pub ide_err : ℕ
ide_err = 0x01

abbrev pub ide_cmd_read : ℕ
ide_cmd_read = 0x20

abbrev pub ide_cmd_write : ℕ
ide_cmd_write = 0x30

abbrev pub b_valid : ℕ
b_valid = 0x2

abbrev pub b_dirty : ℕ
b_dirty = 0x4

-- `struct buf` with its address; the fields of the cache are left out.
pub record Buf : Type 0 where
  pub address : ℕ
  pub flags : ℕ
  pub dev : ℕ
  pub blockno : ℕ
  pub bytes : Mem

-- `outb` of a value, and `outsl` of a block of 512 bytes.
pub data Sent : Type 0 where
  byte : (port value : ℕ) → Sent
  block : (port : ℕ) → Mem → Sent

-- The states to come, what was sent, the oldest first, and the block that port 0x1F0 has to be read.
pub record Disk : Type 0 where
  pub states : List ℕ
  pub sent : List Sent
  pub input : Mem

abbrev pub send : List Sent → Disk → Disk
send out d = record d { sent = d.sent ++ out }

-- `while(((r = inb(0x1f7)) & (IDE_BSY|IDE_DRDY)) != IDE_DRDY);` with the last state and the ones to come.
unfoldable pub wait_states : List ℕ → Outcome (ℕ × List ℕ)
wait_states [] = out_of_fuel
wait_states (r ∷ states) =
    let rest = wait_states states in
    if has_bit ide_drdy r && not (has_bit ide_bsy r) then ok (r, states) else rest

-- true: `ide_wait` returns 0.
unfoldable pub ide_wait : (errno : Bool) → Disk → Outcome (Bool × Disk)
unfolding wait_states
ide_wait errno d = wait_states d.states >>= λ (r, states).
    ok (not (errno && (has_bit ide_df r || has_bit ide_err r)), record d { states = states })

-- `for(i = 0; i < 1000; i++) if(inb(0x1f7) != 0) { have_disk1 = 1; break; }`: whether it broke off.
unfoldable pub probe : (rounds : ℕ) → List ℕ → Outcome (Bool × List ℕ)
probe zero states = ok (false, states)
probe (suc rounds) [] = out_of_fuel
probe (suc rounds) (r ∷ states) =
    let rest = probe rounds states in if r == 0 then rest else ok (true, states)

-- With blocks of one sector.
abbrev pub command : Buf → List Sent
command b =
    if has_bit b_dirty b.flags
    then byte 0x1F7 ide_cmd_write ∷ block 0x1F0 b.bytes ∷ []
    else byte 0x1F7 ide_cmd_read ∷ []

abbrev pub request : Buf → List Sent
request b =
    let sector = b.blockno in
    byte 0x3F6 0
    ∷ byte 0x1F2 1
    ∷ byte 0x1F3 (sector % 2 ^ 8)
    ∷ byte 0x1F4 (sector / 2 ^ 8 % 2 ^ 8)
    ∷ byte 0x1F5 (sector / 2 ^ 16 % 2 ^ 8)
    ∷ byte 0x1F6 (bit_or (bit_or 0xE0 (b.dev % 2 * 2 ^ 4)) (sector / 2 ^ 24 % 2 ^ 4))
    ∷ command b

unfoldable pub ide_start : Buf → Disk → Outcome Disk
unfolding ide_wait
ide_start b d =
    if leb fs_size b.blockno
    then panic
    else (ide_wait false d >>= λ (r, d). ok (send (request b) d))

-- `ide_lock` and `ide_queue`.
pub record Ide : Type 0 where
  pub lock : Spinlock
  pub queue : List Buf
  pub disk : Disk

-- The transfer of the first request, if it is one to read.
unfoldable pub receive : Buf → Disk → Outcome (Buf × Disk)
unfolding ide_wait
receive b d =
    if has_bit b_dirty b.flags
    then ok (b, d)
    else (ide_wait true d >>= λ (good, d). ok (if good then record b { bytes = d.input } else b, d))

-- `b->flags |= B_VALID; b->flags &= ~B_DIRTY;`
abbrev pub mark_valid : Buf → Buf
mark_valid b =
    let flags = bit_or b.flags b_valid in
    record b { flags = if has_bit b_dirty flags then flags - b_dirty else flags }

unfoldable pub start_next : List Buf → Disk → Outcome Disk
unfolding ide_start
start_next [] d = ok d
start_next (b ∷ queue) d = ide_start b d

-- `ide_handler`, with the buffer that it has finished.
unfoldable pub ide_handler : (fuel : ℕ) → Kernel → Ide → Outcome (Option Buf × Kernel × Ide)
unfolding acquire release receive start_next wakeup
ide_handler fuel k ide = acquire fuel k.cpu ide.lock >>= λ (c, lk). elim ide.queue [
  | [] ↦ release c lk >>= λ (c, lk). ok (none, record k { cpu = c }, record ide { lock = lk })
  | b ∷ queue ↦ receive b ide.disk >>= λ (b, d).
      wakeup fuel b.address (record k { cpu = c }) >>= λ k. start_next queue d >>= λ d.
      release k.cpu lk >>= λ (c, lk).
      ok (some (mark_valid b), record k { cpu = c }, record { lock = lk; queue = queue; disk = d })
]

-- `init_ide`, at the start, with `have_disk1` still 0. `mask` stands for the byte that the data port of the
-- second interrupt controller has: `enable_irq(IRQ_ATA1)` clears bit 6 of it.
unfoldable pub init_ide : (mask : ℕ) → Ide → Outcome Ide
unfolding init_lock ide_wait probe
init_ide mask ide = do
  (_, d) ← ide_wait false (send (byte 0xA1 (clear_bit 6 mask) ∷ []) ide.disk)
  let d = send (byte 0x1F6 (bit_or 0xE0 (2 ^ 4)) ∷ []) d
  (have_disk1, states) ← probe 1000 d.states
  if have_disk1
      then ok (record ide {
        lock = init_lock;
        disk = send (byte 0x1F6 0xE0 ∷ []) (record d { states = states });
      })
      else panic
