-- ===== src/Ide/Start.antt =====
-- What the disk is told by `ide_start` of kernel/drivers/ide.c.
use tuix_os.Base.{
  ℕ, zero, suc, ◌+◌, ◌*◌, ◌/◌, ◌%◌, ◌^◌, ◌<◌, ◌≤◌, ◌≡◌, refl, Bool, true, false, not, ◌&&◌, leb,
  ◌==◌, if◌then◌else◌, List, [], ◌∷◌, ◌++◌, All, arith,
}
use tuix_os.Base.Outcome.{ok, panic}
use tuix_os.Bits.{bit_or}
use tuix_os.Fs.{fs_size}
use tuix_os.Memory.{Mem}
use tuix_os.Ide.{
  has_bit, ide_bsy, ide_drdy, Buf, Sent, byte, block, Disk, wait_states, ide_wait, ide_start,
}

drive : (d : ℕ) → d < 2 → bit_or (bit_or 0xE0 (d * 2 ^ 4)) 0 ≡ 0xE0 + d * 2 ^ 4
drive zero h = refl
drive (suc zero) h = refl
drive (suc (suc d)) h = absurd (omega arith)

-- The disk is ready for a request, or is not.
abbrev pub ready : (state : ℕ) → Bool
ready r = has_bit ide_drdy r && not (has_bit ide_bsy r)

abbrev pub IsBusy : (state : ℕ) → Type 0
IsBusy r = ready r ≡ false

pub wait_states_lem :
    (busy rest : List ℕ) (r : ℕ)
    → All IsBusy busy
    → ready r ≡ true
    → wait_states (busy ++ (r ∷ rest)) ≡ ok (r, rest)
unfolding wait_states
wait_states_lem [] rest r a e = rw e refl
wait_states_lem (s ∷ busy) rest r (b, a) e = rw b (wait_states_lem busy rest r a e)

-- A request for a block within the file system, to a disk that is busy for some states and then ready:
-- the three ports of the sector and the low half of the fourth give the number of the block, the fourth
-- also the drive. Then for a dirty buffer the command to write and its block follow, and for another one
-- the command to read.
pub ide_start_lem :
    (b : Buf) (busy rest : List ℕ) (r : ℕ) (sent : List Sent) (input : Mem)
    → b.blockno < fs_size
    → All IsBusy busy
    → ready r ≡ true
    → (low middle high top : ℕ) × (ide_start b
          (record { states = busy ++ (r ∷ rest); sent = sent; input = input })
        ≡ ok (record {
          states = rest;
          sent =
              sent
              ++ (byte 0x3F6 0
                  ∷ byte 0x1F2 1
                  ∷ byte 0x1F3 low
                  ∷ byte 0x1F4 middle
                  ∷ byte 0x1F5 high
                  ∷ byte 0x1F6 top
                  ∷ (if b.flags / 4 % 2 == 1
                      then byte 0x1F7 0x30 ∷ block 0x1F0 b.bytes ∷ []
                      else byte 0x1F7 0x20 ∷ []));
          input = input;
        }))
      × (low + middle * 2 ^ 8 + high * 2 ^ 16 + top % 2 ^ 4 * 2 ^ 24 ≡ b.blockno)
      × (top / 2 ^ 4 % 2 ≡ b.dev % 2)
unfolding ide_start ide_wait
ide_start_lem b busy rest r sent input h a e =
    let inside : leb fs_size b.blockno ≡ false = ground arith in
    let none_above : b.blockno / 2 ^ 24 % 2 ^ 4 ≡ 0 = omega arith in
    let top = drive (b.dev % 2) (omega arith) in
    (
      b.blockno % 2 ^ 8,
      b.blockno / 2 ^ 8 % 2 ^ 8,
      b.blockno / 2 ^ 16 % 2 ^ 8,
      0xE0 + b.dev % 2 * 2 ^ 4,
      rw (inside, wait_states_lem busy rest r a e, none_above, top) refl,
      omega arith,
      omega arith,
    )

-- A block outside the file system panics before anything is sent.
pub ide_start-panic : (b : Buf) (d : Disk) → fs_size ≤ b.blockno → ide_start b d ≡ panic
unfolding ide_start
ide_start-panic b d h = let out : leb fs_size b.blockno ≡ true = ground arith in rw out refl
