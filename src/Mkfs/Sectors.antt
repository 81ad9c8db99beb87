-- ===== src/Mkfs/Sectors.antt =====
-- What a block write of tools/mkfs.c leaves to be read.
use tuix_os.Base.{ℕ, ◌+◌, ◌*◌, ◌/◌, ◌%◌, ◌≤◌, ◌<◌, ◌≡◌, ◌≢◌, ◌==◌, true, false, arith}
use tuix_os.Memory.{Mem, load8, load32}
use tuix_os.Memory.Laws.{load32_congr}
use tuix_os.Fs.{b_size}
use tuix_os.Mkfs.{put_sector, sector}

module _ (sec : ℕ) (buf disk : Mem) where
  pub load8-wsect_self :
      (i : ℕ) → i < b_size → load8 (put_sector sec buf disk) (sec * b_size + i) ≡ load8 buf i
  unfolding put_sector load8
  load8-wsect_self i h =
      let q : (sec * b_size + i) / b_size ≡ sec = omega arith in
      let r : (sec * b_size + i) % b_size ≡ i = omega arith in
      let here : ((sec * b_size + i) / b_size == sec) ≡ true = ground arith in rw (here, r)

  pub load8-wsect_ne : (x : ℕ) → x / b_size ≢ sec → load8 (put_sector sec buf disk) x ≡ load8 disk x
  unfolding put_sector load8
  load8-wsect_ne x ne = let other : (x / b_size == sec) ≡ false = ground arith in rw other

  pub load8-sector-wsect :
      (i : ℕ) → i < b_size → load8 (sector sec (put_sector sec buf disk)) i ≡ load8 buf i
  unfolding sector load8 put_sector
  load8-sector-wsect i h = load8-wsect_self i h

  pub load32-sector-wsect :
      (i : ℕ) → i + 4 ≤ b_size → load32 (sector sec (put_sector sec buf disk)) i ≡ load32 buf i
  load32-sector-wsect i h =
      load32_congr buf (sector sec (put_sector sec buf disk)) i
        (λ c l u. load8-sector-wsect c (omega arith))
