-- ===== src/Mkfs/Slots.antt =====
-- The blocks of a file in an image of tools/mkfs.c, as its inode and its index block give them.
use tuix_os.Base.{
  ℕ, ◌+◌, ◌-◌, ◌*◌, ◌/◌, ◌%◌, ◌≤◌, ◌<◌, ◌≡◌, ◌≢◌, sym, ◌∙◌, false, ltb, lt→ltb, dec_lt, ℕ_discrete,
  ◌==◌, if◌then◌else◌, arith,
}
use tuix_os.Memory.{Mem, u32, load8, load32}
use tuix_os.Memory.Laws.{load32_congr, load32-lt}
use tuix_os.Fs.{b_size, direct_num, max_file, addr_at, dinode_size}
use tuix_os.Mkfs.{xint, sector, meta_num}

-- On a little-endian host `xint` is the identity of 32-bit numbers.
pub xint_lem : (x : ℕ) → xint x ≡ u32 x
unfolding xint load32 load8
xint_lem x = omega arith

pub xint-load32 : (m : Mem) (a : ℕ) → xint (load32 m a) ≡ load32 m a
xint-load32 m a = omega (arith, xint_lem (load32 m a), load32-lt m a)

-- The block of further block numbers, or 0.
unfoldable pub index_of : Mem → ℕ
index_of din = load32 din (addr_at direct_num)

-- The block of the `j`-th part of the file, or 0.
unfoldable pub slot : (disk din : Mem) → (j : ℕ) → ℕ
slot disk din j =
    if ltb j direct_num
    then load32 din (addr_at j)
    else if index_of din == 0
    then 0
    else load32 (sector (index_of din) disk) (4 * (j - direct_num))

-- The `i`-th byte of the file.
unfoldable pub file_byte : (disk din : Mem) → (i : ℕ) → ℕ
file_byte disk din i = load8 disk (slot disk din (i / b_size) * b_size + i % b_size)

-- The blocks of the file, the first `off` bytes of which are there, are distinct blocks behind the
-- metadata and in front of `fb`, where the disk is clear.
pub record IsFile (disk din : Mem) (fb off : ℕ) : Type 0 where
  pub behind : meta_num ≤ fb
  pub alive :
      (j : ℕ)
      → j < max_file
      → slot disk din j ≢ 0
      → (meta_num ≤ slot disk din j) × (slot disk din j < fb)
  pub apart :
      (j k : ℕ)
      → j < max_file
      → k < max_file
      → slot disk din j ≢ 0
      → slot disk din j ≡ slot disk din k
      → j ≡ k
  pub index : index_of din ≢ 0 → (meta_num ≤ index_of din) × (index_of din < fb)
  pub off_index : (j : ℕ) → j < max_file → index_of din ≢ 0 → slot disk din j ≢ index_of din
  pub clear : (x : ℕ) → fb * b_size ≤ x → load8 disk x ≡ 0
  pub full : (j : ℕ) → j < max_file → j * b_size < off → slot disk din j ≢ 0

-- A block before `fb` that is no part of the file.
pub record IsForeign (disk din : Mem) (fb b : ℕ) : Type 0 where
  pub below : b < fb
  pub off_slots : (j : ℕ) → j < max_file → slot disk din j ≢ b
  pub off_index : index_of din ≢ b

-- Two disks have the same bytes in the block `b`.
abbrev pub SameBlock : (b : ℕ) → (m m' : Mem) → Type 0
SameBlock b m m' = (x : ℕ) → x / b_size ≡ b → load8 m' x ≡ load8 m x

load32-rsect_congr :
    (b i : ℕ) (m m' : Mem)
    → i + 4 ≤ b_size
    → SameBlock b m m'
    → load32 (sector b m') i ≡ load32 (sector b m) i
unfolding sector load8
load32-rsect_congr b i m m' h same =
    load32_congr (sector b m) (sector b m') i (λ c l u. same (b * b_size + c) (omega arith))

pub slot-direct : (m din : Mem) (j : ℕ) → j < direct_num → slot m din j ≡ load32 din (addr_at j)
unfolding slot
slot-direct m din j h = rw (lt→ltb j direct_num h)

pub slot_none : (m din : Mem) (j : ℕ) → direct_num ≤ j → index_of din ≡ 0 → slot m din j ≡ 0
unfolding slot
slot_none m din j h e = let b : ltb j direct_num ≡ false = ground arith in rw (b, e)

pub slot-indirect :
    (m din : Mem) (j : ℕ)
    → direct_num ≤ j
    → index_of din ≢ 0
    → slot m din j ≡ load32 (sector (index_of din) m) (4 * (j - direct_num))
unfolding slot
slot-indirect m din j h ne =
    let b : ltb j direct_num ≡ false = ground arith in
    let c : (index_of din == 0) ≡ false = ground arith in rw (b, c)

pub index_congr :
    (din din' : Mem)
    → ((i : ℕ) → addr_at 0 ≤ i → i < dinode_size → load8 din' i ≡ load8 din i)
    → index_of din' ≡ index_of din
unfolding index_of
index_congr din din' same =
    load32_congr din din' (addr_at direct_num) (λ c k u. same c (omega arith) (omega arith))

-- A block that is clear has no block numbers.
pub load32-rsect_clear :
    (b i : ℕ) (m : Mem) → ((x : ℕ) → b * b_size ≤ x → load8 m x ≡ 0) → load32 (sector b m) i ≡ 0
unfolding load32 load8 sector
load32-rsect_clear b i m clear = rw (
  clear (b * b_size + i) (omega arith),
  clear (b * b_size + (i + 1)) (omega arith),
  clear (b * b_size + (i + 2)) (omega arith),
  clear (b * b_size + (i + 3)) (omega arith),
)

-- A slot of the index block depends on that block alone.
pub slot_congr_indirect :
    (m m' din din' : Mem) (j : ℕ)
    → direct_num ≤ j
    → j < max_file
    → index_of din' ≡ index_of din
    → (index_of din ≢ 0 → SameBlock (index_of din) m m')
    → slot m' din' j ≡ slot m din j
slot_congr_indirect m m' din din' j l h index block = elim (ℕ_discrete (index_of din) 0) [
  | yes e ↦ slot_none m' din' j l (index ∙ e) ∙ sym (slot_none m din j l e)
  | no ne ↦
      slot-indirect m' din' j l (λ e. ne (sym index ∙ e))
      ∙ rw index
          (load32-rsect_congr (index_of din) (4 * (j - direct_num)) m m' (omega arith) (block ne))
      ∙ sym (slot-indirect m din j l ne)
]

-- The slots depend on the block numbers in the inode and on its index block alone.
pub slot_congr :
    (m m' din din' : Mem) (j : ℕ)
    → j < max_file
    → ((i : ℕ) → addr_at 0 ≤ i → i < dinode_size → load8 din' i ≡ load8 din i)
    → (index_of din ≢ 0 → SameBlock (index_of din) m m')
    → slot m' din' j ≡ slot m din j
slot_congr m m' din din' j h same block = elim (dec_lt j direct_num) [
  | yes l ↦
      slot-direct m' din' j l
      ∙ load32_congr din din' (addr_at j) (λ c k u. same c (omega arith) (omega arith))
      ∙ sym (slot-direct m din j l)
  | no l ↦ slot_congr_indirect m m' din din' j (omega arith) h (index_congr din din' same) block
]
