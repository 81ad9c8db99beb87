-- ===== src/Mkfs/New.antt =====
-- What `ialloc` of tools/mkfs.c gives, a file without bytes, and what `iappend` then makes of it.
use tuix_os.Base.{ℕ, ◌+◌, ◌*◌, ◌/◌, ◌^◌, ◌≤◌, ◌<◌, ◌≡◌, ◌≢◌, refl, ap, ◌∙◌, arith, dec_lt}
use tuix_os.Memory.{Mem, u32, load8, store8, load32, store32}
use tuix_os.Memory.Laws.{load8-store8_ne, load8-store32_ne, load32_congr, load32-store32_self}
use tuix_os.Fs.{b_size, direct_num, max_file, dinode_size, nlink_at, size_at, addr_at, iblock}
use tuix_os.Mkfs.{Image, xint, rinode, put_short, meta_num, inodes_num, inodestart, ialloc}
use tuix_os.Mkfs.Slots.{xint_lem, index_of, slot, slot-direct, slot_none}
use tuix_os.Mkfs.Inode.{rinode-winode_self, load8-winode_ne}
use tuix_os.Mkfs.File.{size_of, HasFile}

-- The disk is clear from the next free block on, which is behind the metadata.
pub record IsFresh (s : Image) : Type 0 where
  pub behind : meta_num ≤ s.freeblock
  pub clear : (x : ℕ) → s.freeblock * b_size ≤ x → load8 s.disk x ≡ 0

module _ (type : ℕ) (s : Image) where
  abbrev typed : Mem
  typed = put_short (put_short (λ i. 0) 0 type) nlink_at 1

  abbrev pub new_din : Mem
  new_din = store32 typed size_at (xint 0)

  abbrev s' : Image
  s' = (ialloc type s).1

  numbers_zero : (i : ℕ) → addr_at 0 ≤ i → load8 new_din i ≡ 0
  unfolding load8
  numbers_zero i l =
      let m0 : Mem = λ j. 0 in
      let m1 = store8 m0 0 type in
      let m2 = store8 m1 1 (type / 2 ^ 8) in
      let m3 = store8 m2 nlink_at 1 in
      load8-store32_ne typed size_at (xint 0) i (omega arith)
      ∙ load8-store8_ne m3 (nlink_at + 1) (1 / 2 ^ 8) i (omega arith)
      ∙ load8-store8_ne m2 nlink_at 1 i (omega arith)
      ∙ load8-store8_ne m1 1 (type / 2 ^ 8) i (omega arith)
      ∙ load8-store8_ne m0 0 type i (omega arith)
      ∙ refl

  new_byte : (i : ℕ) → i < dinode_size → load8 (rinode s.freeinode s'.disk) i ≡ load8 new_din i
  unfolding ialloc
  new_byte = rinode-winode_self s.freeinode new_din s.disk

  -- A word of block numbers of the new inode.
  number_zero : (j : ℕ) → j ≤ direct_num → load32 (rinode s.freeinode s'.disk) (addr_at j) ≡ 0
  unfolding load32 load8
  number_zero j l =
      load32_congr (λ i. 0) (rinode s.freeinode s'.disk) (addr_at j)
        (λ i k u. new_byte i (omega arith) ∙ numbers_zero i (omega arith))

  pub size_zero : size_of s' s.freeinode ≡ 0
  size_zero =
      load32_congr new_din (rinode s.freeinode s'.disk) size_at (λ i k u. new_byte i (omega arith))
      ∙ load32-store32_self typed size_at (xint 0)
      ∙ ap u32 (xint_lem 0)

  pub index_zero : index_of (rinode s.freeinode s'.disk) ≡ 0
  unfolding index_of
  index_zero = number_zero direct_num (omega arith)

  pub slots_zero : (j : ℕ) → j < max_file → slot s'.disk (rinode s.freeinode s'.disk) j ≡ 0
  slots_zero j l = elim (dec_lt j direct_num) [
    | yes k ↦ slot-direct s'.disk (rinode s.freeinode s'.disk) j k ∙ number_zero j (omega arith)
    | no k ↦ slot_none s'.disk (rinode s.freeinode s'.disk) j (omega arith) index_zero
  ]

  pub outside_same :
      (x : ℕ) → x / b_size ≢ iblock s.freeinode inodestart → load8 s'.disk x ≡ load8 s.disk x
  unfolding ialloc
  outside_same = load8-winode_ne s.freeinode new_din s.disk

  -- In a fresh image with an inode left, `ialloc` gives that inode an empty file.
  pub ialloc-HasFile : IsFresh s → s.freeinode < inodes_num → HasFile s' s.freeinode
  unfolding ialloc
  ialloc-HasFile f l =
      let behind = f.behind in
      record {
        behind = behind;
        alive = λ j k ne. absurd (ne (slots_zero j k));
        apart = λ j k jl kl ne. absurd (ne (slots_zero j jl));
        index = λ ne. absurd (ne index_zero);
        off_index = λ j k ne. absurd (ne index_zero);
        clear = λ x k. outside_same x (omega arith) ∙ f.clear x k;
        full = λ j k h. absurd (omega (arith, size_zero));
      }
