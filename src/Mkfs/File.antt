-- ===== src/Mkfs/File.antt =====
-- A file of an image of tools/mkfs.c, and what `iappend` does to it.
use tuix_os.Base.{ℕ, ◌+◌, ◌*◌, ◌/◌, ◌%◌, ◌^◌, ◌≤◌, ◌<◌, ◌≡◌, ◌≢◌, refl, sym, ap, ◌∙◌, arith}
use tuix_os.Base.Outcome.{ok, panic}
use tuix_os.Memory.{Mem, u32, load8, store32, load32}
use tuix_os.Memory.Laws.{load32_congr, load32-store32_self, load8-store32_ne}
use tuix_os.Fs.{b_size, max_file, dinode_size, size_at, addr_at, ipb, iblock}
use tuix_os.Mkfs.{
  Reading, Image, Appending, xint, rinode, winode, meta_num, inodes_num, inodestart, append_loop,
  iappend,
}
use tuix_os.Mkfs.Slots.{
  xint_lem, xint-load32, index_of, slot, slot_congr, index_congr, file_byte, IsFile, IsForeign,
  SameBlock,
}
use tuix_os.Mkfs.Alloc.{slots_kept-IsFile}
use tuix_os.Mkfs.Write.{spans, Written}
use tuix_os.Mkfs.Inode.{rinode_byte, rinode-winode_self, rinode-winode_ne, load8-winode_ne}
use tuix_os.Mkfs.Append.{append_loop_lem, append_loop-too_long}

-- The size of the file of an inode, and a byte of it.
abbrev pub size_of : Image → (inum : ℕ) → ℕ
size_of s inum = load32 (rinode inum s.disk) size_at

abbrev pub byte_of : Image → (inum i : ℕ) → ℕ
byte_of s inum i = file_byte s.disk (rinode inum s.disk) i

abbrev pub HasFile : Image → (inum : ℕ) → Type 0
HasFile s inum = IsFile s.disk (rinode inum s.disk) s.freeblock (size_of s inum)

-- The block `b` is neither free nor a part of the file.
abbrev pub IsOutside : Image → (inum b : ℕ) → Type 0
IsOutside s inum b = IsForeign s.disk (rinode inum s.disk) s.freeblock b

-- The file has got the `n` bytes of `data_` from `p` on at its end. The bytes that it had, the head of its
-- inode, the other inodes, and the blocks outside the file are as before.
pub record Appended (data_ : Mem) (p n inum : ℕ) (s s' : Image) : Type 0 where
  pub file : HasFile s' inum
  pub size : size_of s' inum ≡ size_of s inum + n
  pub old : (i : ℕ) → i < size_of s inum → byte_of s' inum i ≡ byte_of s inum i
  pub new : (i : ℕ) → i < n → byte_of s' inum (size_of s inum + i) ≡ load8 data_ (p + i)
  pub head : (i : ℕ) → i < size_at → load8 (rinode inum s'.disk) i ≡ load8 (rinode inum s.disk) i
  pub inodes :
      (k i : ℕ)
      → k ≢ inum
      → k < inodes_num
      → i < dinode_size
      → load8 (rinode k s'.disk) i ≡ load8 (rinode k s.disk) i
  pub outside :
      (b : ℕ) → IsOutside s inum b → b ≢ iblock inum inodestart → SameBlock b s.disk s'.disk
  pub foreign : (b : ℕ) → IsOutside s inum b → IsOutside s' inum b
  pub cost : s'.freeblock ≤ s.freeblock + 2 * spans n
  pub length : s'.length ≡ s.length
  pub grow : s.freeblock ≤ s'.freeblock

module _ (data_ : Mem) (p n inum : ℕ) (s : Image) (c : Appending) (in_range : inum < inodes_num)
    (fits : size_of s inum + n ≤ max_file * b_size) (v : HasFile s inum)
    (w : Written data_ p n
      (size_of s inum)
      (record { image = s; din = rinode inum s.disk })
      c) where
  abbrev size' : ℕ
  size' = size_of s inum + n

  abbrev ip : Mem
  ip = store32 c.din size_at (xint size')

  abbrev disk' : Mem
  disk' = winode inum ip c.image.disk

  abbrev din' : Mem
  din' = rinode inum disk'

  numbers : (i : ℕ) → addr_at 0 ≤ i → i < dinode_size → load8 din' i ≡ load8 c.din i
  numbers i l u =
      rinode-winode_self inum ip c.image.disk i u
      ∙ load8-store32_ne c.din size_at (xint size') i (omega arith)

  index_same : index_of din' ≡ index_of c.din
  index_same = index_congr c.din din' numbers

  slots_same : (j : ℕ) → j < max_file → slot disk' din' j ≡ slot c.image.disk c.din j
  slots_same j l =
      slot_congr c.image.disk disk' c.din din' j l numbers
        (λ ne x e. load8-winode_ne inum ip c.image.disk x (omega (arith, w.file.index ne)))

  bytes_same : (i : ℕ) → i < size' → file_byte disk' din' i ≡ file_byte c.image.disk c.din i
  unfolding file_byte
  bytes_same i l =
      let j = i / b_size in
      let jl : j < max_file = omega arith in
      let there = w.file.full j jl (omega arith) in
      let bound = w.file.alive j jl there in
      rw (slots_same j jl) (
        load8-winode_ne inum ip c.image.disk (slot c.image.disk c.din j * b_size + i % b_size)
          (omega (arith, bound)))

  size_set : load32 din' size_at ≡ size'
  size_set =
      load32_congr ip din' size_at
        (λ k l u. rinode-winode_self inum ip c.image.disk k (omega arith))
      ∙ load32-store32_self c.din size_at (xint size')
      ∙ ap u32 (xint_lem size')
      ∙ (omega arith)

  -- No block in front of the data is a part of the file.
  metadata : (b : ℕ) → 0 < b → b < meta_num → IsOutside s inum b
  metadata b some_ l =
      let behind = v.behind in
      record {
        below = omega arith;
        off_slots = λ j k e. ground (arith, v.alive j k);
        off_index = λ e. ground (arith, v.index);
      }

  others :
      (k i : ℕ)
      → k < inodes_num
      → i < dinode_size
      → load8 (rinode k c.image.disk) i ≡ load8 (rinode k s.disk) i
  others k i kl l =
      rinode_byte k i c.image.disk
      ∙ w.outside (iblock k inodestart) (metadata (iblock k inodestart) (omega arith) (omega arith))
          (iblock k inodestart * b_size + (k % ipb * dinode_size + i)) (omega arith)
      ∙ sym (rinode_byte k i s.disk)

  appended : Appended data_ p n inum s (record (c.image) { disk = disk' })
  appended =
      let behind = w.file.behind in
      record {
        file = rw size_set (
            slots_kept-IsFile c.image.disk c.din disk' din' c.image.freeblock size' w.file
              c.image.freeblock (omega arith) slots_same index_same
              (λ x l. load8-winode_ne inum ip c.image.disk x (omega arith) ∙ w.file.clear x l));
        size = size_set;
        old = λ i l. bytes_same i (omega arith) ∙ w.old i l;
        new = λ i l. bytes_same (size_of s inum + i) (omega arith) ∙ w.new i l;
        head = λ i l.
            rinode-winode_self inum ip c.image.disk i (omega arith)
            ∙ load8-store32_ne c.din size_at (xint size') i (omega arith)
            ∙ w.head i (omega arith);
        inodes = λ k i ne kl l. rinode-winode_ne inum ip c.image.disk k i ne l ∙ others k i kl l;
        outside = λ b f ne x e.
            load8-winode_ne inum ip c.image.disk x (λ u. ne (sym e ∙ u)) ∙ w.outside b f x e;
        foreign = λ b f.
            let g = w.foreign b f in
            record {
              below = g.below;
              off_slots = λ j l. rw (slots_same j l) (g.off_slots j l);
              off_index = rw index_same g.off_index;
            };
        cost = let up = w.cost in ground arith;
        length = w.length;
        grow = w.grow;
      }

iappend-run :
    (data_ : Mem) (p n inum off : ℕ) (s : Image) (c : Reading)
    → append_loop (n + 1) data_ p n (size_of s inum) (record {
      a = record { image = s; din = rinode inum s.disk };
      buf = s.stale;
      indirect = s.stale;
    })
      ≡ ok (off, c)
    → iappend inum data_ p n s
      ≡ ok (record (c.a.image) {
        disk = winode inum (store32 c.a.din size_at (xint off)) c.a.image.disk;
      })
unfolding iappend
iappend-run data_ p n inum off s c ran = rw (xint-load32 (rinode inum s.disk) size_at, ran) refl

-- Given an inode whose file has its blocks to itself, in a disk that is clear behind the blocks in use, and
-- `n` bytes that fit into the largest file and into the blocks of the image file, which is no longer than
-- 4 GB, `iappend` succeeds. The file is then the old bytes and
-- behind them the new ones, its inode has the new size and else its old head, and it has its blocks to
-- itself again. Each other inode, and each block in use that is neither of this file nor the block of
-- its inode, is as before.
pub iappend_lem :
    (data_ : Mem) (p n inum : ℕ) (s : Image)
    → inum < inodes_num
    → HasFile s inum
    → size_of s inum + n ≤ max_file * b_size
    → s.freeblock + 2 * spans n ≤ s.length
    → s.length ≤ 2 ^ 23
    → (s' : Image) × (iappend inum data_ p n s ≡ ok s') × Appended data_ p n inum s s'
iappend_lem data_ p n inum s in_range v fits room small =
    let a : Reading = record {
      a = record { image = s; din = rinode inum s.disk };
      buf = s.stale;
      indirect = s.stale;
    } in
    let (c, ran, w) =
      append_loop_lem (n + 1) data_ p n (size_of s inum) a (omega arith) v fits (ground arith)
        (omega arith) in
    (
      record (c.a.image) { disk = disk' data_ p n inum s c.a in_range fits v w },
      iappend-run data_ p n inum (size_of s inum + n) s c ran,
      appended data_ p n inum s c.a in_range fits v w,
    )

-- When the file would pass its largest size, `iappend` of one byte or more stops at its assertion, as long
-- as the new size does not wrap.
pub iappend-too_long :
    (data_ : Mem) (p n inum : ℕ) (s : Image)
    → 0 < n
    → max_file * b_size < size_of s inum + n
    → size_of s inum + n < 2 ^ 32
    → iappend inum data_ p n s ≡ panic
unfolding iappend
iappend-too_long data_ p n inum s some_ long fits =
    let a : Reading = record {
      a = record { image = s; din = rinode inum s.disk };
      buf = s.stale;
      indirect = s.stale;
    } in
    rw
      (
        xint-load32 (rinode inum s.disk) size_at,
        append_loop-too_long (n + 1) data_ p n (size_of s inum) a (omega arith) some_ long fits,
      )
      refl
