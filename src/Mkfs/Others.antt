-- ===== src/Mkfs/Others.antt =====
-- What `iappend` of tools/mkfs.c leaves of the other files, and a file that is copied in pieces.
pub mod Pairs
use tuix_os.Base.{ℕ, ◌+◌, ◌*◌, ◌/◌, ◌%◌, ◌^◌, ◌≤◌, ◌<◌, ◌≡◌, ◌≢◌, ◌∙◌, arith}
use tuix_os.Base.Outcome.{ok}
use tuix_os.Memory.{Mem, load8}
use tuix_os.Memory.Laws.{load32_congr}
use tuix_os.Fs.{b_size, max_file, dinode_size, size_at}
use tuix_os.Mkfs.{Image, rinode, meta_num, inodes_num, ialloc, iappend}
use tuix_os.Mkfs.Slots.{index_of, slot, slot_congr, index_congr, file_byte}
use tuix_os.Mkfs.Alloc.{slots_kept-IsFile}
use tuix_os.Mkfs.Inode.{rinode-winode_ne}
use tuix_os.Mkfs.New.{IsFresh, outside_same, slots_zero, index_zero, new_din}
use tuix_os.Mkfs.Write.{spans}
use tuix_os.Mkfs.File.{size_of, byte_of, HasFile, IsOutside, Appended, iappend_lem}

-- No block of the file `k` is a part of the file `inum`.
pub record IsApart (s : Image) (k inum : ℕ) : Type 0 where
  pub slots :
      (j : ℕ)
      → j < max_file
      → slot s.disk (rinode k s.disk) j ≢ 0
      → IsOutside s inum (slot s.disk (rinode k s.disk) j)
  pub index : index_of (rinode k s.disk) ≢ 0 → IsOutside s inum (index_of (rinode k s.disk))

module _ (data_ : Mem) (p n inum k : ℕ) (s s' : Image) (w : Appended data_ p n inum s s')
    (v : HasFile s k) (other : k ≢ inum) (in_range : k < inodes_num) (inum_in : inum < inodes_num)
    (apart : IsApart s k inum) where
  abbrev din : Mem
  din = rinode k s.disk

  abbrev din' : Mem
  din' = rinode k s'.disk

  inode_same : (i : ℕ) → i < dinode_size → load8 din' i ≡ load8 din i
  inode_same i l = w.inodes k i other in_range l

  index_same : index_of din' ≡ index_of din
  index_same = index_congr din din' (λ i l u. inode_same i u)

  slots_same : (j : ℕ) → j < max_file → slot s'.disk din' j ≡ slot s.disk din j
  slots_same j l =
      slot_congr s.disk s'.disk din din' j l (λ i k u. inode_same i u)
        (λ ne. w.outside (index_of din) (apart.index ne) (omega (arith, v.index ne)))

  pub Appended-size : size_of s' k ≡ size_of s k
  Appended-size = load32_congr din din' size_at (λ i l u. inode_same i (omega arith))

  -- The file `k` is a file as before.
  pub Appended-HasFile : HasFile s' k
  Appended-HasFile =
      let grow = w.grow in
      rw Appended-size (
        slots_kept-IsFile s.disk din s'.disk din' s.freeblock (size_of s k) v s'.freeblock grow
          slots_same index_same w.file.clear)

  pub Appended-bytes :
      size_of s k ≤ max_file * b_size → (i : ℕ) → i < size_of s k → byte_of s' k i ≡ byte_of s k i
  unfolding file_byte
  Appended-bytes fits i l =
      let j = i / b_size in
      let jl : j < max_file = omega arith in
      let there = v.full j jl (omega arith) in
      rw (slots_same j jl) (
        w.outside (slot s.disk din j) (apart.slots j jl there) (omega (arith, v.alive j jl there))
          (slot s.disk din j * b_size + i % b_size) (omega arith))

  -- The file `k` stays apart from the one that grows.
  pub Appended-IsApart : IsApart s' k inum
  Appended-IsApart = record {
    slots = λ j l. rw (slots_same j l) (λ ne. w.foreign (slot s.disk din j) (apart.slots j l ne));
    index = rw index_same (λ ne. w.foreign (index_of din) (apart.index ne));
  }

-- Let a second file have blocks of its own beside the file to which `iappend` puts `n` bytes that fit.
-- Then the second file still has its blocks to itself, apart from the first, with the same size and the
-- same bytes.
pub iappend-other :
    (data_ : Mem) (p n inum k : ℕ) (s : Image)
    → inum < inodes_num
    → k < inodes_num
    → k ≢ inum
    → HasFile s inum
    → HasFile s k
    → IsApart s k inum
    → size_of s inum + n ≤ max_file * b_size
    → size_of s k ≤ max_file * b_size
    → s.freeblock + 2 * spans n ≤ s.length
    → s.length ≤ 2 ^ 23
    → (s' : Image) × (iappend inum data_ p n s ≡ ok s')
      × HasFile s' k
      × IsApart s' k inum
      × (size_of s' k ≡ size_of s k)
      × ((i : ℕ) → i < size_of s k → byte_of s' k i ≡ byte_of s k i)
iappend-other data_ p n inum k s inum_in in_range other v u apart fits fits_k room small =
    let (s', ran, w) = iappend_lem data_ p n inum s inum_in v fits room small in
    (
      s',
      ran,
      Appended-HasFile data_ p n inum k s s' w u other in_range inum_in apart,
      Appended-IsApart data_ p n inum k s s' w u other in_range inum_in apart,
      Appended-size data_ p n inum k s s' w u other in_range inum_in apart,
      Appended-bytes data_ p n inum k s s' w u other in_range inum_in apart fits_k,
    )

-- A file stays as it is when `ialloc` makes a new one, and is apart from it.
module _ (type k : ℕ) (s : Image) (fresh : IsFresh s) (in_range : k < inodes_num)
    (new_in : s.freeinode < inodes_num) (other : k ≢ s.freeinode) (v : HasFile s k) where
  abbrev made : Image
  made = (ialloc type s).1

  ialloc_inode :
      (i : ℕ) → i < dinode_size → load8 (rinode k made.disk) i ≡ load8 (rinode k s.disk) i
  unfolding ialloc
  ialloc_inode i l = rinode-winode_ne s.freeinode (new_din type s) s.disk k i other l

  ialloc_index : index_of (rinode k made.disk) ≡ index_of (rinode k s.disk)
  ialloc_index = index_congr (rinode k s.disk) (rinode k made.disk) (λ i l u. ialloc_inode i u)

  ialloc_slots :
      (j : ℕ)
      → j < max_file
      → slot made.disk (rinode k made.disk) j ≡ slot s.disk (rinode k s.disk) j
  ialloc_slots j l =
      slot_congr s.disk made.disk (rinode k s.disk) (rinode k made.disk) j l
        (λ i k u. ialloc_inode i u) (λ ne x e. outside_same type s x (omega (arith, v.index ne)))

  pub ialloc_size : size_of made k ≡ size_of s k
  ialloc_size =
      load32_congr (rinode k s.disk) (rinode k made.disk) size_at
        (λ i l u. ialloc_inode i (omega arith))

  pub ialloc-other : HasFile made k
  unfolding ialloc
  ialloc-other =
      let behind = fresh.behind in
      rw ialloc_size (
        slots_kept-IsFile s.disk (rinode k s.disk) made.disk (rinode k made.disk) s.freeblock
          (size_of s k) v s.freeblock (omega arith) ialloc_slots ialloc_index
          (λ x l. outside_same type s x (omega arith) ∙ fresh.clear x l))

  ialloc-IsOutside : (b : ℕ) → meta_num ≤ b → b < s.freeblock → IsOutside made s.freeinode b
  unfolding ialloc
  ialloc-IsOutside b l u = record {
    below = u;
    off_slots = λ j h e. omega (arith, slots_zero type s j h);
    off_index = λ e. omega (arith, index_zero type s);
  }

  pub ialloc-IsApart : IsApart made k s.freeinode
  ialloc-IsApart = record {
    slots = λ j l. rw (ialloc_slots j l) (λ ne.
        let b = v.alive j l ne in ialloc-IsOutside (slot s.disk (rinode k s.disk) j) (b.0) (b.1));
    index =
        rw ialloc_index
          (λ ne. let b = v.index ne in ialloc-IsOutside (index_of (rinode k s.disk)) (b.0) (b.1));
  }
