-- ===== src/Mkfs/Whole/Kept.antt =====
-- What the last two steps of `main` in tools/mkfs.c, the rounding of the root's size and the bitmap, leave
-- of the files.
use tuix_os.Base.{ℕ, ◌+◌, ◌*◌, ◌/◌, ◌%◌, ◌≤◌, ◌<◌, ◌≡◌, ◌≢◌, sym, ◌∙◌, arith, ℕ_discrete}
use tuix_os.Memory.{Mem, load8, store32}
use tuix_os.Memory.Laws.{load32_congr, load8-store32_ne}
use tuix_os.Fs.{b_size, max_file, root_ino, dinode_size, addr_at, size_at, iblock, ipb}
use tuix_os.Mkfs.{Image, rinode, winode, meta_num, inodes_num, inodestart, bmapstart}
use tuix_os.Mkfs.Slots.{slot, slot_congr, file_byte}
use tuix_os.Mkfs.Inode.{rinode_byte, rinode-winode_self, rinode-winode_ne, load8-winode_ne}
use tuix_os.Mkfs.File.{size_of, byte_of}
use tuix_os.Mkfs.Build.{round_root}
use tuix_os.Mkfs.Whole.{Text, InUse, IsImage}

-- The disks have the same data blocks and the same inodes, but perhaps for the size of the root.
pub record IsKept (disk disk' : Mem) : Type 0 where
  pub data_ : (x : ℕ) → meta_num * b_size ≤ x → load8 disk' x ≡ load8 disk x
  pub numbers :
      (k i : ℕ)
      → k < inodes_num
      → addr_at 0 ≤ i
      → i < dinode_size
      → load8 (rinode k disk') i ≡ load8 (rinode k disk) i
  pub others :
      (k i : ℕ)
      → k < inodes_num
      → k ≢ root_ino
      → i < dinode_size
      → load8 (rinode k disk') i ≡ load8 (rinode k disk) i

module _ (s s' : Image) (texts : ℕ → Text) (v : IsImage s texts) (w : IsKept s.disk s'.disk) (k : ℕ)
    (u : InUse s k) where
  k_in : k < inodes_num
  k_in = let most = v.inodes in omega arith

  slots_same :
      (j : ℕ) → j < max_file → slot s'.disk (rinode k s'.disk) j ≡ slot s.disk (rinode k s.disk) j
  slots_same j l =
      let f = v.file k u in
      slot_congr s.disk s'.disk (rinode k s.disk) (rinode k s'.disk) j l
        (λ i lo hi. w.numbers k i k_in lo hi) (λ ne x e. w.data_ x (omega (arith, f.index ne)))

  -- The bytes of each file are there as before.
  pub IsKept-bytes : (i : ℕ) → i < (texts k).len → byte_of s' k i ≡ (texts k).at i
  unfolding file_byte
  IsKept-bytes i l =
      let f = v.file k u in
      let (size, bytes) = v.text k u in
      let most = v.fits k u in
      let j = i / b_size in
      let jl : j < max_file = omega arith in
      let there = f.full j jl (omega arith) in
      rw (slots_same j jl) (
        w.data_ (slot s.disk (rinode k s.disk) j * b_size + i % b_size)
          (omega (arith, f.alive j jl there)))
      ∙ bytes i l

  -- And its size, but for the root.
  pub IsKept-size : k ≢ root_ino → size_of s' k ≡ (texts k).len
  IsKept-size ne =
      load32_congr (rinode k s.disk) (rinode k s'.disk) size_at
        (λ i l h. w.others k i k_in ne (omega arith))
      ∙ (v.text k u).0

pub IsKept-trans : (d d' d'' : Mem) → IsKept d d' → IsKept d' d'' → IsKept d d''
IsKept-trans d d' d'' v w = record {
  data_ = λ x l. w.data_ x l ∙ v.data_ x l;
  numbers = λ k i a b c. w.numbers k i a b c ∙ v.numbers k i a b c;
  others = λ k i a b c. w.others k i a b c ∙ v.others k i a b c;
}

-- A write of the root's inode that changes its size alone.
resized-IsKept :
    (d : Mem) (v : ℕ) → IsKept d (winode root_ino (store32 (rinode root_ino d) size_at v) d)
resized-IsKept d v =
    let ip = store32 (rinode root_ino d) size_at v in
    record {
      data_ = λ x l. load8-winode_ne root_ino ip d x (omega arith);
      numbers = λ k i kl lo hi. elim (ℕ_discrete k root_ino) [
        | yes e ↦ rw e (
            rinode-winode_self root_ino ip d i hi
            ∙ load8-store32_ne (rinode root_ino d) size_at v i (omega arith))
        | no ne ↦ rinode-winode_ne root_ino ip d k i ne hi
      ];
      others = λ k i kl ne hi. rinode-winode_ne root_ino ip d k i ne hi;
    }

pub round_root-IsKept : (s : Image) → IsKept s.disk (round_root s).disk
unfolding round_root
round_root-IsKept s = resized-IsKept s.disk _

-- Disks that differ in the block of the bitmap only.
pub bitmap-IsKept :
    (d d' : Mem) → ((x : ℕ) → x / b_size ≢ bmapstart → load8 d' x ≡ load8 d x) → IsKept d d'
bitmap-IsKept d d' same =
    let inode : (k i : ℕ)
        → k < inodes_num
        → i < dinode_size
        → load8 (rinode k d') i ≡ load8 (rinode k d) i =
      λ k i kl l.
        rinode_byte k i d'
        ∙ same (iblock k inodestart * b_size + (k % ipb * dinode_size + i)) (omega arith)
        ∙ sym (rinode_byte k i d) in
    record {
      data_ = λ x l. same x (omega arith);
      numbers = λ k i kl lo hi. inode k i kl hi;
      others = λ k i kl ne hi. inode k i kl hi;
    }
