-- ===== src/Mkfs/Others/Pairs.antt =====
-- Files of an image of tools/mkfs.c that stay apart from each other while a third one grows or is made.
use tuix_os.Base.{ℕ, ◌+◌, ◌*◌, ◌/◌, ◌%◌, ◌≤◌, ◌<◌, ◌≡◌, ◌≢◌, sym, ◌∙◌, arith}
use tuix_os.Memory.{Mem}
use tuix_os.Fs.{b_size, max_file}
use tuix_os.Mkfs.{Image, rinode, inodes_num, ialloc}
use tuix_os.Mkfs.Slots.{index_of, slot, file_byte}
use tuix_os.Mkfs.New.{IsFresh, outside_same}
use tuix_os.Mkfs.File.{size_of, byte_of, HasFile, IsOutside, Appended}
use tuix_os.Mkfs.Others.{IsApart, slots_same, index_same, ialloc_slots, ialloc_index}

-- Of two files that are apart each is apart from the other.
pub IsApart-sym : (s : Image) (k l : ℕ) → HasFile s k → HasFile s l → IsApart s k l → IsApart s l k
IsApart-sym s k l v u a = record {
  slots = λ j h ne. record {
    below = (u.alive j h ne).1;
    off_slots = λ i hi e. (a.slots i hi (λ z. ne (sym e ∙ z))).off_slots j h (sym e);
    off_index = λ e. (a.index (λ z. ne (sym e ∙ z))).off_slots j h (sym e);
  };
  index = λ ne. record {
    below = (u.index ne).1;
    off_slots = λ i hi e. (a.slots i hi (λ z. ne (sym e ∙ z))).off_index (sym e);
    off_index = λ e. (a.index (λ z. ne (sym e ∙ z))).off_index (sym e);
  };
}

-- What makes two files stay apart: the numbers of their blocks are the same, and no fewer blocks are
-- in use.
same-IsApart :
    (s s' : Image) (k l : ℕ)
    → s.freeblock ≤ s'.freeblock
    → ((j : ℕ) → j < max_file → slot s'.disk (rinode k s'.disk) j ≡ slot s.disk (rinode k s.disk) j)
    → (index_of (rinode k s'.disk) ≡ index_of (rinode k s.disk))
    → ((j : ℕ) → j < max_file → slot s'.disk (rinode l s'.disk) j ≡ slot s.disk (rinode l s.disk) j)
    → (index_of (rinode l s'.disk) ≡ index_of (rinode l s.disk))
    → IsApart s k l
    → IsApart s' k l
same-IsApart s s' k l grow slots_k index_k slots_l index_l a = record {
  slots = λ j h. rw (slots_k j h) (λ ne. moved (slot s.disk (rinode k s.disk) j) (a.slots j h ne));
  index = rw index_k (λ ne. moved (index_of (rinode k s.disk)) (a.index ne));
}
  where
    moved : (b : ℕ) → IsOutside s l b → IsOutside s' l b
    moved b o =
        let under = o.below in
        record {
          below = omega arith;
          off_slots = λ i hi. rw (slots_l i hi) (o.off_slots i hi);
          off_index = rw index_l (o.off_index);
        }

module _ (data_ : Mem) (p n inum : ℕ) (s s' : Image) (w : Appended data_ p n inum s s')
    (inum_in : inum < inodes_num) where
  pub Appended-pair :
      (k l : ℕ)
      → HasFile s k
      → HasFile s l
      → k ≢ inum
      → l ≢ inum
      → k < inodes_num
      → l < inodes_num
      → IsApart s k inum
      → IsApart s l inum
      → IsApart s k l
      → IsApart s' k l
  Appended-pair k l v u nk nl kl ll ak al a =
      same-IsApart s s' k l w.grow (slots_same data_ p n inum k s s' w v nk kl inum_in ak)
        (index_same data_ p n inum k s s' w v nk kl inum_in ak)
        (slots_same data_ p n inum l s s' w u nl ll inum_in al)
        (index_same data_ p n inum l s s' w u nl ll inum_in al) a

module _ (type : ℕ) (s : Image) (fresh : IsFresh s) (new_in : s.freeinode < inodes_num) where
  pub ialloc-pair :
      (k l : ℕ)
      → HasFile s k
      → HasFile s l
      → k ≢ s.freeinode
      → l ≢ s.freeinode
      → k < inodes_num
      → l < inodes_num
      → IsApart s k l
      → IsApart (ialloc type s).1 k l
  unfolding ialloc
  ialloc-pair k l v u nk nl kl ll a =
      same-IsApart s (ialloc type s).1 k l (omega arith)
        (ialloc_slots type k s fresh kl new_in nk v) (ialloc_index type k s fresh kl new_in nk v)
        (ialloc_slots type l s fresh ll new_in nl u) (ialloc_index type l s fresh ll new_in nl u) a

-- The bytes of a file are the same when another one is made.
module _ (type k : ℕ) (s : Image) (fresh : IsFresh s) (new_in : s.freeinode < inodes_num)
    (v : HasFile s k) (other : k ≢ s.freeinode) (in_range : k < inodes_num)
    (fits : size_of s k ≤ max_file * b_size) where
  pub ialloc-bytes : (i : ℕ) → i < size_of s k → byte_of (ialloc type s).1 k i ≡ byte_of s k i
  unfolding file_byte
  ialloc-bytes i l =
      let j = i / b_size in
      let jl : j < max_file = omega arith in
      let there = v.full j jl (omega arith) in
      rw (ialloc_slots type k s fresh in_range new_in other v j jl) (
        outside_same type s (slot s.disk (rinode k s.disk) j * b_size + i % b_size)
          (omega (arith, v.alive j jl there)))
