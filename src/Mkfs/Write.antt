-- ===== src/Mkfs/Write.antt =====
-- What a round of the loop of `iappend` of tools/mkfs.c writes.
use tuix_os.Base.{
  ℕ, ◌⊎◌, ◌==◌, ◌+◌, ◌-◌, ◌*◌, ◌/◌, ◌%◌, ◌≤◌, ◌<◌, ◌≡◌, ◌≢◌, refl, sym, ap, ◌∙◌, ◌&&◌, ltb, leb,
  dec_lt, ℕ_discrete, if◌then◌else◌, arith,
}
use tuix_os.Memory.{Mem, load8}
use tuix_os.Fs.{b_size, max_file}
use tuix_os.Mkfs.{Appending, sector, put_sector, meta_num, paste}
use tuix_os.Mkfs.Sectors.{load8-wsect_self, load8-wsect_ne}
use tuix_os.Mkfs.Slots.{index_of, slot, slot_congr, file_byte, IsFile, IsForeign, SameBlock}
use tuix_os.Mkfs.Alloc.{IsFileAt}
use tuix_os.Mkfs.Indirect.{Blocked}

-- A state's own bytes of the file, and a block that is no part of it.
abbrev pub byte_at : (a : Appending) (i : ℕ) → ℕ
byte_at a i = file_byte a.image.disk a.din i

abbrev pub IsForeignAt : (a : Appending) (b : ℕ) → Type 0
IsForeignAt a b = IsForeign a.image.disk a.din a.image.freeblock b

-- The number of blocks that `n` bytes from `off` on lie in, or one more.
abbrev pub needed : (off n : ℕ) → ℕ
needed off n = if n == 0 then 0 else (off % b_size + n + 511) / b_size

-- The number of blocks that `n` bytes lie in at most, wherever they start.
abbrev pub spans : (n : ℕ) → ℕ
spans n = (n + 1022) / b_size

-- From `a` to `c`, the file of `off` bytes has got the `n` bytes of `data_` from `p` on at its end, and
-- has kept the others; no block outside the file has changed.
pub record Written (data_ : Mem) (p n off : ℕ) (a c : Appending) : Type 0 where
  pub file : IsFileAt c (off + n)
  pub old : (i : ℕ) → i < off → byte_at c i ≡ byte_at a i
  pub new : (i : ℕ) → i < n → byte_at c (off + i) ≡ load8 data_ (p + i)
  pub outside : (b : ℕ) → IsForeignAt a b → SameBlock b a.image.disk c.image.disk
  pub foreign : (b : ℕ) → IsForeignAt a b → IsForeignAt c b
  pub head : (i : ℕ) → i < 12 → load8 c.din i ≡ load8 a.din i
  pub cost : c.image.freeblock ≤ a.image.freeblock + 2 * needed off n
  pub length : c.image.length ≡ a.image.length
  pub grow : a.image.freeblock ≤ c.image.freeblock

pub Written-none :
    (data_ : Mem) (p off : ℕ) (a : Appending) → IsFileAt a off → Written data_ p 0 off a a
Written-none data_ p off a v = record {
  file = let e : off + 0 ≡ off = omega arith in rw e v;
  old = λ i h. refl;
  new = λ i h. omega arith;
  outside = λ b f x e. refl;
  foreign = λ b f. f;
  head = λ i h. refl;
  length = refl;
  cost = omega arith;
  grow = omega arith;
}

pub Written-join :
    (data_ : Mem) (p n m off : ℕ) (a b c : Appending)
    → Written data_ p n off a b
    → Written data_ (p + n) m (off + n) b c
    → (m ≡ 0) ⊎ ((off + n) % b_size ≡ 0)
    → Written data_ p (n + m) off a c
Written-join data_ p n m off a b c w z border =
    let up = w.cost in
    let up' = z.cost in
    record {
      file = let e : off + n + m ≡ off + (n + m) = omega arith in rw e at z.file;
      old = λ i h. z.old i (omega arith) ∙ w.old i h;
      new = λ i h. elim (dec_lt i n) [
        | yes l ↦ z.old (off + i) (omega arith) ∙ w.new i l
        | no l ↦
            let e : off + i ≡ off + n + (i - n) = omega arith in
            ap (byte_at c) e ∙ z.new (i - n) (omega arith) ∙ ap (load8 data_) (omega arith)
      ];
      outside = λ k f x e. z.outside k (w.foreign k f) x e ∙ w.outside k f x e;
      foreign = λ k f. z.foreign k (w.foreign k f);
      head = λ i h. z.head i h ∙ w.head i h;
      length = z.length ∙ w.length;
      cost = ground arith;
      grow = let g = w.grow in let g' = z.grow in omega arith;
    }

module _ (fbn off : ℕ) (a a' : Appending) (x : ℕ) (v : IsFileAt a off)
    (w : Blocked 2 fbn off a x a') where
  pub grown_old : (i : ℕ) → i < off → off ≤ max_file * b_size → byte_at a' i ≡ byte_at a i
  unfolding file_byte
  grown_old i h bound =
      let j = i / b_size in
      let l : j < max_file = omega arith in
      let there = v.full j l (omega arith) in
      let here = v.alive j l there in
      let same : slot a'.image.disk a'.din j ≡ slot a.image.disk a.din j =
        ground (arith, w.grown.slots j l) in
      let y = slot a.image.disk a.din j in
      rw same (
        w.grown.blocks y (omega (arith, here)) (λ e. v.off_index j l (λ z. ground (arith, here)) e)
          (y * b_size + i % b_size) (omega arith))

  pub grown_foreign : (b : ℕ) → IsForeignAt a b → IsForeignAt a' b
  grown_foreign b f =
      let l = f.below in
      let up = w.grown.grow in
      record {
        below = omega arith;
        off_slots = λ j k e. ground (arith, w.grown.slots j k, f.off_slots j k);
        off_index = λ e. ground (arith, w.grown.index, f.off_index);
      }

  pub grown_outside : (b : ℕ) → IsForeignAt a b → SameBlock b a.image.disk a'.image.disk
  grown_outside b f = w.grown.blocks b f.below (λ e. f.off_index (sym e))

module _ (data_ : Mem) (p n1 off : ℕ) (a : Appending) (x : ℕ) (v : IsFileAt a off)
    (within : off / b_size < max_file) (at : slot a.image.disk a.din (off / b_size) ≡ x)
    (set : x ≢ 0) (fits : n1 ≤ (off / b_size + 1) * b_size - off) where
  abbrev buf : Mem
  buf = paste (sector x a.image.disk) (off % b_size) data_ p n1

  abbrev disk_put : Mem
  disk_put = put_sector x buf a.image.disk

  put_off_index : index_of a.din ≢ 0 → x ≢ index_of a.din
  put_off_index ne e = v.off_index (off / b_size) within ne (at ∙ e)

  pub put_slots : (j : ℕ) → j < max_file → slot disk_put a.din j ≡ slot a.image.disk a.din j
  put_slots j l =
      slot_congr a.image.disk disk_put a.din a.din j l (λ i k u. refl)
        (λ ne y e. load8-wsect_ne x buf a.image.disk y (λ u. put_off_index ne (sym u ∙ e)))

  pub put_bound : (meta_num ≤ x) × (x < a.image.freeblock)
  put_bound = let b = v.alive (off / b_size) within (λ e. set (sym at ∙ e)) in rw at at b

  pub put-IsFile : IsFile disk_put a.din a.image.freeblock (off + n1)
  put-IsFile = record {
    behind = v.behind;
    alive = λ j l. rw (put_slots j l) (v.alive j l);
    apart = λ j k l m. rw (put_slots j l, put_slots k m) (v.apart j k l m);
    index = v.index;
    off_index = λ j l. rw (put_slots j l) (v.off_index j l);
    clear = λ y l. load8-wsect_ne x buf a.image.disk y (omega (arith, put_bound)) ∙ v.clear y l;
    full = λ j l u e. elim (ℕ_discrete j (off / b_size)) [
      | yes i ↦ set (sym at ∙ ap (slot a.image.disk a.din) (sym i) ∙ sym (put_slots j l) ∙ e)
      | no i ↦ v.full j l (omega arith) (sym (put_slots j l) ∙ e)
    ];
  }

  buf_byte :
      (i : ℕ)
      → i < b_size
      → load8 buf i ≡ (
          if leb (off % b_size) i && ltb i (off % b_size + n1)
          then load8 data_ (p + (i - off % b_size))
          else load8 a.image.disk (x * b_size + i))
  unfolding load8 sector
  buf_byte i h = ground arith

  pub put_new : (i : ℕ) → i < n1 → file_byte disk_put a.din (off + i) ≡ load8 data_ (p + i)
  unfolding file_byte
  put_new i h =
      let q : (off + i) / b_size ≡ off / b_size = omega arith in
      let r : (off + i) % b_size ≡ off % b_size + i = omega arith in
      let in_block : off % b_size + i < b_size = omega arith in
      let d : off % b_size + i - off % b_size ≡ i = omega arith in
      rw (q, r, put_slots (off / b_size) within, at)
        (load8-wsect_self x buf a.image.disk (off % b_size + i) in_block
          ∙ buf_byte (off % b_size + i) in_block
          ∙ rw d (ground arith))

  pub put_old : (i : ℕ) → i < off → file_byte disk_put a.din i ≡ file_byte a.image.disk a.din i
  unfolding file_byte
  put_old i h =
      let j = i / b_size in
      let l : j < max_file = omega arith in
      rw (put_slots j l) (elim (ℕ_discrete j (off / b_size)) [
        | yes e ↦
            let here : slot a.image.disk a.din j ≡ x = ap (slot a.image.disk a.din) e ∙ at in
            rw here (
              load8-wsect_self x buf a.image.disk (i % b_size) (omega arith)
              ∙ buf_byte (i % b_size) (omega arith)
              ∙ (ground arith))
        | no ne ↦
            load8-wsect_ne x buf a.image.disk (slot a.image.disk a.din j * b_size + i % b_size)
              (λ e.
                let same : slot a.image.disk a.din j ≡ x = sym (omega arith) ∙ e in
                ne (v.apart j (off / b_size) l within (λ z. set (sym same ∙ z)) (same ∙ sym at)))
      ])
