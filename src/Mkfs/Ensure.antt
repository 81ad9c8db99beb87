-- ===== src/Mkfs/Ensure.antt =====
-- The allocation of a block into the inode, `ensure_addr` in the loop of `iappend` of tools/mkfs.c.
use tuix_os.Base.{
  ℕ, ◌+◌, ◌-◌, ◌*◌, ◌^◌, ◌≤◌, ◌<◌, ◌≡◌, ◌≢◌, inl, inr, refl, sym, ◌∙◌, false, dec_lt, ℕ_discrete,
  ◌==◌, if◌then◌else◌, arith,
}
use tuix_os.Memory.{Mem, u32, store32, load32}
use tuix_os.Memory.Laws.{load32-store32_self, load32-store32_ne, load8-store32_ne}
use tuix_os.Fs.{direct_num, max_file, addr_at}
use tuix_os.Mkfs.{Appending, xint, ensure_addr}
use tuix_os.Mkfs.Slots.{
  xint_lem, xint-load32, index_of, slot, slot-direct, slot_none, slot-indirect, slot_congr_indirect,
  load32-rsect_clear,
}
use tuix_os.Mkfs.Alloc.{GrownTo, GrownTo-refl, IsFileAt, slot_taken-IsFile, index_taken-IsFile}

-- What `ensure_addr` gives.
pub record Ensured (i : ℕ) (off : ℕ) (a a' : Appending) : Type 0 where
  pub file : IsFileAt a' off
  pub grown : GrownTo a a'
  pub set : load32 a'.din (addr_at i) ≢ 0
  pub cost : a'.image.freeblock ≤ a.image.freeblock + 1

-- The state behind an allocation into `addrs[i]`.
abbrev with_addr : (i : ℕ) → Appending → Appending
with_addr i a = record {
  image = record (a.image) { freeblock = a.image.freeblock + 1 };
  din = store32 a.din (addr_at i) a.image.freeblock;
}

ensure_addr-new :
    (i : ℕ) (a : Appending)
    → load32 a.din (addr_at i) ≡ 0
    → a.image.freeblock + 1 < 2 ^ 32
    → ensure_addr i a ≡ with_addr i a
unfolding ensure_addr
ensure_addr-new i a e h =
    let word : xint (load32 a.din (addr_at i)) ≡ 0 = xint-load32 a.din (addr_at i) ∙ e in
    let fb : xint a.image.freeblock ≡ a.image.freeblock =
      xint_lem a.image.freeblock ∙ (omega arith) in
    let next : u32 (a.image.freeblock + 1) ≡ a.image.freeblock + 1 = omega arith in
    rw (word, fb, next)

ensure_addr-old : (i : ℕ) (a : Appending) → load32 a.din (addr_at i) ≢ 0 → ensure_addr i a ≡ a
unfolding ensure_addr
ensure_addr-old i a ne =
    let word : xint (load32 a.din (addr_at i)) ≡ load32 a.din (addr_at i) =
      xint-load32 a.din (addr_at i) in
    let test : (load32 a.din (addr_at i) == 0) ≡ false = ground arith in rw (word, test)

module _ (i off : ℕ) (a : Appending) (v : IsFileAt a off) (fits : a.image.freeblock + 1 < 2 ^ 32)
    (empty : load32 a.din (addr_at i) ≡ 0) where
  abbrev fb : ℕ
  fb = a.image.freeblock

  abbrev din' : Mem
  din' = store32 a.din (addr_at i) fb

  word_here : load32 din' (addr_at i) ≡ fb
  word_here = load32-store32_self a.din (addr_at i) fb ∙ (omega arith)

  word_other : (k : ℕ) → k ≢ i → load32 din' (addr_at k) ≡ load32 a.din (addr_at k)
  word_other k ne = load32-store32_ne a.din (addr_at i) fb (addr_at k) (ground arith)

  index_kept : i < direct_num → index_of din' ≡ index_of a.din
  unfolding index_of
  index_kept h = word_other direct_num (omega arith)

  slots_direct :
      (h : i < direct_num) (j : ℕ)
      → j < max_file
      → slot a.image.disk din' j ≡ (if j == i then fb else slot a.image.disk a.din j)
  slots_direct h j l = elim (dec_lt j direct_num) [
    | yes k ↦ slot-direct a.image.disk din' j k ∙ (elim (ℕ_discrete j i) [
      | yes e ↦ rw e (word_here ∙ (ground arith))
      | no ne ↦ word_other j ne ∙ sym (slot-direct a.image.disk a.din j k) ∙ (ground arith)
    ])
    | no k ↦
        slot_congr_indirect a.image.disk a.image.disk a.din din' j (omega arith) l (index_kept h)
          (λ ne x e. refl)
        ∙ (ground arith)
  ]

  Ensured-direct : (h : i < direct_num) → Ensured i off a (with_addr i a)
  Ensured-direct h = record {
    file =
        slot_taken-IsFile a.image.disk a.din a.image.disk din' fb off v i (omega arith)
          (slot-direct a.image.disk a.din i h ∙ empty) (slots_direct h) (index_kept h)
          (λ x l. v.clear x (omega arith));
    grown = record {
      slots = λ j l. ground (arith, slots_direct h j l, slot-direct a.image.disk a.din i h);
      index = inl (index_kept h);
      blocks = λ b l ne x e. refl;
      head = λ k l. load8-store32_ne a.din (addr_at i) fb k (omega arith);
      grow = omega arith;
    };
    set = λ e. ground (arith, word_here, v.behind);
    cost = omega arith;
  }

module _ (off : ℕ) (a : Appending) (v : IsFileAt a off) (fits : a.image.freeblock + 1 < 2 ^ 32)
    (empty : load32 a.din (addr_at direct_num) ≡ 0) where
  abbrev din12 : Mem
  din12 = store32 a.din (addr_at direct_num) a.image.freeblock

  index_here : index_of din12 ≡ a.image.freeblock
  unfolding index_of
  index_here = word_here direct_num off a v fits empty

  no_index : index_of a.din ≡ 0
  unfolding index_of
  no_index = empty

  slots_index : (j : ℕ) → j < max_file → slot a.image.disk din12 j ≡ slot a.image.disk a.din j
  slots_index j l = elim (dec_lt j direct_num) [
    | yes k ↦
        slot-direct a.image.disk din12 j k
        ∙ word_other direct_num off a v fits empty j (omega arith)
        ∙ sym (slot-direct a.image.disk a.din j k)
    | no k ↦
        slot-indirect a.image.disk din12 j (omega arith) (λ e. ground (arith, index_here, v.behind))
        ∙ rw index_here
            (load32-rsect_clear a.image.freeblock (4 * (j - direct_num)) a.image.disk v.clear)
        ∙ sym (slot_none a.image.disk a.din j (omega arith) no_index)
  ]

  Ensured-index : Ensured direct_num off a (with_addr direct_num a)
  Ensured-index = record {
    file =
        index_taken-IsFile a.image.disk a.din a.image.disk din12 a.image.freeblock off v slots_index
          index_here (λ x l. v.clear x (omega arith));
    grown = record {
      slots = λ j l. inl (slots_index j l);
      index = inr (no_index, ground (arith, index_here));
      blocks = λ b l ne x e. refl;
      head = λ k l. load8-store32_ne a.din (addr_at direct_num) a.image.freeblock k (omega arith);
      grow = omega arith;
    };
    set = λ e. ground (arith, word_here direct_num off a v fits empty, v.behind);
    cost = omega arith;
  }

-- `ensure_addr` on `addrs[i]` keeps a file a file, with the word there set.
pub ensure_addr_lem :
    (i off : ℕ) (a : Appending)
    → i ≤ direct_num
    → IsFileAt a off
    → a.image.freeblock + 1 < 2 ^ 32
    → Ensured i off a (ensure_addr i a)
ensure_addr_lem i off a h v fits = elim (ℕ_discrete (load32 a.din (addr_at i)) 0) [
  | yes e ↦ rw (ensure_addr-new i a e fits) (elim (dec_lt i direct_num) [
    | yes l ↦ Ensured-direct i off a v fits e l
    | no l ↦
        let last : i ≡ direct_num = omega arith in
        rw last (Ensured-index off a v fits (rw last at e))
  ])
  | no ne ↦
      rw (ensure_addr-old i a ne)
        (record { file = v; grown = GrownTo-refl a; set = ne; cost = omega arith })
]
