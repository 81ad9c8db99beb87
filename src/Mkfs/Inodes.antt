-- ===== src/Mkfs/Inodes.antt =====
-- `iappend` of tools/mkfs.c makes no inode.
use tuix_os.Base.{
  ℕ, zero, suc, ◌+◌, ◌-◌, ◌*◌, ◌/◌, ◌≡◌, refl, ◌∙◌, Bool-cases, inl, inr, not, ltb, ◌==◌,
}
use tuix_os.Base.Outcome.{ok, Holds, Holds-bind, Holds-guard, Holds-if, Holds-ok}
use tuix_os.Memory.{Mem, load32}
use tuix_os.Fs.{b_size, direct_num, max_file, addr_at, size_at}
use tuix_os.Mkfs.{
  Image, Appending, Reading, xint, rinode, rsect, wsect, ensure_addr, ensure_indirect, file_block,
  put_bytes, append_loop, iappend,
}

ensure_addr-freeinode :
    (i : ℕ) (a : Appending) → (ensure_addr i a).image.freeinode ≡ a.image.freeinode
unfolding ensure_addr
ensure_addr-freeinode i a = elim (Bool-cases (xint (load32 a.din (addr_at i)) == 0)) [
  | inl t ↦ rw t refl
  | inr t ↦ rw t refl
]

ensure_indirect-freeinode :
    (i : ℕ) (r : Reading) → (ensure_indirect i r).1.a.image.freeinode ≡ r.a.image.freeinode
unfolding ensure_indirect wsect
ensure_indirect-freeinode i r =
    elim (Bool-cases (
      load32 (rsect (xint (load32 r.a.din (addr_at direct_num))) r.indirect r.a.image) (4 * i)
      == 0)) [ inl t ↦ rw t refl | inr t ↦ rw t refl ]

file_block-freeinode :
    (fbn : ℕ) (r : Reading) → (file_block fbn r).1.a.image.freeinode ≡ r.a.image.freeinode
unfolding file_block
file_block-freeinode fbn r = elim (Bool-cases (ltb fbn direct_num)) [
  | inl t ↦ rw t (ensure_addr-freeinode fbn r.a)
  | inr t ↦ rw t (
      ensure_indirect-freeinode (fbn - direct_num) (record r { a = ensure_addr direct_num r.a })
      ∙ ensure_addr-freeinode direct_num r.a)
]

abbrev SameInodes : ℕ → ℕ × Reading → Type 0
SameInodes f (off, r) = r.a.image.freeinode ≡ f

append_loop-freeinode :
    (fuel f : ℕ) (data_ : Mem) (p n off : ℕ) (r : Reading)
    → r.a.image.freeinode ≡ f
    → Holds (SameInodes f) (append_loop fuel data_ p n off r)
unfolding append_loop put_bytes wsect
append_loop-freeinode zero f data_ p n off r e = tt
append_loop-freeinode (suc fuel) f data_ p n off r e =
    Holds-if (SameInodes f) (n == 0) (ok (off, r)) _ e (
      Holds-guard (SameInodes f) (not (ltb (off / b_size) max_file)) _
        (append_loop-freeinode fuel f data_ _ _ _ _ (file_block-freeinode (off / b_size) r ∙ e)))

iappend-Holds :
    (inum : ℕ) (data_ : Mem) (p n : ℕ) (s : Image)
    → Holds (λ t. t.freeinode ≡ s.freeinode) (iappend inum data_ p n s)
unfolding iappend
iappend-Holds inum data_ p n s =
    Holds-bind (SameInodes s.freeinode) (λ t. t.freeinode ≡ s.freeinode) _ _
      (append_loop-freeinode (n + 1) s.freeinode data_ p n
        (xint (load32 (rinode inum s.disk) size_at))
        (record {
          a = record { image = s; din = rinode inum s.disk };
          buf = s.stale;
          indirect = s.stale;
        })
        refl)
      (λ (off, a) h. h)

pub iappend-freeinode :
    (inum : ℕ) (data_ : Mem) (p n : ℕ) (s t : Image)
    → iappend inum data_ p n s ≡ ok t
    → t.freeinode ≡ s.freeinode
iappend-freeinode inum data_ p n s t e =
    Holds-ok (λ u. u.freeinode ≡ s.freeinode) (iappend inum data_ p n s) t e
      (iappend-Holds inum data_ p n s)
