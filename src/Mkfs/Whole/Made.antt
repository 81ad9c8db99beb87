-- ===== src/Mkfs/Whole/Made.antt =====
-- The files of an image of tools/mkfs.c when `ialloc` makes a new one.
use tuix_os.Base.{
  ℕ, ◌+◌, ◌*◌, ◌≤◌, ◌<◌, ◌≡◌, ◌≢◌, refl, sym, ◌∙◌, true, false, ◌==◌, ℕ_discrete, arith,
}
use tuix_os.Fs.{b_size, max_file}
use tuix_os.Mkfs.{Image, inodes_num, ialloc}
use tuix_os.Mkfs.File.{HasFile}
use tuix_os.Mkfs.New.{IsFresh, ialloc-HasFile, size_zero, outside_same}
use tuix_os.Mkfs.Others.{IsApart, ialloc-other, ialloc-IsApart, ialloc_size}
use tuix_os.Mkfs.Others.Pairs.{IsApart-sym, ialloc-pair, ialloc-bytes}
use tuix_os.Mkfs.Whole.{Text, empty, put, IsText, InUse, IsImage}

module _ (type : ℕ) (s : Image) (texts : ℕ → Text) (v : IsImage s texts)
    (left : s.freeinode < inodes_num) where
  abbrev made : Image
  made = (ialloc type s).1

  abbrev new : ℕ
  new = s.freeinode

  abbrev texts' : ℕ → Text
  texts' = put new empty texts

  counted : made.freeinode ≡ new + 1
  unfolding ialloc
  counted = omega arith

  old : (k : ℕ) → InUse made k → k ≢ new → InUse s k
  old k u ne = let c = counted in (u.0, omega arith)

  old_in : (k : ℕ) → InUse s k → k < inodes_num
  old_in k u = omega arith

  old_ne : (k : ℕ) → InUse s k → k ≢ new
  old_ne k u = omega arith

  kept_file : (k : ℕ) → InUse s k → HasFile made k
  kept_file k u = ialloc-other type k s v.fresh (old_in k u) left (old_ne k u) (v.file k u)

  new_file : HasFile made new
  new_file = ialloc-HasFile type s v.fresh left

  file_after : (k : ℕ) → InUse made k → HasFile made k
  file_after k u = elim (ℕ_discrete k new) [
    | yes e ↦ rw e new_file
    | no ne ↦ kept_file k (old k u ne)
  ]

  IsApart-new : (k : ℕ) → InUse s k → IsApart made k new
  IsApart-new k u = ialloc-IsApart type k s v.fresh (old_in k u) left (old_ne k u) (v.file k u)

  IsApart-after : (k l : ℕ) → InUse made k → InUse made l → k ≢ l → IsApart made k l
  IsApart-after k l u u' ne = elim (ℕ_discrete l new) [
    | yes e ↦ rw e (IsApart-new k (old k u (λ d. ne (d ∙ sym e))))
    | no nl ↦
        let ul = old l u' nl in
        elim (ℕ_discrete k new) [
          | yes e ↦ rw e (IsApart-sym made l new (kept_file l ul) new_file (IsApart-new l ul))
          | no nk ↦
              let uk = old k u nk in
              ialloc-pair type s v.fresh left k l (v.file k uk) (v.file l ul) nk nl (old_in k uk)
                (old_in l ul) (v.apart k l uk ul ne)
        ]
  ]

  kept-IsText : (k : ℕ) → InUse s k → IsText made k (texts k)
  kept-IsText k u =
      let (size, bytes) = v.text k u in
      let l = v.fits k u in
      (
        ialloc_size type k s v.fresh (old_in k u) left (old_ne k u) (v.file k u) ∙ size,
        λ i h.
            ialloc-bytes type k s v.fresh left (v.file k u) (old_ne k u) (old_in k u) (omega arith)
              i (omega arith)
            ∙ bytes i h,
      )

  IsText-after : (k : ℕ) → InUse made k → IsText made k (texts' k)
  IsText-after k u = elim (ℕ_discrete k new) [
    | yes e ↦
        let b : (new == new) ≡ true = ground arith in
        rw (e, b) (size_zero type s, λ i h. absurd (omega arith))
    | no ne ↦ let b : (k == new) ≡ false = ground arith in rw b (kept-IsText k (old k u ne))
  ]

  fits_after : (k : ℕ) → InUse made k → (texts' k).len ≤ max_file * b_size
  fits_after k u = elim (ℕ_discrete k new) [
    | yes e ↦ let b : (new == new) ≡ true = ground arith in rw (e, b) (omega arith)
    | no ne ↦ let b : (k == new) ≡ false = ground arith in rw b (v.fits k (old k u ne))
  ]

  same_blocks : made.freeblock ≡ s.freeblock
  unfolding ialloc
  same_blocks = refl

  same_length : made.length ≡ s.length
  unfolding ialloc
  same_length = refl

  clear_after : IsFresh made
  clear_after =
      let f = v.fresh in
      let behind = f.behind in
      let same = same_blocks in
      record {
        behind = omega arith;
        clear = λ x h. outside_same type s x (omega arith) ∙ f.clear x (omega arith);
      }

  -- A new file is empty, and the others are as before.
  pub ialloc-whole :
      IsImage made texts' × (made.freeinode ≡ s.freeinode + 1) × (made.freeblock ≡ s.freeblock)
  ialloc-whole = (
    record {
      fresh = clear_after;
      whole = same_length ∙ v.whole;
      some_ = let c = counted in omega arith;
      inodes = let c = counted in omega arith;
      file = file_after;
      apart = IsApart-after;
      text = IsText-after;
      fits = fits_after;
    },
    counted,
    same_blocks,
  )
