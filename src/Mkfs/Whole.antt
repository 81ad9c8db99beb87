-- ===== src/Mkfs/Whole.antt =====
-- The files of an image of tools/mkfs.c all together: what each inode in use holds, and how `ialloc` and
-- `iappend` change it.
pub mod Made
pub mod Files
pub mod Listing
pub mod Kept
pub mod Main
pub mod Disk
use tuix_os.Base.{
  ℕ, zero, suc, ◌+◌, ◌-◌, ◌*◌, ◌/◌, ◌^◌, ◌≤◌, ◌<◌, ◌≡◌, ◌≢◌, refl, ap, sym, ◌∙◌, true, false, ltb,
  ◌==◌, if◌then◌else◌, ℕ_discrete, dec_lt, arith,
}
use tuix_os.Base.Outcome.{ok}
use tuix_os.Memory.{Mem, load8}
use tuix_os.Fs.{fs_size, b_size, max_file}
use tuix_os.Mkfs.{Image, inodes_num, iappend}
use tuix_os.Mkfs.Write.{spans}
use tuix_os.Mkfs.File.{size_of, byte_of, HasFile, Appended, iappend_lem}
use tuix_os.Mkfs.New.{IsFresh}
use tuix_os.Mkfs.Inodes.{iappend-freeinode}
use tuix_os.Mkfs.Others.{IsApart, Appended-HasFile, Appended-IsApart, Appended-bytes, Appended-size}
use tuix_os.Mkfs.Others.Pairs.{IsApart-sym, Appended-pair}

-- The contents of a file.
pub record Text : Type 0 where
  pub len : ℕ
  pub at : ℕ → ℕ

abbrev pub empty : Text
empty = record { len = 0; at = λ i. 0 }

-- `n` bytes of the data from `p` on are put behind the contents.
abbrev pub appended_text : Text → Mem → (p n : ℕ) → Text
appended_text t data_ p n = record {
  len = t.len + n;
  at = λ i. if ltb i t.len then t.at i else load8 data_ (p + (i - t.len));
}

abbrev pub put : (inum : ℕ) → Text → (ℕ → Text) → ℕ → Text
put inum t texts k = if k == inum then t else texts k

abbrev pub IsText : Image → (k : ℕ) → Text → Type 0
IsText s k t = (size_of s k ≡ t.len) × ((i : ℕ) → i < t.len → byte_of s k i ≡ t.at i)

-- `k` is an inode in use.
abbrev pub InUse : Image → (k : ℕ) → Type 0
InUse s k = (1 ≤ k) × (k < s.freeinode)

-- The inodes in use hold the texts, each in blocks of its own, and the disk is clear behind them. The image
-- file has `FS_SIZE` blocks.
pub record IsImage (s : Image) (texts : ℕ → Text) : Type 0 where
  pub fresh : IsFresh s
  pub whole : s.length ≡ fs_size
  pub some_ : 1 ≤ s.freeinode
  pub inodes : s.freeinode ≤ inodes_num
  pub file : (k : ℕ) → InUse s k → HasFile s k
  pub apart : (k l : ℕ) → InUse s k → InUse s l → k ≢ l → IsApart s k l
  pub text : (k : ℕ) → InUse s k → IsText s k (texts k)
  pub fits : (k : ℕ) → InUse s k → (texts k).len ≤ max_file * b_size

-- `iappend` to one of the files.
module _ (data_ : Mem) (p n inum : ℕ) (s s' : Image) (texts : ℕ → Text) (v : IsImage s texts)
    (use_ : InUse s inum) (room : (texts inum).len + n ≤ max_file * b_size)
    (w : Appended data_ p n inum s s') (same : s'.freeinode ≡ s.freeinode) where
  abbrev texts' : ℕ → Text
  texts' = put inum (appended_text (texts inum) data_ p n) texts

  inum_in : inum < inodes_num
  inum_in = let most = v.inodes in omega arith

  back : (k : ℕ) → InUse s' k → InUse s k
  back k u = (u.0, omega arith)

  in_range : (k : ℕ) → InUse s k → k < inodes_num
  in_range k u = let most = v.inodes in omega arith

  size_fits : (k : ℕ) → InUse s k → size_of s k ≤ max_file * b_size
  size_fits k u = let e = (v.text k u).0 in let l = v.fits k u in omega arith

  other_file : (k : ℕ) → InUse s k → k ≢ inum → HasFile s' k
  other_file k u ne =
      Appended-HasFile data_ p n inum k s s' w (v.file k u) ne (in_range k u) inum_in
        (v.apart k inum u use_ ne)

  file_after : (k : ℕ) → InUse s k → HasFile s' k
  file_after k u = elim (ℕ_discrete k inum) [ yes e ↦ rw e (w.file) | no ne ↦ other_file k u ne ]

  IsApart-grown : (k : ℕ) → InUse s k → k ≢ inum → IsApart s' k inum
  IsApart-grown k u ne =
      Appended-IsApart data_ p n inum k s s' w (v.file k u) ne (in_range k u) inum_in
        (v.apart k inum u use_ ne)

  IsApart-after : (k l : ℕ) → InUse s k → InUse s l → k ≢ l → IsApart s' k l
  IsApart-after k l u u' ne = elim (ℕ_discrete l inum) [
    | yes e ↦ rw e (IsApart-grown k u (λ d. ne (d ∙ sym e)))
    | no nl ↦ elim (ℕ_discrete k inum) [
      | yes e ↦ rw e (IsApart-sym s' l inum (other_file l u' nl) w.file (IsApart-grown l u' nl))
      | no nk ↦
          Appended-pair data_ p n inum s s' w inum_in k l (v.file k u) (v.file l u') nk nl
            (in_range k u) (in_range l u') (v.apart k inum u use_ nk) (v.apart l inum u' use_ nl)
            (v.apart k l u u' ne)
    ]
  ]

  grown-IsText : IsText s' inum (appended_text (texts inum) data_ p n)
  grown-IsText =
      let (size, bytes) = v.text inum use_ in
      let more = w.size in
      (
        omega arith,
        λ i l. elim (dec_lt i (texts inum).len) [
          | yes h ↦ w.old i (omega arith) ∙ bytes i h ∙ ground arith
          | no h ↦
              let split : i ≡ size_of s inum + (i - (texts inum).len) = omega arith in
              ap (byte_of s' inum) split ∙ w.new (i - (texts inum).len) (omega arith) ∙ ground arith
        ],
      )

  other-IsText : (k : ℕ) → InUse s k → k ≢ inum → IsText s' k (texts k)
  other-IsText k u ne =
      let (size, bytes) = v.text k u in
      (
        Appended-size data_ p n inum k s s' w (v.file k u) ne (in_range k u) inum_in
              (v.apart k inum u use_ ne)
            ∙ size,
        λ i l.
            Appended-bytes data_ p n inum k s s' w (v.file k u) ne (in_range k u) inum_in
              (v.apart k inum u use_ ne) (size_fits k u) i (omega arith)
            ∙ bytes i l,
      )

  IsText-after : (k : ℕ) → InUse s k → IsText s' k (texts' k)
  IsText-after k u = elim (ℕ_discrete k inum) [
    | yes e ↦ let b : (inum == inum) ≡ true = ground arith in rw (e, b) grown-IsText
    | no ne ↦ let b : (k == inum) ≡ false = ground arith in rw b (other-IsText k u ne)
  ]

  fits_after : (k : ℕ) → InUse s k → (texts' k).len ≤ max_file * b_size
  fits_after k u = elim (ℕ_discrete k inum) [
    | yes e ↦ let b : (inum == inum) ≡ true = ground arith in rw (e, b) room
    | no ne ↦ let b : (k == inum) ≡ false = ground arith in rw b (v.fits k u)
  ]

  iappend-IsImage : IsImage s' texts'
  iappend-IsImage = record {
    fresh = record { behind = w.file.behind; clear = w.file.clear };
    whole = w.length ∙ v.whole;
    some_ = let h = v.some_ in omega arith;
    inodes = let h = v.inodes in omega arith;
    file = λ k u. file_after k (back k u);
    apart = λ k l u u' ne. IsApart-after k l (back k u) (back l u') ne;
    text = λ k u. IsText-after k (back k u);
    fits = λ k u. fits_after k (back k u);
  }

-- In an image file of `FS_SIZE` blocks, in which each inode in use holds its text in blocks of its own, let
-- `iappend` put `n` bytes behind the text of one of them, which fit into the largest file and, with the blocks for
-- them, into the image. It succeeds, in the image that it leaves this inode holds its text with the bytes behind
-- it and each other inode its old text, again in blocks of its own. No inode is new, and at most two blocks are
-- taken for each one that `n` bytes can lie in.
pub iappend-whole :
    (data_ : Mem) (p n inum : ℕ) (s : Image) (texts : ℕ → Text)
    → IsImage s texts
    → InUse s inum
    → (texts inum).len + n ≤ max_file * b_size
    → s.freeblock + 2 * spans n ≤ fs_size
    → (s' : Image) × (iappend inum data_ p n s ≡ ok s')
      × IsImage s' (put inum (appended_text (texts inum) data_ p n) texts)
      × (s'.freeinode ≡ s.freeinode)
      × (s'.freeblock ≤ s.freeblock + 2 * spans n)
iappend-whole data_ p n inum s texts v u room blocks =
    let most = v.inodes in
    let size = (v.text inum u).0 in
    let (s', ran, w) =
      iappend_lem data_ p n inum s (omega arith) (v.file inum u) (omega arith)
        (let long = v.whole in omega arith) (let long = v.whole in omega arith) in
    let same = iappend-freeinode inum data_ p n s s' ran in
    (s', ran, iappend-IsImage data_ p n inum s s' texts v u room w same, same, w.cost)
