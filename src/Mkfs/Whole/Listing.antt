-- ===== src/Mkfs/Whole/Listing.antt =====
-- What each inode holds when `main` of tools/mkfs.c has copied all files: the contents of the files in
-- their order, and the directory entries of all of them in the root.
use tuix_os.Base.{
  ℕ, zero, suc, ◌+◌, ◌-◌, ◌*◌, ◌≤◌, ◌<◌, ◌≡◌, ◌≢◌, refl, ap, ◌∙◌, true, false, ltb, ◌==◌,
  if◌then◌else◌, List, [], ◌∷◌, length, get_elem?, some, arith,
}
use mathlib.Core.Option.{some-injective}
use tuix_os.Memory.{load8}
use tuix_os.Fs.{root_ino, dirent_size}
use tuix_os.Mkfs.Build.{File, dirent}
use tuix_os.Mkfs.Copy.{total, content}
use tuix_os.Mkfs.Whole.{Text, empty, put}
use tuix_os.Mkfs.Whole.Files.{
  with_entry, with_file, with_files, with_pieces-other, with_pieces_self, root_grows,
}

-- An older inode but the root keeps its contents.
with_file-other :
    (inum k : ℕ) (f : File) (texts : ℕ → Text)
    → k ≢ root_ino
    → k ≢ inum
    → with_file inum f texts k ≡ texts k
with_file-other inum k f texts nr ne =
    let b : (k == 1) ≡ false = ground arith in
    let b' : (k == inum) ≡ false = ground arith in
    with_pieces-other inum k f.pieces (with_entry inum f.name (put inum empty texts)) ne
    ∙ rw (b, b') refl

with_files-other :
    (inum k : ℕ) (fs : List File) (texts : ℕ → Text)
    → k ≢ root_ino
    → k < inum
    → with_files inum fs texts k ≡ texts k
unfolding with_files
with_files-other inum k [] texts nr l = refl
with_files-other inum k (f ∷ fs) texts nr l =
    with_files-other (inum + 1) k fs (with_file inum f texts) nr (omega arith)
    ∙ with_file-other inum k f texts nr (omega arith)

-- A text is the contents that were read in pieces.
abbrev pub IsContent : File → Text → Type 0
IsContent f t =
    (t.len ≡ total f.pieces) × ((i : ℕ) → i < total f.pieces → t.at i ≡ content f.pieces i)

with_file-IsContent :
    (inum : ℕ) (f : File) (texts : ℕ → Text) → 2 ≤ inum → IsContent f (with_file inum f texts inum)
with_file-IsContent inum f texts h =
    let b : (inum == 1) ≡ false = ground arith in
    let b' : (inum == inum) ≡ true = ground arith in
    let (len, at) =
      with_pieces_self inum f.pieces (with_entry inum f.name (put inum empty texts)) empty
        (rw (b, b') refl) in
    (omega arith, λ i l. at i (omega arith) ∙ ground arith)

pub with_files-IsContent :
    (fs : List File) (inum j : ℕ) (f : File) (texts : ℕ → Text)
    → 2 ≤ inum
    → get_elem? fs j ≡ some f
    → IsContent f (with_files inum fs texts (inum + j))
unfolding with_files
with_files-IsContent [] inum j f texts h e = cc
with_files-IsContent (g ∷ fs) inum zero f texts h e =
    let same : g ≡ f = some-injective _ _ e in
    let at : inum + 0 ≡ inum = omega arith in
    rw
      (
        at,
        with_files-other (inum + 1) inum fs (with_file inum g texts) (omega arith) (omega arith),
        same,
      )
      (with_file-IsContent inum f texts h)
with_files-IsContent (g ∷ fs) inum (suc j) f texts h e =
    let at : inum + suc j ≡ inum + 1 + j = omega arith in
    rw at (with_files-IsContent fs (inum + 1) j f (with_file inum g texts) (omega arith) e)

-- The root behind the entry of one file.
root-with_file :
    (inum : ℕ) (f : File) (texts : ℕ → Text) (i : ℕ)
    → 2 ≤ inum
    → (with_file inum f texts root_ino).at i ≡ (
        if ltb i (texts root_ino).len
        then (texts root_ino).at i
        else load8 (dirent inum f.name) (i - (texts root_ino).len))
root-with_file inum f texts i h =
    let b : (1 == inum) ≡ false = ground arith in
    let zero_off : 0 + (i - (texts root_ino).len) ≡ i - (texts root_ino).len = omega arith in
    ap (λ t. t.at i)
      (with_pieces-other inum root_ino f.pieces (with_entry inum f.name (put inum empty texts))
        (omega arith))
    ∙ rw (b, zero_off) refl

-- What stood in the root stays there.
pub with_files-root :
    (fs : List File) (inum : ℕ) (texts : ℕ → Text) (i : ℕ)
    → 2 ≤ inum
    → i < (texts root_ino).len
    → (with_files inum fs texts root_ino).at i ≡ (texts root_ino).at i
unfolding with_files
with_files-root [] inum texts i h l = refl
with_files-root (f ∷ fs) inum texts i h l =
    let grown = root_grows inum f texts h in
    with_files-root fs (inum + 1) (with_file inum f texts) i (omega arith) (omega arith)
    ∙ root-with_file inum f texts i h
    ∙ ground arith

pub length-with_files :
    (fs : List File) (inum : ℕ) (texts : ℕ → Text)
    → 2 ≤ inum
    → (with_files inum fs texts root_ino).len ≡ (texts root_ino).len + length fs * dirent_size
unfolding with_files
length-with_files [] inum texts h = omega arith
length-with_files (f ∷ fs) inum texts h =
    let grown = root_grows inum f texts h in
    let ih = length-with_files fs (inum + 1) (with_file inum f texts) (omega arith) in omega arith

-- The entry of the `j`-th file.
pub with_files-entry :
    (fs : List File) (inum j : ℕ) (f : File) (texts : ℕ → Text) (i : ℕ)
    → 2 ≤ inum
    → get_elem? fs j ≡ some f
    → i < dirent_size
    → (with_files inum fs texts root_ino).at ((texts root_ino).len + j * dirent_size + i)
      ≡ load8 (dirent (inum + j) f.name) i
unfolding with_files
with_files-entry [] inum j f texts i h e l = cc
with_files-entry (g ∷ fs) inum zero f texts i h e l =
    let same : g ≡ f = some-injective _ _ e in
    let grown = root_grows inum g texts h in
    let at : inum + 0 ≡ inum = omega arith in
    let spot : (texts root_ino).len + zero * dirent_size + i ≡ (texts root_ino).len + i =
      omega arith in
    let off : (texts root_ino).len + i - (texts root_ino).len ≡ i = omega arith in
    let past : ltb ((texts root_ino).len + i) (texts root_ino).len ≡ false = ground arith in
    rw (at, spot)
      (with_files-root fs (inum + 1) (with_file inum g texts) ((texts root_ino).len + i)
          (omega arith) (omega arith)
        ∙ root-with_file inum g texts ((texts root_ino).len + i) h
        ∙ rw (past, off, same) refl)
with_files-entry (g ∷ fs) inum (suc j) f texts i h e l =
    let grown = root_grows inum g texts h in
    let at : inum + suc j ≡ inum + 1 + j = omega arith in
    let spot : (texts root_ino).len + suc j * dirent_size + i
        ≡ (with_file inum g texts root_ino).len + j * dirent_size + i =
      omega arith in
    rw (at, spot) (with_files-entry fs (inum + 1) j f (with_file inum g texts) i (omega arith) e l)
