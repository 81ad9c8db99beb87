-- ===== src/Mkfs/Whole/Files.antt =====
-- The files that `main` of tools/mkfs.c copies, one after the other, and their entries in the root directory.
use tuix_os.Base.{
  ℕ, ◌+◌, ◌-◌, ◌*◌, ◌≤◌, ◌<◌, ◌≡◌, ◌≢◌, refl, ap, ◌∙◌, true, false, ltb, ◌==◌, if◌then◌else◌, List,
  [], ◌∷◌, All, length, arith,
}
use mathlib.Core.Path.{subst}
use tuix_os.Base.Outcome.{ok}
use tuix_os.Memory.{Mem}
use tuix_os.Fs.{fs_size, b_size, max_file, root_ino, dirent_size, t_file}
use tuix_os.Mkfs.{Image, inodes_num, ialloc}
use tuix_os.Mkfs.Build.{File, dirent, has_slash, append_pieces, add_file, add_files}
use tuix_os.Mkfs.Copy.{total, content, spans_all}
use tuix_os.Mkfs.Write.{spans}
use tuix_os.Mkfs.Whole.{Text, empty, appended_text, put, InUse, IsImage, iappend-whole}
use tuix_os.Mkfs.Whole.Made.{ialloc-whole}

-- What the calls make of the contents of the inodes.
unfoldable pub with_pieces : (inum : ℕ) → List (Mem × ℕ) → (ℕ → Text) → ℕ → Text
with_pieces inum [] texts = texts
with_pieces inum ((bytes, cc) ∷ ps) texts =
    with_pieces inum ps (put inum (appended_text (texts inum) bytes 0 cc) texts)

abbrev pub with_entry : (inum : ℕ) → List ℕ → (ℕ → Text) → ℕ → Text
with_entry inum name texts =
    put root_ino (appended_text (texts root_ino) (dirent inum name) 0 dirent_size) texts

abbrev pub with_file : (inum : ℕ) → File → (ℕ → Text) → ℕ → Text
with_file inum f texts = with_pieces inum f.pieces (with_entry inum f.name (put inum empty texts))

unfoldable pub with_files : (inum : ℕ) → List File → (ℕ → Text) → ℕ → Text
with_files inum [] texts = texts
with_files inum (f ∷ fs) texts = with_files (inum + 1) fs (with_file inum f texts)

pub with_pieces-other :
    (inum k : ℕ) (ps : List (Mem × ℕ)) (texts : ℕ → Text)
    → k ≢ inum
    → with_pieces inum ps texts k ≡ texts k
unfolding with_pieces
with_pieces-other inum k [] texts ne = refl
with_pieces-other inum k ((bytes, cc) ∷ ps) texts ne =
    let b : (k == inum) ≡ false = ground arith in
    with_pieces-other inum k ps (put inum (appended_text (texts inum) bytes 0 cc) texts) ne
    ∙ rw b refl

-- The file has the pieces behind what it had.
pub with_pieces_self :
    (inum : ℕ) (ps : List (Mem × ℕ)) (texts : ℕ → Text) (t : Text)
    → texts inum ≡ t
    → ((with_pieces inum ps texts inum).len ≡ t.len + total ps)
      × ((i : ℕ)
          → i < t.len + total ps
          → (with_pieces inum ps texts inum).at i
            ≡ (if ltb i t.len then t.at i else content ps (i - t.len)))
unfolding with_pieces total content
with_pieces_self inum [] texts t e = rw e (omega arith, λ i l. ground arith)
with_pieces_self inum ((bytes, cc) ∷ ps) texts t e =
    let b : (inum == inum) ≡ true = ground arith in
    let (len, at) =
      with_pieces_self inum ps (put inum (appended_text (texts inum) bytes 0 cc) texts)
        (appended_text t bytes 0 cc) (rw b (ap (λ x. appended_text x bytes 0 cc) e)) in
    (
      omega arith,
      λ i l.
          at i (omega arith)
          ∙ (let split : i - t.len - cc ≡ i - (t.len + cc) = omega arith in
              rw split (ground arith)),
    )

append_pieces-whole :
    (ps : List (Mem × ℕ)) (inum : ℕ) (s : Image) (texts : ℕ → Text)
    → IsImage s texts
    → InUse s inum
    → (texts inum).len + total ps ≤ max_file * b_size
    → s.freeblock + 2 * spans_all ps ≤ fs_size
    → (s' : Image) × (append_pieces inum ps s ≡ ok s')
      × IsImage s' (with_pieces inum ps texts)
      × (s'.freeinode ≡ s.freeinode)
      × (s'.freeblock ≤ s.freeblock + 2 * spans_all ps)
unfolding append_pieces with_pieces total spans_all
append_pieces-whole [] inum s texts v u room blocks = (s, refl, v, refl, omega arith)
append_pieces-whole ((bytes, cc) ∷ ps) inum s texts v u room blocks =
    let (t, ran, w, same, cost) =
      iappend-whole bytes 0 cc inum s texts v u (omega arith) (omega arith) in
    let b : (inum == inum) ≡ true = ground arith in
    let (s', ran', w', same', cost') =
      append_pieces-whole ps inum t (put inum (appended_text (texts inum) bytes 0 cc) texts) w
        (u.0, omega arith) (rw b (omega arith)) (omega arith) in
    (s', rw ran ran', w', same' ∙ same, omega arith)

-- The blocks that a file and its entry take at most.
abbrev pub price : File → ℕ
price f = 2 * spans dirent_size + 2 * spans_all f.pieces

abbrev pub prices : List File → ℕ
prices [] = 0
prices (f ∷ fs) = price f + prices fs

-- A file that can be copied: no directory in its name, and no longer than the largest file.
abbrev pub IsPlain : File → Type 0
IsPlain f = (has_slash f.name ≡ false) × (total f.pieces ≤ max_file * b_size)

add_file-whole :
    (f : File) (s : Image) (texts : ℕ → Text)
    → IsPlain f
    → IsImage s texts
    → 2 ≤ s.freeinode
    → s.freeinode < inodes_num
    → (texts root_ino).len + dirent_size ≤ max_file * b_size
    → s.freeblock + price f ≤ fs_size
    → (s' : Image) × (add_file f s ≡ ok s')
      × IsImage s' (with_file s.freeinode f texts)
      × (s'.freeinode ≡ s.freeinode + 1)
      × (s'.freeblock ≤ s.freeblock + price f)
unfolding add_file ialloc
add_file-whole f s texts plain v some_ left room blocks =
    let inum = s.freeinode in
    let made = (ialloc t_file s).1 in
    let (w, counted, same) = ialloc-whole t_file s texts v left in
    let b : (1 == inum) ≡ false = ground arith in
    let b' : (inum == 1) ≡ false = ground arith in
    let b'' : (inum == inum) ≡ true = ground arith in
    let (t, ran, x, kept, cost) =
      iappend-whole (dirent inum f.name) 0 dirent_size root_ino made (put inum empty texts) w
        (omega arith, omega arith) (rw b room) (omega arith) in
    let (s', ran', y, kept', cost') =
      append_pieces-whole f.pieces inum t (with_entry inum f.name (put inum empty texts)) x
        (omega arith, omega arith) (rw (b', b'') (omega (arith, plain.1))) (omega arith) in
    (s', rw (plain.0, ran) ran', y, kept' ∙ kept ∙ counted, omega arith)

-- The root directory has one entry more.
pub root_grows :
    (inum : ℕ) (f : File) (texts : ℕ → Text)
    → 2 ≤ inum
    → (with_file inum f texts root_ino).len ≡ (texts root_ino).len + dirent_size
root_grows inum f texts some_ =
    let b : (1 == inum) ≡ false = ground arith in
    ap (λ t. t.len)
      (with_pieces-other inum root_ino f.pieces (with_entry inum f.name (put inum empty texts))
        (omega arith))
    ∙ rw b refl

pub add_files-whole :
    (fs : List File) (s : Image) (texts : ℕ → Text)
    → All IsPlain fs
    → IsImage s texts
    → 2 ≤ s.freeinode
    → s.freeinode + length fs ≤ inodes_num
    → (texts root_ino).len + length fs * dirent_size ≤ max_file * b_size
    → s.freeblock + prices fs ≤ fs_size
    → (s' : Image) × (add_files fs s ≡ ok s')
      × IsImage s' (with_files s.freeinode fs texts)
      × (s'.freeinode ≡ s.freeinode + length fs)
      × (s'.freeblock ≤ s.freeblock + prices fs)
unfolding add_files with_files
add_files-whole [] s texts plain v some_ left room blocks = (s, refl, v, omega arith, omega arith)
add_files-whole (f ∷ fs) s texts plain v some_ left room blocks =
    let inum = s.freeinode in
    let (t, ran, w, counted, cost) =
      add_file-whole f s texts plain.0 v some_ (omega arith) (omega arith) (omega arith) in
    let grown = root_grows inum f texts some_ in
    let (s', ran', x, counted', cost') =
      add_files-whole fs t (with_file inum f texts) plain.1 w (omega arith) (omega arith)
        (omega arith) (omega arith) in
    (
      s',
      rw ran ran',
      subst (λ k. IsImage s' (with_files k fs (with_file inum f texts))) counted x,
      omega arith,
      omega arith,
    )
