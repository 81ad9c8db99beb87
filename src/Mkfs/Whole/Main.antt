-- ===== src/Mkfs/Whole/Main.antt =====
-- The image that `main` of tools/mkfs.c builds.
use tuix_os.Base.{
  ℕ, zero, suc, ◌+◌, ◌*◌, ◌/◌, ◌≤◌, ◌≡◌, refl, ◌∙◌, ◌==◌, List, [], ◌∷◌, All, length, arith,
  Bool-cases, inl, inr,
}
use mathlib.Core.Path.{subst}
use tuix_os.Base.Outcome.{ok}
use tuix_os.Memory.{Mem, load8}
use tuix_os.Fs.{b_size, root_ino, dirent_size, fs_size, t_dir}
use tuix_os.Mkfs.{Image, meta_num, inodes_num, put_sector, ialloc, iappend}
use tuix_os.Mkfs.Sectors.{load8-wsect_ne}
use tuix_os.Mkfs.Build.{
  File, dirent, superblock, clear_loop, blank, add_files, round_root, build_from, build,
}
use tuix_os.Mkfs.Write.{spans}
use tuix_os.Mkfs.Whole.{Text, empty, put, IsImage, iappend-whole}
use tuix_os.Mkfs.Whole.Made.{ialloc-whole}
use tuix_os.Mkfs.Whole.Files.{with_entry, with_files, IsPlain, prices, add_files-whole}

cleared_sector :
    (i : ℕ) (d : Mem) → ((x : ℕ) → load8 d x ≡ 0) → (x : ℕ) → load8 (put_sector i (λ j. 0) d) x ≡ 0
unfolding put_sector load8
cleared_sector i d h x = elim (Bool-cases (x / b_size == i)) [
  | inl t ↦ rw t refl
  | inr t ↦ rw t (h x)
]

clear_loop-zero :
    (rounds i : ℕ) (d : Mem)
    → ((x : ℕ) → load8 d x ≡ 0)
    → (x : ℕ) → load8 (clear_loop rounds i d) x ≡ 0
unfolding clear_loop
clear_loop-zero zero i d h x = h x
clear_loop-zero (suc rounds) i d h x =
    clear_loop-zero rounds (i + 1) (put_sector i (λ j. 0) d) (cleared_sector i d h) x

no_byte : (x : ℕ) → load8 (λ i. 0) x ≡ 0
unfolding load8
no_byte x = refl

-- The image behind the super block has no files.
abbrev no_texts : ℕ → Text
no_texts k = empty

blank-IsImage : (stale : Mem) → IsImage (blank stale) no_texts
unfolding blank
blank-IsImage stale = record {
  fresh = record {
    behind = omega arith;
    clear = λ x l.
        load8-wsect_ne 1 superblock (clear_loop fs_size 0 (λ i. 0)) x (omega arith)
        ∙ clear_loop-zero fs_size 0 (λ i. 0) no_byte x;
  };
  whole = refl;
  some_ = omega arith;
  inodes = omega arith;
  file = λ k u. absurd (omega arith);
  apart = λ k l u u' ne. absurd (omega arith);
  text = λ k u. absurd (omega arith);
  fits = λ k u. absurd (omega arith);
}

-- The root directory with its first two entries.
abbrev pub dots : ℕ → Text
dots =
    with_entry root_ino (0x2E ∷ 0x2E ∷ [])
      (with_entry root_ino (0x2E ∷ []) (put root_ino empty no_texts))

abbrev pub all_texts : List File → ℕ → Text
all_texts files = with_files 2 files dots

-- `main` up to the rounding of the root.
pub record Populated (stale : Mem) (files : List File) (u : Image) : Type 0 where
  pub ran : build stale files ≡ ok (round_root u)
  pub image : IsImage u (all_texts files)
  pub count : u.freeinode ≡ 2 + length files
  pub cost : u.freeblock ≤ meta_num + 4 * spans dirent_size + prices files

blank-start :
    (stale : Mem)
    → ((ialloc t_dir (blank stale)).0 ≡ 1)
      × ((blank stale).freeinode ≡ 1)
      × ((blank stale).freeblock ≡ meta_num)
unfolding blank ialloc
blank-start stale = (refl, refl, refl)

abbrev rooted : (stale : Mem) → Image
rooted stale = (ialloc t_dir (blank stale)).1

rooted-IsImage :
    (stale : Mem)
    → IsImage (rooted stale) (put root_ino empty no_texts)
      × ((rooted stale).freeinode ≡ 2)
      × ((rooted stale).freeblock ≡ meta_num)
rooted-IsImage stale =
    let (_, one, front) = blank-start stale in
    let (v, count, cost) =
      ialloc-whole t_dir (blank stale) no_texts (blank-IsImage stale) (omega arith) in
    (subst (λ k. IsImage (rooted stale) (put k empty no_texts)) one v, omega arith, omega arith)

-- An entry of the root for itself or its parent.
dot-whole :
    (name : List ℕ) (s : Image) (texts : ℕ → Text)
    → IsImage s texts
    → s.freeinode ≡ 2
    → (texts root_ino).len ≤ dirent_size
    → s.freeblock ≤ meta_num + 2 * spans dirent_size
    → (s' : Image) × (iappend root_ino (dirent root_ino name) 0 dirent_size s ≡ ok s')
      × IsImage s' (with_entry root_ino name texts)
      × (s'.freeinode ≡ 2)
      × (s'.freeblock ≤ s.freeblock + 2 * spans dirent_size)
dot-whole name s texts v count short low =
    let (s', ran, w, same, cost) =
      iappend-whole (dirent root_ino name) 0 dirent_size root_ino s texts v
        (omega arith, omega arith) (omega arith) (omega arith) in
    (s', ran, w, same ∙ count, cost)

dotted :
    (stale : Mem)
    → (s1 : Image) × (s2 : Image) × (iappend root_ino
          (dirent root_ino (0x2E ∷ []))
          0
          dirent_size
          (rooted stale)
        ≡ ok s1)
      × (iappend root_ino (dirent root_ino (0x2E ∷ 0x2E ∷ [])) 0 dirent_size s1 ≡ ok s2)
      × IsImage s2 dots
      × (s2.freeinode ≡ 2)
      × (s2.freeblock ≤ meta_num + 4 * spans dirent_size)
dotted stale =
    let (v0, count0, front) = rooted-IsImage stale in
    let (s1, ran1, v1, count1, cost1) =
      dot-whole (0x2E ∷ []) (rooted stale) (put root_ino empty no_texts) v0 count0 (omega arith)
        (omega arith) in
    let (s2, ran2, v2, count2, cost2) =
      dot-whole (0x2E ∷ 0x2E ∷ []) s1
        (with_entry root_ino (0x2E ∷ []) (put root_ino empty no_texts)) v1 count1 (omega arith)
        (omega arith) in
    (s1, s2, ran1, ran2, v2, count2, omega arith)

build-run :
    (files : List File) (s0 s1 s2 u : Image)
    → iappend root_ino (dirent root_ino (0x2E ∷ [])) 0 dirent_size s0 ≡ ok s1
    → iappend root_ino (dirent root_ino (0x2E ∷ 0x2E ∷ [])) 0 dirent_size s1 ≡ ok s2
    → add_files files s2 ≡ ok u
    → build_from files (root_ino, s0) ≡ ok (round_root u)
unfolding build_from
build-run files s0 s1 s2 u e1 e2 e3 = rw (e1, e2, e3) refl

build-rooted :
    (stale : Mem) (files : List File)
    → build stale files ≡ build_from files (root_ino, (rooted stale))
unfolding build
build-rooted stale files = λ i. build_from files ((blank-start stale).0 i, (rooted stale))

pub build-Populated :
    (stale : Mem) (files : List File)
    → All IsPlain files
    → 2 + length files ≤ inodes_num
    → meta_num + 4 * spans dirent_size + prices files ≤ fs_size
    → (u : Image) × Populated stale files u
build-Populated stale files plain room blocks =
    let (s1, s2, ran1, ran2, v2, count2, cost2) = dotted stale in
    let (u, ran3, v3, count3, cost3) =
      add_files-whole files s2 dots plain v2 (omega arith) (omega arith) (omega arith)
        (omega arith) in
    (
      u,
      record {
        ran = build-rooted stale files ∙ build-run files (rooted stale) s1 s2 u ran1 ran2 ran3;
        image = subst (λ k. IsImage u (with_files k files dots)) count2 v3;
        count = omega arith;
        cost = omega arith;
      },
    )
