-- ===== src/Fs.antt =====
-- The layout of the file system on disk, include/Tuix/fs.h and tools/stat.h. A structure on disk is its
-- bytes: the fields of `struct dinode` and `struct dirent` are given by their places.
use tuix_os.Base.{ℕ, ◌+◌, ◌*◌, ◌/◌}

-- The size of a block in bytes, and of the disk in blocks.
abbrev pub b_size : ℕ
b_size = 512

abbrev pub fs_size : ℕ
fs_size = 1000

abbrev pub log_size : ℕ
log_size = 10 * 3

abbrev pub root_ino : ℕ
root_ino = 1

abbrev pub direct_num : ℕ
direct_num = 12

abbrev pub indirect_num : ℕ
indirect_num = b_size / 4

abbrev pub max_file : ℕ
max_file = direct_num + indirect_num

-- The size of `struct dinode`, and the places of `nlink`, `size` and `addrs[i]`; `type` is at 0.
abbrev pub dinode_size : ℕ
dinode_size = 64

abbrev pub nlink_at : ℕ
nlink_at = 6

abbrev pub size_at : ℕ
size_at = 8

abbrev pub addr_at : ℕ → ℕ
addr_at i = 12 + 4 * i

-- How many inodes are in a block, and the block of an inode.
abbrev pub ipb : ℕ
ipb = b_size / dinode_size

abbrev pub iblock : (i inodestart : ℕ) → ℕ
iblock i inodestart = i / ipb + inodestart

-- How many bits of the bitmap are in a block.
abbrev pub bpb : ℕ
bpb = b_size * 8

-- The length of a name, and the size of `struct dirent`: `inum` at 0 and `name` at 2.
abbrev pub dir_size : ℕ
dir_size = 14

abbrev pub dirent_size : ℕ
dirent_size = 2 + dir_size

abbrev pub t_dir : ℕ
t_dir = 1

abbrev pub t_file : ℕ
t_file = 2
