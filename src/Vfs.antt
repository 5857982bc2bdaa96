-- ===== src/Vfs.antt =====
-- fs/vfs.c and include/thuban/vfs.h: the table of open files, seeking, reading and writing through
-- a descriptor, permissions, and the list of file systems.
-- A pointer is an address, NULL is 0, and `files`, `nodes` and `filesystems` are what stands at the
-- addresses. `off_t`, `ssize_t` and `size_t` are 64-bit words in two's complement, so -1 is
-- `minus_one` and a word from 2^63 on is negative. The operations of a driver are the parameter
-- `driver`, by the address of the table of operations; they may change all of the state, and `disk`
-- stands for what only they know. `freed` is the list of the addresses given to `free`.
-- The mount list, the walk along a path, and the operations that start from a path are left out.
pub mod Descriptors
pub mod Transfer
pub mod Permission
pub mod Filesystems
mod Tests
use thuban.Base.{
  ℕ, zero, suc, ◌+◌, ◌-◌, ◌*◌, ◌/◌, ◌%◌, ◌^◌, bit_and, Bool, true, false, not, ◌&&◌, ◌||◌, List, [],
  ◌∷◌, Option, none, some, ltb, ◌==◌, if◌then◌else◌,
}
use thuban.Base.Store.{update}
use thuban.Base.Int.{ℤ, pos, negsuc}
use thuban.CString.Compare.{same_text}
use thuban.Lock.{Guard, spin_lock, spin_unlock, spin_lock_init}

abbrev pub null : ℕ
null = 0

abbrev pub max_open_files : ℕ
max_open_files = 256

-- The word -1.
abbrev pub minus_one : ℕ
minus_one = 2 ^ 64 - 1

abbrev pub is_negative_word : ℕ → Bool
is_negative_word n = not (ltb n (2 ^ 63))

-- `flags & mask`, as a condition.
abbrev pub any_flag : ℕ → ℕ → Bool
any_flag flags mask = not (bit_and flags mask == 0)

-- `vfs_file_t`, less its private data.
pub record File : Type 0 where
  pub node : ℕ
  pub offset : ℕ
  pub flags : ℕ
  pub mode : ℕ
  pub refcount : ℕ

-- `vfs_node_t`, the fields that the functions below read; `sb` is the block size of its superblock,
-- and `none` stands for a missing one.
pub record Node : Type 0 where
  pub name : List ℕ
  pub inode : ℕ
  pub mode : ℕ
  pub uid : ℕ
  pub gid : ℕ
  pub size : ℕ
  pub nlink : ℕ
  pub dev : ℕ
  pub atime : ℕ
  pub mtime : ℕ
  pub ctime : ℕ
  pub sb : Option ℕ
  pub parent : ℕ
  pub fops : ℕ

-- `vfs_filesystem_t`: its name, and whether it can mount.
pub record Filesystem : Type 0 where
  pub name : Option (List ℕ)
  pub can_mount : Bool

module _ (W : Type 0) where
  -- The static variables of the file, and what their pointers lead to.
  pub record Vfs : Type 0 where
    pub files : ℕ → File
    pub nodes : ℕ → Node
    pub filesystems : ℕ → Filesystem
    pub fs_list : List ℕ
    pub fd_table : ℕ → ℕ
    pub init_complete : Bool
    pub guard : Guard
    pub freed : List ℕ
    pub disk : W

  -- `vfs_file_operations_t`: the address of the file, then buffer, count and offset.
  pub record Driver : Type 0 where
    pub close : ℕ → Option (ℕ → Vfs → Vfs)
    pub read : ℕ → Option (ℕ → ℕ → ℕ → ℕ → Vfs → ℕ × Vfs)
    pub write : ℕ → Option (ℕ → ℕ → ℕ → ℕ → Vfs → ℕ × Vfs)

-- The loop of `vfs_alloc_fd`, with the rounds left: the first empty slot from `i` on.
pub find_slot : ℕ → ℕ → (ℕ → ℕ) → Option ℕ
find_slot zero i table = none
find_slot (suc n) i table =
    let rest = find_slot n (i + 1) table in if table i == null then some i else rest

-- `if (fd < 0 || fd >= VFS_MAX_OPEN_FILES)`
pub in_table : ℤ → Option ℕ
in_table (negsuc n) = none
in_table (pos n) = if ltb n max_open_files then some n else none

-- The offset that `whence` asks for.
pub seek_target : ℕ → ℕ → File → Node → Option ℕ
seek_target whence offset f n =
    if whence == 0
    then some offset
    else if whence == 1
    then some ((f.offset + offset) % 2 ^ 64)
    else if whence == 2
    then some ((n.size + offset) % 2 ^ 64)
    else none

module _ {W : Type 0} where
  pub acquire : Vfs W → Vfs W
  acquire v = record v { guard = spin_lock v.guard }

  pub release : Vfs W → Vfs W
  release v = record v { guard = spin_unlock v.guard }

  -- `file->refcount++`
  pub retain : ℕ → Vfs W → Vfs W
  retain file v =
      let f = v.files file in
      record v { files = update v.files file (record f { refcount = (f.refcount + 1) % 2 ^ 32 }) }

  -- The body of the loop at the slot that was found, or what follows the loop.
  pub install : ℕ → Option ℕ → Vfs W → ℤ × Vfs W
  unfolding retain release
  install file none c = (negsuc 0, release c)
  install file (some i) c =
      (pos i, release (retain file (record c { fd_table = update c.fd_table i file })))

  -- The result is a descriptor or -1.
  pub vfs_alloc_fd : ℕ → Vfs W → ℤ × Vfs W
  unfolding acquire find_slot install
  vfs_alloc_fd file v = let c = acquire v in install file (find_slot max_open_files 0 c.fd_table) c

  -- `fd_table[fd]->refcount--`, and `free` when none is left.
  pub drop : ℕ → Vfs W → Vfs W
  drop file v =
      let f = v.files file in
      let left = (f.refcount + 2 ^ 32 - 1) % 2 ^ 32 in
      record v {
        files = update v.files file (record f { refcount = left });
        freed = if left == 0 then file ∷ v.freed else v.freed;
      }

  pub clear_slot : ℕ → Vfs W → Vfs W
  unfolding drop
  clear_slot i v =
      if v.fd_table i == null
      then v
      else (let w = drop (v.fd_table i) v in record w { fd_table = update w.fd_table i null })

  pub vfs_free_fd : ℤ → Vfs W → Vfs W
  unfolding in_table clear_slot acquire release
  vfs_free_fd fd v = elim (in_table fd) [ none ↦ v | some i ↦ release (clear_slot i (acquire v)) ]

  pub vfs_get_file : ℤ → Vfs W → ℕ
  unfolding in_table
  vfs_get_file fd v = elim (in_table fd) [ none ↦ null | some i ↦ v.fd_table i ]

  -- The result is 0 or -1.
  pub vfs_close : Driver W → ℤ → Vfs W → ℤ × Vfs W
  unfolding vfs_get_file vfs_free_fd
  vfs_close driver fd v =
      let file = vfs_get_file fd v in
      if file == null
      then (negsuc 0, v)
      else (let w : Vfs W = elim (driver.close (v.nodes (v.files file).node).fops) [
        | none ↦ v
        | some close ↦ close file v
      ] in
          (pos 0, vfs_free_fd fd w))

  -- `if (n > 0) file->offset += n;`
  pub advance : ℕ → ℕ → Vfs W → Vfs W
  advance file n v =
      let f = v.files file in
      if n == 0 || is_negative_word n
      then v
      else record v { files = update v.files file (record f { offset = (f.offset + n) % 2 ^ 64 }) }

  pub vfs_read : Driver W → ℤ → (buf count : ℕ) → Vfs W → ℕ × Vfs W
  unfolding vfs_get_file advance
  vfs_read driver fd buf count v =
      let file = vfs_get_file fd v in
      if file == null || buf == null
      then (minus_one, v)
      else elim (driver.read (v.nodes (v.files file).node).fops) [
        | none ↦ (minus_one, v)
        | some read ↦
            let (n, w) = read file buf count (v.files file).offset v in (n, advance file n w)
      ]

  -- `if (file->flags & O_APPEND) file->offset = file->node->size;`
  pub seek_append : ℕ → Vfs W → Vfs W
  seek_append file v =
      let f = v.files file in
      if any_flag f.flags 0x400
      then record v { files = update v.files file (record f { offset = (v.nodes f.node).size }) }
      else v

  pub vfs_write : Driver W → ℤ → (buf count : ℕ) → Vfs W → ℕ × Vfs W
  unfolding vfs_get_file
  vfs_write driver fd buf count v =
      let file = vfs_get_file fd v in
      if file == null || buf == null
      then (minus_one, v)
      else elim (driver.write (v.nodes (v.files file).node).fops) [
        | none ↦ (minus_one, v)
        | some write ↦
            if bit_and (v.files file).flags 3 == 0
            then (minus_one, v)
            else (let u = seek_append file v in
                let (n, w) = write file buf count (u.files file).offset u in (n, advance file n w))
      ]

  pub vfs_lseek : ℤ → (offset whence : ℕ) → Vfs W → ℕ × Vfs W
  unfolding vfs_get_file seek_target
  vfs_lseek fd offset whence v =
      let file = vfs_get_file fd v in
      if file == null
      then (minus_one, v)
      else (let f = v.files file in
          elim (seek_target whence offset f (v.nodes f.node)) [
            | none ↦ (minus_one, v)
            | some new_offset ↦ if is_negative_word new_offset then (minus_one, v) else (
              new_offset,
              record v { files = update v.files file (record f { offset = new_offset }) },
            )
          ])

-- `struct stat`
pub record Stat : Type 0 where
  pub st_dev : ℕ
  pub st_ino : ℕ
  pub st_mode : ℕ
  pub st_nlink : ℕ
  pub st_uid : ℕ
  pub st_gid : ℕ
  pub st_rdev : ℕ
  pub st_size : ℕ
  pub st_atime : ℕ
  pub st_mtime : ℕ
  pub st_ctime : ℕ
  pub st_blksize : ℕ
  pub st_blocks : ℕ

pub stat_of : Node → Stat
stat_of n = record {
  st_dev = n.dev;
  st_ino = n.inode;
  st_mode = n.mode;
  st_nlink = n.nlink;
  st_uid = n.uid;
  st_gid = n.gid;
  st_rdev = 0;
  st_size = n.size;
  st_atime = n.atime;
  st_mtime = n.mtime;
  st_ctime = n.ctime;
  st_blksize = elim n.sb [ none ↦ 512 | some blocksize ↦ blocksize ];
  st_blocks = (n.size + 511) % 2 ^ 64 / 512;
}

module _ {W : Type 0} where
  -- `buf` says whether the pointer to the result is other than NULL; `none` is -1.
  pub vfs_fstat : ℤ → (buf : Bool) → Vfs W → Option Stat
  unfolding vfs_get_file stat_of
  vfs_fstat fd buf v =
      let file = vfs_get_file fd v in
      if file == null || not buf then none else some (stat_of (v.nodes (v.files file).node))

  pub vfs_init : ℕ → Vfs W → Vfs W
  vfs_init lock_name v = record v {
    guard = spin_lock_init lock_name v.guard;
    fd_table = λ i. if ltb i max_open_files then null else v.fd_table i;
    fs_list = [];
    init_complete = false;
  }

  pub vfs_set_init_complete : Vfs W → Vfs W
  vfs_set_init_complete v = record v { init_complete = true }
