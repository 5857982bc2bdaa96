-- ===== src/Vfs/Tests.antt =====
-- One open file on a node below /home/user, and theorems applied to it. The driver counts its calls.
use thuban.Base.{ℕ, ◌+◌, ◌^◌, ◌≡◌, refl, true, arith, [], ◌∷◌, if◌then◌else◌, ◌==◌, none, some}
use thuban.Base.Int.{pos, negsuc}
use thuban.Vfs.{Node, Vfs, Driver, null, vfs_get_file, in_table, vfs_alloc_fd}
use thuban.Vfs.Descriptors.{Opened, vfs_alloc_fd-Opened}
use thuban.Vfs.Permission.{
  user_text, home_text, Lineage, root, child, may_write, vfs_check_permission,
  vfs_check_permission-may_write, vfs_check_permission-read_only,
}
use thuban.Vfs.Filesystems.{find_filesystem}

-- Node 3 is named "user", its parent 4 "home", and the parent of that is NULL.
abbrev node : ℕ → Node
node p = record {
  name = if p == 3 then user_text else home_text;
  inode = p;
  mode = 0x41FF;
  uid = 0;
  gid = 0;
  size = 700;
  nlink = 1;
  dev = 0;
  atime = 0;
  mtime = 0;
  ctime = 0;
  sb = none;
  parent = if p == 3 then 4 else 0;
  fops = 1;
}

-- The file at address 9 is open on descriptor 0, for appending.
abbrev one_file : Vfs ℕ
one_file = record {
  files = λ p. record { node = 3; offset = 40; flags = 0x401; mode = 0; refcount = 1 };
  nodes = node;
  filesystems = λ p. record { name = some (97 ∷ []); can_mount = true };
  fs_list = [];
  fd_table = λ i. if i == 0 then 9 else 0;
  init_complete = true;
  guard = record { lock = record { flags = 0; locked = 0; name = 0 }; rflags = 2 ^ 9 };
  freed = [];
  disk = 0;
}

abbrev transfer : ℕ → ℕ → ℕ → ℕ → Vfs ℕ → ℕ × Vfs ℕ
transfer file buf count offset v = (count, record v { disk = v.disk + 1 })

abbrev counting : Driver ℕ
counting = record {
  close = λ fops. none;
  read = λ fops. some transfer;
  write = λ fops. some transfer;
}

descriptor_0 : vfs_get_file (pos 0) one_file ≡ 9
unfolding vfs_get_file in_table
descriptor_0 = refl

vfs_alloc_fd-Opened_example : Opened 9 one_file (vfs_alloc_fd 9 one_file)
vfs_alloc_fd-Opened_example = vfs_alloc_fd-Opened 9 one_file

-- The names from node 3 up.
user_in_home : Lineage node 3 (user_text ∷ home_text ∷ [])
user_in_home = child (omega arith) (child (omega arith) root)

vfs_check_permission-may_write_example :
    vfs_check_permission 3 node true 3 2
    ≡ some (if may_write (node 3) (user_text ∷ home_text ∷ []) 2 then pos 0 else negsuc 12)
vfs_check_permission-may_write_example =
    vfs_check_permission-may_write 3 node 3 (user_text ∷ home_text ∷ []) 2 (omega arith)
      user_in_home (omega arith) refl

vfs_check_permission-read_only_example : vfs_check_permission 3 node true 3 0 ≡ some (pos 0)
vfs_check_permission-read_only_example =
    vfs_check_permission-read_only 3 node true 3 0 (omega arith) refl

no_list : find_filesystem one_file.filesystems (97 ∷ []) [] ≡ null
unfolding find_filesystem
no_list = refl
