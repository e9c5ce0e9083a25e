-- ===== src/Files/Sample.antt =====
-- A small state of the file systems, for tests: a memory file system whose root, node 60, has an
-- empty directory, and a file, node 61, of 4 bytes at address 1000; the file is open as 80, from
-- position 2, through the vnode 90.
use rtc_driver.Base.{◌==◌, if◌then◌else◌, [], ◌∷◌}
use rtc_driver.Devices.{FileOperations}
use rtc_driver.Files.{Vnode, File, SuperBlock, MemSuper, MemNode, Dentry, Files}
use rtc_driver.Files.Fn

abbrev pub no_operations : FileOperations
no_operations = record {
  open_file = 0;
  release = 0;
  flush = 0;
  read = 0;
  write = 0;
  lseek = 0;
  ioctl = 0;
  readdir = 0;
}

abbrev pub file_calls : FileOperations
file_calls = record no_operations {
  open_file = Fn.open_file;
  release = Fn.release;
  flush = Fn.flush;
  read = Fn.read;
  write = Fn.write;
}

abbrev pub root_node : MemNode
root_node = record {
  ino = 1;
  mode = 0x41ed;
  size = 0;
  devid = 0;
  bytes = 0;
  dentries = [];
  super = 1;
}

abbrev pub file_node : MemNode
file_node = record {
  ino = 2;
  mode = 0x81ed;
  size = 4;
  devid = 0;
  bytes = 1000;
  dentries = [];
  super = 1;
}

abbrev pub mem_super : MemSuper
mem_super = record {
  name = 5;
  text = 114 ∷ [];
  devid = 1;
  flags = 7;
  nodes = 60 ∷ 61 ∷ [];
  last_ino = 3;
}

abbrev pub dir_vnode : Vnode
dir_vnode = record {
  v_no = 1;
  v_mode = 0x41ed;
  v_size = 0;
  v_dev = 0;
  v_iops = record { lookup = Fn.lookup; create = Fn.create; mkdir = Fn.mkdir; mknod = Fn.mknod };
  v_fops = no_operations;
  private_node = 60;
  v_sb = 50;
  v_count = 1;
}

abbrev pub file_vnode : Vnode
file_vnode = record {
  v_no = 2;
  v_mode = 0x81ed;
  v_size = 4;
  v_dev = 0;
  v_iops = record { lookup = 0; create = 0; mkdir = 0; mknod = 0 };
  v_fops = file_calls;
  private_node = 61;
  v_sb = 50;
  v_count = 1;
}

abbrev pub open_file : File
open_file = record { f_pos = 2; f_ops = file_calls; f_flags = 3; f_count = 1; f_vnode = 90 }

abbrev pub super_block : SuperBlock
super_block = record {
  read_vnode = Fn.read_vnode;
  destroy_vnode = Fn.destroy_vnode;
  mount = Fn.mount;
  unmount = Fn.unmount;
  sb_root_vno = 1;
  sb_flags = 0;
  private_super = 1;
  sb_devid = 1;
  sb_fs_type = 40;
  sb_mnt = 0;
}

-- "/" with the file system mounted on it, and "a" below it.
abbrev pub root_entry : Dentry
root_entry = record {
  d_name = 30;
  d_text = 47 ∷ [];
  d_vno = 1;
  d_parent = 0;
  d_sb = 0;
  d_mnt_sb = 50;
  d_count = 1;
}

abbrev pub a_entry : Dentry
a_entry = record {
  d_name = 31;
  d_text = 97 ∷ [];
  d_vno = 2;
  d_parent = 1;
  d_sb = 50;
  d_mnt_sb = 0;
  d_count = 1;
}

abbrev pub sample : Files
sample = record {
  mem = λ a. a;
  errors = record { errno = 0; panic_level = 2 };
  answers = 200 ∷ 201 ∷ 202 ∷ 203 ∷ 204 ∷ [];
  live = [];
  vnodes = λ p. if p == 90 then file_vnode else dir_vnode;
  files = λ p. open_file;
  sbs = λ p. super_block;
  fs_types = λ p. record { ft_name = 0; ft_text = []; ft_get_sb = 0; ft_kill_sb = 0 };
  vfs_fs_types = [];
  vfs_sbs = 50 ∷ [];
  vfs_vnodes = [];
  vfs_files = 80 ∷ [];
  vfs_dentries = root_entry ∷ a_entry ∷ [];
  vfs_root_dentry = 1;
  memfs_supers = mem_super ∷ [];
  mem_nodes = λ p. if p == 60 then root_node else file_node;
  mem_dentries = λ p. record { ino = 0; name = 0; text = []; dir = 0 };
}
