-- ===== src/Disk.antt =====
-- src/disk.c: the disk's size and contents. The mapping, the file lock and the reader-writer lock
-- are the system's; in a sequential run a lock is free when it is asked for, and every function
-- of src/stego.c and src/keytab.c that takes it gives it back on each path.
use bsfs.Base.{ℕ, Bytes}

pub record Disk : Type 0 where
  pub data_size : ℕ
  pub contents : Bytes

abbrev pub disk_get_size : Disk → ℕ
disk_get_size disk = disk.data_size
