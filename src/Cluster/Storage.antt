-- ===== src/Cluster/Storage.antt =====
-- Reads and writes of single clusters in src/cluster.c, on top of src/stego.c.
use bsfs.Base.{
  ℕ, ◌+◌, ◌-◌, ◌*◌, ◌%◌, ◌^◌, ◌≤◌, ◌<◌, ◌≡◌, ◌≢◌, ◌⊎◌, inl, arith, Bytes, Agree, ok, err, einval,
  false,
}
use bsfs.Cipher.{Cipher, CipherLaws}
use bsfs.Cluster.{
  bft_size, cluster_size, fs_compute_bitmap_size, cluster_off, fs_compute_bitmap_size_from_disk,
  fs_read_cluster, fs_write_cluster, fs_read_bitmap,
}
use bsfs.Cluster.Layout.{
  clusters_of, IsModerate, cluster_off_bounds, cluster_off_apart, cluster_off_congr,
  fs_compute_bitmap_size_from_disk_congr, bitmap_from_disk,
}
use bsfs.Disk.{Disk}
use bsfs.Stego.{StegoKey, Host, stego_compute_user_level_size, stego_read_level, check_parameters}
use bsfs.Stego.Levels.{
  stego_read_level-write, stego_read_level-write_apart, stego_write_level_keytab,
}
use bsfs.Stego.Written.{IsDual}

module _ (cipher : Cipher) (host : Host) (laws : CipherLaws cipher) (key : StegoKey) where
  -- For a cipher with the laws of CipherLaws and dual keys, a cluster that fs_write_cluster wrote
  -- is read back by fs_read_cluster: the read succeeds, with the same bytes.
  pub fs_read_cluster-write :
      (disk disk' : Disk) (buf : Bytes) (cluster : ℕ)
      → IsDual key.read_keys key.write_keys
      → fs_write_cluster cipher host key disk buf cluster ≡ ok disk'
      → (out : Bytes) × (fs_read_cluster cipher host key disk' cluster ≡ ok out)
        × Agree cluster_size out buf
  unfolding fs_read_cluster fs_write_cluster
  fs_read_cluster-write disk disk' buf cluster dual h =
      let same = (stego_write_level_keytab cipher host key disk disk' buf _ cluster_size h).0 in
      rw (cluster_off_congr disk' disk cluster same) (
        stego_read_level-write cipher host laws key disk disk' buf (cluster_off disk cluster)
          cluster_size dual h)

  -- For a cipher with the laws of CipherLaws, on a disk of at most 2^21 clusters a level and with
  -- dual keys, a successful fs_write_cluster changes neither another cluster nor the bitmap nor the
  -- table of the level, as they are read.
  pub fs_read_cluster-write_other :
      (disk disk' : Disk) (buf : Bytes) (c d : ℕ)
      → IsModerate disk
      → IsDual key.read_keys key.write_keys
      → c < clusters_of disk
      → d < clusters_of disk
      → c ≢ d
      → fs_write_cluster cipher host key disk buf c ≡ ok disk'
      → (fs_read_cluster cipher host key disk' d ≡ fs_read_cluster cipher host key disk d)
        × (fs_read_bitmap cipher host key disk' ≡ fs_read_bitmap cipher host key disk)
        × (stego_read_level cipher host key disk' 0 bft_size
            ≡ stego_read_level cipher host key disk 0 bft_size)
  unfolding fs_read_cluster fs_write_cluster fs_read_bitmap
  fs_read_cluster-write_other disk disk' buf c d m dual hc hd ne h =
      let same = (stego_write_level_keytab cipher host key disk disk' buf _ cluster_size h).0 in
      let other : (off size : ℕ)
          → (off + size ≤ cluster_off disk c) ⊎ (cluster_off disk c + cluster_size ≤ off)
          → stego_read_level cipher host key disk' off size
            ≡ stego_read_level cipher host key disk off size =
        λ off size apart.
          stego_read_level-write_apart cipher host laws key disk disk' buf (cluster_off disk c)
            cluster_size off size dual apart h in
      let bounds = (cluster_off_bounds disk c m hc).0 in
      (
        rw (cluster_off_congr disk' disk d same) (
            other (cluster_off disk d) cluster_size
              (grind (arith, cluster_off_apart disk c d m, cluster_off_apart disk d c m))),
        rw (fs_compute_bitmap_size_from_disk_congr disk' disk same) (
            other bft_size (fs_compute_bitmap_size_from_disk disk)
              (inl (omega (arith, bounds, bitmap_from_disk disk)))),
        other 0 bft_size (inl (omega (arith, bounds))),
      )

-- On a disk of at most 2^21 clusters a level, where the table, the bitmap and the counted clusters
-- fill the level exactly, fs_read_cluster refuses the last counted cluster with EINVAL.
pub fs_read_cluster_last :
    (cipher : Cipher) (host : Host) (key : StegoKey) (disk : Disk)
    → IsModerate disk
    → 0 < clusters_of disk
    → bft_size + fs_compute_bitmap_size (clusters_of disk) + cluster_size * clusters_of disk
      ≡ stego_compute_user_level_size disk.data_size
    → fs_read_cluster cipher host key disk (clusters_of disk - 1) ≡ err einval
unfolding fs_read_cluster cluster_off fs_compute_bitmap_size_from_disk stego_read_level
    check_parameters
fs_read_cluster_last cipher host key disk m pos exact =
    let denied : check_parameters (stego_compute_user_level_size disk.data_size)
          (bft_size
            + fs_compute_bitmap_size_from_disk disk
            + cluster_size * (clusters_of disk - 1) % 2 ^ 32)
          cluster_size
        ≡ false =
      ground (arith, m.narrow) in
    rw denied
