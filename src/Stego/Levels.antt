-- ===== src/Stego/Levels.antt =====
-- Reads and writes of user levels in src/stego.c: a read gives back what was written, and levels
-- do not disturb one another.
use bsfs.Base.{
  ℕ, ◌+◌, ◌*◌, ◌≤◌, ◌<◌, ◌≡◌, ◌⊎◌, inl, inr, sym, ap, ◌∙◌, arith, Bytes, Agree, memset, ok,
  Bool-cases,
}
use bsfs.Base.Xor.{zero-bit_xor}
use bsfs.Cipher.{Cipher, CipherLaws}
use bsfs.Disk.{Disk}
use bsfs.Stego.{
  StegoKey, Host, keytab_size, stego_levels_per_password, compute_level_size,
  stego_compute_user_level_size, check_parameters, read_merged_cover_file_delta, stego_read_level,
  stego_write_level,
}
use bsfs.Stego.Merge.{
  user_view, read_merged_cover_file_delta_at, write_merged_cover_file_delta_keytab,
}
use bsfs.Stego.Written.{
  IsDual, IsForeign, Written, check_parameters_lem, stego_write_level-Written,
  stego_read_level_congr, level_size, fits, same_size, own_view, foreign_view,
}

module _ (cipher : Cipher) (host : Host) where
  -- With keys of one password that are dual, and a cipher whose decryption undoes its encryption, a
  -- range that stego_write_level wrote is read back by stego_read_level: the read succeeds, with
  -- the same bytes.
  pub stego_read_level-write :
      (laws : CipherLaws cipher) (key : StegoKey) (disk disk' : Disk) (buf : Bytes) (off size : ℕ)
      → IsDual key.read_keys key.write_keys
      → stego_write_level cipher host key disk buf off size ≡ ok disk'
      → (out : Bytes) × (stego_read_level cipher host key disk' off size ≡ ok out)
        × Agree size out buf
  unfolding stego_read_level stego_compute_user_level_size level_size
  stego_read_level-write laws key disk disk' buf off size dual h =
      let w = stego_write_level-Written cipher host key disk buf off size disk' h in
      let L = level_size cipher host key disk buf off size disk' w in
      let bound = fits cipher host key disk buf off size disk' w in
      let same = same_size cipher host key disk buf off size disk' w in
      let zeroed = memset (λ _. 0) 0 0 size in
      let delta = read_merged_cover_file_delta key disk'.contents L off zeroed size in
      let agree : Agree size delta w.encrypted = λ a lt. ground (
        arith,
        read_merged_cover_file_delta_at key disk'.contents L off zeroed size a (omega arith),
        own_view cipher host key disk buf off size disk' w (off + a) dual (omega arith),
        zero-bit_xor (w.encrypted a),
        ap w.encrypted,
      ) in
      let (out, decrypted, agrees) =
        laws.aes_decrypt-encrypt key.aes_key w.iv buf w.encrypted size w.has_encrypted in
      (
        out,
        rw (same, w.allowed, w.memory, w.has_iv)
            (laws.aes_decrypt_congr key.aes_key w.iv delta w.encrypted size agree ∙ decrypted),
        agrees,
      )

  -- A read sees nothing of a write that leaves the bytes of its range as they were.
  read_unchanged :
      (laws : CipherLaws cipher) (key other : StegoKey) (disk disk' : Disk) (buf : Bytes)
      (off size off' size' : ℕ)
      → (w : Written cipher host key disk buf off size disk')
      → ((q : ℕ)
          → off' ≤ q
          → q < off' + size'
          → q < stego_levels_per_password * compute_level_size disk.data_size
          → user_view other.read_keys disk'.contents (compute_level_size disk.data_size) q
            ≡ user_view other.read_keys disk.contents (compute_level_size disk.data_size) q)
      → stego_read_level cipher host other disk' off' size'
        ≡ stego_read_level cipher host other disk off' size'
  unfolding stego_read_level stego_compute_user_level_size
  read_unchanged laws key other disk disk' buf off size off' size' w h =
      let same = same_size cipher host key disk buf off size disk' w in
      let n = stego_compute_user_level_size disk.data_size in
      elim (Bool-cases (check_parameters n off' size')) [
        | inr denied ↦ rw (same, denied)
        | inl allowed ↦
            let c = check_parameters_lem n off' size' allowed in
            sym (
              stego_read_level_congr cipher host laws other disk disk' off' size' (sym same)
                (λ a lt. sym (h (off' + a) (omega arith) (omega arith) (omega (arith, c.0, c.1))))
                (omega (arith, c.0, c.1)))
      ]

  -- For a cipher with the laws of CipherLaws, a successful stego_write_level changes nothing of
  -- what stego_read_level gives, in any range, under the read keys of another password, which meet
  -- the write keys in an even number of covers.
  pub stego_read_level-write_foreign :
      (laws : CipherLaws cipher) (key other : StegoKey) (disk disk' : Disk) (buf : Bytes)
      (off size off' size' : ℕ)
      → IsForeign other.read_keys key.write_keys
      → stego_write_level cipher host key disk buf off size ≡ ok disk'
      → stego_read_level cipher host other disk' off' size'
        ≡ stego_read_level cipher host other disk off' size'
  unfolding level_size
  stego_read_level-write_foreign laws key other disk disk' buf off size off' size' foreign h =
      let w = stego_write_level-Written cipher host key disk buf off size disk' h in
      read_unchanged laws key other disk disk' buf off size off' size' w (λ q lo hi lt.
        foreign_view cipher host key disk buf off size disk' w other.read_keys q foreign lt)

  -- For a cipher with the laws of CipherLaws and dual keys, a successful stego_write_level changes
  -- nothing of what stego_read_level gives under the same password in a range that does not overlap
  -- the written one.
  pub stego_read_level-write_apart :
      (laws : CipherLaws cipher) (key : StegoKey) (disk disk' : Disk) (buf : Bytes)
      (off size off' size' : ℕ)
      → IsDual key.read_keys key.write_keys
      → (off' + size' ≤ off) ⊎ (off + size ≤ off')
      → stego_write_level cipher host key disk buf off size ≡ ok disk'
      → stego_read_level cipher host key disk' off' size'
        ≡ stego_read_level cipher host key disk off' size'
  unfolding level_size
  stego_read_level-write_apart laws key disk disk' buf off size off' size' dual apart h =
      let w = stego_write_level-Written cipher host key disk buf off size disk' h in
      read_unchanged laws key key disk disk' buf off size off' size' w
        (λ q lo hi lt. ground (arith, own_view cipher host key disk buf off size disk' w q dual lt))

  -- A successful stego_write_level keeps the size of the disk and every byte of the key table.
  pub stego_write_level_keytab :
      (key : StegoKey) (disk disk' : Disk) (buf : Bytes) (off size : ℕ)
      → stego_write_level cipher host key disk buf off size ≡ ok disk'
      → (disk'.data_size ≡ disk.data_size)
        × ((a : ℕ) → a < keytab_size → disk'.contents a ≡ disk.contents a)
  stego_write_level_keytab key disk disk' buf off size h =
      let w = stego_write_level-Written cipher host key disk buf off size disk' h in
      (
        same_size cipher host key disk buf off size disk' w,
        λ a lt.
            ap (λ (d : Disk). d.contents a) w.result
            ∙ write_merged_cover_file_delta_keytab key disk.contents _ off _ size a lt,
      )
