-- ===== src/Tests/StegoRuns.antt =====
-- A write of 32 bytes that crosses from the first cover level into the second.
use bsfs.Base.{ℕ, ◌<◌, ◌≡◌, inl, refl, arith, Bytes, Agree, ok, err, einval}
use bsfs.Disk.{Disk}
use bsfs.Stego.{
  keytab_size, compute_level_size, stego_compute_user_level_size, get_iv, check_parameters,
  read_merged_cover_file_delta, write_merged_cover_file_delta, stego_read_level, stego_write_level,
}
use bsfs.Stego.Levels.{
  stego_read_level-write, stego_read_level-write_foreign, stego_read_level-write_apart,
  stego_write_level_keytab,
}
use bsfs.Tests.Setting.{
  plain_cipher, plain_laws, roomy_host, alice, bob, alice-IsDual, bob_alice-IsForeign, small_disk,
  message,
}

abbrev written_disk : Disk
written_disk = record small_disk {
  contents =
      write_merged_cover_file_delta alice small_disk.contents 64 48
        (read_merged_cover_file_delta alice small_disk.contents 64 48 message 32) 32;
}

write_runs :
    stego_write_level plain_cipher roomy_host alice small_disk message 48 32 ≡ ok written_disk
unfolding stego_write_level stego_compute_user_level_size compute_level_size check_parameters get_iv
write_runs = refl

-- The end of a level cannot be written.
write_to_end :
    stego_write_level plain_cipher roomy_host alice small_disk message 240 16 ≡ err einval
unfolding stego_write_level stego_compute_user_level_size compute_level_size check_parameters
write_to_end = refl

stego_read_level-write_example :
    (out : Bytes) × (stego_read_level plain_cipher roomy_host alice written_disk 48 32 ≡ ok out)
    × Agree 32 out message
stego_read_level-write_example =
    stego_read_level-write plain_cipher roomy_host plain_laws alice small_disk written_disk message
      48 32 alice-IsDual write_runs

stego_read_level-write_foreign_example :
    stego_read_level plain_cipher roomy_host bob written_disk 32 64
    ≡ stego_read_level plain_cipher roomy_host bob small_disk 32 64
stego_read_level-write_foreign_example =
    stego_read_level-write_foreign plain_cipher roomy_host plain_laws alice bob small_disk
      written_disk message 48 32 32 64 bob_alice-IsForeign write_runs

stego_read_level-write_apart_example :
    stego_read_level plain_cipher roomy_host alice written_disk 0 48
    ≡ stego_read_level plain_cipher roomy_host alice small_disk 0 48
stego_read_level-write_apart_example =
    stego_read_level-write_apart plain_cipher roomy_host plain_laws alice small_disk written_disk
      message 48 32 0 48 alice-IsDual (inl (omega arith)) write_runs

stego_write_level_keytab_example :
    (written_disk.data_size ≡ small_disk.data_size)
    × ((a : ℕ) → a < keytab_size → written_disk.contents a ≡ small_disk.contents a)
stego_write_level_keytab_example =
    stego_write_level_keytab plain_cipher roomy_host alice small_disk written_disk message 48 32
      write_runs
