-- ===== src/Bsfs/Written.antt =====
-- A write of src/bsfs.c inside a file, and reads after it.
use bsfs.Base.{
  some, ℕ, ◌+◌, ◌-◌, ◌%◌, ◌^◌, ◌≤◌, ◌<◌, ◌≡◌, refl, sym, ap, subst, ◌∙◌, arith, true, false, ltb,
  ◌==◌, if◌then◌else◌, min, max, Bytes, IsBytes, in_range, List, Outcome, ok, err, >>=-ok_inv,
  Bool-cases, inl, inr,
}
use bsfs.Bft.{BftEntry, bft_read_table_entry}
use bsfs.Bsfs.{
  OpenLevel, Transfer, find_cluster, do_rw_op, adjust_size_and_off, get_size_and_initial_cluster,
  bsfs_read,
}
use bsfs.Bsfs.Attributes.{readable, commit_write_to_bft_lem}
use bsfs.Bsfs.Overwrite.{IsApart, rw_loop-IsOverwritten}
use bsfs.Bsfs.Sought.{IsSought, seek_loop-IsSought}
use bsfs.Bsfs.Reading.{data_of, data_size_of, IsFile, bsfs_read_lem, adjust_size_and_off_lem}
use bsfs.Bsfs.Writing.{commit, after_overlap, write_overlap, bsfs_write}
use bsfs.Cipher.{Cipher, CipherLaws}
use bsfs.Cluster.Layout.{clusters_of, IsModerate}
use bsfs.Stego.{Host}
use bsfs.Stego.Written.{IsDual}

-- The size and the first cluster of a file stay when a write of the same size is committed.
commit-keeps :
    (cipher : Cipher) (host : Host) (cluster₀ : Bytes) (level level' : OpenLevel)
    (index file_size initial : ℕ)
    → IsBytes level.bft
    → get_size_and_initial_cluster host level index ≡ ok (file_size, initial)
    → commit cipher host cluster₀ index level file_size true ≡ (level', ok tt)
    → (get_size_and_initial_cluster host level' index ≡ ok (file_size, initial))
      × (level'.disk ≡ level.disk)
      × (level'.key ≡ level.key)
unfolding get_size_and_initial_cluster commit
commit-keeps cipher host cluster₀ level level' index file_size initial h entry done =
    let (ent, reads, e) = >>=-ok_inv (bft_read_table_entry host level.bft index) _ entry in
    let (b, runs, updated, others) =
      commit_write_to_bft_lem host level.bft index ent h reads file_size true in
    let r = readable host level.bft index ent h reads in
    let is_size : ent.size ≡ file_size = cc e in
    let is_initial : ent.initial_cluster ≡ initial = cc e in
    let fits : file_size % 2 ^ 32 ≡ file_size =
      ap (λ k. k % 2 ^ 32) (sym is_size) ∙ (ap (λ (x : BftEntry). x.size) r.fits ∙ is_size) in
    let same : record level { bft = b } ≡ level' = cc (rw (commit, runs) at done) in
    subst
      (λ (l : OpenLevel).
        (get_size_and_initial_cluster host l index ≡ ok (file_size, initial))
        × (l.disk ≡ level.disk)
        × (l.key ≡ level.key))
      same (rw (get_size_and_initial_cluster, updated, fits, is_initial) refl, refl, refl)

-- The level after a write inside the file.
record IsWritten (cipher : Cipher) (host : Host) (level level' : OpenLevel)
    (index file_size initial : ℕ) (clusters : List Bytes) (buf : Bytes) (size off : ℕ)
    : Type 0 where
  entry : get_size_and_initial_cluster host level' index ≡ ok (file_size, initial)
  after : List Bytes
  chain : IsFile cipher host level'.key level'.disk initial after
  total : data_size_of after ≡ data_size_of clusters
  holds :
      (i : ℕ)
      → i < data_size_of clusters
      → data_of after i ≡ (if in_range off size i then buf (i - off) else data_of clusters i)

module _ (cipher : Cipher) (host : Host) (laws : CipherLaws cipher) (cluster₀ : Bytes)
    (level level' : OpenLevel) (index file_size initial : ℕ) (clusters : List Bytes) (buf : Bytes)
    (size off : ℕ) (dual : IsDual level.key.read_keys level.key.write_keys)
    (moderate : IsModerate level.disk) (bytes : IsBytes level.bft)
    (entry : get_size_and_initial_cluster host level index ≡ ok (file_size, initial))
    (chain : IsFile cipher host level.key level.disk initial clusters)
    (apart : IsApart (clusters_of level.disk) initial clusters)
    (covers : file_size ≤ data_size_of clusters) (some_bytes : 0 < size)
    (inside : off + size ≤ file_size) where
  after_overlap-IsWritten :
      (at local : ℕ) (p : Transfer × Outcome ℕ)
      → IsSought cipher host level.key level.disk initial clusters off at local
      → do_rw_op cipher host level.key level.disk at 0 local buf size true ≡ p
      → after_overlap cipher host cluster₀ index level file_size buf size off size p
        ≡ some (level', ok tt)
      → IsWritten cipher host level level' index file_size initial clusters buf size off
  unfolding after_overlap do_rw_op get_size_and_initial_cluster
  after_overlap-IsWritten at local (t, err e) s runs done = cc done
  after_overlap-IsWritten at local (t, ok n) s runs done =
      let full : (size == size) ≡ true = ground arith in
      let most : max file_size (off + size) ≡ file_size = omega arith in
      let written = record level { disk = t.disk } in
      let stored : some
            (commit cipher host cluster₀ index written (max file_size (off + size)) true)
          ≡ some (level', ok tt) =
        rw (after_overlap, full) at done in
      let committed : commit cipher host cluster₀ index written file_size true ≡ (level', ok tt) =
        ap (λ k. commit cipher host cluster₀ index written k true) (sym most) ∙ cc stored in
      let (entry', same_disk, same_key) =
        commit-keeps cipher host cluster₀ written level' index file_size initial bytes entry
          committed in
      let w =
        rw_loop-IsOverwritten cipher host laws level.key dual size size at local 0 0 n buf
          level.disk s.tail t moderate s.chain s.apart s.small (omega arith) (omega arith)
          (let a = s.sizes in let b = s.back in omega (arith, a, b)) runs in
      let (after, is_file, total, holds) = s.rebuild t.disk w.after w.chain w.same_size w.others in
      record {
        entry = entry';
        after = after;
        chain =
            subst (λ k. IsFile cipher host k level'.disk initial after) (sym same_key)
              (subst (λ d. IsFile cipher host level.key d initial after) (sym same_disk) is_file);
        total = total;
        holds = λ i within. holds i ∙ (elim (Bool-cases (ltb i (off - local))) [
          | inl front ↦ ground arith
          | inr reached ↦
              let sizes = s.sizes in
              let j = i - (off - local) in
              let back = s.back in
              let start : off - local ≤ i = ground arith in
              let q = w.holds j (omega arith) in
              let same = s.same j in
              let place : off - local + j ≡ i = omega arith in
              let moved = ap (data_of clusters) place in
              elim (Bool-cases (in_range off size i)) [
                | inl over ↦
                    let lo : off ≤ i = ground arith in
                    let at : 0 + (j - local) ≡ i - off = omega arith in
                    let e = ap buf at in ground arith
                | inr other ↦ ground arith
              ]
        ]);
      }

  -- For a cipher with the laws of CipherLaws, dual keys, a disk of at most 2^21 clusters a level
  -- and a table of bytes, after a successful bsfs_write of some bytes inside a file, whose chain of
  -- distinct counted clusters has the data of its size, bsfs_read of any range of the file succeeds
  -- with the bytes that were written where they were written, and with the file's former bytes
  -- elsewhere.
  pub bsfs_read-write :
      (old : Bytes) (count from : ℕ)
      → bsfs_write cipher host cluster₀ index level buf size off ≡ some (level', ok tt)
      → (out : Bytes) × (bsfs_read cipher host level' index old count from
          ≡ (out, ok (min count (file_size - from))))
        × ((i : ℕ)
            → out i ≡ (
                if ltb i (min count (file_size - from))
                then (if in_range off size (from + i)
                    then buf (from + i - off)
                    else data_of clusters (from + i))
                else old i))
  unfolding bsfs_write write_overlap find_cluster
  bsfs_read-write old count from done =
      let (at, local, finds, s) =
        seek_loop-IsSought cipher host level.key off initial off level.disk clusters chain apart
          (omega arith) (omega arith) in
      let sizes : min size (file_size - off) ≡ size = omega arith in
      let offs : min off file_size ≡ off = omega arith in
      let adjusted : adjust_size_and_off file_size size off ≡ (size, off) =
        adjust_size_and_off_lem file_size size off ∙ rw (sizes, offs) refl in
      let positive : (size == 0) ≡ false = ground arith in
      let p = do_rw_op cipher host level.key level.disk at 0 local buf size true in
      let step = write_overlap cipher host cluster₀ index level file_size initial buf size off in
      let overlaps : step (size, off)
          ≡ after_overlap cipher host cluster₀ index level file_size buf size off size p =
        rw (write_overlap, positive, find_cluster, finds) refl in
      let whole : bsfs_write cipher host cluster₀ index level buf size off
          ≡ after_overlap cipher host cluster₀ index level file_size buf size off size p =
        rw (bsfs_write, positive, entry) (ap step adjusted ∙ overlaps) in
      let follows : after_overlap cipher host cluster₀ index level file_size buf size off size p
          ≡ some (level', ok tt) =
        sym whole ∙ done in
      let w = after_overlap-IsWritten at local p s refl follows in
      let (out, reads, shows) =
        bsfs_read_lem cipher host level' index file_size initial w.after old count from w.entry
          w.chain (let t = w.total in omega (arith, t)) in
      (
        out,
        reads,
        λ i. shows i ∙ (elim (Bool-cases (ltb i (min count (file_size - from)))) [
          | inl given ↦
              let lt : from + i < file_size = ground arith in
              rw given (w.holds (from + i) (omega arith))
          | inr kept ↦ rw kept refl
        ]),
      )
