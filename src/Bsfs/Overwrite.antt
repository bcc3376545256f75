-- ===== src/Bsfs/Overwrite.antt =====
-- The transfer loop of src/bsfs.c as it writes: the clusters of a chain with other data.
use bsfs.Base.{
  ℕ, zero, suc, ◌+◌, ◌-◌, ◌≤◌, ◌<◌, ◌≡◌, ◌≢◌, refl, sym, ap, subst, ◌∙◌, arith, true, false, ltb,
  ◌==◌, if◌then◌else◌, min, Bytes, Agree, shift, memcpy, in_range, List, [], ◌∷◌, ok, Outcome-cases,
  Bool-cases, inl, inr,
}
use bsfs.BitUtil.Endian.{read_be32_congr}
use bsfs.Bsfs.{Transfer, read_cluster, write_cluster, rw_loop}
use bsfs.Bsfs.Reading.{data_of, data_size_of, IsFile}
use bsfs.Cipher.{Cipher, CipherLaws}
use bsfs.Cluster.{
  cluster_size, cluster_data_size, cluster_offset_eof, fs_next_cluster, fs_write_cluster,
  fs_count_clusters,
}
use bsfs.Cluster.Layout.{clusters_of, IsModerate}
use bsfs.Cluster.Storage.{fs_read_cluster-write, fs_read_cluster-write_other}
use bsfs.Disk.{Disk}
use bsfs.Stego.{StegoKey, Host, stego_compute_user_level_size}
use bsfs.Stego.Levels.{stego_write_level_keytab}
use bsfs.Stego.Written.{IsDual}

-- The link of a cluster is behind its data.
pub next-congr :
    (x y : Bytes)
    → ((a : ℕ) → in_range cluster_data_size 4 a ≡ true → x a ≡ y a)
    → fs_next_cluster x ≡ fs_next_cluster y
unfolding fs_next_cluster
next-congr x y h = read_be32_congr x y cluster_data_size h

-- The cluster is none of the chain's.
abbrev pub Avoids : ℕ → ℕ → List Bytes → Type 0
Avoids d start [] = Unit {0}
Avoids d start (cluster ∷ rest) = (d ≢ start) × Avoids d (fs_next_cluster cluster) rest

-- The clusters of a chain are counted in the level, and no two of them are the same.
abbrev pub IsApart : ℕ → ℕ → List Bytes → Type 0
IsApart count start [] = Unit {0}
IsApart count start (cluster ∷ rest) =
    (start < count)
    × Avoids start (fs_next_cluster cluster) rest
    × IsApart count (fs_next_cluster cluster) rest

-- The bytes of a chain after a write of the bytes from `processed` on, at the offset `local`.
abbrev pub overwritten : Bytes → ℕ → ℕ → ℕ → Bytes → Bytes
overwritten buf local processed size old i =
    if in_range local (size - processed) i then buf (processed + (i - local)) else old i

module _ (cipher : Cipher) (host : Host) (laws : CipherLaws cipher) (key : StegoKey)
    (dual : IsDual key.read_keys key.write_keys) where
  -- What a written cluster changes: the size of the disk stays, the cluster is read with the bytes
  -- that were written, and every other one as before.
  pub record IsStored (disk disk' : Disk) (c : ℕ) (buf : Bytes) : Type 0 where
    pub moderate : IsModerate disk'
    pub counts : clusters_of disk' ≡ clusters_of disk
    pub out : Bytes
    pub reads : read_cluster cipher host key disk' c ≡ ok out
    pub agrees : Agree cluster_size out buf
    pub others :
        (d : ℕ)
        → d < clusters_of disk
        → c ≢ d
        → read_cluster cipher host key disk' d ≡ read_cluster cipher host key disk d

  write_cluster-IsStored :
      (disk disk' : Disk) (buf : Bytes) (c : ℕ)
      → IsModerate disk
      → c < clusters_of disk
      → write_cluster cipher host key disk buf c ≡ ok disk'
      → IsStored disk disk' c buf
  unfolding write_cluster read_cluster fs_write_cluster
  write_cluster-IsStored disk disk' buf c m hc h =
      let same = (stego_write_level_keytab cipher host key disk disk' buf _ cluster_size h).0 in
      let (out, reads, agrees) =
        fs_read_cluster-write cipher host laws key disk disk' buf c dual h in
      record {
        moderate = record { small = rw same m.small; narrow = rw same m.narrow };
        counts = ap (λ n. fs_count_clusters (stego_compute_user_level_size n)) same;
        out = out;
        reads = reads;
        agrees = agrees;
        others = λ d hd ne.
            (fs_read_cluster-write_other cipher host laws key disk disk' buf c d m dual hc hd ne
              h).0;
      }

  -- A chain is the same where one cluster has changed that it avoids.
  IsFile-stored :
      (disk disk' : Disk) (c count start : ℕ) (clusters : List Bytes)
      → ((d : ℕ)
          → d < count
          → c ≢ d
          → read_cluster cipher host key disk' d ≡ read_cluster cipher host key disk d)
      → IsApart count start clusters
      → Avoids c start clusters
      → IsFile cipher host key disk start clusters
      → IsFile cipher host key disk' start clusters
  IsFile-stored disk disk' c count start [] h apart avoids chain = chain
  IsFile-stored disk disk' c count start (cluster ∷ rest) h apart avoids chain = (
    chain.0,
    h start apart.0 avoids.0 ∙ chain.1,
    IsFile-stored disk disk' c count (fs_next_cluster cluster) rest h apart.2 avoids.1 chain.2,
  )

  -- The chain after a write from `local` on, and what the write leaves alone.
  pub record IsOverwritten (disk : Disk) (start : ℕ) (clusters : List Bytes) (buf : Bytes)
      (local processed size : ℕ) (t : Transfer) : Type 0 where
    pub after : List Bytes
    pub chain : IsFile cipher host key t.disk start after
    pub same_size : data_size_of after ≡ data_size_of clusters
    pub holds :
        (i : ℕ)
        → i < data_size_of clusters
        → data_of after i ≡ overwritten buf local processed size (data_of clusters) i
    pub others :
        (d : ℕ)
        → d < clusters_of disk
        → Avoids d start clusters
        → read_cluster cipher host key t.disk d ≡ read_cluster cipher host key disk d

  -- The data of a chain whose first cluster was written, and whose others follow.
  overwrite_round :
      (cluster out : Bytes) (rest rest' : List Bytes) (buf : Bytes) (local processed size i : ℕ)
      → local < cluster_data_size
      → processed < size
      → (let n = min (size - processed) (cluster_data_size - local) in
          Agree cluster_size out (memcpy cluster local (shift buf processed) n))
      → i < data_size_of (cluster ∷ rest)
      → (let n = min (size - processed) (cluster_data_size - local) in
          (j : ℕ)
          → j < data_size_of rest
          → data_of rest' j ≡ overwritten buf 0 (processed + n) size (data_of rest) j)
      → data_of (out ∷ rest') i ≡ overwritten buf local processed size (data_of (cluster ∷ rest)) i
  overwrite_round cluster out rest rest' buf local processed size i small lt agrees within h =
      let n = min (size - processed) (cluster_data_size - local) in
      elim (Bool-cases (ltb i cluster_data_size)) [
        | inl here ↦ let q = agrees i (ground arith) in ground arith
        | inr past ↦
            let j = i - cluster_data_size in
            let q = h j (ground arith) in
            elim (Bool-cases (in_range local (size - processed) i)) [
              | inl inside ↦
                  let le : local ≤ i = ground arith in
                  let hi : i < local + (size - processed) = ground arith in
                  let up : cluster_data_size ≤ i = ground arith in
                  let at : processed + n + (j - 0) ≡ processed + (i - local) = omega arith in
                  let e = ap buf at in ground arith
              | inr outside ↦ ground arith
            ]
      ]

  -- Where nothing is left to write, the chain is as it was.
  unwritten :
      (size start local processed last : ℕ) (buf : Bytes) (disk : Disk) (clusters : List Bytes)
      (t : Transfer)
      → IsFile cipher host key disk start clusters
      → size ≤ processed
      → record { disk = disk; buf = buf; last_index = last } ≡ t
      → IsOverwritten disk start clusters buf local processed size t
  unwritten size start local processed last buf disk clusters t chain le e =
      subst (IsOverwritten disk start clusters buf local processed size) e (record {
        after = clusters;
        chain = chain;
        same_size = refl;
        holds = λ i lt. ground arith;
        others = λ d lt avoids. refl;
      })

  pub rw_loop-IsOverwritten :
      (fuel size start local processed last done : ℕ) (buf : Bytes) (disk : Disk)
      (clusters : List Bytes) (t : Transfer)
      → IsModerate disk
      → IsFile cipher host key disk start clusters
      → IsApart (clusters_of disk) start clusters
      → local < cluster_data_size
      → processed ≤ size
      → size - processed ≤ fuel
      → local + (size - processed) ≤ data_size_of clusters
      → rw_loop cipher host key fuel size true start local processed
          (record { disk = disk; buf = buf; last_index = last })
        ≡ (t, ok done)
      → IsOverwritten disk start clusters buf local processed size t
  unfolding rw_loop
  rw_loop-IsOverwritten zero size start local processed last done buf disk clusters t m chain apart
        small le enough fits e =
      unwritten size start local processed last buf disk clusters t chain (omega arith) (cc e)
  rw_loop-IsOverwritten (suc fuel) size start local processed last done buf disk [] t m chain apart
        small le enough fits e =
      let finished : ltb processed size ≡ false = ground arith in
      unwritten size start local processed last buf disk [] t chain (omega arith)
        (cc (rw (rw_loop, finished) at e))
  rw_loop-IsOverwritten (suc fuel) size start local processed last done buf disk (cluster ∷ rest) t
        m chain apart small le enough fits e =
      elim (Bool-cases (ltb processed size)) [
        | inr finished ↦
            unwritten size start local processed last buf disk (cluster ∷ rest) t chain
              (ground arith) (cc (rw (rw_loop, finished) at e))
        | inl more ↦
            let n = min (size - processed) (cluster_data_size - local) in
            let opened : (start == cluster_offset_eof) ≡ false = let ne = chain.0 in ground arith in
            let lt : processed < size = ground arith in
            let changed = memcpy cluster local (shift buf processed) n in
            elim (Outcome-cases (write_cluster cipher host key disk changed start)) [
              | inr (cause, fails) ↦
                  let wrong = rw (rw_loop, more, opened, chain.1, fails) at e in cc
              | inl (disk', writes) ↦
                  let e' = rw (rw_loop, more, opened, chain.1, writes) at e in
                  let next = fs_next_cluster cluster in
                  let s = write_cluster-IsStored disk disk' changed start m apart.0 writes in
                  let same_next : fs_next_cluster changed ≡ next =
                    next-congr changed cluster (λ a p. ground arith) in
                  let out_next : fs_next_cluster s.out ≡ next =
                    next-congr s.out changed (λ a p. s.agrees a (ground arith)) ∙ same_next in
                  let follows =
                    subst
                      (λ k.
                        rw_loop cipher host key fuel size true k 0 (processed + n)
                          (record { disk = disk'; buf = buf; last_index = start })
                        ≡ (t, ok done))
                      same_next e' in
                  let ih =
                    rw_loop-IsOverwritten fuel size next 0 (processed + n) start done buf disk' rest
                      t s.moderate
                      (IsFile-stored disk disk' start (clusters_of disk) next rest s.others apart.2
                        apart.1 chain.2)
                      (subst (λ c. IsApart c next rest) (sym s.counts) apart.2) (omega arith)
                      (omega arith) (omega arith) (omega arith) follows in
                  record {
                    after = s.out ∷ ih.after;
                    chain = (
                      chain.0,
                      ih.others start (subst (λ c. start < c) (sym s.counts) apart.0) apart.1
                          ∙ s.reads,
                      subst (λ k. IsFile cipher host key t.disk k ih.after) (sym out_next) ih.chain,
                    );
                    same_size = ap (λ k. cluster_data_size + k) ih.same_size;
                    holds = λ i inside.
                        overwrite_round cluster s.out rest ih.after buf local processed size i small
                          lt s.agrees inside ih.holds;
                    others = λ d hd avoids.
                        ih.others d (subst (λ c. d < c) (sym s.counts) hd) avoids.1
                        ∙ s.others d hd (λ same. avoids.0 (sym same));
                  }
            ]
      ]
