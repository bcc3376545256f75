-- ===== src/Bsfs/Sought.antt =====
-- The search for an offset in src/bsfs.c, and the clusters before the one that it finds.
use bsfs.Base.{
  ℕ, zero, suc, ◌+◌, ◌-◌, ◌≤◌, ◌<◌, ◌≡◌, refl, ap, ◌∙◌, arith, false, ltb, leb, ◌==◌, if◌then◌else◌,
  Bytes, List, [], ◌∷◌, ok, Bool-cases, inl, inr,
}
use bsfs.Bsfs.{read_cluster, seek_loop}
use bsfs.Bsfs.Overwrite.{Avoids, IsApart}
use bsfs.Bsfs.Reading.{data_of, data_size_of, IsFile, IsFile-start}
use bsfs.Cipher.{Cipher}
use bsfs.Cluster.{cluster_data_size, cluster_offset_eof, fs_next_cluster}
use bsfs.Cluster.Layout.{clusters_of}
use bsfs.Disk.{Disk}
use bsfs.Stego.{StegoKey, Host}

module _ (cipher : Cipher) (host : Host) (key : StegoKey) where
  -- Where the search for an offset ends, and how a chain there continues the clusters before it.
  pub record IsSought (disk : Disk) (start : ℕ) (clusters : List Bytes) (off at local : ℕ)
      : Type 0 where
    pub tail : List Bytes
    pub chain : IsFile cipher host key disk at tail
    pub apart : IsApart (clusters_of disk) at tail
    pub avoids : (d : ℕ) → Avoids d start clusters → Avoids d at tail
    pub small : local < cluster_data_size
    pub back : local ≤ off
    pub sizes : data_size_of clusters ≡ data_size_of tail + (off - local)
    pub same : (i : ℕ) → data_of clusters (off - local + i) ≡ data_of tail i
    pub rebuild :
        (disk' : Disk) (tail' : List Bytes)
        → IsFile cipher host key disk' at tail'
        → data_size_of tail' ≡ data_size_of tail
        → ((d : ℕ)
            → d < clusters_of disk
            → Avoids d at tail
            → read_cluster cipher host key disk' d ≡ read_cluster cipher host key disk d)
        → (clusters' : List Bytes) × IsFile cipher host key disk' start clusters'
          × (data_size_of clusters' ≡ data_size_of clusters)
          × ((i : ℕ)
              → data_of clusters' i ≡ (
                  if ltb i (off - local)
                  then data_of clusters i
                  else data_of tail' (i - (off - local))))

  -- The search ends at once.
  here :
      (start off : ℕ) (disk : Disk) (clusters : List Bytes)
      → IsFile cipher host key disk start clusters
      → IsApart (clusters_of disk) start clusters
      → off < cluster_data_size
      → IsSought disk start clusters off start off
  here start off disk clusters chain apart small = record {
    tail = clusters;
    chain = chain;
    apart = apart;
    avoids = λ d a. a;
    small = small;
    back = omega arith;
    sizes = omega arith;
    same = λ i. ap (data_of clusters) (omega arith);
    rebuild = λ disk' tail' chain' sizes others. (
      tail',
      chain',
      sizes,
      λ i.
          let n : ltb i (off - off) ≡ false = ground arith in
          let e : i ≡ i - (off - off) = omega arith in rw n (ap (data_of tail') e),
    );
  }

  -- The search ends behind the first cluster.
  there :
      (start off at local : ℕ) (disk : Disk) (cluster : Bytes) (rest : List Bytes)
      → IsFile cipher host key disk start (cluster ∷ rest)
      → IsApart (clusters_of disk) start (cluster ∷ rest)
      → IsSought disk (fs_next_cluster cluster) rest (off - cluster_data_size) at local
      → cluster_data_size ≤ off
      → IsSought disk start (cluster ∷ rest) off at local
  there start off at local disk cluster rest chain apart s further =
      let back = s.back in
      let sizes = s.sizes in
      record {
        tail = s.tail;
        chain = s.chain;
        apart = s.apart;
        avoids = λ d a. s.avoids d a.1;
        small = s.small;
        back = omega arith;
        sizes = omega arith;
        same = λ i.
            let over : ltb (off - local + i) cluster_data_size ≡ false = ground arith in
            let e : off - local + i - cluster_data_size ≡ off - cluster_data_size - local + i =
              omega arith in
            rw over (ap (data_of rest) e ∙ s.same i);
        rebuild = λ disk' tail' chain' same_size others.
            let (clusters', is_file, total, holds) =
              s.rebuild disk' tail' chain' same_size others in
            (
              cluster ∷ clusters',
              (chain.0, others start apart.0 (s.avoids start apart.1) ∙ chain.1, is_file),
              ap (λ k. cluster_data_size + k) total,
              λ i. elim (Bool-cases (ltb i cluster_data_size)) [
                | inl first ↦ ground arith
                | inr later ↦
                    let q = holds (i - cluster_data_size) in
                    let e : i - cluster_data_size - (off - cluster_data_size - local)
                        ≡ i - (off - local) =
                      omega arith in
                    let w = ap (data_of tail') e in ground arith
              ],
            );
      }

  pub seek_loop-IsSought :
      (fuel start off : ℕ) (disk : Disk) (clusters : List Bytes)
      → IsFile cipher host key disk start clusters
      → IsApart (clusters_of disk) start clusters
      → off < data_size_of clusters
      → off ≤ fuel
      → (at : ℕ) × (local : ℕ) × (seek_loop cipher host key fuel disk start off ≡ ok (at, local))
        × IsSought disk start clusters off at local
  unfolding seek_loop
  seek_loop-IsSought zero start off disk clusters chain apart within enough =
      (start, off, refl, here start off disk clusters chain apart (omega arith))
  seek_loop-IsSought (suc fuel) start off disk [] chain apart within enough = absurd (omega arith)
  seek_loop-IsSought (suc fuel) start off disk (cluster ∷ rest) chain apart within enough =
      elim (Bool-cases (leb cluster_data_size off)) [
        | inr stays ↦ (
          start,
          off,
          rw (seek_loop, stays) refl,
          here start off disk (cluster ∷ rest) chain apart (ground arith),
        )
        | inl past ↦
            let further : cluster_data_size ≤ off = ground arith in
            let next = fs_next_cluster cluster in
            let (at, local, finds, s) =
              seek_loop-IsSought fuel next (off - cluster_data_size) disk rest chain.2 apart.2
                (omega arith) (omega arith) in
            let more = IsFile-start cipher host key disk next rest chain.2 (omega arith) in
            let linked : (next == cluster_offset_eof) ≡ false = ground arith in
            (
              at,
              local,
              rw (seek_loop, past, chain.1, linked, finds) refl,
              there start off at local disk cluster rest chain apart s further,
            )
      ]
