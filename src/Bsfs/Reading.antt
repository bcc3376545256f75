-- ===== src/Bsfs/Reading.antt =====
-- Reads of src/bsfs.c against the bytes of the chain.
use bsfs.Base.{
  ℕ, zero, suc, ◌+◌, ◌-◌, ◌≤◌, ◌<◌, ◌≡◌, ◌≢◌, refl, ap, ◌∙◌, arith, false, ltb, leb, ◌==◌,
  if◌then◌else◌, min, Bytes, shift, memcpy, in_range, List, [], ◌∷◌, ok, Bool-cases, inl, inr,
}
use bsfs.Cipher.{Cipher}
use bsfs.Cluster.{cluster_data_size, cluster_offset_eof, fs_next_cluster}
use bsfs.Disk.{Disk}
use bsfs.Stego.{StegoKey, Host}
use bsfs.Bsfs.{
  Transfer, OpenLevel, read_cluster, seek_loop, find_cluster, rw_loop, do_rw_op,
  get_size_and_initial_cluster, adjust_size_and_off, bsfs_read, read_adjusted,
}

-- The bytes of the data of clusters, one after the other.
abbrev pub data_of : List Bytes → Bytes
data_of [] a = 0
data_of (cluster ∷ rest) a =
    if ltb a cluster_data_size then cluster a else data_of rest (a - cluster_data_size)

-- How many bytes of data the clusters have.
abbrev pub data_size_of : List Bytes → ℕ
data_size_of [] = 0
data_size_of (cluster ∷ rest) = cluster_data_size + data_size_of rest

-- The rest of a read after one round, and the round.
read_round :
    (cluster : Bytes) (rest : List Bytes) (buf : Bytes) (local processed size i : ℕ)
    → local < cluster_data_size
    → processed < size
    → (let n = min (size - processed) (cluster_data_size - local) in
        if in_range (processed + n) (size - (processed + n)) i
        then data_of rest (0 + (i - (processed + n)))
        else memcpy buf processed (shift cluster local) n i)
      ≡ (if in_range processed (size - processed) i
          then data_of (cluster ∷ rest) (local + (i - processed))
          else buf i)
read_round cluster rest buf local processed size i small lt =
    let n = min (size - processed) (cluster_data_size - local) in
    elim (Bool-cases (ltb i size)) [
      | inr outside ↦ ground arith
      | inl inside ↦ elim (Bool-cases (leb (processed + n) i)) [
        | inl later ↦
            let l : processed + n ≤ i = ground arith in
            let s : i < size = ground arith in
            let e : 0 + (i - (processed + n)) ≡ local + (i - processed) - cluster_data_size =
              omega arith in
            ground (arith, ap (data_of rest) e)
        | inr earlier ↦ ground arith
      ]
    ]

module _ (cipher : Cipher) (host : Host) (key : StegoKey) (disk : Disk) where
  -- The chain from a cluster, as the clusters read and linked: it ends with the end mark.
  abbrev pub IsFile : ℕ → List Bytes → Type 0
  IsFile start [] = start ≡ cluster_offset_eof
  IsFile start (cluster ∷ rest) =
      (start ≢ cluster_offset_eof)
      × (read_cluster cipher host key disk start ≡ ok cluster)
      × IsFile (fs_next_cluster cluster) rest

  pub IsFile-start :
      (start : ℕ) (clusters : List Bytes)
      → IsFile start clusters
      → 0 < data_size_of clusters
      → start ≢ cluster_offset_eof
  IsFile-start start [] chain h = absurd (omega arith)
  IsFile-start start (cluster ∷ rest) chain h = chain.0

  -- Where the search for an offset ends: at the rest of the chain, in its first cluster.
  abbrev Found : List Bytes → ℕ → ℕ → ℕ → ℕ → Type 0
  Found clusters off start at local =
      (rest : List Bytes) × IsFile at rest
      × (local < cluster_data_size)
      × ((i : ℕ) → data_of clusters (off + i) ≡ data_of rest (local + i))
      × (data_size_of clusters ≡ data_size_of rest + (off - local))
      × (local ≤ off)

  seek_loop-finds :
      (fuel start off : ℕ) (clusters : List Bytes)
      → IsFile start clusters
      → off < data_size_of clusters
      → off ≤ fuel
      → (at : ℕ) × (local : ℕ) × (seek_loop cipher host key fuel disk start off ≡ ok (at, local))
        × Found clusters off start at local
  unfolding seek_loop
  seek_loop-finds zero start off clusters chain within enough =
      (start, off, refl, (clusters, chain, omega arith, λ i. refl, omega arith, omega arith))
  seek_loop-finds (suc fuel) start off [] chain within enough = absurd (omega arith)
  seek_loop-finds (suc fuel) start off (cluster ∷ rest) chain within enough =
      elim (Bool-cases (leb cluster_data_size off)) [
        | inr here ↦ (
          start,
          off,
          rw (seek_loop, here) refl,
          (cluster ∷ rest, chain, ground arith, λ i. refl, omega arith, omega arith),
        )
        | inl past ↦
            let further : cluster_data_size ≤ off = ground arith in
            let (at, local, finds, (tail, is_tail, small, same, sizes, back)) =
              seek_loop-finds fuel (fs_next_cluster cluster) (off - cluster_data_size) rest chain.2
                (omega arith) (omega arith) in
            let more = IsFile-start (fs_next_cluster cluster) rest chain.2 (omega arith) in
            let linked : (fs_next_cluster cluster == cluster_offset_eof) ≡ false = ground arith in
            (
              at,
              local,
              rw (seek_loop, past, chain.1, linked, finds) refl,
              (
                tail,
                is_tail,
                small,
                λ i.
                    let over : ltb (off + i) cluster_data_size ≡ false = ground arith in
                    rw over (ap (data_of rest) (omega arith) ∙ same i),
                omega arith,
                omega arith,
              ),
            )
      ]

  -- What a read leaves in the buffer: the bytes of the chain, from where it starts.
  abbrev IsRead : List Bytes → ℕ → ℕ → ℕ → Bytes → Transfer → Type 0
  IsRead clusters local processed size buf t =
      (t.disk ≡ disk)
      × ((i : ℕ)
          → t.buf i ≡ (
              if in_range processed (size - processed) i
              then data_of clusters (local + (i - processed))
              else buf i))

  rw_loop-reads :
      (fuel size start local processed last : ℕ) (buf : Bytes) (clusters : List Bytes)
      → IsFile start clusters
      → local < cluster_data_size
      → processed ≤ size
      → size - processed ≤ fuel
      → local + (size - processed) ≤ data_size_of clusters
      → (t : Transfer) × (rw_loop cipher host key fuel size false start local processed
            (record { disk = disk; buf = buf; last_index = last })
          ≡ (t, ok size))
        × IsRead clusters local processed size buf t
  unfolding rw_loop
  rw_loop-reads zero size start local processed last buf clusters chain small le enough fits =
      let done : size ≡ processed = omega arith in
      (
        record { disk = disk; buf = buf; last_index = last },
        rw done refl,
        (refl, λ i. ground arith),
      )
  rw_loop-reads (suc fuel) size start local processed last buf [] chain small le enough fits =
      let done : size ≡ processed = omega arith in
      let finished : ltb processed size ≡ false = ground arith in
      (
        record { disk = disk; buf = buf; last_index = last },
        rw (rw_loop, finished, done) refl,
        (refl, λ i. ground arith),
      )
  rw_loop-reads (suc fuel) size start local processed last buf (cluster ∷ rest) chain small le
        enough fits =
      elim (Bool-cases (ltb processed size)) [
        | inr finished ↦
            let done : size ≡ processed = ground arith in
            (
              record { disk = disk; buf = buf; last_index = last },
              rw (rw_loop, finished, done) refl,
              (refl, λ i. ground arith),
            )
        | inl more ↦
            let n = min (size - processed) (cluster_data_size - local) in
            let opened : (start == cluster_offset_eof) ≡ false = ground arith in
            let lt : processed < size = ground arith in
            let new = memcpy buf processed (shift cluster local) n in
            let (t, runs, (same_disk, holds)) =
              rw_loop-reads fuel size (fs_next_cluster cluster) 0 (processed + n) start new rest
                chain.2 (omega arith) (omega arith) (omega arith) (omega arith) in
            (
              t,
              rw (rw_loop, more, opened, chain.1) runs,
              (
                same_disk,
                λ i. holds i ∙ read_round cluster rest buf local processed size i small lt,
              ),
            )
      ]

pub adjust_size_and_off_lem :
    (file_size size off : ℕ)
    → adjust_size_and_off file_size size off ≡ (min size (file_size - off), min off file_size)
unfolding adjust_size_and_off
adjust_size_and_off_lem file_size size off = ground arith

read_adjusted_lem :
    (cipher : Cipher) (host : Host) (level : OpenLevel) (initial : ℕ) (clusters : List Bytes)
    (buf : Bytes) (size off : ℕ)
    → IsFile cipher host level.key level.disk initial clusters
    → off + size ≤ data_size_of clusters
    → (out : Bytes) × (read_adjusted cipher host level initial buf size off ≡ (out, ok size))
      × ((i : ℕ) → out i ≡ (if ltb i size then data_of clusters (off + i) else buf i))
unfolding read_adjusted find_cluster do_rw_op
read_adjusted_lem cipher host level initial clusters buf size off chain fits =
    elim (Bool-cases (size == 0)) [
      | inl nothing ↦
          let e : size ≡ 0 = ground arith in (buf, rw (read_adjusted, e) refl, λ i. ground arith)
      | inr something ↦
          let positive : 0 < size = ground arith in
          let (at, local, finds, (tail, is_tail, small, same, sizes, back)) =
            seek_loop-finds cipher host level.key level.disk off initial off clusters chain
              (omega arith) (omega arith) in
          let (t, runs, (same_disk, holds)) =
            rw_loop-reads cipher host level.key level.disk size size at local 0 0 buf tail is_tail
              small (omega arith) (omega arith) (omega arith) in
          (
            t.buf,
            rw (read_adjusted, something, finds, runs) refl,
            λ i.
                let shown : local + (i - 0) ≡ local + i = omega arith in
                holds i ∙ ground (arith, same i, ap (data_of tail) shown),
          )
    ]

-- bsfs_read of a file whose entry can be read, and whose chain has the data of its size, succeeds
-- with as many bytes as were asked for or as the file has from the offset on, and stores the bytes
-- of the chain's clusters, one after the other, from the offset on, and nothing behind them.
pub bsfs_read_lem :
    (cipher : Cipher) (host : Host) (level : OpenLevel) (index file_size initial : ℕ)
    (clusters : List Bytes) (buf : Bytes) (size off : ℕ)
    → get_size_and_initial_cluster host level index ≡ ok (file_size, initial)
    → IsFile cipher host level.key level.disk initial clusters
    → file_size ≤ data_size_of clusters
    → (out : Bytes) × (bsfs_read cipher host level index buf size off
        ≡ (out, ok (min size (file_size - off))))
      × ((i : ℕ)
          → out i
            ≡ (if ltb i (min size (file_size - off)) then data_of clusters (off + i) else buf i))
unfolding bsfs_read
bsfs_read_lem cipher host level index file_size initial clusters buf size off entry chain fits =
    let adjusted = adjust_size_and_off_lem file_size size off in
    let n = min size (file_size - off) in
    let (out, reads, holds) =
      read_adjusted_lem cipher host level initial clusters buf n (min off file_size) chain
        (omega arith) in
    (
      out,
      rw (bsfs_read, entry, adjusted) reads,
      λ i. holds i ∙ (elim (Bool-cases (ltb i n)) [
        | inl inside ↦
            let lt : i < n = ground arith in
            let e : min off file_size + i ≡ off + i = omega arith in
            rw inside (ap (data_of clusters) e)
        | inr outside ↦ rw outside refl
      ]),
    )
