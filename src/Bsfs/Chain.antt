-- ===== src/Bsfs/Chain.antt =====
-- The chain of a file's clusters in src/bsfs.c, and the allocation of several clusters.
use bsfs.Base.{
  ℕ, zero, suc, ◌+◌, ◌*◌, ◌<◌, ◌≡◌, refl, arith, Bool, true, false, not, ◌&&◌, leb, ◌==◌,
  if◌then◌else◌, Bytes, List, [], ◌∷◌, ◌++◌, Option, none, some, Outcome, ok, err, Errno, enomem,
}
use bsfs.Cipher.{Cipher}
use bsfs.Cluster.{cluster_offset_eof, fs_next_cluster}
use bsfs.Disk.{Disk}
use bsfs.Stego.{StegoKey, Host}
use bsfs.Bsfs.{OpenLevel, read_cluster, alloc_cluster, do_dealloc_clusters}
use bsfs.Bsfs.Reading.{IsFile}

abbrev first_then : ℕ → Option (Outcome (List ℕ)) → Option (Outcome (List ℕ))
first_then cluster none = none
first_then cluster (some (ok rest)) = some (ok (cluster ∷ rest))
first_then cluster (some (err e)) = some (err e)

module _ (cipher : Cipher) (host : Host) (key : StegoKey) (disk : Disk) where
  -- The array doubles where it is full. The result is `none` where the fuel is not enough: a chain
  -- that leads back into itself has no end.
  chain_loop : ℕ → ℕ → ℕ → ℕ → Option (Outcome (List ℕ))
  chain_loop zero capacity count cluster_idx = none
  chain_loop (suc fuel) capacity count cluster_idx = elim (cluster_idx == cluster_offset_eof) [
    | true ↦ some (ok [])
    | false ↦
        let larger = if leb capacity count then capacity * 2 else capacity in
        elim (leb capacity count && not (host.malloc (4 * larger))) [
          | true ↦ some (err enomem)
          | false ↦ elim (read_cluster cipher host key disk cluster_idx) [
            | err e ↦ some (err e)
            | ok cluster ↦
                first_then cluster_idx
                  (chain_loop fuel larger (count + 1) (fs_next_cluster cluster))
          ]
        ]
  ]

  -- The clusters of the chain, with so many rounds.
  unfoldable pub get_cluster_chain : ℕ → ℕ → Option (Outcome (List ℕ))
  unfolding chain_loop
  get_cluster_chain fuel cluster_idx =
      if host.malloc (4 * 4) then chain_loop fuel 4 0 cluster_idx else some (err enomem)

  -- The numbers of the clusters of a chain.
  abbrev pub numbers_of : ℕ → List Bytes → List ℕ
  numbers_of start [] = []
  numbers_of start (cluster ∷ rest) = start ∷ numbers_of (fs_next_cluster cluster) rest

  abbrev pub count_of : List Bytes → ℕ
  count_of [] = 0
  count_of (cluster ∷ rest) = suc (count_of rest)

  chain_loop-numbers :
      (fuel capacity count start : ℕ) (clusters : List Bytes)
      → ((n : ℕ) → host.malloc n ≡ true)
      → IsFile cipher host key disk start clusters
      → count_of clusters < fuel
      → chain_loop fuel capacity count start ≡ some (ok (numbers_of start clusters))
  unfolding chain_loop
  chain_loop-numbers zero capacity count start clusters memory chain enough = absurd (omega arith)
  chain_loop-numbers (suc fuel) capacity count start [] memory chain enough = rw chain refl
  chain_loop-numbers (suc fuel) capacity count start (cluster ∷ rest) memory chain enough =
      let not_end = chain.0 in
      let opened : (start == cluster_offset_eof) ≡ false = ground arith in
      let larger = if leb capacity count then capacity * 2 else capacity in
      let room : (leb capacity count && not (host.malloc (4 * larger))) ≡ false =
        room_lem (leb capacity count) (host.malloc (4 * larger)) (memory _) in
      let ih =
        chain_loop-numbers fuel larger (count + 1) (fs_next_cluster cluster) rest memory chain.2
          (omega arith) in
      rw (chain_loop, opened, room, chain.1, ih) refl
    where
      room_lem : (full memory : Bool) → memory ≡ true → (full && not memory) ≡ false
      room_lem full memory h = ground arith

  -- With memory, and with a round more than the chain has clusters, get_cluster_chain gives the
  -- numbers of the chain's clusters, in their order.
  pub get_cluster_chain-numbers :
      (fuel start : ℕ) (clusters : List Bytes)
      → ((n : ℕ) → host.malloc n ≡ true)
      → IsFile cipher host key disk start clusters
      → count_of clusters < fuel
      → get_cluster_chain fuel start ≡ some (ok (numbers_of start clusters))
  unfolding get_cluster_chain
  get_cluster_chain-numbers fuel start clusters memory chain enough =
      rw (get_cluster_chain, memory 16)
        (chain_loop-numbers fuel 4 0 start clusters memory chain enough)

-- The level after the call: on success the clusters of the chain are free.
unfoldable pub dealloc_cluster_chain :
    Cipher → Host → ℕ → OpenLevel → ℕ → Option (Outcome OpenLevel)
dealloc_cluster_chain cipher host fuel level initial_cluster =
    elim (get_cluster_chain cipher host level.key level.disk fuel initial_cluster) [
      | none ↦ none
      | some (err e) ↦ some (err e)
      | some (ok clusters) ↦ some (ok (do_dealloc_clusters level clusters))
    ]

-- The list without its last element.
abbrev pub but_last : List ℕ → List ℕ
but_last [] = []
but_last (x ∷ []) = []
but_last (x ∷ (y ∷ ys)) = x ∷ but_last (y ∷ ys)

-- The clusters allocated so far are `got`. Where the next cannot be had, all of them but one are
-- freed. `calloc` has the memory for the array, which the code takes for granted.
alloc_rest : ℕ → OpenLevel → List ℕ → Option (OpenLevel × Outcome (List ℕ))
alloc_rest zero level got = some (level, ok (got ++ cluster_offset_eof ∷ []))
alloc_rest (suc left) level got = elim (alloc_cluster level) [
  | none ↦ none
  | some (ok (changed, cluster)) ↦ alloc_rest left changed (got ++ cluster ∷ [])
  | some (err e) ↦ some (do_dealloc_clusters level (but_last got), err e)
]

unfoldable pub alloc_clusters : OpenLevel → ℕ → Option (OpenLevel × Outcome (List ℕ))
unfolding alloc_rest
alloc_clusters level count = alloc_rest count level []

-- Where the first cluster can be had and the second cannot, alloc_clusters of two or more clusters
-- fails with the second one's error and keeps the first one allocated.
pub alloc_clusters_leak :
    (level changed : OpenLevel) (cluster more : ℕ) (e : Errno)
    → alloc_cluster level ≡ some (ok (changed, cluster))
    → alloc_cluster changed ≡ some (err e)
    → alloc_clusters level (2 + more) ≡ some (changed, err e)
unfolding alloc_clusters alloc_rest do_dealloc_clusters
alloc_clusters_leak level changed cluster more e first second =
    let two : 2 + more ≡ suc (suc more) = omega arith in
    rw (two, alloc_clusters, alloc_rest, first, second) refl
