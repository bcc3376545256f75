-- ===== src/Stego/Dual.antt =====
-- The keys of src/stego.c that `stego_gen_user_keys` gives: dual for a user, foreign for two.
use bsfs.Base.{
  ℕ, zero, suc, ◌+◌, ◌*◌, ◌/◌, ◌%◌, ◌≤◌, ◌<◌, ◌≡◌, ◌≢◌, refl, sym, ap, ap₂, ◌∙◌, arith, false, ◌&&◌,
  ltb, ◌==◌, Bytes, IsBytes, shift, List, [], ◌∷◌, Option, none, some, Outcome, ok, err, Bool-cases,
  inl, inr,
}
use bsfs.BitUtil.{get_bit}
use bsfs.Matrix.{matrix_get, matrix_invert, matrix_transpose}
use bsfs.Matrix.Inverse.{matrix_invert-inverse}
use bsfs.Matrix.Multiply.{product_of}
use bsfs.Matrix.Random.{Drawn, matrix_gen_nonsing, matrix_gen_nonsing-IsBytes}
use bsfs.Matrix.Transpose.{matrix_transpose-IsView}
use bsfs.Matrix.View.{Entries, IsView}
use bsfs.Stego.{
  StegoKey, Host, stego_cover_file_count, stego_user_level_count, stego_levels_per_password,
  stego_key_size,
}
use bsfs.Stego.Written.{IsDual, IsForeign}
use bsfs.Vector.{vector_scalar_product}
use bsfs.Vector.Product.{vector_scalar_product_lem, xor_bits_congr}
use bsfs.Stego.Keys.{
  stego_user_key_size, user_key, key_loop, Stack, use_inverse, use_matrix, stego_gen_user_keys,
}

-- The rows from which the loop takes keys, for the users from `i` on.
key_loop-keys :
    (left i : ℕ) (read_keys write_keys : Bytes) (draws rest : List (Option Bytes))
    (keys out : ℕ → StegoKey)
    → key_loop left i read_keys write_keys draws keys ≡ some (ok out, rest)
    → (u : ℕ)
    → (u < i → out u ≡ keys u)
      × (i ≤ u
          → u < i + left
          → (aes_key : Bytes) × (out u ≡ user_key aes_key read_keys write_keys u))
unfolding key_loop
key_loop-keys zero i read_keys write_keys draws rest keys out h u =
    let e : keys ≡ out = cc h in (λ lt. ap (λ k. k u) (sym e), λ lo hi. absurd (omega arith))
key_loop-keys (suc left) i read_keys write_keys [] rest keys out h u = cc
key_loop-keys (suc left) i read_keys write_keys (none ∷ draws) rest keys out h u = cc
key_loop-keys (suc left) i read_keys write_keys (some drawn ∷ draws) rest keys out h u =
    let (before, behind) = key_loop-keys left (i + 1) read_keys write_keys draws rest _ out h u in
    (
      λ lt. let n : (u == i) ≡ false = ground arith in before (omega arith) ∙ rw n refl,
      λ lo hi. elim (Bool-cases (u == i)) [
        | inl here ↦
            let e : i ≡ u = ground arith in
            (drawn, before (omega arith) ∙ rw here (ap (user_key drawn read_keys write_keys) e))
        | inr later ↦ behind (ground arith) (omega arith)
      ],
    )

-- A bit of a key is an entry of the matrix from which it was taken.
key_bit :
    (m : Bytes) (u l k : ℕ)
    → get_bit (shift m (u * stego_user_key_size + l * stego_key_size)) k
      ≡ matrix_get m (u * 4 + l) k stego_cover_file_count
unfolding get_bit matrix_get
key_bit m u l k =
    let byte : u * 128 + l * 32 + k / 8 ≡ ((u * 4 + l) * 256 + k) / 8 = omega arith in
    let rem : k % 8 ≡ ((u * 4 + l) * 256 + k) % 8 = omega arith in rw (byte, rem) refl

module _ (r_m w_m : Bytes) (r n : Entries) (is_r : IsView stego_cover_file_count r_m r)
    (is_w : IsView stego_cover_file_count w_m (λ i k. n k i))
    (inverse : (i k : ℕ)
      → i < stego_cover_file_count
      → k < stego_cover_file_count
      → product_of stego_cover_file_count r n i k ≡ (i == k)) where
  keys_product :
      (u v i l : ℕ)
      → u < stego_user_level_count
      → v < stego_user_level_count
      → i < stego_levels_per_password
      → l < stego_levels_per_password
      → vector_scalar_product
          (shift r_m (u * stego_user_key_size + i * stego_key_size))
          (shift w_m (v * stego_user_key_size + l * stego_key_size))
          stego_key_size
        ≡ (u == v && i == l)
  unfolding product_of
  keys_product u v i l hu hv hi hl =
      let q = u * 4 + i in
      let q' = v * 4 + l in
      vector_scalar_product_lem _ _ stego_key_size
      ∙ (xor_bits_congr 256 _ (λ k. r q k && n k q')
            (λ k hk.
              ap₂ ◌&&◌ (key_bit r_m u i k ∙ is_r.reads q k (omega arith) hk)
                (key_bit w_m v l k ∙ is_w.reads q' k (omega arith) hk))
          ∙ (inverse q q' (omega arith) (omega arith) ∙ ground arith))

-- The keys that are given.
abbrev IsKeys : ℕ → (ℕ → StegoKey) → Type 0
IsKeys count out =
    (u v i l : ℕ)
    → u < count
    → v < count
    → i < stego_levels_per_password
    → l < stego_levels_per_password
    → vector_scalar_product ((out u).read_keys i) ((out v).write_keys l) stego_key_size
      ≡ (u == v && i == l)

use_inverse-IsKeys :
    (host : Host) (tmp₀ write₀ read_keys : Bytes) (count : ℕ) (o : Outcome Bytes)
    (draws rest : List (Option Bytes)) (keys out : ℕ → StegoKey)
    → matrix_invert stego_cover_file_count host tmp₀ write₀ read_keys ≡ o
    → IsBytes tmp₀
    → IsBytes write₀
    → IsBytes read_keys
    → count ≤ stego_user_level_count
    → use_inverse count read_keys draws keys o ≡ some (ok out, rest)
    → IsKeys count out
unfolding use_inverse
use_inverse-IsKeys host tmp₀ write₀ read_keys count (err e) draws rest keys out inv ht hw hr hc h u
      v i l hu hv hi hl =
    cc
use_inverse-IsKeys host tmp₀ write₀ read_keys count (ok inverse) draws rest keys out inv ht hw hr hc
      h u v i l hu hv hi hl =
    let r : Entries = λ row col. matrix_get read_keys row col 256 in
    let is_r : IsView 256 read_keys r = record { bytes = hr; reads = λ row col _ _. refl } in
    let (n, is_n, product) =
      matrix_invert-inverse 256 host tmp₀ write₀ read_keys inverse r ht hw (omega arith) is_r inv in
    let w_m = matrix_transpose 256 inverse in
    let is_w = matrix_transpose-IsView 256 inverse n is_n in
    let taken = key_loop-keys count 0 read_keys w_m draws rest keys out h in
    let (aes_u, is_u) = (taken u).1 (omega arith) (omega arith) in
    let (aes_v, is_v) = (taken v).1 (omega arith) (omega arith) in
    ap₂ (λ (x y : StegoKey). vector_scalar_product (x.read_keys i) (y.write_keys l) stego_key_size)
      is_u is_v
    ∙ keys_product read_keys w_m r n is_r is_w product u v i l (omega arith) (omega arith) hi hl

use_matrix-IsKeys :
    (host : Host) (stack : Stack) (count : ℕ) (o : Drawn) (keys out : ℕ → StegoKey)
    (rest : List (Option Bytes))
    → ((m : Bytes) (draws : List (Option Bytes)) → o ≡ some (ok m, draws) → IsBytes m)
    → IsBytes stack.tmp₀
    → IsBytes stack.write₀
    → count ≤ stego_user_level_count
    → use_matrix host stack count keys o ≡ some (ok out, rest)
    → IsKeys count out
unfolding use_matrix
use_matrix-IsKeys host stack count none keys out rest bytes ht hw hc h = cc
use_matrix-IsKeys host stack count (some (err e, draws)) keys out rest bytes ht hw hc h = cc
use_matrix-IsKeys host stack count (some (ok m, draws)) keys out rest bytes ht hw hc h =
    use_inverse-IsKeys host stack.tmp₀ stack.write₀ m count
      (matrix_invert stego_cover_file_count host stack.tmp₀ stack.write₀ m) draws rest keys out refl
      ht hw (bytes m draws refl) hc h

-- What is said of the keys that are given: those of one user are dual, and those of two users are
-- foreign.
abbrev pub IsGenerated : ℕ → (ℕ → StegoKey) → Type 0
IsGenerated count out =
    ((u : ℕ) → u < count → IsDual (out u).read_keys (out u).write_keys)
    × ((u v : ℕ) → u < count → v < count → u ≢ v → IsForeign (out u).read_keys (out v).write_keys)

-- Where stego_gen_user_keys succeeds, the keys of each user are dual and those of two users are
-- foreign, on local arrays of bytes and whatever RAND_bytes answers.
pub stego_gen_user_keys-IsGenerated :
    (host : Host) (stack : Stack) (draws rest : List (Option Bytes)) (keys out : ℕ → StegoKey)
    (count : ℕ)
    → IsBytes stack.read₀
    → IsBytes stack.write₀
    → IsBytes stack.tmp₀
    → stego_gen_user_keys host stack draws keys count ≡ some (ok out, rest)
    → IsGenerated count out
unfolding stego_gen_user_keys
stego_gen_user_keys-IsGenerated host stack draws rest keys out count hr hw ht h =
    elim (Bool-cases (ltb 16 count)) [
      | inl many ↦ let wrong = rw many at h in cc
      | inr few ↦
          let product : IsKeys count out =
            use_matrix-IsKeys host stack count
              (matrix_gen_nonsing stego_cover_file_count host stack.b₀ stack.c₀ draws stack.read₀)
              keys out rest
              (λ m left e.
                matrix_gen_nonsing-IsBytes 256 host stack.b₀ stack.c₀ draws left stack.read₀ m hr e)
              ht hw (ground arith) (rw few at h) in
          (
            λ u hu i l hi hl. product u u i l hu hu hi hl ∙ ground arith,
            λ u v hu hv ne i l hi hl. product u v i l hu hv hi hl ∙ ground arith,
          )
    ]
