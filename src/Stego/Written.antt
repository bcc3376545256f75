-- ===== src/Stego/Written.antt =====
-- What a successful `stego_write_level` of src/stego.c did to the levels that can be read.
use native.Mathlib.Nat.{div-add-mod', mod-lt, le_refl}
use bsfs.Base.{
  ℕ, ◌+◌, ◌-◌, ◌*◌, ◌/◌, ◌%◌, ◌<◌, ◌≡◌, inl, inr, refl, sym, ap, ◌∙◌, arith, Bool, true, false,
  ◌&&◌, bit_xor, ltb, ◌==◌, if◌then◌else◌, Bytes, Agree, memset, in_range, ok, >>=-ok_inv,
  Bool-cases, lt→ltb,
}
use bsfs.Base.Xor.{xor_cancel, xor_comm, xor-zero}
use bsfs.Cipher.{Cipher, CipherLaws}
use bsfs.Disk.{Disk}
use bsfs.Stego.{
  StegoKey, Host, stego_key_size, stego_levels_per_password, compute_level_size,
  stego_compute_user_level_size, check_parameters, get_iv, read_merged_cover_file_delta,
  write_merged_cover_file_delta, stego_read_level, stego_write_level,
}
use bsfs.Stego.Covers.{level_view, product}
use bsfs.Stego.Merge.{
  user_view, level-lt, read_merged_cover_file_delta_at, write_merged_cover_file_delta_view,
}
use bsfs.Vector.{vector_scalar_product}
use bsfs.Vector.Product.{vector_scalar_product_lem}

-- The keys of one password: read key `i` meets write key `l` in an odd number of covers just if
-- `i` is `l`.
abbrev pub IsDual : (ℕ → Bytes) → (ℕ → Bytes) → Type 0
IsDual reads writes =
    (i l : ℕ)
    → i < stego_levels_per_password
    → l < stego_levels_per_password
    → vector_scalar_product (reads i) (writes l) stego_key_size ≡ (i == l)

-- The read keys of one password and the write keys of another meet in an even number of covers.
abbrev pub IsForeign : (ℕ → Bytes) → (ℕ → Bytes) → Type 0
IsForeign reads writes =
    (i l : ℕ)
    → i < stego_levels_per_password
    → l < stego_levels_per_password
    → vector_scalar_product (reads i) (writes l) stego_key_size ≡ false

pub check_parameters_lem :
    (n off size : ℕ) → check_parameters n off size ≡ true → (off < n) × (size < n - off)
unfolding check_parameters
check_parameters_lem n off size h = ground arith

product_lem : (r w : Bytes) → product r w ≡ vector_scalar_product r w stego_key_size
product_lem r w = sym (vector_scalar_product_lem r w stego_key_size)

xor_replace : (v e : ℕ) → bit_xor v (bit_xor e v) ≡ e
xor_replace v e = ap (bit_xor v) (xor_comm e v) ∙ xor_cancel v e

replaced :
    (v e d : ℕ) (inside : Bool)
    → (inside ≡ true → d ≡ bit_xor e v)
    → bit_xor v (if inside then d else 0) ≡ (if inside then e else v)
replaced v e d true h = rw (h refl) (xor_replace v e)
replaced v e d false h = xor-zero v

module _ (cipher : Cipher) (host : Host) where
  -- What a successful write did.
  pub record Written (key : StegoKey) (disk : Disk) (buf : Bytes) (off size : ℕ) (disk' : Disk)
      : Type 0 where
    pub allowed : check_parameters (stego_compute_user_level_size disk.data_size) off size ≡ true
    pub memory : host.malloc size ≡ true
    pub iv : Bytes
    pub encrypted : Bytes
    pub has_iv : get_iv cipher host off ≡ ok iv
    pub has_encrypted : cipher.aes_encrypt key.aes_key iv buf size ≡ ok encrypted
    pub result : disk' ≡ record disk {
      contents =
          write_merged_cover_file_delta key disk.contents
            (compute_level_size disk.data_size)
            off
            (read_merged_cover_file_delta key disk.contents
              (compute_level_size disk.data_size)
              off
              encrypted
              size)
            size;
    }

  pub stego_write_level-Written :
      (key : StegoKey) (disk : Disk) (buf : Bytes) (off size : ℕ) (disk' : Disk)
      → stego_write_level cipher host key disk buf off size ≡ ok disk'
      → Written key disk buf off size disk'
  unfolding stego_write_level
  stego_write_level-Written key disk buf off size disk' h =
      elim (Bool-cases (check_parameters (stego_compute_user_level_size disk.data_size) off size)) [
        | inr denied ↦ absurd (ground arith)
        | inl allowed ↦ elim (Bool-cases (host.malloc size)) [
          | inr full ↦ absurd (ground arith)
          | inl memory ↦
              let h' = rw (allowed, memory) at h in
              let (iv, has_iv, h₁) = >>=-ok_inv (get_iv cipher host off) _ h' in
              let (encrypted, has_encrypted, h₂) =
                >>=-ok_inv (cipher.aes_encrypt key.aes_key iv buf size) _ h₁ in
              record {
                allowed = allowed;
                memory = memory;
                iv = iv;
                encrypted = encrypted;
                has_iv = has_iv;
                has_encrypted = has_encrypted;
                result = cc h₂;
              }
        ]
      ]

  -- A read depends on the bytes of the user level in its range only.
  pub stego_read_level_congr :
      (laws : CipherLaws cipher) (key : StegoKey) (x y : Disk) (off size : ℕ)
      → x.data_size ≡ y.data_size
      → ((a : ℕ)
          → a < size
          → user_view key.read_keys x.contents (compute_level_size x.data_size) (off + a)
            ≡ user_view key.read_keys y.contents (compute_level_size x.data_size) (off + a))
      → off + size < stego_compute_user_level_size x.data_size
      → stego_read_level cipher host key x off size ≡ stego_read_level cipher host key y off size
  unfolding stego_read_level stego_compute_user_level_size
  stego_read_level_congr laws key x y off size e h fits =
      let L = compute_level_size x.data_size in
      let zeroed = memset (λ _. 0) 0 0 size in
      let dx = read_merged_cover_file_delta key x.contents L off zeroed size in
      let dy = read_merged_cover_file_delta key y.contents L off zeroed size in
      let same : Agree size dx dy = λ a lt. ground (
        arith,
        read_merged_cover_file_delta_at key x.contents L off zeroed size a (omega arith),
        read_merged_cover_file_delta_at key y.contents L off zeroed size a (omega arith),
        h a lt,
      ) in
      let k : (iv : Bytes)
          → cipher.aes_decrypt key.aes_key iv dx size ≡ cipher.aes_decrypt key.aes_key iv dy size =
        λ iv. laws.aes_decrypt_congr key.aes_key iv dx dy size same in
      rw (← e) (simp k)

  module _ (key : StegoKey) (disk : Disk) (buf : Bytes) (off size : ℕ) (disk' : Disk)
      (w : Written key disk buf off size disk') where
    unfoldable pub level_size : ℕ
    level_size = compute_level_size disk.data_size

    pub fits : off + size < stego_levels_per_password * level_size
    unfolding level_size stego_compute_user_level_size
    fits = let c = check_parameters_lem _ off size w.allowed in omega (arith, c.0, c.1)

    pub same_size : disk'.data_size ≡ disk.data_size
    same_size = ap (λ (d : Disk). d.data_size) w.result

    delta : Bytes
    delta =
        read_merged_cover_file_delta key disk.contents (compute_level_size disk.data_size) off
          w.encrypted size

    -- The level that `r` reads, after the write.
    written_view :
        (r : Bytes) (target p : ℕ)
        → ((l : ℕ) → l < stego_levels_per_password → product r (key.write_keys l) ≡ (l == target))
        → p < level_size
        → level_view r disk'.contents level_size p
          ≡ bit_xor (level_view r disk.contents level_size p) (
              if ltb target stego_levels_per_password && in_range off size (target * level_size + p)
              then delta (target * level_size + p - off)
              else 0)
    unfolding delta level_size
    written_view r target p hk hp =
        ap (λ (d : Disk). level_view r d.contents (compute_level_size disk.data_size) p) w.result
        ∙ write_merged_cover_file_delta_view r target key delta disk.contents level_size size off
            stego_levels_per_password p hk (omega (arith, fits)) hp

    delta_at :
        (q : ℕ)
        → 0 < level_size
        → in_range off size q ≡ true
        → delta (q - off)
          ≡ bit_xor (w.encrypted (q - off)) (user_view key.read_keys disk.contents level_size q)
    unfolding delta level_size
    delta_at q pos inside =
        let back : off + (q - off) ≡ q = ground arith in
        read_merged_cover_file_delta_at key disk.contents level_size off w.encrypted size (q - off)
          pos
        ∙ rw (lt→ltb (q - off) size (ground arith), back)

    -- The password's own level holds the new bytes in the range, and else what it held.
    pub own_view :
        (q : ℕ)
        → IsDual key.read_keys key.write_keys
        → q < stego_levels_per_password * level_size
        → user_view key.read_keys disk'.contents level_size q ≡ (
            if in_range off size q
            then w.encrypted (q - off)
            else user_view key.read_keys disk.contents level_size q)
    unfolding delta level_size
    own_view q dual hq =
        let L = level_size in
        let t = q / L in
        let p = q % L in
        let split : t * L + p ≡ q = div-add-mod' q L in
        let ht : t < stego_levels_per_password = level-lt L t p _ _ (omega arith) (le_refl _) in
        let pos : 0 < L = omega (arith, fits) in
        let after =
          written_view (key.read_keys t) t p
            (λ l lt.
              product_lem (key.read_keys t) (key.write_keys l) ∙ (dual t l ht lt ∙ ground arith))
            (mod-lt q pos) in
        rw (split, lt→ltb t stego_levels_per_password ht) at after
        ∙ replaced _ (w.encrypted (q - off)) (delta (q - off)) (in_range off size q)
            (delta_at q pos)

    -- The levels of another password hold what they held.
    pub foreign_view :
        (reads : ℕ → Bytes) (q : ℕ)
        → IsForeign reads key.write_keys
        → q < stego_levels_per_password * level_size
        → user_view reads disk'.contents level_size q ≡ user_view reads disk.contents level_size q
    foreign_view reads q foreign hq =
        let t = q / level_size in
        let ht : t < stego_levels_per_password =
          level-lt level_size t (q % level_size) _ _ (omega (arith, div-add-mod' q level_size))
            (le_refl _) in
        written_view (reads t) stego_levels_per_password (q % level_size)
          (λ l lt. product_lem (reads t) (key.write_keys l) ∙ (foreign t l ht lt ∙ ground arith))
          (mod-lt q (omega (arith, fits)))
        ∙ xor-zero _
