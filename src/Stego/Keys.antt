-- ===== src/Stego/Keys.antt =====
-- `stego_gen_user_keys` of src/stego.c: the keys of the users, from a random matrix and its
-- inverse.
use bsfs.Base.{
  ℕ, zero, suc, ◌+◌, ◌*◌, ltb, ◌==◌, if◌then◌else◌, Bytes, shift, List, [], ◌∷◌, Option, none, some,
  Outcome, ok, err, einval, eio,
}
use bsfs.Matrix.{matrix_invert, matrix_transpose}
use bsfs.Matrix.Random.{Drawn, matrix_gen_nonsing}
use bsfs.Stego.{
  StegoKey, Host, stego_cover_file_count, stego_user_level_count, stego_levels_per_password,
  stego_key_size,
}

abbrev pub stego_user_key_size : ℕ
stego_user_key_size = stego_key_size * stego_levels_per_password

-- The keys of the user `i`, with the rows of the two matrices from `i * STEGO_USER_KEY_SIZE` on.
abbrev pub user_key : Bytes → Bytes → Bytes → ℕ → StegoKey
user_key aes_key read_keys write_keys i = record {
  aes_key = aes_key;
  read_keys = λ l. shift read_keys (i * stego_user_key_size + l * stego_key_size);
  write_keys = λ l. shift write_keys (i * stego_user_key_size + l * stego_key_size);
}

-- An array of keys, and the answers of `RAND_bytes` that are left.
abbrev pub KeysDrawn : Type 0
KeysDrawn = Option (Outcome (ℕ → StegoKey) × List (Option Bytes))

unfoldable pub key_loop : ℕ → ℕ → Bytes → Bytes → List (Option Bytes) → (ℕ → StegoKey) → KeysDrawn
key_loop zero i read_keys write_keys draws keys = some (ok keys, draws)
key_loop (suc left) i read_keys write_keys [] keys = none
key_loop (suc left) i read_keys write_keys (none ∷ draws) keys = some (err eio, draws)
key_loop (suc left) i read_keys write_keys (some drawn ∷ draws) keys =
    key_loop left (i + 1) read_keys write_keys draws
      (λ k. if k == i then user_key drawn read_keys write_keys i else keys k)

-- The local arrays hold the bytes of `read₀` and `write₀` before they are written, and the
-- temporary buffers those of `b₀`, `c₀` and `tmp₀`.
pub record Stack : Type 0 where
  pub read₀ : Bytes
  pub write₀ : Bytes
  pub b₀ : Bytes
  pub c₀ : Bytes
  pub tmp₀ : Bytes

unfoldable pub use_inverse :
    ℕ → Bytes → List (Option Bytes) → (ℕ → StegoKey) → Outcome Bytes → KeysDrawn
unfolding key_loop
use_inverse count read_keys draws keys (err e) = some (err e, draws)
use_inverse count read_keys draws keys (ok inverse) =
    key_loop count 0 read_keys (matrix_transpose stego_cover_file_count inverse) draws keys

unfoldable pub use_matrix : Host → Stack → ℕ → (ℕ → StegoKey) → Drawn → KeysDrawn
unfolding use_inverse
use_matrix host stack count keys none = none
use_matrix host stack count keys (some (err e, draws)) = some (err e, draws)
use_matrix host stack count keys (some (ok read_keys, draws)) =
    use_inverse count read_keys draws keys
      (matrix_invert stego_cover_file_count host stack.tmp₀ stack.write₀ read_keys)

-- On an error the keys are not used.
unfoldable pub stego_gen_user_keys :
    Host → Stack → List (Option Bytes) → (ℕ → StegoKey) → ℕ → KeysDrawn
unfolding use_matrix
stego_gen_user_keys host stack draws keys count =
    if ltb stego_user_level_count count
    then some (err einval, draws)
    else use_matrix host stack count keys
        (matrix_gen_nonsing stego_cover_file_count host stack.b₀ stack.c₀ draws stack.read₀)
