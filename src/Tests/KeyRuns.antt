-- ===== src/Tests/KeyRuns.antt =====
-- The keys of two users from a run of `stego_gen_user_keys` that succeeds: the answers of RAND_bytes
-- make the random matrix the identity.
use bsfs.Base.{
  ℕ, ◌<◌, ◌≡◌, refl, sym, ap, ◌∙◌, arith, Bool, false, ◌&&◌, ◌⊕◌, ◌==◌, if◌then◌else◌, Bytes, List,
  [], ◌∷◌, Option, some, Outcome, ok, Bool-cases, inl, inr,
}
use bsfs.Matrix.{matrix_transpose}
use bsfs.Matrix.Kernel.{
  InvertResult, inverted, singular, matrix_invert-InvertResult, xor_bits-false,
}
use bsfs.Matrix.Random.Units.{no_bits, answers, matrix_gen_nonsing-units}
use bsfs.Matrix.Span.{xor_bits-change}
use bsfs.Matrix.View.{Entries}
use bsfs.Stego.{StegoKey}
use bsfs.Stego.Dual.{IsGenerated, stego_gen_user_keys-IsGenerated}
use bsfs.Stego.Keys.{
  user_key, Stack, KeysDrawn, use_matrix, use_inverse, key_loop, stego_gen_user_keys,
}
use bsfs.Tests.Setting.{roomy_host, alice}
use bsfs.Vector.{xor_bits}
use bsfs.Vector.Product.{xor_bits_congr}

abbrev identity : Entries
identity r c = r == c

-- The identity has no vector but zero that is orthogonal to its rows.
identity-row :
    (dim : ℕ) (x : ℕ → Bool) (r : ℕ) → r < dim → xor_bits dim (λ k. (r == k) && x k) ≡ x r
identity-row dim x r h =
    let all : ℕ → Bool = λ k. if k == r then false else false in
    xor_bits_congr dim _ (λ k. if k == r then false ⊕ x r else false)
      (λ k hk. elim (Bool-cases (k == r)) [
        | inl same ↦ let e : k ≡ r = ground arith in let q = ap x e in ground arith
        | inr other ↦ ground arith
      ])
    ∙ (xor_bits-change dim r (λ k. false) (x r)
        ∙ (let none_else = xor_bits-false dim in ground arith))

inverted_only :
    {dim : ℕ} {result : Outcome Bytes}
    → InvertResult dim identity result
    → (out : Bytes) × (result ≡ ok out)
inverted_only (inverted n view product) = (_, refl)
inverted_only {dim} (singular s) =
    let zero_at = sym (identity-row dim s.x s.at s.in_dim) ∙ s.orthogonal s.at s.in_dim in
    let one_at = s.nonzero in cc

abbrev stack : Stack
stack = record { read₀ = no_bits; write₀ = no_bits; b₀ = no_bits; c₀ = no_bits; tmp₀ = no_bits }

abbrev key_draws : List (Option Bytes)
key_draws = some no_bits ∷ (some no_bits ∷ [])

abbrev generated : KeysDrawn
generated = stego_gen_user_keys roomy_host stack (answers 256 key_draws) (λ k. alice) 2

generated_ok : (out : ℕ → StegoKey) × (generated ≡ some (ok out, []))
unfolding stego_gen_user_keys use_matrix use_inverse key_loop
generated_ok =
    let (matrix, draws, view) =
      matrix_gen_nonsing-units 256 roomy_host key_draws no_bits (λ a. omega arith) (omega arith)
        (omega arith) refl in
    let (inverse, inverts) = inverted_only (
      matrix_invert-InvertResult 256 roomy_host no_bits no_bits matrix identity (λ a. omega arith)
        (λ a. omega arith) (omega arith) refl view) in
    let write_keys = matrix_transpose 256 inverse in
    let first = user_key no_bits matrix write_keys 0 in
    let second = user_key no_bits matrix write_keys 1 in
    (
      λ k. if k == 1 then second else if k == 0 then first else alice,
      rw (stego_gen_user_keys, draws, use_matrix, inverts, use_inverse) refl,
    )

stego_gen_user_keys-IsGenerated_example : IsGenerated 2 (generated_ok.0)
stego_gen_user_keys-IsGenerated_example =
    stego_gen_user_keys-IsGenerated roomy_host stack (answers 256 key_draws) [] (λ k. alice)
      (generated_ok.0) 2 (λ a. omega arith) (λ a. omega arith) (λ a. omega arith) (generated_ok.1)
