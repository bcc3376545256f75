-- ===== src/Bft/Found.antt =====
-- The search of src/bft.c for a name, as the first entry that has it.
use native.Mathlib.Decide.{dec_lt}
use bsfs.Base.{
  ℕ, ◌*◌, ◌<◌, ◌≡◌, ◌≢◌, inl, inr, refl, sym, ap, subst, ◌∙◌, arith, Bytes, Text, length,
  le→leb_false, Errno, Outcome, ok, err, Bool-cases, ◌==◌,
}
use bsfs.Bft.{
  BftEntry, bft_entry_size, bft_max_entries, bft_write_table_entry, bft_find_table_entry,
}
use bsfs.Bft.Entries.{stored, IsName, do_read_entry-write}
use bsfs.Bft.Search.{
  slot_byte, slot_entry, IsPassed, StopsAt, FindResult, not_found, found_at, unreadable,
  bft_find_table_entry-FindResult, not-IsPassed, IsPassed-write, nonempty,
}

-- The first entry that a search for the name does not pass has the name.
pub record IsFound (bft : Bytes) (name : Text) (off : ℕ) : Type 0 where
  pub within : off < bft_max_entries
  pub used : slot_byte bft off ≢ 0
  pub ent : BftEntry
  pub entry : slot_entry bft off ≡ ok ent
  pub has_name : ent.name ≡ name
  pub before : (j : ℕ) → j < off → IsPassed bft name j

pub bft_find_table_entry-IsFound :
    (bft : Bytes) (name : Text) (off : ℕ)
    → bft_find_table_entry bft name ≡ ok off
    → IsFound bft name off
bft_find_table_entry-IsFound bft name off h = by_result (bft_find_table_entry-FindResult bft name)
  where
    by_result : FindResult bft name (bft_find_table_entry bft name) → IsFound bft name off
    by_result (not_found e all) = cc (h, e)
    by_result (unreadable s x p e) = cc (h, e)
    by_result (found_at s ent p q e) =
        let same : s.off ≡ off = cc (h, e) in
        subst (IsFound bft name) same (record {
          within = s.to;
          used = s.used;
          ent = ent;
          entry = p;
          has_name = q;
          before = λ j lt. s.before j (omega arith) lt;
        })

-- A stop of a search is at the entry that is found.
same_stop :
    (bft : Bytes) (name : Text) (off : ℕ) (s : StopsAt bft name 0 bft_max_entries)
    → IsFound bft name off
    → (s.off ≢ off → IsPassed bft name s.off → ⊥)
    → s.off ≡ off
same_stop bft name off s f stops = elim (Bool-cases (s.off == off)) [
  | inl same ↦ ground arith
  | inr other ↦ elim (dec_lt off s.off) [
    | yes behind ↦ absurd (
        not-IsPassed bft name off f.ent f.used f.entry f.has_name
          (s.before off (omega arith) behind))
    | no front ↦ absurd (stops (ground arith) (f.before s.off (ground arith)))
  ]
]

pub IsFound-finds :
    (bft : Bytes) (name : Text) (off : ℕ)
    → IsFound bft name off
    → bft_find_table_entry bft name ≡ ok off
IsFound-finds bft name off f = by_result (bft_find_table_entry-FindResult bft name)
  where
    unread :
        (s : StopsAt bft name 0 bft_max_entries) (e : Errno)
        → slot_entry bft s.off ≡ err e
        → IsPassed bft name s.off
        → ⊥
    unread s e p (inl free) = s.used free
    unread s e p (inr (o, q, ne)) = cc (p, q)

    by_result : {r : Outcome ℕ} → FindResult bft name r → r ≡ ok off
    by_result (not_found e all) =
        absurd (
          not-IsPassed bft name off f.ent f.used f.entry f.has_name
            (all off (omega arith) f.within))
    by_result (found_at s ent p q e) =
        e ∙ ap ok (same_stop bft name off s f (λ ne. not-IsPassed bft name s.off ent s.used p q))
    by_result (unreadable s x p e) =
        let same = same_stop bft name off s f (λ ne. unread s x p) in
        cc (p, f.entry, ap (slot_entry bft) same)

-- An entry that is found and written again under its name is found again.
pub bft_find_table_entry-rewrite :
    (bft b : Bytes) (ent : BftEntry) (off : ℕ)
    → IsName ent.name
    → 0 < length ent.name
    → bft_find_table_entry bft ent.name ≡ ok off
    → bft_write_table_entry bft ent off ≡ ok b
    → bft_find_table_entry b ent.name ≡ ok off
unfolding bft_write_table_entry
bft_find_table_entry-rewrite bft b ent off name filled h w =
    let f = bft_find_table_entry-IsFound bft ent.name off h in
    let (c, written, reads, first) = do_read_entry-write bft (off * bft_entry_size) ent name in
    let same : c ≡ b = cc (written, rw (le→leb_false off bft_max_entries f.within) at w) in
    IsFound-finds b ent.name off (record {
      within = f.within;
      used = λ z.
          nonempty ent.name name.0 filled
            (sym first ∙ (ap (λ (m : Bytes). m (off * bft_entry_size)) same ∙ z));
      ent = stored ent;
      entry = ap (λ (m : Bytes). slot_entry m off) (sym same) ∙ reads;
      has_name = refl;
      before = λ j lt. IsPassed-write bft b ent off j (λ e. ground (arith, e)) w (f.before j lt);
    })
