-- ===== src/Bft/Search.antt =====
-- Searches in the table of src/bft.c: the first free entry, and the first entry of a name.
use native.Mathlib.Decide.{ℕ_discrete}
use bsfs.Base.{
  ℕ, zero, suc, ◌+◌, ◌*◌, ◌≤◌, ◌<◌, ◌≡◌, ◌≢◌, ◌⊎◌, inl, inr, refl, sym, ap, subst, ◌∙◌, arith, Bool,
  true, false, ◌==◌, if◌then◌else◌, Bytes, Text, length, char_at, IsText, le→leb_false, [], ◌∷◌,
  text_eq, text_eq→eq, text_eq_refl, Errno, Outcome, ok, err, ◌>>=◌, enospc, enoent, Bool-cases,
}
use bsfs.Bft.{
  BftEntry, FindEntryCtx, bft_entry_size, bft_max_entries, free_loop, bft_find_free_table_entry,
  do_read_entry, bft_write_table_entry, iter_loop, iter_step, find_entry_iter, bft_find_table_entry,
}
use bsfs.Bft.Entries.{stored, IsName, raw_entry_other, do_read_entry-write}

abbrev pub slot_byte : Bytes → ℕ → ℕ
slot_byte bft j = bft (j * bft_entry_size)

abbrev pub slot_entry : Bytes → ℕ → Outcome BftEntry
slot_entry bft j = do_read_entry bft (j * bft_entry_size)

-- A search for a free entry answers the first one, or that every entry is in use.
abbrev pub FreeResult : Bytes → ℕ → ℕ → Outcome ℕ → Type 0
FreeResult bft lo hi result =
    ((result ≡ err enospc) × ((j : ℕ) → lo ≤ j → j < hi → slot_byte bft j ≢ 0))
    ⊎ ((off : ℕ) × (result ≡ ok off)
        × (lo ≤ off)
        × (off < hi)
        × (slot_byte bft off ≡ 0)
        × ((j : ℕ) → lo ≤ j → j < off → slot_byte bft j ≢ 0))

from_next :
    {P : ℕ → Type 0} (lo hi : ℕ)
    → P lo
    → ((j : ℕ) → lo + 1 ≤ j → j < hi → P j)
    → (j : ℕ) → lo ≤ j
    → j < hi
    → P j
from_next {P} lo hi here rest j p q = elim (ℕ_discrete lo j) [
  | yes e ↦ subst P e here
  | no ne ↦ rest j (omega arith) q
]

free_loop-FreeResult :
    (left : ℕ) (bft : Bytes) (lo hi : ℕ)
    → lo + left ≡ hi
    → FreeResult bft lo hi (free_loop left bft lo)
unfolding free_loop
free_loop-FreeResult zero bft lo hi e = inl (refl, λ j p q. absurd (omega arith))
free_loop-FreeResult (suc left) bft lo hi e = elim (Bool-cases (slot_byte bft lo == 0)) [
  | inl free ↦
      rw free
        (inr (lo, refl, omega arith, omega arith, ground arith, λ j p q. absurd (omega arith)))
  | inr used ↦ rw used (go (ground arith) (free_loop-FreeResult left bft (lo + 1) hi (omega arith)))
]
  where
    go :
        slot_byte bft lo ≢ 0
        → {r : Outcome ℕ} → FreeResult bft (lo + 1) hi r
        → FreeResult bft lo hi r
    go here (inl full) = inl (full.0, from_next {P = λ j. slot_byte bft j ≢ 0} lo hi here full.1)
    go here (inr (off, r, p, q, f, before)) =
        inr (off, r, omega arith, q, f, from_next {P = λ j. slot_byte bft j ≢ 0} lo off here before)

-- bft_find_free_table_entry answers the first free entry, or ENOSPC if every entry of the table is
-- in use.
pub bft_find_free_table_entry-FreeResult :
    (bft : Bytes) → FreeResult bft 0 bft_max_entries (bft_find_free_table_entry bft)
unfolding bft_find_free_table_entry
bft_find_free_table_entry-FreeResult bft =
    free_loop-FreeResult bft_max_entries bft 0 bft_max_entries (omega arith)

-- A search for a name passes a free entry, and one that can be read and has another name.
abbrev pub IsPassed : Bytes → Text → ℕ → Type 0
IsPassed bft name j =
    (slot_byte bft j ≡ 0) ⊎ ((ent : BftEntry) × (slot_entry bft j ≡ ok ent) × (ent.name ≢ name))

abbrev pub AllPassed : Bytes → Text → ℕ → ℕ → Type 0
AllPassed bft name lo hi = (j : ℕ) → lo ≤ j → j < hi → IsPassed bft name j

-- The entry at which a search for a name stops: it has the name, or cannot be read.
pub record StopsAt (bft : Bytes) (name : Text) (lo hi : ℕ) : Type 0 where
  pub off : ℕ
  pub from : lo ≤ off
  pub to : off < hi
  pub used : slot_byte bft off ≢ 0
  pub before : (j : ℕ) → lo ≤ j → j < off → IsPassed bft name j

extend_stop :
    {bft : Bytes} {name : Text} {lo hi : ℕ}
    → IsPassed bft name lo
    → StopsAt bft name (lo + 1) hi
    → StopsAt bft name lo hi
extend_stop {bft} {name} {lo} here s = record {
  off = s.off;
  from = omega (arith, s.from);
  to = s.to;
  used = s.used;
  before = from_next {P = IsPassed bft name} lo s.off here s.before;
}

data FindLoop (bft : Bytes) (name : Text) (lo hi : ℕ) (ctx : FindEntryCtx)
    (r : Outcome FindEntryCtx) : Type 0 where
  absent : r ≡ ok ctx → AllPassed bft name lo hi → FindLoop bft name lo hi ctx r
  match_at :
      (s : StopsAt bft name lo hi) (ent : BftEntry)
      → slot_entry bft s.off ≡ ok ent
      → ent.name ≡ name
      → r ≡ ok (record { off = s.off; found = true })
      → FindLoop bft name lo hi ctx r
  damaged :
      (s : StopsAt bft name lo hi) (e : Errno)
      → slot_entry bft s.off ≡ err e
      → r ≡ err e
      → FindLoop bft name lo hi ctx r

extend :
    {bft : Bytes} {name : Text} {lo hi : ℕ} {ctx : FindEntryCtx} {r : Outcome FindEntryCtx}
    → IsPassed bft name lo
    → FindLoop bft name (lo + 1) hi ctx r
    → FindLoop bft name lo hi ctx r
unfolding extend_stop
extend {bft} {name} {lo} {hi} here (absent e all) =
    absent e (from_next {P = IsPassed bft name} lo hi here all)
extend here (match_at s ent p q e) = match_at (extend_stop here s) ent p q e
extend here (damaged s x p e) = damaged (extend_stop here s) x p e

here_stop :
    (bft : Bytes) (name : Text) (lo hi : ℕ)
    → lo < hi
    → (slot_byte bft lo == 0) ≡ false
    → StopsAt bft name lo hi
here_stop bft name lo hi h used = record {
  off = lo;
  from = omega arith;
  to = h;
  used = ground arith;
  before = λ j p q. absurd (omega arith);
}

-- One round: the entry is passed and the rest decides, or the search stops at it.
iter_step-FindLoop :
    (bft : Bytes) (name : Text) (lo hi : ℕ) (ctx : FindEntryCtx)
    (continue : FindEntryCtx → Outcome FindEntryCtx)
    → lo < hi
    → FindLoop bft name (lo + 1) hi ctx (continue ctx)
    → FindLoop bft name lo hi ctx (iter_step bft (find_entry_iter name) lo ctx continue)
unfolding iter_step find_entry_iter here_stop
iter_step-FindLoop bft name lo hi ctx continue lt rest = elim (Bool-cases (slot_byte bft lo == 0)) [
  | inl free ↦ rw free (extend (inl (ground arith)) rest)
  | inr used ↦ rw used (by_entry used (slot_entry bft lo) refl)
]
  where
    by_name :
        (slot_byte bft lo == 0) ≡ false
        → (ent : BftEntry) → slot_entry bft lo ≡ ok ent
        → (b : Bool) → text_eq ent.name name ≡ b
        → FindLoop bft name lo hi ctx (
            let answer : Bool × FindEntryCtx =
              if b then (false, record { off = lo; found = true }) else (true, ctx) in
            if answer.0 then continue answer.1 else ok answer.1)
    by_name used ent e true q =
        match_at (here_stop bft name lo hi lt used) ent e (text_eq→eq ent.name name q) refl
    by_name used ent e false q =
        extend (inr (ent, e, λ same. cc (text_eq_refl name, q, ap (λ t. text_eq t name) same))) rest

    by_entry :
        (slot_byte bft lo == 0) ≡ false
        → (o : Outcome BftEntry) → slot_entry bft lo ≡ o
        → FindLoop bft name lo hi ctx (
            o >>= λ ent.
            let answer = find_entry_iter name lo ent ctx in
            if answer.0 then continue answer.1 else ok answer.1)
    by_entry used (err e) h = damaged (here_stop bft name lo hi lt used) e h refl
    by_entry used (ok ent) h = by_name used ent h (text_eq ent.name name) refl

iter_loop-FindLoop :
    (left : ℕ) (bft : Bytes) (name : Text) (lo hi : ℕ) (ctx : FindEntryCtx)
    → lo + left ≡ hi
    → FindLoop bft name lo hi ctx (iter_loop bft (find_entry_iter name) left lo ctx)
unfolding iter_loop
iter_loop-FindLoop zero bft name lo hi ctx e = absent refl (λ j p q. absurd (omega arith))
iter_loop-FindLoop (suc left) bft name lo hi ctx e =
    iter_step-FindLoop bft name lo hi ctx
      (λ c. iter_loop bft (find_entry_iter name) left (lo + 1) c) (omega arith)
      (iter_loop-FindLoop left bft name (lo + 1) hi ctx (omega arith))

-- What a search for a name answers: every entry was passed; or the first entry that was not has
-- the name; or it cannot be read, and its error is the answer.
pub data FindResult (bft : Bytes) (name : Text) (r : Outcome ℕ) : Type 0 where
  not_found : r ≡ err enoent → AllPassed bft name 0 bft_max_entries → FindResult bft name r
  found_at :
      (s : StopsAt bft name 0 bft_max_entries) (ent : BftEntry)
      → slot_entry bft s.off ≡ ok ent
      → ent.name ≡ name
      → r ≡ ok s.off
      → FindResult bft name r
  unreadable :
      (s : StopsAt bft name 0 bft_max_entries) (e : Errno)
      → slot_entry bft s.off ≡ err e
      → r ≡ err e
      → FindResult bft name r

-- bft_find_table_entry answers ENOENT if every entry is free or readable under another name, and
-- otherwise stops at the first entry that is not: with its offset if the entry has the name, with
-- its error if the entry cannot be read.
pub bft_find_table_entry-FindResult :
    (bft : Bytes) (name : Text) → FindResult bft name (bft_find_table_entry bft name)
unfolding bft_find_table_entry
bft_find_table_entry-FindResult bft name =
    by_loop (iter_loop-FindLoop bft_max_entries bft name 0 bft_max_entries _ (omega arith))
  where
    by_loop :
        {r : Outcome FindEntryCtx}
        → FindLoop bft name 0 bft_max_entries (record { off = 0; found = false }) r
        → FindResult bft name (r >>= λ c. if c.found then ok c.off else err enoent)
    by_loop (absent e all) = not_found (rw e) all
    by_loop (match_at s ent p q e) = found_at s ent p q (rw e)
    by_loop (damaged s x p e) = unreadable s x p (rw e)

pub not-IsPassed :
    (bft : Bytes) (name : Text) (j : ℕ) (ent : BftEntry)
    → slot_byte bft j ≢ 0
    → slot_entry bft j ≡ ok ent
    → ent.name ≡ name
    → ¬ IsPassed bft name j
not-IsPassed bft name j ent used e same (inl free) = used free
not-IsPassed bft name j ent used e same (inr (other, e', ne)) =
    let equal : other ≡ ent = cc (e, e') in ne (ap (λ (t : BftEntry). t.name) equal ∙ same)

-- The first entry that is not passed is the one at `off`, if all others are passed.
stops_at :
    {bft : Bytes} {name : Text} (off : ℕ) (ent : BftEntry) (s : StopsAt bft name 0 bft_max_entries)
    → off < bft_max_entries
    → slot_byte bft off ≢ 0
    → slot_entry bft off ≡ ok ent
    → ent.name ≡ name
    → ((j : ℕ) → off ≢ j → j < bft_max_entries → IsPassed bft name j)
    → ((j : ℕ) → IsPassed bft name j → j ≡ s.off → ⊥)
    → s.off ≡ off
stops_at off ent s lt used e same others stopped = elim (ℕ_discrete off s.off) [
  | yes eq ↦ sym eq
  | no ne ↦ absurd (stopped s.off (others s.off ne s.to) refl)
]

-- Where no other entry has the name or is damaged, the entry that has it is found.
find_only :
    (bft : Bytes) (name : Text) (off : ℕ) (ent : BftEntry)
    → off < bft_max_entries
    → slot_byte bft off ≢ 0
    → slot_entry bft off ≡ ok ent
    → ent.name ≡ name
    → ((j : ℕ) → off ≢ j → j < bft_max_entries → IsPassed bft name j)
    → bft_find_table_entry bft name ≡ ok off
find_only bft name off ent lt used e same others =
    by_result (bft_find_table_entry-FindResult bft name)
  where
    damaged_stop :
        (s : StopsAt bft name 0 bft_max_entries) (x : Errno)
        → slot_entry bft s.off ≡ err x
        → (j : ℕ) → IsPassed bft name j
        → j ≡ s.off
        → ⊥
    damaged_stop s x p j (inl free) q = s.used (rw (← q) free)
    damaged_stop s x p j (inr (o, e', ne)) q = cc (p, e', ap (slot_entry bft) q)

    by_result : {r : Outcome ℕ} → FindResult bft name r → r ≡ ok off
    by_result (not_found p all) =
        absurd (not-IsPassed bft name off ent used e same (all off (omega arith) lt))
    by_result (found_at s other p q r) =
        r
        ∙ ap ok (
            stops_at off ent s lt used e same others (λ j passed at.
              not-IsPassed bft name s.off other s.used p q (subst (IsPassed bft name) at passed)))
    by_result (unreadable s x p r) =
        let there = stops_at off ent s lt used e same others (damaged_stop s x p) in
        cc (p, e, ap (slot_entry bft) there)

pub nonempty : (s : Text) → IsText s → 0 < length s → char_at s 0 ≢ 0
nonempty [] t h e = absurd (omega arith)
nonempty (x ∷ xs) t h e = omega (arith, t.0)

pub IsPassed-write :
    (bft b : Bytes) (ent : BftEntry) (off j : ℕ)
    → off ≢ j
    → bft_write_table_entry bft ent off ≡ ok b
    → IsPassed bft ent.name j
    → IsPassed b ent.name j
IsPassed-write bft b ent off j ne w (inl free) =
    inl ((raw_entry_other bft b ent off j ne w).1 ∙ free)
IsPassed-write bft b ent off j ne w (inr (other, e, d)) =
    inr (other, (raw_entry_other bft b ent off j ne w).0 ∙ e, d)

-- An entry with a non-empty name that fits, written at an offset of the table whose other entries
-- are free or readable under other names, is found by bft_find_table_entry under its name at that
-- offset.
pub bft_find_table_entry-write :
    (bft : Bytes) (ent : BftEntry) (off : ℕ)
    → off < bft_max_entries
    → IsName ent.name
    → 0 < length ent.name
    → ((j : ℕ) → off ≢ j → j < bft_max_entries → IsPassed bft ent.name j)
    → (b : Bytes) × (bft_write_table_entry bft ent off ≡ ok b)
      × (bft_find_table_entry b ent.name ≡ ok off)
bft_find_table_entry-write bft ent off lt name filled others =
    let (b, w, r, first) = do_read_entry-write bft (off * bft_entry_size) ent name in
    let written : bft_write_table_entry bft ent off ≡ ok b =
      unfold bft_write_table_entry in rw (le→leb_false off bft_max_entries lt) w in
    (
      b,
      written,
      find_only b ent.name off (stored ent) lt
          (λ z. nonempty ent.name name.0 filled (sym first ∙ z)) r refl
          (λ j ne p. IsPassed-write bft b ent off j ne written (others j ne p)),
    )
