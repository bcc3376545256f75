-- ===== src/Stego/Merge.antt =====
-- The four levels of a password as one: `merged_cover_file_op` of src/stego.c.
use native.Mathlib.Nat.{
  mul-add-div_right, mul-add-mod_self_right, div-eq_of_lt, mod-eq_of_lt, div-add-mod', mod-lt,
}
use native.Mathlib.Decide.{dec_lt}
use bsfs.Base.{
  ℕ, zero, suc, ◌+◌, ◌-◌, ◌*◌, ◌/◌, ◌%◌, ◌≤◌, ◌<◌, ◌≡◌, refl, sym, ap, ◌∙◌, arith, Bool, true,
  false, ◌&&◌, bit_xor, ltb, leb, ◌==◌, if◌then◌else◌, Bytes, in_range, min, lt→ltb, le→ltb,
}
use bsfs.Base.Xor.{xor-zero}
use bsfs.Stego.{
  CoverFileOp, StegoKey, keytab_size, read_cover_file_delta, write_cover_file_delta, merged_loop,
  read_merged_cover_file_delta, write_merged_cover_file_delta,
}
use bsfs.Stego.Covers.{
  next_cover, level_view, product, read_cover_file_delta_at, write_cover_file_delta-level_view,
  write_cover_file_delta_keytab,
}

-- The byte at offset `q` of the user level: the levels stand one behind the other.
abbrev pub user_view : (ℕ → Bytes) → Bytes → ℕ → ℕ → ℕ
user_view keys disk L q = level_view (keys (q / L)) disk L (q % L)

abbrev read_op : Bytes → ℕ → Bytes → ℕ → ℕ → ℕ → Bytes → Bytes
read_op disk L k cur_off at cur_size b = read_cover_file_delta k disk L cur_off at cur_size b

abbrev write_op : Bytes → ℕ → Bytes → ℕ → ℕ → ℕ → Bytes → Bytes
write_op buf L k cur_off at cur_size d = write_cover_file_delta k buf L cur_off at cur_size d

-- Position `r` of level `l`, as an offset in the user level.
pub level_split : (L l r : ℕ) → r < L → ((l * L + r) / L ≡ l) × ((l * L + r) % L ≡ r)
level_split L l r h = (
  rw (mul-add-div_right {m = L} (omega arith) l r, div-eq_of_lt h) (omega arith),
  rw (mul-add-mod_self_right l L r, mod-eq_of_lt h),
)

chunk_view :
    (keys : ℕ → Bytes) (disk : Bytes) (L off l c m a : ℕ)
    → l * L + c ≡ off + m
    → m ≤ a
    → c + (a - m) < L
    → user_view keys disk L (off + a) ≡ level_view (keys l) disk L (c + (a - m))
chunk_view keys disk L off l c m a e le lt =
    let there : off + a ≡ l * L + (c + (a - m)) = omega arith in
    let split = level_split L l (c + (a - m)) lt in rw (there, split.0, split.1)

-- A chunk of `cs` bytes at `m`, and the bytes behind it: together they are the bytes from `m`.
join_chunks :
    (m cs size a x y done rest s : ℕ)
    → m < size
    → m + cs ≤ size
    → done ≡ (if in_range m cs a then bit_xor x y else x)
    → rest ≡ (if leb (m + cs) a && ltb a size then bit_xor done s else done)
    → (m ≤ a → a < m + cs → y ≡ s)
    → rest ≡ (if leb m a && ltb a size then bit_xor x s else x)
join_chunks m cs size a x y done rest s lt fits d r h = ground arith

merged_loop-suc :
    (op : CoverFileOp) (keys : ℕ → Bytes) (L size fuel l c m : ℕ) (s : Bytes)
    → m < size
    → merged_loop op keys L size (suc fuel) l c m s
      ≡ merged_loop op keys L size fuel
          (l + 1)
          0
          (m + min (size - m) (L - c))
          (op (keys l) c m (min (size - m) (L - c)) s)
unfolding merged_loop
merged_loop-suc op keys L size fuel l c m s h = rw (lt→ltb m size h)

merged_loop_done :
    (op : CoverFileOp) (keys : ℕ → Bytes) (L size fuel l c m : ℕ) (s : Bytes)
    → size ≤ m
    → merged_loop op keys L size fuel l c m s ≡ s
unfolding merged_loop
merged_loop_done op keys L size zero l c m s h = refl
merged_loop_done op keys L size (suc fuel) l c m s h = rw (le→ltb m size h)

-- The invariant of the loop: with `m` bytes processed and some left, the next byte stands at
-- offset `c` of level `l`.
read_merged_loop_at :
    (keys : ℕ → Bytes) (disk : Bytes) (L size off fuel l c m : ℕ) (buf : Bytes) (a : ℕ)
    → c < L
    → (m < size → l * L + c ≡ off + m)
    → size ≤ m + fuel
    → merged_loop (read_op disk L) keys L size fuel l c m buf a
      ≡ (if leb m a && ltb a size then bit_xor (buf a) (user_view keys disk L (off + a)) else buf a)
read_merged_loop_at keys disk L size off zero l c m buf a h e f =
    rw (merged_loop_done (read_op disk L) keys L size zero l c m buf (omega arith)) (ground arith)
read_merged_loop_at keys disk L size off (suc fuel) l c m buf a h e f =
    let cs = min (size - m) (L - c) in
    let done = read_op disk L (keys l) c m cs buf in
    elim (dec_lt m size) [
      | no p ↦
          rw (merged_loop_done (read_op disk L) keys L size (suc fuel) l c m buf (omega arith))
            (ground arith)
      | yes p ↦
          ap (λ (t : Bytes). t a) (merged_loop-suc (read_op disk L) keys L size fuel l c m buf p)
          ∙ join_chunks m cs size a (buf a) (level_view (keys l) disk L (c + (a - m))) (done a) _
              (user_view keys disk L (off + a)) p (omega arith)
              (read_cover_file_delta_at (keys l) disk L c m cs buf a)
              (read_merged_loop_at keys disk L size off fuel (l + 1) 0 (m + cs) done a (omega arith)
                (λ q. omega (arith, e p)) (omega arith))
              (λ lo hi. sym (chunk_view keys disk L off l c m a (e p) lo (omega arith)))
    ]

-- With a level that is not empty, every byte of the range gets the user level's byte added.
pub read_merged_cover_file_delta_at :
    (key : StegoKey) (disk : Bytes) (L off : ℕ) (buf : Bytes) (size a : ℕ)
    → 0 < L
    → read_merged_cover_file_delta key disk L off buf size a
      ≡ (if ltb a size then bit_xor (buf a) (user_view key.read_keys disk L (off + a)) else buf a)
unfolding read_merged_cover_file_delta
read_merged_cover_file_delta_at key disk L off buf size a h = ground (
  arith,
  read_merged_loop_at key.read_keys disk L size off size (off / L) (off % L) 0 buf a (mod-lt off h)
      (λ p. omega (arith, div-add-mod' off L)) (omega arith),
)

-- What a level gets from a write: the bytes of the buffer from offset `m` that fall on it.
abbrev landed : Bytes → ℕ → ℕ → ℕ → ℕ → ℕ
landed buf off m size q = if leb (off + m) q && ltb q (off + size) then buf (q - off) else 0

-- Position `p` of level `target` lies in the chunk at `c` of level `l` only if these are one level.
chunk_position :
    (L l target off c m cs p : ℕ)
    → l * L + c ≡ off + m
    → c + cs ≤ L
    → p < L
    → in_range (off + m) cs (target * L + p) ≡ (l == target && in_range c cs p)
chunk_position L l target off c m cs p e h q =
    ground (arith, next_cover L l target, next_cover L target l, ap (λ (t : ℕ). t * L))

-- `v` gets the chunk's byte or none, and then the bytes behind the chunk.
join_landed :
    (buf : Bytes) (off m cs size q v y z : ℕ) (inside some_level : Bool)
    → m + cs ≤ size
    → in_range (off + m) cs q ≡ inside
    → y ≡ (if inside then buf (q - off) else 0)
    → (inside ≡ true → some_level ≡ true)
    → z ≡ bit_xor (bit_xor v y) (if some_level then landed buf off (m + cs) size q else 0)
    → z ≡ bit_xor v (if some_level then landed buf off m size q else 0)
join_landed buf off m cs size q v y z false true fits i ey imp ez = ground (arith, xor-zero v)
join_landed buf off m cs size q v y z false false fits i ey imp ez = ground (arith, xor-zero v)
join_landed buf off m cs size q v y z true false fits i ey imp ez = ground arith
join_landed buf off m cs size q v y z true true fits i ey imp ez =
    ground (arith, xor-zero (bit_xor v (buf (q - off))))

chunk_byte :
    (buf : Bytes) (L l target off c m cs p : ℕ)
    → l * L + c ≡ off + m
    → (if (l == target && in_range c cs p) then buf (m + (p - c)) else 0)
      ≡ (if (l == target && in_range c cs p) then buf (target * L + p - off) else 0)
chunk_byte buf L l target off c m cs p e =
    let same : l ≡ target → c ≤ p → m + (p - c) ≡ target * L + p - off =
      λ t q. rw (← t) (omega arith) in
    ground (arith, same)

pub level-lt : (L l c n count : ℕ) → l * L + c < n → n ≤ count * L → l < count
level-lt L l c n count h k = grind arith

-- `r` is a key that shares an odd number of covers with level `target` and no other.
module _ (r : Bytes) (target : ℕ) (keys : ℕ → Bytes) (buf : Bytes) (L size off : ℕ) (count : ℕ)
    (hk : (l : ℕ) → l < count → product r (keys l) ≡ (l == target))
    (fit : off + size ≤ count * L) where
  chunk_written :
      (l c m cs p : ℕ) (disk : Bytes)
      → c + cs ≤ L
      → p < L
      → m < size
      → l * L + c ≡ off + m
      → level_view r (write_op buf L (keys l) c m cs disk) L p
        ≡ bit_xor
            (level_view r disk L p)
            (if (l == target && in_range c cs p) then buf (target * L + p - off) else 0)
  chunk_written l c m cs p disk hc hp lt e =
      write_cover_file_delta-level_view r (keys l) buf disk L c m cs p hc hp
      ∙ rw (hk l (level-lt L l c (off + size) count (omega arith) fit))
          (ap (bit_xor (level_view r disk L p)) (chunk_byte buf L l target off c m cs p e))

  write_merged_loop_view :
      (fuel l c m : ℕ) (disk : Bytes) (p : ℕ)
      → c < L
      → p < L
      → (m < size → l * L + c ≡ off + m)
      → size ≤ m + fuel
      → level_view r (merged_loop (write_op buf L) keys L size fuel l c m disk) L p
        ≡ bit_xor
            (level_view r disk L p)
            (if ltb target count then landed buf off m size (target * L + p) else 0)
  write_merged_loop_view zero l c m disk p hc hp e f =
      rw (merged_loop_done (write_op buf L) keys L size zero l c m disk (omega arith))
        (ground (arith, xor-zero (level_view r disk L p)))
  write_merged_loop_view (suc fuel) l c m disk p hc hp e f =
      let cs = min (size - m) (L - c) in
      let done = write_op buf L (keys l) c m cs disk in
      elim (dec_lt m size) [
        | no q ↦
            rw (merged_loop_done (write_op buf L) keys L size (suc fuel) l c m disk (omega arith))
              (ground (arith, xor-zero (level_view r disk L p)))
        | yes q ↦
            let inside : Bool = l == target && in_range c cs p in
            let y : ℕ = if inside then buf (target * L + p - off) else 0 in
            let lt = level-lt L l c (off + size) count (omega (arith, e q)) fit in
            ap (λ (t : Bytes). level_view r t L p)
              (merged_loop-suc (write_op buf L) keys L size fuel l c m disk q)
            ∙ join_landed buf off m cs size (target * L + p) (level_view r disk L p) y _ inside
                (ltb target count) (omega arith)
                (chunk_position L l target off c m cs p (e q) (omega arith) hp) refl
                (λ t. ground arith)
                (write_merged_loop_view fuel (l + 1) 0 (m + cs) done p (omega arith) hp
                    (λ k. omega (arith, e q)) (omega arith)
                  ∙ ap
                      (λ t. bit_xor t (
                        if ltb target count
                        then landed buf off (m + cs) size (target * L + p)
                        else 0))
                      (chunk_written l c m cs p disk (omega arith) hp q (e q)))
      ]

-- A write of the user level adds the buffer, in the range that is written, to the level that `r`
-- reads if `r` goes with the write key of number `target`, and leaves it alone if with none.
pub write_merged_cover_file_delta_view :
    (r : Bytes) (target : ℕ) (key : StegoKey) (buf disk : Bytes) (L size off count p : ℕ)
    → ((l : ℕ) → l < count → product r (key.write_keys l) ≡ (l == target))
    → off + size ≤ count * L
    → p < L
    → level_view r (write_merged_cover_file_delta key disk L off buf size) L p
      ≡ bit_xor (level_view r disk L p) (
          if ltb target count && in_range off size (target * L + p)
          then buf (target * L + p - off)
          else 0)
unfolding write_merged_cover_file_delta
write_merged_cover_file_delta_view r target key buf disk L size off count p hk fit hp = ground (
  arith,
  write_merged_loop_view r target key.write_keys buf L size off count hk fit size (off / L)
      (off % L) 0 disk p (mod-lt off (omega arith)) hp (λ q. omega (arith, div-add-mod' off L))
      (omega arith),
)

write_merged_loop_keytab :
    (buf : Bytes) (keys : ℕ → Bytes) (L size fuel l c m : ℕ) (disk : Bytes) (a : ℕ)
    → a < keytab_size
    → merged_loop (write_op buf L) keys L size fuel l c m disk a ≡ disk a
unfolding merged_loop
write_merged_loop_keytab buf keys L size zero l c m disk a h = refl
write_merged_loop_keytab buf keys L size (suc fuel) l c m disk a h =
    let cs = min (size - m) (L - c) in
    ground (
      arith,
      write_merged_loop_keytab buf keys L size fuel (l + 1) 0 (m + cs)
          (write_op buf L (keys l) c m cs disk) a h,
      write_cover_file_delta_keytab (keys l) buf disk L c m cs a h,
    )

pub write_merged_cover_file_delta_keytab :
    (key : StegoKey) (disk : Bytes) (L off : ℕ) (buf : Bytes) (size a : ℕ)
    → a < keytab_size
    → write_merged_cover_file_delta key disk L off buf size a ≡ disk a
unfolding write_merged_cover_file_delta
write_merged_cover_file_delta_keytab key disk L off buf size a h =
    write_merged_loop_keytab buf key.write_keys L size size (off / L) (off % L) 0 disk a h
