-- ===== src/Base/Memory.antt =====
-- Memory as C sees it through a pointer: a byte for each offset. A pointer does not know how long
-- its object is, so the bounds of each access are in the statements, and what a store leaves
-- alone is too. `buf + k` is `shift buf k`; `memcpy` and `memset` are the C library's.
use Prim.Native.Nat.{ℕ, ◌+◌, ◌-◌, ◌<◌}
use mathlib.Core.Path.{◌≡◌}
use mathlib.Core.Bool.{Bool, ◌&&◌}
use bsfs.Base.Logic.{ltb, leb, ◌==◌, if◌then◌else◌}

abbrev pub Bytes : Type 0
Bytes = ℕ → ℕ

abbrev pub IsBytes : Bytes → Type 0
IsBytes buf = (a : ℕ) → buf a < 256

-- Two memories hold the same bytes below an offset.
abbrev pub Agree : ℕ → Bytes → Bytes → Type 0
Agree n x y = (a : ℕ) → a < n → x a ≡ y a

-- `lo ≤ a < lo + n`
abbrev pub in_range : ℕ → ℕ → ℕ → Bool
in_range lo n a = leb lo a && ltb a (lo + n)

abbrev pub store : Bytes → ℕ → ℕ → Bytes
store buf at v a = if a == at then v else buf a

abbrev pub shift : Bytes → ℕ → Bytes
shift buf k a = buf (k + a)

-- `memcpy (dst + d) src n`
abbrev pub memcpy : Bytes → ℕ → Bytes → ℕ → Bytes
memcpy dst d src n a = if in_range d n a then src (a - d) else dst a

-- `memset (dst + d) v n`
abbrev pub memset : Bytes → ℕ → ℕ → ℕ → Bytes
memset dst d v n a = if in_range d n a then v else dst a
