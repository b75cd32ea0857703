-- ===== src/Quota/Record/Shares.antt =====
-- The shares of a quota that the servers hand out.
use modern_flux.Base.{ℕ, ◌+◌, ◌*◌, ◌/◌, ◌%◌, ◌≤◌, ◌<◌, List, [], ◌∷◌, arith}
use native.Mathlib.Nat.{mod-le, mul-le-mul_left}
use modern_flux.Base.Int.{pos, pos_part}
use modern_flux.Base.Word.{i32, u32, u32_fits, mod32}
use modern_flux.Quota.Record.{QData, get_proc_q}

unfoldable pub sum : List ℕ → ℕ
sum [] = 0
sum (x ∷ xs) = x + sum xs

-- quota * part / whole, rounded down, for each part.
unfoldable pub shares : ℕ → ℕ → List ℕ → List ℕ
shares quota whole [] = []
shares quota whole (p ∷ ps) = quota * p / whole ∷ shares quota whole ps

shares_weighted :
    (quota whole : ℕ) (ps : List ℕ)
    → 0 < whole
    → sum (shares quota whole ps) * whole ≤ quota * sum ps
unfolding sum shares
shares_weighted quota whole [] w = omega arith
shares_weighted quota whole (p ∷ ps) w = grind (arith, shares_weighted quota whole ps w)

-- Parts that add up to no more than the whole get no more than the quota.
pub shares_bounded :
    (quota whole : ℕ) (ps : List ℕ)
    → 0 < whole
    → sum ps ≤ whole
    → sum (shares quota whole ps) ≤ quota
shares_bounded quota whole ps w le = grind (arith, shares_weighted quota whole ps w)

pub div_mono : (x y v : ℕ) → 0 < v → x ≤ y → x / v ≤ y / v
div_mono x y v p h = grind arith

pub div_next : (x y v : ℕ) → 0 < v → x + v ≤ y → x / v < y / v
div_next x y v p h = grind arith

u32-le : (p : ℕ) → u32 (pos p) ≤ p
unfolding u32
u32-le p = omega arith

pos_part-i32 : (n : ℕ) → pos_part (i32 (pos n)) ≤ n
unfolding i32
pos_part-i32 n = ground arith

-- What `GetProcQ` hands out, as plain numbers.
abbrev pub proc_quotas : QData → List ℕ → List ℕ
proc_quotas d [] = []
proc_quotas d (p ∷ ps) = pos_part (get_proc_q d (pos p)) ∷ proc_quotas d ps

-- No process gets more than its share rounded down, whatever overflows.
pub get_proc_q-le_share :
    (d : QData) (p : ℕ) → pos_part (get_proc_q d (pos p)) ≤ d.setquota * p / d.setvalid
unfolding get_proc_q
get_proc_q-le_share d p = ground (
  arith,
  pos_part-i32 (((d.setquota * u32 (pos p)) % mod32) / d.setvalid),
  div_mono ((d.setquota * u32 (pos p)) % mod32) (d.setquota * p) d.setvalid,
  mod-le (d.setquota * u32 (pos p)) mod32,
  mul-le-mul_left d.setquota (u32-le p),
)

proc_quotas-shares :
    (d : QData) (ps : List ℕ) → sum (proc_quotas d ps) ≤ sum (shares d.setquota d.setvalid ps)
unfolding sum shares
proc_quotas-shares d [] = omega arith
proc_quotas-shares d (p ∷ ps) = omega (arith, get_proc_q-le_share d p, proc_quotas-shares d ps)

-- The shares that GetProcQ computes for processes whose requests make up no more than those of the set
-- add up to no more than the quota of the set. This holds also where the products overflow.
pub get_proc_q-le_quota :
    (d : QData) (ps : List ℕ)
    → 0 < d.setvalid
    → sum ps ≤ d.setvalid
    → sum (proc_quotas d ps) ≤ d.setquota
get_proc_q-le_quota d ps v le =
    omega (arith, proc_quotas-shares d ps, shares_bounded d.setquota d.setvalid ps v le)

-- Where the product of the quota and a process's requests reaches 2^32, the process gets less than
-- its share; both numbers of requests are uint32_t, and that of the set is not 0.
get_proc_q_overflow :
    (d : QData) (p : ℕ)
    → 0 < d.setvalid
    → d.setvalid ≤ mod32
    → mod32 ≤ d.setquota * p
    → p < mod32
    → pos_part (get_proc_q d (pos p)) < d.setquota * p / d.setvalid
unfolding get_proc_q
get_proc_q_overflow d p v w o lt = ground (
  arith,
  u32_fits p,
  pos_part-i32 (((d.setquota * p) % mod32) / d.setvalid),
  div_next ((d.setquota * p) % mod32) (d.setquota * p) d.setvalid,
)
