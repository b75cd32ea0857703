-- ===== src/Server/Together/Sums.antt =====
-- Sums over several processes.
use modern_flux.Base.{
  ℕ, zero, suc, ◌+◌, ◌-◌, ◌%◌, ◌≤◌, ◌≡◌, refl, false, List, [], ◌∷◌, arith, get_or, Bool-cases, inl,
  inr,
}
use modern_flux.Base.Bytes.{Bytes, eq_bytes}
use modern_flux.Base.Dict.{Dict, lookup_or, insert, sum_by, sum_by-insert, lookup_or-insert}
use modern_flux.Quota.Slot.{ProData, no_data, TimeItem, empty_item}
use modern_flux.Quota.Slot.Balance.{count_of}
use modern_flux.Server.Ledger.{IsLedger, AreLedgers, get_or-IsLedger}
use modern_flux.Server.Alloc.{is_past}
use modern_flux.Server.Together.{own, all_sum, old, slots_total}

abbrev pub sum_over : (Bytes → ℕ) → List Bytes → ℕ
sum_over f [] = 0
sum_over f (p ∷ ps) = f p + sum_over f ps

-- No process stands twice.
abbrev pub IsNew : Bytes → List Bytes → Type 0
IsNew p [] = Unit {0}
IsNew p (q ∷ qs) = (eq_bytes p q ≡ false) × IsNew p qs

abbrev pub AreDistinct : List Bytes → Type 0
AreDistinct [] = Unit {0}
AreDistinct (p ∷ ps) = IsNew p ps × AreDistinct ps

pub sum_over_mono :
    (f g : Bytes → ℕ) (ps : List Bytes) → ((p : Bytes) → f p ≤ g p) → sum_over f ps ≤ sum_over g ps
sum_over_mono f g [] h = omega arith
sum_over_mono f g (p ∷ ps) h = omega (arith, h p, sum_over_mono f g ps h)

sum_over-add :
    (f g : Bytes → ℕ) (ps : List Bytes)
    → sum_over (λ p. f p + g p) ps ≡ sum_over f ps + sum_over g ps
sum_over-add f g [] = omega arith
sum_over-add f g (p ∷ ps) = omega (arith, sum_over-add f g ps)

sum_over-zero : (ps : List Bytes) → sum_over (λ p. 0) ps ≡ 0
sum_over-zero [] = refl
sum_over-zero (p ∷ ps) = omega (arith, sum_over-zero ps)

-- The other processes do not see an entry that is written.
others :
    (p : Bytes) (d : ProData) (ps : List Bytes) (m : Dict ProData)
    → IsNew p ps
    → sum_over (λ q. count_of (lookup_or q no_data (insert p d m))) ps
      ≡ sum_over (λ q. count_of (lookup_or q no_data m)) ps
others p d [] m h = refl
others p d (q ∷ qs) m h = ground (arith, lookup_or-insert p q d no_data m, others p d qs m h.1)

-- Different processes have together at most what all have.
counts-le :
    (ps : List Bytes) (m : Dict ProData)
    → AreDistinct ps
    → sum_over (λ p. count_of (lookup_or p no_data m)) ps ≤ sum_by count_of m
counts-le [] m h = omega arith
counts-le (p ∷ ps) m h =
    let without = insert p no_data m in
    omega (
      arith,
      sum_by-insert count_of p no_data no_data m refl,
      counts-le ps without h.1,
      others p no_data ps m h.0,
    )

own-le :
    (bound : ℕ) (t : TimeItem) (ps : List Bytes)
    → IsLedger bound t
    → AreDistinct ps
    → sum_over (λ p. own p t) ps ≤ all_sum t
own-le bound t ps l h = ground (arith, counts-le ps t.mapidnum h, l.balanced.sum_eq)

old-own-le :
    (bound nowkey : ℕ) (t : TimeItem) (ps : List Bytes)
    → IsLedger bound t
    → AreDistinct ps
    → sum_over (λ p. old nowkey (own p) t) ps ≤ old nowkey all_sum t
old-own-le bound nowkey t ps l h = elim (Bool-cases (is_past nowkey t)) [
  | inl on ↦ rw on (own-le bound t ps l h)
  | inr off ↦ rw off (omega (arith, sum_over-zero ps))
]

-- And so over all slots.
pub slots_total-le :
    (bound rounds beindex nowkey : ℕ) (slots : List TimeItem) (ps : List Bytes)
    → AreLedgers bound slots
    → AreDistinct ps
    → sum_over (λ p. slots_total rounds beindex nowkey (own p) slots) ps
      ≤ slots_total rounds beindex nowkey all_sum slots
slots_total-le bound zero beindex nowkey slots ps l h = omega (arith, sum_over-zero ps)
slots_total-le bound (suc k) beindex nowkey slots ps l h =
    let t = get_or slots beindex empty_item in
    let next = (beindex + 6 - 1) % 6 in
    omega (
      arith,
      sum_over-add (λ p. old nowkey (own p) t) (λ p. slots_total k next nowkey (own p) slots) ps,
      old-own-le bound nowkey t ps (get_or-IsLedger bound beindex slots l) h,
      slots_total-le bound k next nowkey slots ps l h,
    )
