-- ===== src/Quota/Slot/Balance.antt =====
-- The sum of a slot against the counts of its processes.
use modern_flux.Base.{
  ℕ, ◌+◌, ◌-◌, Option-cases, inl, inr, ◌≤◌, ◌<◌, ◌^◌, ◌≡◌, refl, ap, Bool, true, false, [], ◌∷◌,
  arith, ltb, ◌==◌, if◌then◌else◌,
}
use modern_flux.Base.Int.{ℤ, pos, pos_part, neg_part, ◌+ℤ◌, ◌-ℤ◌}
use modern_flux.Base.Word.{i32, i32_fits}
use modern_flux.Base.Bytes.{Bytes}
use modern_flux.Base.Dict.{
  Dict, lookup, lookup_or, lookup_or-none, emplace, insert, sum_by, sum_by-insert,
  lookup_or-emplace, lookup_or-insert, le-sum_by,
}
use modern_flux.Message.{ReportItem}
use modern_flux.Quota.Slot.{
  ProData, no_data, TimeItem, Cells, Last, copy, alias, normal_add_all, reset_add_all, add_report,
  init_data, init_all, account, is_new,
}

-- ProSETQuota hands `NormalAddAll` a reference to the very record that it writes. Each of the three
-- additions reads its own field before it is written, so a copy gives the same.
pub add_report-alias :
    (item : ReportItem) (c : Cells)
    → add_report c.proc alias item c ≡ add_report c.proc (copy c.proc) item c
unfolding add_report normal_add_all
add_report-alias item c = refl

-- A report changes a slot alike whether `last` is the record that is written, as in ProSETQuota, or
-- a copy of it, as in GetQueryQuota.
pub account-alias :
    (procid : Bytes) (item : ReportItem) (timekey : ℕ) (t : TimeItem)
    → account true procid item timekey t ≡ account false procid item timekey t
unfolding account add_report normal_add_all
account-alias procid item timekey t = refl

abbrev pub count_of : ProData → ℕ
count_of d = pos_part d.sum

-- The slot's sum is the last counts of its processes, and what restarted processes had counted.
pub record IsBalanced (retired : ℕ) (t : TimeItem) : Type 0 where
  pub sum_eq : t.sum ≡ pos (sum_by count_of t.mapidnum + retired)
  pub nonneg : (k : Bytes) → neg_part (lookup_or k no_data t.mapidnum).sum ≡ 0

-- The sum after a report of `n` by a process that had reported `b`.
abbrev pub new_sum : ℕ → ℕ → ℕ → ℕ
new_sum total n b = if ltb n b then total + n else total + n - b

add_fits : (a b : ℕ) → a + b < 2 ^ 31 → i32 (pos a +ℤ pos b) ≡ pos (a + b)
unfolding ◌+ℤ◌
add_fits a b h =
    let inside : pos a +ℤ pos b ≡ pos (a + b) = ground arith in
    rw inside (i32_fits (pos (a + b)) (omega arith))

sub_fits : (a b : ℕ) → b ≤ a → a < 2 ^ 31 → i32 (pos a -ℤ pos b) ≡ pos (a - b)
unfolding ◌-ℤ◌
sub_fits a b le h =
    let inside : pos a -ℤ pos b ≡ pos (a - b) = ground arith in
    rw inside (i32_fits (pos (a - b)) (omega arith))

pub add_report-sum :
    (total n b : ℕ) (before : ProData) (item : ReportItem) (t : TimeItem)
    → t.sum ≡ pos total
    → before.sum ≡ pos b
    → item.reportnum ≡ pos n
    → b ≤ total
    → total + n < 2 ^ 31
    → let c = add_report before (copy before) item (record { titem = t; proc = before }) in
      (c.titem.sum ≡ pos (new_sum total n b)) × (c.proc.sum ≡ pos n)
unfolding add_report reset_add_all normal_add_all
add_report-sum total n b before item t e f g le lt =
    ground (arith, i32_fits (pos n), add_fits total n lt, sub_fits total b, add_fits (total - b) n)

add_report-mapidnum :
    (before : ProData) (last : Last) (item : ReportItem) (c : Cells)
    → (add_report before last item c).titem.mapidnum ≡ c.titem.mapidnum
unfolding add_report reset_add_all normal_add_all
add_report-mapidnum before last item c = ground arith

pub emplace-sum_by :
    (k : Bytes) (m : Dict ProData) → sum_by count_of (emplace k no_data m) ≡ sum_by count_of m
unfolding emplace
emplace-sum_by k m = elim (Option-cases (lookup k m)) [
  | inl e ↦
      rw (e, emplace)
        (omega (
          arith,
          sum_by-insert count_of k no_data no_data m refl,
          ap count_of (lookup_or-none k no_data m e),
        ))
  | inr (w, e) ↦ rw (e, emplace)
]

-- What restarted processes had counted, after a report of `n`.
abbrev pub retired_after : Bytes → ℕ → ℕ → TimeItem → ℕ → ℕ
retired_after procid n timekey t retired =
    let b = count_of (lookup_or procid no_data t.mapidnum) in
    if is_new timekey t
    then 0
    else if timekey == t.timekey
    then (if ltb n b then retired + b else retired)
    else retired

IsBalanced-if :
    (b : Bool) (r s : ℕ) (t u : TimeItem)
    → IsBalanced r t
    → IsBalanced s u
    → IsBalanced (if b then r else s) (if b then t else u)
IsBalanced-if true r s t u p q = p
IsBalanced-if false r s t u p q = q

-- A report for older seconds.
pub old_slot :
    (procid : Bytes) (retired : ℕ) (t : TimeItem)
    → IsBalanced retired t
    → IsBalanced retired (record t { mapidnum = emplace procid no_data t.mapidnum })
old_slot procid retired t v = record {
  sum_eq = rw (emplace-sum_by procid t.mapidnum) v.sum_eq;
  nonneg = λ k. rw (lookup_or-emplace procid k no_data t.mapidnum) (v.nonneg k);
}

new_slot :
    (procid : Bytes) (item : ReportItem) (n timekey : ℕ) (t : TimeItem)
    → item.reportnum ≡ pos n
    → n < 2 ^ 31
    → IsBalanced 0 (record (init_all t item timekey) { mapidnum = (procid, init_data item) ∷ [] })
unfolding init_all init_data sum_by lookup_or lookup
new_slot procid item n timekey t f lt = record {
  sum_eq = ground (arith, i32_fits (pos n));
  nonneg = λ k. ground (arith, i32_fits (pos n));
}

nonneg_pos : (x : ℤ) → neg_part x ≡ 0 → x ≡ pos (pos_part x)
nonneg_pos x h = ground arith

same_slot :
    (procid : Bytes) (item : ReportItem) (n retired : ℕ) (t : TimeItem)
    → item.reportnum ≡ pos n
    → sum_by count_of t.mapidnum + retired + n < 2 ^ 31
    → IsBalanced retired t
    → let before = lookup_or procid no_data t.mapidnum in
      let c = add_report before (copy before) item (record { titem = t; proc = before }) in
      IsBalanced
        (if ltb n (count_of before) then retired + count_of before else retired)
        (record c.titem { mapidnum = insert procid c.proc t.mapidnum })
same_slot procid item n retired t f lt v =
    let before = lookup_or procid no_data t.mapidnum in
    let c = add_report before (copy before) item (record { titem = t; proc = before }) in
    let total : ℕ = sum_by count_of t.mapidnum + retired in
    let le = le-sum_by count_of procid no_data t.mapidnum refl in
    let r =
      add_report-sum total n (count_of before) before item t v.sum_eq
        (nonneg_pos before.sum (v.nonneg procid)) f (omega (arith, le)) lt in
    record {
      sum_eq = ground (
        arith,
        le,
        r,
        ap pos_part r.1,
        sum_by-insert count_of procid c.proc no_data t.mapidnum refl,
      );
      nonneg = λ k.
          ground (
            arith,
            ap neg_part r.1,
            lookup_or-insert procid k c.proc no_data t.mapidnum,
            v.nonneg k,
          );
    }

account_copy :
    (procid : Bytes) (item : ReportItem) (n timekey retired : ℕ) (t : TimeItem)
    → item.reportnum ≡ pos n
    → sum_by count_of t.mapidnum + retired + n < 2 ^ 31
    → IsBalanced retired t
    → IsBalanced
        (retired_after procid n timekey
          (record t { mapidnum = emplace procid no_data t.mapidnum })
          retired)
        (account false procid item timekey t)
unfolding account
account_copy procid item n timekey retired t f lt v =
    let t' : TimeItem = record t { mapidnum = emplace procid no_data t.mapidnum } in
    let v' = old_slot procid retired t v in
    IsBalanced-if (is_new timekey t) _ _ _ _ (new_slot procid item n timekey t f (omega arith)) (
      IsBalanced-if (timekey == t.timekey) _ _ _ _
        (same_slot procid item n retired t' f (rw (emplace-sum_by procid t.mapidnum) lt) v') v')

-- A report of `n` keeps a balanced slot balanced, as long as the slot's sum and `n` stay below
-- 2^31: a new slot has the report alone, a process that counts on replaces its count, and of one
-- that counts less than before the old count is retired. A report for older seconds adds nothing.
pub account-IsBalanced :
    (aliased : Bool) (procid : Bytes) (item : ReportItem) (n timekey retired : ℕ) (t : TimeItem)
    → item.reportnum ≡ pos n
    → sum_by count_of t.mapidnum + retired + n < 2 ^ 31
    → IsBalanced retired t
    → IsBalanced (retired_after procid n timekey t retired) (account aliased procid item timekey t)
account-IsBalanced true procid item n timekey retired t f lt v =
    rw (account-alias procid item timekey t, ← lookup_or-emplace procid procid no_data t.mapidnum)
      (account_copy procid item n timekey retired t f lt v)
account-IsBalanced false procid item n timekey retired t f lt v =
    rw (← lookup_or-emplace procid procid no_data t.mapidnum)
      (account_copy procid item n timekey retired t f lt v)
