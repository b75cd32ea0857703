-- ===== src/Server/Ledger.antt =====
-- The slots of a key through all reports of a request to GetQueryQuota.
use modern_flux.Base.{
  ℕ, zero, suc, ◌+◌, ◌≤◌, ◌<◌, ◌^◌, ◌≡◌, refl, false, ◌&&◌, List, [], ◌∷◌, arith, get_or, set,
  Bool-cases, inl, inr,
}
use modern_flux.Base.Int.{pos, pos_part, neg_part, positive}
use modern_flux.Base.Word.{i32, i32_fits}
use modern_flux.Base.Bytes.{Bytes}
use modern_flux.Base.Dict.{lookup, lookup_or, emplace, lookup_or-emplace, sum_by, le-sum_by}
use modern_flux.Message.{ReportItem}
use modern_flux.Quota.Times.{get_time_key}
use modern_flux.Quota.Slot.{no_data, TimeItem, empty_item, account, init_all}
use modern_flux.Quota.Slot.Balance.{
  count_of, IsBalanced, retired_after, account-IsBalanced, add_report-sum,
}
use modern_flux.Server.Books.{Books, report_item, report_items}
use modern_flux.Server.Share.{AreFair, IsBalanced→IsFair}

-- A balanced slot of at most `bound` requests.
pub record IsLedger (bound : ℕ) (t : TimeItem) : Type 0 where
  pub retired : ℕ
  pub balanced : IsBalanced retired t
  pub below : sum_by count_of t.mapidnum + retired ≤ bound

abbrev pub AreLedgers : ℕ → List TimeItem → Type 0
AreLedgers bound [] = Unit {0}
AreLedgers bound (t ∷ ts) = IsLedger bound t × AreLedgers bound ts

pub AreLedgers→AreFair : (bound : ℕ) (ts : List TimeItem) → AreLedgers bound ts → AreFair bound ts
AreLedgers→AreFair bound [] h = tt
AreLedgers→AreFair bound (t ∷ ts) (one, h) = (
  IsBalanced→IsFair bound one.retired (sum_by count_of t.mapidnum + one.retired) t one.balanced
      one.balanced.sum_eq one.below,
  AreLedgers→AreFair bound ts h,
)

-- A report adds at most its own number to a slot.
account-sum :
    (procid : Bytes) (item : ReportItem) (n timekey bound : ℕ) (t : TimeItem)
    → item.reportnum ≡ pos n
    → bound + n < 2 ^ 31
    → IsLedger bound t
    → pos_part (account false procid item timekey t).sum ≤ bound + n
unfolding account init_all
account-sum procid item n timekey bound t e fits l =
    let m = emplace procid no_data t.mapidnum in
    let before = lookup_or procid no_data m in
    let same : before ≡ lookup_or procid no_data t.mapidnum =
      lookup_or-emplace procid procid no_data t.mapidnum in
    let total : ℕ = sum_by count_of t.mapidnum + l.retired in
    let part : count_of before ≤ total =
      rw same (omega (arith, le-sum_by count_of procid no_data t.mapidnum refl)) in
    let sign : neg_part before.sum ≡ 0 = rw same (l.balanced.nonneg procid) in
    let whole : before.sum ≡ pos (count_of before) = ground arith in
    let added =
      add_report-sum total n (count_of before) before item (record t { mapidnum = m })
        l.balanced.sum_eq whole e part (omega (arith, l.below)) in
    let own : i32 item.reportnum ≡ pos n = rw e (i32_fits (pos n) (omega arith)) in
    ground (arith, added.0, own, l.below, l.balanced.sum_eq)

pub account-IsLedger :
    (procid : Bytes) (item : ReportItem) (n timekey bound : ℕ) (t : TimeItem)
    → item.reportnum ≡ pos n
    → bound + n < 2 ^ 31
    → IsLedger bound t
    → IsLedger (bound + n) (account false procid item timekey t)
account-IsLedger procid item n timekey bound t e fits l =
    let balanced =
      account-IsBalanced false procid item n timekey l.retired t e (omega (arith, l.below))
        l.balanced in
    record {
      retired = retired_after procid n timekey t l.retired;
      balanced = balanced;
      below = ground (arith, balanced.sum_eq, account-sum procid item n timekey bound t e fits l);
    }

IsLedger-grow : (bound more : ℕ) (t : TimeItem) → IsLedger bound t → bound ≤ more → IsLedger more t
IsLedger-grow bound more t l le = record {
  retired = l.retired;
  balanced = l.balanced;
  below = omega (arith, l.below);
}

pub AreLedgers-grow :
    (bound more : ℕ) (ts : List TimeItem) → AreLedgers bound ts → bound ≤ more → AreLedgers more ts
AreLedgers-grow bound more [] h le = tt
AreLedgers-grow bound more (t ∷ ts) (one, h) le =
    (IsLedger-grow bound more t one le, AreLedgers-grow bound more ts h le)

pub empty-IsLedger : (bound : ℕ) → IsLedger bound empty_item
unfolding sum_by lookup_or lookup
empty-IsLedger bound = record {
  retired = 0;
  balanced = record { sum_eq = refl; nonneg = λ k. refl };
  below = omega arith;
}

pub get_or-IsLedger :
    (bound i : ℕ) (ts : List TimeItem)
    → AreLedgers bound ts
    → IsLedger bound (get_or ts i empty_item)
get_or-IsLedger bound i [] h = empty-IsLedger bound
get_or-IsLedger bound zero (t ∷ ts) h = h.0
get_or-IsLedger bound (suc i) (t ∷ ts) h = get_or-IsLedger bound i ts h.1

pub set-AreLedgers :
    (bound i : ℕ) (v : TimeItem) (ts : List TimeItem)
    → AreLedgers bound ts
    → IsLedger bound v
    → AreLedgers bound (set ts i v)
set-AreLedgers bound i v [] h one = h
set-AreLedgers bound zero v (t ∷ ts) h one = (one, h.1)
set-AreLedgers bound (suc i) v (t ∷ ts) h one = (h.0, set-AreLedgers bound i v ts h.1 one)

-- The requests that a list of reports counts.
abbrev pub requests : List ReportItem → ℕ
requests [] = 0
requests (item ∷ items) = pos_part item.reportnum + requests items

report_item-AreLedgers :
    (junk bound : ℕ) (procid : Bytes) (item : ReportItem) (s : Books)
    → bound + pos_part item.reportnum < 2 ^ 31
    → AreLedgers bound s.act
    → AreLedgers (bound + pos_part item.reportnum) (report_item junk procid item s).act
unfolding report_item
report_item-AreLedgers junk bound procid item s fits h =
    let n : ℕ = pos_part item.reportnum in
    let timekey = (get_time_key (pos_part item.timekey)).0 in
    let index = (get_time_key (pos_part item.timekey)).1 in
    let titem = get_or s.act index empty_item in
    let kept = AreLedgers-grow bound (bound + n) s.act h (omega arith) in
    elim (Bool-cases (positive item.timekey && positive item.reportnum)) [
      | inl on ↦
          let whole : item.reportnum ≡ pos n = ground arith in
          rw on (
            set-AreLedgers (bound + n) index (account false procid item timekey titem) s.act kept (
              account-IsLedger procid item n timekey bound titem whole fits
                (get_or-IsLedger bound index s.act h)))
      | inr off ↦ rw off kept
    ]

-- The reports of one request keep the slots of the key balanced, and add at most the requests that
-- they count to a slot, as long as the sums stay int32_t numbers.
pub report_items-AreLedgers :
    (junk bound : ℕ) (procid : Bytes) (items : List ReportItem) (s : Books)
    → bound + requests items < 2 ^ 31
    → AreLedgers bound s.act
    → AreLedgers (bound + requests items) (report_items junk procid items s).act
unfolding report_items
report_items-AreLedgers junk bound procid [] s fits h =
    AreLedgers-grow bound (bound + 0) s.act h (omega arith)
report_items-AreLedgers junk bound procid (item ∷ items) s fits h =
    let n : ℕ = pos_part item.reportnum in
    let one = report_item-AreLedgers junk bound procid item s (omega arith) h in
    let rest =
      report_items-AreLedgers junk (bound + n) procid items (report_item junk procid item s)
        (omega arith) one in
    AreLedgers-grow (bound + n + requests items) (bound + (n + requests items)) _ rest (omega arith)
