-- ===== src/SetServer/Ledger.antt =====
-- The slots of the second server through all reports of a request, and the quotas that it answers.
use modern_flux.Base.{
  ℕ, ◌+◌, ◌<◌, ◌^◌, ◌≡◌, true, ◌&&◌, List, [], ◌∷◌, arith, leb, get_or, Bool-cases, inl, inr,
}
use modern_flux.Base.Int.{pos, pos_part, positive}
use modern_flux.Base.Bytes.{Bytes}
use modern_flux.Message.{ReportItem}
use modern_flux.Quota.Times.{get_time_key}
use modern_flux.Quota.Slot.{TimeItem, empty_item, account}
use modern_flux.Quota.Slot.Balance.{account-alias}
use modern_flux.Server.Ledger.{
  IsLedger, AreLedgers, requests, account-IsLedger, AreLedgers-grow, get_or-IsLedger,
  set-AreLedgers,
}
use modern_flux.SetServer.{enter_item, enter_items}

enter_item-AreLedgers :
    (bound : ℕ) (reportid : Bytes) (item : ReportItem) (slots : List TimeItem)
    → bound + pos_part item.reportnum < 2 ^ 31
    → AreLedgers bound slots
    → AreLedgers (bound + pos_part item.reportnum) (enter_item reportid item slots)
unfolding enter_item
enter_item-AreLedgers bound reportid item slots fits h =
    let n : ℕ = pos_part item.reportnum in
    let timekey = (get_time_key (pos_part item.timekey)).0 in
    let index = (get_time_key (pos_part item.timekey)).1 in
    let titem = get_or slots index empty_item in
    let kept = AreLedgers-grow bound (bound + n) slots h (omega arith) in
    elim (Bool-cases
      ((positive item.timekey && positive item.reportnum) && leb titem.timekey timekey)) [
        | inl on ↦
            let whole : item.reportnum ≡ pos n = ground arith in
            let one : IsLedger (bound + n) (account true reportid item timekey titem) =
              rw (account-alias reportid item timekey titem) (
                account-IsLedger reportid item n timekey bound titem whole fits
                  (get_or-IsLedger bound index slots h)) in
            rw on (
              set-AreLedgers (bound + n) index (account true reportid item timekey titem) slots kept
                one)
        | inr off ↦ rw off kept
      ]

-- On the second server too the reports of one request keep the slots balanced, and add at most the
-- requests that they count to a slot, as long as the sums stay int32_t numbers.
pub enter_items-AreLedgers :
    (bound : ℕ) (reportid : Bytes) (items : List ReportItem) (slots : List TimeItem)
    → bound + requests items < 2 ^ 31
    → AreLedgers bound slots
    → AreLedgers (bound + requests items) (enter_items reportid items slots)
unfolding enter_items
enter_items-AreLedgers bound reportid [] slots fits h =
    AreLedgers-grow bound (bound + 0) slots h (omega arith)
enter_items-AreLedgers bound reportid (item ∷ items) slots fits h =
    let n : ℕ = pos_part item.reportnum in
    let one = enter_item-AreLedgers bound reportid item slots (omega arith) h in
    let rest =
      enter_items-AreLedgers (bound + n) reportid items (enter_item reportid item slots)
        (omega arith) one in
    AreLedgers-grow (bound + n + requests items) (bound + (n + requests items)) _ rest (omega arith)
