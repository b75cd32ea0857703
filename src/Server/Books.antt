-- ===== src/Server/Books.antt =====
-- The loop of GetQueryQuota (QuaServer/ServiceQua.cpp) that enters the reports of a process: into
-- the slots of the key, of the set, and of the process.
use modern_flux.Base.{
  ℕ, false, ◌&&◌, Option, none, some, List, [], ◌∷◌, leb, if◌then◌else◌, length, get_or, set,
}
use modern_flux.Base.Int.{pos_part, positive}
use modern_flux.Base.Bytes.{Bytes}
use modern_flux.Base.Dict.{Dict, insert, emplace, lookup_or}
use modern_flux.Message.{ReportItem}
use modern_flux.Text.{split_string, pieces, underscore}
use modern_flux.Quota.Times.{get_time_key}
use modern_flux.Quota.Slot.{ProData, TimeItem, empty_item, no_data, is_new, account, account_sum}
use modern_flux.Quota.Record.{QDataMap, init_qdata, init_key_qua_alloc}

-- The slots of the key, those of the set if there is one, and the data of the processes.
pub record Books : Type 0 where
  pub act : List TimeItem
  pub group : Option (List TimeItem)
  pub procs : QDataMap

-- Before a slot is taken over, its processes are looked up for a report that is switched off; those
-- with a group id get an entry. `junk` is what a new QDATA holds in `updatetime`.
unfoldable pub left_procs : ℕ → Dict ProData → QDataMap → QDataMap
unfolding init_key_qua_alloc
left_procs junk [] procs = procs
left_procs junk ((id, d) ∷ m) procs = left_procs junk m (
    if leb 2 (length (pieces (split_string id underscore)))
    then init_key_qua_alloc junk id procs
    else procs)

unfoldable pub add_slot : ProData → ReportItem → ℕ → ℕ → List TimeItem → List TimeItem
unfolding account_sum
add_slot before item timekey index slots =
    set slots index (account_sum before item timekey (get_or slots index empty_item))

-- One report of the loop. The set and the process are accounted for by what the key's slot held.
unfoldable pub report_item : ℕ → Bytes → ReportItem → Books → Books
unfolding get_time_key left_procs add_slot account
report_item junk procid item s =
    if positive item.timekey && positive item.reportnum
    then (let timekey = (get_time_key (pos_part item.timekey)).0 in
        let index = (get_time_key (pos_part item.timekey)).1 in
        let titem = get_or s.act index empty_item in
        let mapidnum = emplace procid no_data titem.mapidnum in
        let before = lookup_or procid no_data mapidnum in
        let procs = if is_new timekey titem then left_procs junk mapidnum s.procs else s.procs in
        let proc = lookup_or procid (init_qdata 0) procs in
        record {
          act = set s.act index (account false procid item timekey titem);
          group = elim s.group [
            | none ↦ none
            | some slots ↦ some (add_slot before item timekey index slots)
          ];
          procs =
              insert procid (record proc { titem = add_slot before item timekey index proc.titem })
                procs;
        })
    else s

unfoldable pub report_items : ℕ → Bytes → List ReportItem → Books → Books
unfolding report_item
report_items junk procid [] s = s
report_items junk procid (item ∷ items) s =
    report_items junk procid items (report_item junk procid item s)
