-- ===== src/Quota/Slot.antt =====
-- PRODATA and TIMEITEM of QuaServer/ServiceQua.h: the reports of ten seconds, in sum and for each
-- process, and the functions of ServiceQua.cpp that add a report. All counters are int32_t.
pub mod Balance
use modern_flux.Base.{
  ℕ, zero, ◌≡◌, Bool, true, false, ◌||◌, List, [], ◌∷◌, ltb, ◌==◌, if◌then◌else◌,
}
use modern_flux.Base.Int.{ℤ, pos, pos_part, ltb_ℤ, eqb_ℤ, positive, ◌+ℤ◌, ◌-ℤ◌}
use modern_flux.Base.Word.{i32}
use modern_flux.Base.Bytes.{Bytes}
use modern_flux.Base.Dict.{Dict, lookup, insert, emplace, lookup_or}
use modern_flux.Message.{ReportItem}

pub record ProData : Type 0 where
  pub sum : ℤ
  pub refuse : ℤ
  pub setrefuse : ℤ

abbrev pub no_data : ProData
no_data = record { sum = pos 0; refuse = pos 0; setrefuse = pos 0 }

pub record TimeItem : Type 0 where
  pub timekey : ℕ
  pub sum : ℤ
  pub refuse : ℤ
  pub setrefuse : ℤ
  pub mapidnum : Dict ProData

abbrev pub empty_item : TimeItem
empty_item = record { timekey = 0; sum = pos 0; refuse = pos 0; setrefuse = pos 0; mapidnum = [] }

unfoldable pub get_refuse : ReportItem → ℤ
get_refuse item = if positive item.refuse then i32 item.refuse else pos 0

unfoldable pub get_set_refuse : ReportItem → ℤ
get_set_refuse item = if positive item.setrefuse then i32 item.setrefuse else pos 0

-- PRODATA::Init(item)
unfoldable pub init_data : ReportItem → ProData
unfolding get_refuse get_set_refuse
init_data item = record {
  sum = i32 item.reportnum;
  refuse = get_refuse item;
  setrefuse = get_set_refuse item;
}

-- TIMEITEM::Real
unfoldable pub real : TimeItem → ℤ
real t = if ltb_ℤ t.setrefuse t.sum then i32 (t.sum -ℤ t.setrefuse) else pos 0

-- InitAll; the processes' own counts stay.
unfoldable pub init_all : TimeItem → ReportItem → ℕ → TimeItem
unfolding get_refuse get_set_refuse
init_all t item timekey = record t {
  sum = i32 item.reportnum;
  refuse = get_refuse item;
  setrefuse = get_set_refuse item;
  timekey = timekey;
}

-- The two objects that an addition writes: the slot and `*prociddata`.
pub record Cells : Type 0 where
  pub titem : TimeItem
  pub proc : ProData

-- The argument `last`: a copy, or a reference to `*prociddata` itself.
pub data Last : Type 0 where
  copy : ProData → Last
  alias : Last

abbrev pub read : Last → Cells → ProData
read (copy d) c = d
read alias c = c.proc

unfoldable pub normal_add_sum : Last → ReportItem → Cells → Cells
normal_add_sum last item c =
    let sum = i32 item.reportnum in
    record {
      titem = record c.titem { sum = i32 (i32 (c.titem.sum -ℤ (read last c).sum) +ℤ sum) };
      proc = record c.proc { sum = sum };
    }

unfoldable pub normal_add_refuse : Last → ReportItem → Cells → Cells
normal_add_refuse last item c =
    let refuse = get_refuse item in
    record {
      titem = record c.titem {
        refuse = i32 (i32 (c.titem.refuse -ℤ (read last c).refuse) +ℤ refuse);
      };
      proc = record c.proc { refuse = refuse };
    }

unfoldable pub normal_add_set_refuse : Last → ReportItem → Cells → Cells
normal_add_set_refuse last item c =
    let setrefuse = get_set_refuse item in
    record {
      titem = record c.titem {
        setrefuse = i32 (i32 (c.titem.setrefuse -ℤ (read last c).setrefuse) +ℤ setrefuse);
      };
      proc = record c.proc { setrefuse = setrefuse };
    }

-- Without `prociddata` the caller drops the second cell.
unfoldable pub normal_add_all : Last → ReportItem → Cells → Cells
unfolding normal_add_sum normal_add_refuse normal_add_set_refuse
normal_add_all last item c =
    normal_add_set_refuse last item (normal_add_refuse last item (normal_add_sum last item c))

unfoldable pub reset_add_all : ReportItem → Cells → Cells
reset_add_all item c = record {
  titem = record c.titem {
    sum = i32 (c.titem.sum +ℤ i32 item.reportnum);
    refuse = i32 (c.titem.refuse +ℤ get_refuse item);
    setrefuse = i32 (c.titem.setrefuse +ℤ get_set_refuse item);
  };
  proc = init_data item;
}

-- A report for the slot's own ten seconds: a process that counts from the start again, or goes on.
unfoldable pub add_report : ProData → Last → ReportItem → Cells → Cells
unfolding init_data
add_report before last item c =
    if eqb_ℤ (pos 0) before.sum || ltb_ℤ (init_data item).sum before.sum
    then reset_add_all item c
    else normal_add_all last item c

abbrev pub is_new : ℕ → TimeItem → Bool
is_new timekey t = (0 == t.timekey) || ltb t.timekey timekey

-- A report of `procid` into a slot that keeps the processes apart; `aliased` says whether `last` is
-- the entry itself or a copy. A report for older seconds only makes an entry for the process.
unfoldable pub account : Bool → Bytes → ReportItem → ℕ → TimeItem → TimeItem
account aliased procid item timekey t =
    let m = emplace procid no_data t.mapidnum in
    let before = lookup_or procid no_data m in
    let last = if aliased then alias else copy before in
    let c =
      add_report before last item (record { titem = record t { mapidnum = m }; proc = before }) in
    if is_new timekey t
    then record (init_all t item timekey) { mapidnum = (procid, init_data item) ∷ [] }
    else if timekey == t.timekey
    then record c.titem { mapidnum = insert procid c.proc m }
    else record t { mapidnum = m }

-- The same report into the sums of a set or of a process, by the data `before` of the first slot.
unfoldable pub account_sum : ProData → ReportItem → ℕ → TimeItem → TimeItem
account_sum before item timekey t =
    if is_new timekey t
    then init_all t item timekey
    else if timekey == t.timekey
    then (add_report before (copy before) item (record { titem = t; proc = before })).titem
    else t
