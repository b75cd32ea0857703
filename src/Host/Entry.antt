-- ===== src/Host/Entry.antt =====
-- The counters of running requests and of times: MTEnter, MTLeave, GetMTNum, ReportAtt, LoopLeave,
-- FlowEnter and FlowLeave of QuaServer/ServiceQua.cpp, with MTItem and WindItem of
-- QuaServer/ServiceQua.h. Of WindItem the fields are kept that these functions use. A minute is
-- `GetMinute()`, from 0 to 59.
pub mod Running
use modern_flux.Base.{ℕ, ◌%◌, Bool, true, false, not, List, [], ◌∷◌, if◌then◌else◌}
use modern_flux.Base.Int.{ℤ, pos, ◌+ℤ◌, ◌-ℤ◌, ltb_ℤ, eqb_ℤ}
use modern_flux.Base.Word.{i64, u32}

pub record MtItem : Type 0 where
  pub mtnum : ℤ
  pub mttotal : ℤ
  pub mtmax : ℤ
  pub mtcpumax : ℤ
  pub mtmemmax : ℤ
  pub ident : ℤ

abbrev pub max_ℤ : ℤ → ℤ → ℤ
max_ℤ a b = if ltb_ℤ a b then b else a

-- MTEnter
unfoldable pub mt_enter : ℤ → ℕ → MtItem → ℕ × MtItem
mt_enter minute num wi =
    let mtnum = i64 (wi.mtnum +ℤ pos num) in
    let same = eqb_ℤ wi.ident minute in
    (
      u32 mtnum,
      record wi {
        mtnum = mtnum;
        mttotal = if same then i64 (wi.mttotal +ℤ pos num) else pos 0;
        mtmax = if same then max_ℤ wi.mtmax mtnum else pos 0;
        ident = minute;
      },
    )

-- MTLeave
unfoldable pub mt_leave : ℕ → MtItem → ℕ × MtItem
mt_leave num wi = let mtnum = i64 (wi.mtnum -ℤ pos num) in (u32 mtnum, record wi { mtnum = mtnum })

-- GetMTNum
unfoldable pub get_mt_num : MtItem → ℕ
get_mt_num wi = u32 wi.mtnum

-- ReportAtt
unfoldable pub report_att : ℤ → ℕ → ℕ → MtItem → MtItem
report_att minute cpu mem wi =
    let same = eqb_ℤ wi.ident minute in
    record wi {
      mtcpumax = if same then max_ℤ wi.mtcpumax (pos cpu) else pos 0;
      mtmemmax = if same then max_ℤ wi.mtmemmax (pos mem) else pos 0;
      ident = minute;
    }

pub record WindItem : Type 0 where
  pub looplast : ℤ
  pub loopdelta : ℤ
  pub loopdeltamax : ℤ
  pub reqtimemax : ℤ
  pub ident : ℤ

-- LoopLeave, at `ttime` in milliseconds.
unfoldable pub loop_leave : ℤ → WindItem → WindItem
loop_leave ttime wi =
    let delta = if eqb_ℤ (pos 0) wi.looplast then pos 0 else i64 (ttime -ℤ wi.looplast) in
    record wi { loopdelta = delta; loopdeltamax = max_ℤ wi.loopdeltamax delta; looplast = ttime }

-- FlowEnter
unfoldable pub flow_enter : ℤ → WindItem → WindItem
flow_enter minute wi =
    if eqb_ℤ wi.ident minute
    then wi
    else record wi { ident = minute; loopdeltamax = pos 0; reqtimemax = pos 0 }

-- FlowLeave
unfoldable pub flow_leave : ℤ → WindItem → WindItem
flow_leave deltatime wi = record wi { reqtimemax = max_ℤ wi.reqtimemax deltatime }

-- What happens to the counters: entries and exits, and reports of the load.
pub data Event : Type 0 where
  enter : ℤ → ℕ → Event
  leave : ℕ → Event
  report : ℤ → ℕ → ℕ → Event

-- The counters after one event, and after several.
unfoldable pub happen : Event → MtItem → MtItem
unfolding mt_enter mt_leave report_att
happen (enter minute num) wi = (mt_enter minute num wi).1
happen (leave num) wi = (mt_leave num wi).1
happen (report minute cpu mem) wi = report_att minute cpu mem wi

unfoldable pub happen_all : List Event → MtItem → MtItem
unfolding happen
happen_all [] wi = wi
happen_all (e ∷ es) wi = happen_all es (happen e wi)
