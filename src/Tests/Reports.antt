-- ===== src/Tests/Reports.antt =====
-- Concrete runs of the quota server's functions.
use modern_flux.Base.{ℕ, ◌+◌, ◌≤◌, ◌<◌, ◌≡◌, ◌↔◌, refl, true, [], ◌∷◌, arith}
use modern_flux.Base.Int.{pos}
use modern_flux.Base.Dict.{Dict, lookup, lookup_or, sum_by}
use modern_flux.Message.{ReportItem}
use modern_flux.Quota.Slot.{TimeItem, account}
use modern_flux.Quota.Slot.Balance.{IsBalanced, retired_after, account-IsBalanced}
use modern_flux.Quota.Peer.{IdInfo, no_info, IdMap, judge}
use modern_flux.Quota.Peer.Steady.{after_reports, Steady, judge-Steady}
use modern_flux.Quota.Record.{QData}
use modern_flux.Quota.Record.Shares.{sum, proc_quotas, get_proc_q-le_quota}

abbrev report : ReportItem
report = record { timekey = pos 120; reportnum = pos 4; refuse = pos 0; setrefuse = pos 1 }

-- Ten seconds from 120, in which one process has counted 7.
abbrev seven : TimeItem
seven = record {
  timekey = 120;
  sum = pos 7;
  refuse = pos 0;
  setrefuse = pos 0;
  mapidnum = (112 ∷ [], record { sum = pos 7; refuse = pos 0; setrefuse = pos 0 }) ∷ [];
}

seven-IsBalanced : IsBalanced 0 seven
unfolding sum_by lookup_or lookup
seven-IsBalanced = record { sum_eq = refl; nonneg = λ k. ground arith }

account-IsBalanced_example :
    IsBalanced (retired_after (112 ∷ []) 4 120 seven 0) (account true (112 ∷ []) report 120 seven)
account-IsBalanced_example =
    account-IsBalanced true (112 ∷ []) report 4 120 0 seven refl (unfold sum_by in omega arith)
      seven-IsBalanced

judge-Steady_example : ((judge 1120 (after_reports (1100 ∷ 1080 ∷ []))).0 ≡ true) ↔ (
    (f : ℕ) × (1100 ≤ 1120) × (1120 < 1100 + 30) × Steady f (1100 ∷ 1080 ∷ []) × (f + 120 < 1120))
judge-Steady_example = judge-Steady 1120 1100 (1080 ∷ []) (ground arith)

abbrev peers : IdMap
peers = (1 ∷ [], (2 ∷ [], record { aquota = 0; updatetime = 40; firsttime = 30 }) ∷ []) ∷ []

abbrev two_peers : Dict IdInfo
two_peers = (2 ∷ [], no_info) ∷ (3 ∷ [], no_info) ∷ []

abbrev set_data : QData
set_data = record {
  titem = [];
  mapalloq = [];
  mapworker = [];
  updatetime = 0;
  setvalid = 8;
  setquota = 100;
  setrefuse = 0;
  setnowsum = 0;
  workernum = 1;
  setfirstvalid = true;
}

get_proc_q-le_quota_example : sum (proc_quotas set_data (3 ∷ 5 ∷ [])) ≤ 100
get_proc_q-le_quota_example =
    get_proc_q-le_quota set_data (3 ∷ 5 ∷ []) (omega arith) (unfold sum in omega arith)

abbrev big_set : QData
big_set = record set_data { setquota = 70000; setvalid = 70000 }
