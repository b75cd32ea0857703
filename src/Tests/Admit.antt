-- ===== src/Tests/Admit.antt =====
-- Concrete runs of the client: two overlapping requests for one key.
use modern_flux.Base.{◌≡◌, ◌⊎◌, ◌≢◌, refl, true, inr, none, some, List, [], ◌∷◌, arith}
use modern_flux.Base.Int.{pos}
use modern_flux.Base.Bytes.{eq_bytes}
use modern_flux.Base.Dict.{Dict, lookup, insert, emplace, lookup_or}
use modern_flux.Client.{LocalData, no_quotas, init_local, init_local_map, q_set_overload}
use modern_flux.Client.Judge.{Env, judge_first, judge_next, process_by_refer}
use modern_flux.Client.Exchange.{may_report, record_slot}
use modern_flux.Client.Check.{
  Client, Request, Begun, not_judged, judge, set_check, after_verdict, check_begin, check_finish,
}
use modern_flux.Client.Admission.{IsLive, second, second-admits}
use modern_flux.Client.Cycle.{
  Thread, Step, start, finish, Steps, stay, step, IsSingle, Steps-IsSingle,
}
use modern_flux.Client.Restraint.{AreBounded, Steps-AreEnforced}
use modern_flux.Client.Enforced.{mean, count, total}
use modern_flux.Message.{QuotaRsp}
use modern_flux.Client.Exchange.{Exchange}
use modern_flux.Client.Answer.{check_quota_answers}

abbrev env : Env
env = record { now = 1000; now_refer = 1000; minute = 3; rand_aver = 7; rand_set = 9; groups = 2 }

abbrev request : Request
request = record {
  keyid = 107 ∷ [];
  groupid = pos 1;
  totalquota = pos 500;
  referid = [];
  serial = [];
}

abbrev nothing : Client
nothing = record { s_map_local = []; s_now = 0; s_setsum = 0 }

abbrev run : Client → Begun × Client
run s = elim (check_begin env request s) [ none ↦ (not_judged, s) | some r ↦ r ]

-- The first request asks the quota server; the second one finds the lock.
abbrev first : Begun × Client
first = run nothing

abbrev again : Begun × Client
again = run first.1

first_begins : check_begin env request nothing ≡ some (first.0, first.1)
unfolding check_begin judge after_verdict init_local_map emplace lookup insert lookup_or eq_bytes
first_begins = refl

again_begins : check_begin env request first.1 ≡ some (again.0, again.1)
unfolding check_begin judge after_verdict init_local_map emplace lookup insert lookup_or eq_bytes
    may_report record_slot set_check q_set_overload judge_first judge_next process_by_refer
again_begins = refl

abbrev one_waits : List Thread
one_waits = (request, first.0) ∷ []

asked : Steps (nothing, []) (first.1, one_waits)
asked =
    step (nothing, []) (nothing, []) (first.1, one_waits) (stay (nothing, []))
      (start env request first.0 nothing first.1 [] first_begins)

both : Steps (nothing, []) (again.1, (request, again.0) ∷ one_waits)
both =
    step (nothing, []) (first.1, one_waits) (again.1, (request, again.0) ∷ one_waits) asked
      (start env request again.0 first.1 again.1 one_waits again_begins)

Steps-IsSingle_example : IsSingle (again.1, (request, again.0) ∷ one_waits)
Steps-IsSingle_example = Steps-IsSingle 0 0 (again.1, (request, again.0) ∷ one_waits) both

-- The request of the first thread is answered with a quota of 60.
abbrev answer : QuotaRsp
answer = record {
  key = 107 ∷ [];
  localq = pos 60;
  totalq = pos 500;
  partnernum = pos 1;
  serial = [];
  ipnum = pos 1;
  alloctype = pos 1;
  allocpartnum = pos 1;
  alloctime = pos 0;
  self = pos 0;
  total = pos 0;
  nowsum = pos 0;
  totalworkernum = pos 0;
  setquota = pos 0;
  setsum = pos 0;
  procquota = pos 0;
}

abbrev answered : Exchange
answered = record { sent = true; perdelta = pos 0; rsp = some answer }

abbrev after_answer : Client
after_answer = (check_finish env request first.0 (some answered) again.1).1

answered_step :
    Step (again.1, (request, again.0) ∷ one_waits) (after_answer, (request, again.0) ∷ [])
unfolding check_begin judge after_verdict init_local_map emplace lookup insert lookup_or eq_bytes
    may_report record_slot set_check q_set_overload judge_first judge_next process_by_refer
answered_step =
    finish env request first.0 (some answered) again.1 ((request, again.0) ∷ []) []
      (inr (_, answered, refl, refl))

all : Steps (nothing, []) (after_answer, (request, again.0) ∷ [])
all =
    step (nothing, []) (again.1, (request, again.0) ∷ one_waits)
      (after_answer, (request, again.0) ∷ []) both answered_step

all_bounded : AreBounded (nothing, []) (after_answer, (request, again.0) ∷ []) all
unfolding all both asked answered_step
all_bounded = (((tt, tt), tt), λ y rsp e f. ground (arith, e, f))

Steps-AreEnforced_example :
    let local = lookup_or (107 ∷ []) init_local after_answer.s_map_local in
    (local.restrainquota ≡ local.localquotaver)
    × ((local.qarray ≡ no_quotas)
        ⊎ (local.localquotaver ≡ pos (mean (count local.qarray) (total local.qarray))))
Steps-AreEnforced_example =
    Steps-AreEnforced 0 0 (after_answer, (request, again.0) ∷ []) all all_bounded (107 ∷ [])

asked_bounded : AreBounded (nothing, []) (first.1, one_waits) asked
unfolding asked
asked_bounded = (tt, tt)

check_quota_answers_example :
    let r = (check_finish env request again.0 none again.1).0 in
    (r ≡ pos 0)
    ⊎ (r ≡ pos 2)
    ⊎ (r ≡ pos 3)
    ⊎ (r ≡ pos 1) × ((lookup_or (107 ∷ []) init_local first.1.s_map_local).localquotaver ≡ pos 10)
check_quota_answers_example =
    check_quota_answers 0 0 env request again.0 first.1 again.1 again.1 one_waits none asked
      asked_bounded again_begins

-- A key with a quota of 20, last used in the second before.
abbrev served : Dict LocalData
served =
    (
      107 ∷ [],
      record init_local {
        localquotaver = pos 20;
        restrainquota = pos 20;
        updatetime = 990;
        now = 999;
      },
    )
    ∷ []

served_lives : IsLive 1000 20 (lookup_or (107 ∷ []) init_local served)
unfolding lookup_or lookup eq_bytes
served_lives = record { quota = refl; restrain = refl; above = omega arith; answered = omega arith }

served_before : (lookup_or (107 ∷ []) init_local served).now ≢ 1000
unfolding lookup_or lookup eq_bytes
served_before = ground arith

second-admits_example : (m' : Dict LocalData) × (second env request 25 served ≡ some (20, m'))
second-admits_example =
    second-admits env request 20 25 served served_lives served_before (omega arith)
