-- ===== src/Client/Admission.antt =====
-- How many requests of one second `CheckQuota` lets pass while the quota server answers.
use modern_flux.Base.{
  ℕ, zero, suc, ◌+◌, ◌-◌, ◌≤◌, ◌<◌, ◌^◌, ◌≡◌, refl, ap, ◌≢◌, Option, none, some, arith, leb,
  if◌then◌else◌,
}
use modern_flux.Base.Int.{ℤ, pos, ltb_ℤ, leb_ℤ, ◌+ℤ◌}
use modern_flux.Base.Word.{i64, i64_fits}
use modern_flux.Base.Bytes.{eq_bytes_refl}
use modern_flux.Base.Dict.{Dict, insert, lookup_or, lookup_or-insert}
use modern_flux.Client.{LocalData, init_local, over_percent}
use modern_flux.Client.Judge.{Env, judge_next, judge_first, undecided, by_local_quota}
use modern_flux.Client.Check.{Request, judge}

-- `QUOTA_FLOAT_PERCENT` is 0, so the answer is the same for every random number: at the quota and
-- above it a request counts as too much.
over_percent-no_chance : (r : ℕ) (percent : ℤ) → over_percent r percent ≡ leb_ℤ (pos 100) percent
unfolding over_percent ◌+ℤ◌
over_percent-no_chance r percent = ground arith

-- Requests of one key, judged one after the other; how many of them may pass.
unfoldable pub second : Env → Request → ℕ → Dict LocalData → Option (ℕ × Dict LocalData)
second e q zero m = some (0, m)
second e q (suc n) m = elim (judge e q (lookup_or q.keyid init_local m) m) [
  | none ↦ none
  | some (v, m') ↦ elim (second e q n m') [
    | none ↦ none
    | some (k, m2) ↦ some (if ltb_ℤ v.ret (pos 2) then suc k else k, m2)
  ]
]

-- A quota of `c` that is enforced, by a server that answered within the last five minutes.
pub record IsLive (now c : ℕ) (local : LocalData) : Type 0 where
  pub quota : local.localquotaver ≡ pos c
  pub restrain : local.restrainquota ≡ pos c
  pub above : 10 < c
  pub answered : now ≤ local.updatetime + 300

next_sum : (seen : ℕ) → suc seen < 2 ^ 31 → i64 (pos seen +ℤ pos 1) ≡ pos (suc seen)
unfolding ◌+ℤ◌
next_sum seen fits =
    let inside : pos seen +ℤ pos 1 ≡ pos (suc seen) = ground arith in
    rw inside (i64_fits (pos (suc seen)) (omega arith))

abbrev counted : Request → ℕ → LocalData → LocalData
counted q n local = record local { totalquota = q.totalquota; nowsum = pos n }

judge-running :
    (e : Env) (q : Request) (c seen : ℕ) (m : Dict LocalData) (local : LocalData)
    → IsLive e.now c local
    → local.now ≡ e.now
    → local.nowsum ≡ pos seen
    → suc seen < 2 ^ 31
    → judge e q local m
      ≡ some (
        by_local_quota (counted q (suc seen) local),
        insert q.keyid (counted q (suc seen) local) m,
      )
unfolding judge judge_next
judge-running e q c seen m local live same sum fits =
    rw (sum, next_sum seen fits) (ground (arith, live.quota, live.above, live.answered))

judge-fresh :
    (e : Env) (q : Request) (m : Dict LocalData) (local : LocalData)
    → local.now ≢ e.now
    → judge e q local m
      ≡ some (
        undecided,
        insert q.keyid (judge_first e.now (record local { totalquota = q.totalquota })) m,
      )
unfolding judge
judge-fresh e q m local n = ground arith

verdict-ret :
    (q : Request) (now c seen : ℕ) (local : LocalData)
    → IsLive now c local
    → ltb_ℤ (by_local_quota (counted q (suc seen) local)).ret (pos 2) ≡ leb (suc seen) c
unfolding by_local_quota
verdict-ret q now c seen local live = rw (live.quota, live.restrain) (ground (arith, live.above))

abbrev pub smaller : ℕ → ℕ → ℕ
smaller a b = if leb a b then a else b

second-running :
    (e : Env) (q : Request) (c seen n : ℕ) (m : Dict LocalData)
    → IsLive e.now c (lookup_or q.keyid init_local m)
    → (lookup_or q.keyid init_local m).now ≡ e.now
    → (lookup_or q.keyid init_local m).nowsum ≡ pos seen
    → seen + n < 2 ^ 31
    → (m' : Dict LocalData) × (second e q n m ≡ some (smaller n (c - seen), m'))
unfolding second
second-running e q c seen zero m live same sum fits = (m, ground arith)
second-running e q c seen (suc n) m live same sum fits =
    let local = lookup_or q.keyid init_local m in
    let m' = insert q.keyid (counted q (suc seen) local) m in
    let found : lookup_or q.keyid init_local m' ≡ counted q (suc seen) local =
      rw
        (
          lookup_or-insert q.keyid q.keyid (counted q (suc seen) local) init_local m,
          eq_bytes_refl q.keyid,
        )
        refl in
    let rest =
      second-running e q c (suc seen) n m'
        (rw found (record {
          quota = live.quota;
          restrain = live.restrain;
          above = live.above;
          answered = live.answered;
        }))
        (rw found same) (ap (λ (l : LocalData). l.nowsum) found) (omega arith) in
    (
      rest.0,
      ground (
        arith,
        judge-running e q c seen m local live same sum (omega arith),
        verdict-ret q e.now c seen local live,
        rest.1,
      ),
    )

IsLive-first :
    (now c : ℕ) (q : Request) {local : LocalData}
    → IsLive now c local
    → IsLive now c (judge_first now (record local { totalquota = q.totalquota }))
unfolding judge_first
IsLive-first now c q live = record {
  quota = live.quota;
  restrain = live.restrain;
  above = live.above;
  answered = live.answered;
}

-- While the server answers and enforces a quota `c` above 10, of the requests that `CheckQuota`
-- judges for a key in one second the first `c` pass and the others do not, where no answer
-- changes the quota in between.
pub second-admits :
    (e : Env) (q : Request) (c n : ℕ) (m : Dict LocalData)
    → IsLive e.now c (lookup_or q.keyid init_local m)
    → (lookup_or q.keyid init_local m).now ≢ e.now
    → n < 2 ^ 31
    → (m' : Dict LocalData) × (second e q n m ≡ some (smaller n c, m'))
unfolding second judge_first
second-admits e q c zero m live new fits = (m, ground arith)
second-admits e q c (suc n) m live new fits =
    let local = lookup_or q.keyid init_local m in
    let fresh = judge_first e.now (record local { totalquota = q.totalquota }) in
    let m' = insert q.keyid fresh m in
    let found : lookup_or q.keyid init_local m' ≡ fresh =
      rw (lookup_or-insert q.keyid q.keyid fresh init_local m, eq_bytes_refl q.keyid) refl in
    let rest =
      second-running e q c 1 n m' (rw found (IsLive-first e.now c q live))
        (ap (λ (l : LocalData). l.now) found) (ap (λ (l : LocalData). l.nowsum) found)
        (omega arith) in
    (rest.0, ground (arith, judge-fresh e q m local new, rest.1, live.above))
