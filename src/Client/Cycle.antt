-- ===== src/Client/Cycle.antt =====
-- Requests that overlap: while one waits for the quota server, the framework runs others. The lock
-- of a key against the requests that wait for an answer on it.
use modern_flux.Base.{
  ℕ, ◌+◌, ◌≤◌, ◌≡◌, refl, ap, ◌⊎◌, Option, none, some, List, [], ◌∷◌, ◌++◌, arith, ◌==◌,
  if◌then◌else◌, Option-cases, inl, inr,
}
use modern_flux.Base.Bytes.{Bytes, eq_bytes, eq_bytes_iff}
use modern_flux.Base.Dict.{Dict, insert, lookup, lookup_or, lookup_or-emplace, lookup_or-insert}
use modern_flux.Base.Int.{ℤ, pos, ltb_ℤ, ◌+ℤ◌}
use modern_flux.Base.Word.{i64}
use modern_flux.Message.{QuotaReq}
use modern_flux.Client.{
  LocalData, init_local, init_local_map, q_set_overload, q_set_valid, set_averq, clear_quota,
}
use modern_flux.Client.Judge.{Env, Verdict, judge_next, judge_first, process_by_refer, heartbeat}
use modern_flux.Client.Exchange.{Exchange, may_report, record_slot}
use modern_flux.Client.Check.{
  Client, Request, Begun, begin_second, judge, set_check, after_verdict, check_begin, check_finish,
  finish_local, end_exchange, stat_exchange, stat_delta, stat_vary, stat_minute,
}

-- A request between its two parts.
abbrev pub Thread : Type 0
Thread = Request × Begun

abbrev pub waits : Bytes → Thread → ℕ
waits k (q, b) = if eq_bytes q.keyid k then (elim b.req [ none ↦ 0 | some r ↦ 1 ]) else 0

-- The requests on `k` that the quota server has not answered.
unfoldable pub outstanding : Bytes → List Thread → ℕ
outstanding k [] = 0
outstanding k (t ∷ ts) = waits k t + outstanding k ts

-- A request is answered exactly where it was sent off.
abbrev pub Answers : Begun → Option Exchange → Type 0
Answers b x =
    (b.req ≡ none) × (x ≡ none) ⊎ (r : QuotaReq) × (y : Exchange) × (b.req ≡ some r) × (x ≡ some y)

-- The two parts of `CheckQuota` for any requests, in any order; also where the code would run both
-- in one go.
pub data Step : Client × List Thread → Client × List Thread → Type 0 where
  start :
      (e : Env) (q : Request) (b : Begun) (s s' : Client) (ts : List Thread)
      → check_begin e q s ≡ some (b, s')
      → Step (s, ts) (s', (q, b) ∷ ts)
  finish :
      (e : Env) (q : Request) (b : Begun) (x : Option Exchange) (s : Client) (ts us : List Thread)
      → Answers b x
      → Step (s, ts ++ (q, b) ∷ us) ((check_finish e q b x s).1, ts ++ us)

pub data Steps : Client × List Thread → Client × List Thread → Type 0 where
  stay : (w : Client × List Thread) → Steps w w
  step : (u v w : Client × List Thread) → Steps u v → Step v w → Steps u w

abbrev pub lock_of : Bytes → Dict LocalData → ℕ
lock_of k m = (lookup_or k init_local m).lock

lock-insert :
    (k j : Bytes) (v : LocalData) (m : Dict LocalData)
    → lock_of k (insert j v m) ≡ (if eq_bytes j k then v.lock else lock_of k m)
lock-insert k j v m = ground (arith, lookup_or-insert j k v init_local m)

lock-init : (k j : Bytes) (m : Dict LocalData) → lock_of k (init_local_map j m) ≡ lock_of k m
unfolding init_local_map
lock-init k j m = ap (λ (l : LocalData). l.lock) (lookup_or-emplace j k init_local m)

-- Writing an entry with the lock that it has.
lock-insert_same :
    (k j : Bytes) (v : LocalData) (m : Dict LocalData)
    → v.lock ≡ lock_of j m
    → lock_of k (insert j v m) ≡ lock_of k m
lock-insert_same k j v m e = ground (arith, lock-insert k j v m, eq_bytes_iff j k)

lock-refer :
    (e : Env) (k j r : Bytes) (m m' : Dict LocalData) (v : Verdict)
    → process_by_refer e j r m ≡ some (v, m')
    → lock_of k m' ≡ lock_of k m
unfolding process_by_refer
lock-refer e k j r m m' v h = ground (arith, lock-init k r m)

lock-judge_next :
    (e : Env) (k j r : Bytes) (local : LocalData) (m m' : Dict LocalData) (v : Verdict)
    → local.lock ≡ lock_of j m
    → judge_next e j r local m ≡ some (v, m')
    → lock_of k m' ≡ lock_of k m
unfolding judge_next clear_quota
lock-judge_next e k j r local m m' v same h =
    let next : LocalData = record local { nowsum = i64 (local.nowsum +ℤ pos 1) } in
    let cleared : LocalData = if heartbeat e.now next then clear_quota next else next in
    elim (Option-cases (process_by_refer e j r (insert j cleared m))) [
      | inl none_eq ↦ ground (arith, lock-insert_same k j next m same)
      | inr ((w, m1), some_eq) ↦ ground (
        arith,
        lock-insert_same k j next m same,
        lock-insert_same k j cleared m (ground arith),
        lock-refer e k j r (insert j cleared m) m1 w some_eq,
      )
    ]

lock-judge :
    (e : Env) (k : Bytes) (q : Request) (local : LocalData) (m m' : Dict LocalData) (v : Verdict)
    → local.lock ≡ lock_of q.keyid m
    → judge e q local m ≡ some (v, m')
    → lock_of k m' ≡ lock_of k m
unfolding judge judge_first
lock-judge e k q local m m' v same h = ground (
  arith,
  lock-judge_next e k q.keyid q.referid (record local { totalquota = q.totalquota }) m m' v same,
  lock-insert_same k q.keyid (judge_first e.now (record local { totalquota = q.totalquota })) m
      same,
)

lock-set_check :
    (e : Env) (n : ℕ) (ret : ℤ) (local : LocalData) → (set_check e n ret local).1.lock ≡ local.lock
unfolding set_check q_set_overload q_set_valid set_averq
lock-set_check e n ret local = ground arith

lock-finish_local :
    (e : Env) (q : Request) (b : Begun) (x : Option Exchange) (local : LocalData)
    → (finish_local e q b x local).lock ≡ elim x [ none ↦ local.lock | some y ↦ 0 ]
unfolding finish_local end_exchange stat_exchange stat_delta stat_vary stat_minute
lock-finish_local e q b x local = ground arith

-- A call that sends a request takes the lock, which was open; another leaves it.
abbrev Takes : Bytes → Dict LocalData → Dict LocalData → Thread → Type 0
Takes k m m' t =
    (lock_of k m' ≡ lock_of k m + waits k t) × (lock_of k m + waits k t ≤ 1 ⊎ waits k t ≡ 0)

lock-after_verdict :
    (e : Env) (k : Bytes) (q : Request) (v : Verdict) (s : Client)
    → let r = after_verdict e q v s in Takes k s.s_map_local r.1.s_map_local (q, r.0)
unfolding after_verdict record_slot may_report
lock-after_verdict e k q v s =
    let old = lookup_or q.keyid init_local s.s_map_local in
    let over = set_check e s.s_setsum v.ret old in
    let local = record_slot (ltb_ℤ v.ret (pos 2)) over.0 e.now over.1 in
    let locked : LocalData = record local { lock = 1 } in
    ground (
      arith,
      lock-set_check e s.s_setsum v.ret old,
      lock-insert k q.keyid local s.s_map_local,
      lock-insert k q.keyid locked s.s_map_local,
      eq_bytes_iff q.keyid k,
    )

lock-begin_second :
    (k : Bytes) (now : ℕ) (s : Client) → (begin_second now s).s_map_local ≡ s.s_map_local
unfolding begin_second
lock-begin_second k now s = ground arith

lock-check_begin :
    (e : Env) (k : Bytes) (q : Request) (b : Begun) (s s' : Client)
    → check_begin e q s ≡ some (b, s')
    → Takes k s.s_map_local s'.s_map_local (q, b)
unfolding check_begin
lock-check_begin e k q b s s' h =
    let m = init_local_map q.keyid s.s_map_local in
    let s0 : Client = record s { s_map_local = m } in
    let s1 = begin_second e.now s0 in
    let local = lookup_or q.keyid init_local m in
    elim (Option-cases (judge e q local m)) [
      | inl none_eq ↦
          ground (arith, lock-init k q.keyid s.s_map_local, lock-begin_second k e.now s0)
      | inr ((v, m'), some_eq) ↦
          let s2 : Client = record s1 { s_map_local = m' } in
          ground (
            arith,
            lock-init k q.keyid s.s_map_local,
            lock-begin_second k e.now s0,
            lock-judge e k q local m m' v refl some_eq,
            lock-after_verdict e k q v s2,
          )
    ]

-- A call that was answered opens the lock; another leaves it.
lock-check_finish :
    (e : Env) (k : Bytes) (q : Request) (b : Begun) (x : Option Exchange) (s : Client)
    → Answers b x
    → lock_of k (check_finish e q b x s).1.s_map_local
      ≡ (if waits k (q, b) == 1 then 0 else lock_of k s.s_map_local)
unfolding check_finish
lock-check_finish e k q b x s a =
    let old = lookup_or q.keyid init_local s.s_map_local in
    let local = finish_local e q b x old in
    ground (
      arith,
      lock-finish_local e q b x old,
      lock-insert k q.keyid local s.s_map_local,
      eq_bytes_iff q.keyid k,
    )

outstanding-append :
    (k : Bytes) (ts us : List Thread)
    → outstanding k (ts ++ us) ≡ outstanding k ts + outstanding k us
unfolding outstanding
outstanding-append k [] us = omega arith
outstanding-append k (t ∷ ts) us = omega (arith, outstanding-append k ts us)

-- Nothing is locked without a request, nor twice.
abbrev pub IsSingle : Client × List Thread → Type 0
IsSingle (s, ts) =
    (k : Bytes) → (lock_of k s.s_map_local ≡ outstanding k ts) × (outstanding k ts ≤ 1)

Step-IsSingle : (u v : Client × List Thread) → Step u v → IsSingle u → IsSingle v
unfolding outstanding
Step-IsSingle u v (start e q b s s' ts h) single k =
    grind (arith, lock-check_begin e k q b s s' h, single k)
Step-IsSingle u v (finish e q b x s ts us a) single k = grind (
  arith,
  lock-check_finish e k q b x s a,
  outstanding-append k ts us,
  outstanding-append k ts ((q, b) ∷ us),
  single k,
)

-- However the calls of `CheckQuota` overlap, starting from no data and no request, the lock of a key
-- is 1 exactly while one of its requests waits for the quota server, and at most one waits at a time.
pub Steps-IsSingle :
    (now setsum : ℕ) (v : Client × List Thread)
    → Steps (record { s_map_local = []; s_now = now; s_setsum = setsum }, []) v
    → IsSingle v
unfolding outstanding lookup_or lookup
Steps-IsSingle now setsum v (stay w) k = (refl, omega arith)
Steps-IsSingle now setsum v (step u v' w st one) k =
    Step-IsSingle v' w one (Steps-IsSingle now setsum v' st) k
