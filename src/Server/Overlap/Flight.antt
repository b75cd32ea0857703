-- ===== src/Server/Overlap/Flight.antt =====
-- One access at a time for each set.
use modern_flux.Base.{
  ℕ, ◌+◌, ◌≤◌, ◌≡◌, refl, ap, sym, ◌∙◌, true, false, Option, none, some, List, [], ◌∷◌, ◌++◌, arith,
  ltb, length, if◌then◌else◌, Option-cases, Bool-cases, inl, inr,
}
use modern_flux.Base.Int.{ℤ}
use modern_flux.Base.Bytes.{Bytes, eq_bytes, eq_bytes_iff}
use modern_flux.Base.Dict.{
  Dict, lookup, lookup_or, insert, emplace, lookup_or-insert, lookup_or-emplace, lookup_or-some,
  lookup_or-none,
}
use modern_flux.Message.{SetQuotaReq, SetQuotaRsp, QuotaReq}
use modern_flux.Quota.Slot.{TimeItem}
use modern_flux.Server.{SetCfgFirst, Server}
use modern_flux.Server.Second.{may_ask}
use modern_flux.Server.Query.{Context, QExtInfo, serve_key, store_set}
use modern_flux.Server.Overlap.{begin_access, take_answer, end_access}
use modern_flux.Config.Sets.{SetItem, init_set_cfg, configure, apply_item}

-- The accesses that wait for an answer, each for the set of a key.
unfoldable pub waiting : Bytes → List Bytes → ℕ
waiting k [] = 0
waiting k (j ∷ js) = (if eq_bytes j k then 1 else 0) + waiting k js

-- What a process of the first server does: it sends a request for a set, takes an answer to any request
-- that waits, serves a report of a client, or takes a set from a file.
pub data Step : Server × List Bytes → Server × List Bytes → Type 0 where
  ask :
      (group : ℤ) (now : ℕ) (k : Bytes) (cfg : SetCfgFirst) (req : SetQuotaReq) (s t : Server)
      (js : List Bytes)
      → lookup k s.map_set_cfg_first ≡ some cfg
      → begin_access group now k cfg s ≡ (some req, t)
      → Step (s, js) (t, k ∷ js)
  answer :
      (now : ℕ) (k : Bytes) (rsp : Option SetQuotaRsp) (s : Server) (is js : List Bytes)
      → Step (s, is ++ k ∷ js) (end_access now k rsp s, is ++ js)
  serve :
      (c : Context) (info : QExtInfo) (req : QuotaReq) (quota : ℕ) (key : Bytes) (s : Server)
      (js : List Bytes)
      → Step (s, js) ((serve_key c info req quota key s).1, js)
  reload : (item : SetItem) (s : Server) (js : List Bytes) → Step (s, js) (apply_item item s, js)

pub data Steps : Server × List Bytes → Server × List Bytes → Type 0 where
  stay : (w : Server × List Bytes) → Steps w w
  step : (u v w : Server × List Bytes) → Steps u v → Step v w → Steps u w

abbrev lock_of : Bytes → Dict SetCfgFirst → ℕ
lock_of k m = (lookup_or k init_set_cfg m).lock

-- The lock of a set is the number of accesses that wait on it, which is at most one.
abbrev pub IsOneFlight : Server × List Bytes → Type 0
IsOneFlight (s, js) =
    (k : Bytes) → (lock_of k s.map_set_cfg_first ≡ waiting k js) × (waiting k js ≤ 1)

lock-insert :
    (k j : Bytes) (v : SetCfgFirst) (m : Dict SetCfgFirst)
    → lock_of k (insert j v m) ≡ (if eq_bytes j k then v.lock else lock_of k m)
lock-insert k j v m = ground (arith, lookup_or-insert j k v init_set_cfg m)

lock-insert_same :
    (k j : Bytes) (v : SetCfgFirst) (m : Dict SetCfgFirst)
    → v.lock ≡ lock_of j m
    → lock_of k (insert j v m) ≡ lock_of k m
lock-insert_same k j v m e = ground (arith, lock-insert k j v m, eq_bytes_iff j k)

lock-store_set :
    (k j : Bytes) (slots : Option (List TimeItem)) (n : ℤ) (m : Dict SetCfgFirst)
    → lock_of k (store_set j slots n m) ≡ lock_of k m
unfolding store_set
lock-store_set k j none n m = refl
lock-store_set k j (some ts) n m = elim (Option-cases (lookup j m)) [
  | inl e ↦ rw (e, store_set) refl
  | inr (cfg, e) ↦
      rw (e, store_set)
        (lock-insert_same k j _ m (ap (λ c. c.lock) (sym (lookup_or-some j init_set_cfg cfg m e))))
]

lock-apply_item :
    (k : Bytes) (item : SetItem) (s : Server)
    → lock_of k (apply_item item s).map_set_cfg_first ≡ lock_of k s.map_set_cfg_first
unfolding apply_item configure
lock-apply_item k item s =
    let key = item.setkey in
    let sets = emplace key init_set_cfg s.map_set_cfg_first in
    let value = configure item (lookup_or key init_set_cfg sets) in
    elim (Bool-cases (ltb 0 (length key))) [
      | inl given ↦ rw given (
          lock-insert_same k key value sets refl
          ∙ ap (λ (c : SetCfgFirst). c.lock)
              (lookup_or-emplace key k init_set_cfg s.map_set_cfg_first))
      | inr empty ↦ rw empty refl
    ]

waiting-append :
    (k j : Bytes) (is js : List Bytes)
    → waiting k (is ++ j ∷ js) ≡ (if eq_bytes j k then 1 else 0) + waiting k (is ++ js)
unfolding waiting
waiting-append k j [] js = refl
waiting-append k j (i ∷ is) js = omega (arith, waiting-append k j is js)

asked :
    (group : ℤ) (now : ℕ) (k : Bytes) (cfg : SetCfgFirst) (s : Server)
    → may_ask now s.s_setproc cfg ≡ true
    → (begin_access group now k cfg s).1.map_set_cfg_first
      ≡ insert k (record cfg { updatetime = now; lock = 1 }) s.map_set_cfg_first
unfolding begin_access
asked group now k cfg s asks = rw asks refl

not_asked :
    (group : ℤ) (now : ℕ) (k : Bytes) (cfg : SetCfgFirst) (s : Server)
    → may_ask now s.s_setproc cfg ≡ false
    → (begin_access group now k cfg s).0 ≡ none
unfolding begin_access
not_asked group now k cfg s waits = rw waits refl

unlocked :
    (now : ℕ) (s : Server) (cfg : SetCfgFirst) → may_ask now s.s_setproc cfg ≡ true → cfg.lock ≡ 0
unfolding may_ask
unlocked now s cfg asks = ground arith

lock-begin_access :
    (group : ℤ) (now : ℕ) (k : Bytes) (cfg : SetCfgFirst) (req : SetQuotaReq) (s t : Server)
    → lookup k s.map_set_cfg_first ≡ some cfg
    → begin_access group now k cfg s ≡ (some req, t)
    → (lock_of k s.map_set_cfg_first ≡ 0)
      × ((j : Bytes)
          → lock_of j t.map_set_cfg_first
            ≡ (if eq_bytes k j then 1 else lock_of j s.map_set_cfg_first))
lock-begin_access group now k cfg req s t known sent =
    elim (Bool-cases (may_ask now s.s_setproc cfg)) [
      | inl asks ↦
          let there : t.map_set_cfg_first
              ≡ insert k (record cfg { updatetime = now; lock = 1 }) s.map_set_cfg_first =
            ap (λ (r : Option SetQuotaReq × Server). r.1.map_set_cfg_first) (sym sent)
            ∙ asked group now k cfg s asks in
          (
            ap (λ (c : SetCfgFirst). c.lock)
                  (lookup_or-some k init_set_cfg cfg s.map_set_cfg_first known)
                ∙ unlocked now s cfg asks,
            λ j.
                rw there
                  (lock-insert j k (record cfg { updatetime = now; lock = 1 }) s.map_set_cfg_first),
          )
      | inr waits ↦
          let silent : none ≡ some req =
            sym (not_asked group now k cfg s waits)
            ∙ ap (λ (r : Option SetQuotaReq × Server). r.0) sent in
          absurd (ground (arith, silent))
    ]

lock-take_answer :
    (now : ℕ) (k : Bytes) (rsp : Option SetQuotaRsp) (cfg : SetCfgFirst) (s : Server)
    → (take_answer now k rsp cfg s).1.map_set_cfg_first ≡ s.map_set_cfg_first
unfolding take_answer
lock-take_answer now k none cfg s = refl
lock-take_answer now k (some rsp) cfg s = refl

lock-end_access :
    (now : ℕ) (k : Bytes) (rsp : Option SetQuotaRsp) (s : Server) (j : Bytes)
    → lock_of j (end_access now k rsp s).map_set_cfg_first
      ≡ (if eq_bytes k j then 0 else lock_of j s.map_set_cfg_first)
unfolding end_access
lock-end_access now k rsp s j = elim (Option-cases (lookup k s.map_set_cfg_first)) [
  | inl e ↦
      rw (e, end_access)
        (ground (
          arith,
          eq_bytes_iff k j,
          ap (λ (c : SetCfgFirst). c.lock) (lookup_or-none k init_set_cfg s.map_set_cfg_first e),
        ))
  | inr (cfg, e) ↦ rw (e, end_access) (lock-insert j k _ s.map_set_cfg_first)
]

lock-serve_key :
    (c : Context) (info : QExtInfo) (req : QuotaReq) (quota : ℕ) (key : Bytes) (s : Server)
    (k : Bytes)
    → lock_of k (serve_key c info req quota key s).1.map_set_cfg_first
      ≡ lock_of k s.map_set_cfg_first
unfolding serve_key
lock-serve_key c info req quota key s k = lock-store_set k _ _ _ s.map_set_cfg_first

Step-IsOneFlight : (u v : Server × List Bytes) → Step u v → IsOneFlight u → IsOneFlight v
unfolding waiting
Step-IsOneFlight u v (ask group now k cfg req s t js known sent) single =
    let (free, after) = lock-begin_access group now k cfg req s t known sent in
    λ j. ground (arith, after j, single j, single k, free, eq_bytes_iff k j)
Step-IsOneFlight u v (answer now k rsp s is js) single =
    λ j. ground (arith, lock-end_access now k rsp s j, waiting-append j k is js, single j)
Step-IsOneFlight u v (serve c info req quota key s js) single =
    λ j. (lock-serve_key c info req quota key s j ∙ (single j).0, (single j).1)
Step-IsOneFlight u v (reload item s js) single =
    λ j. (lock-apply_item j item s ∙ (single j).0, (single j).1)

-- From a state in which the lock of each set is the number of accesses that wait on it, and at most one
-- waits for each set, this stays so, however requests, answers, reports and reloads overlap.
pub Steps-IsOneFlight : (u v : Server × List Bytes) → Steps u v → IsOneFlight u → IsOneFlight v
Steps-IsOneFlight u v (stay w) single = single
Steps-IsOneFlight u v (step a b c before last) single =
    Step-IsOneFlight b c last (Steps-IsOneFlight a b before single)
