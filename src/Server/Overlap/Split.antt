-- ===== src/Server/Overlap/Split.antt =====
-- The two parts of an access against the access in one go.
use modern_flux.Base.{
  ℕ, ◌≡◌, refl, ap, sym, ◌∙◌, true, Option, none, some, [], ◌&&◌, if◌then◌else◌, Option-cases,
  Bool-cases, inl, inr,
}
use modern_flux.Base.Int.{ℤ, positive}
use modern_flux.Base.Bytes.{Bytes, eq_bytes}
use modern_flux.Base.Dict.{Dict, insert, insert-insert, lookup-insert_self}
use modern_flux.Message.{SetQuotaReq, SetQuotaRsp}
use modern_flux.Quota.Record.{QDataMap}
use modern_flux.Server.{SetCfgFirst, Server}
use modern_flux.Server.Second.{
  access_second, may_ask, set_sum, set_request, touch_procs, apply_procqs,
}
use modern_flux.Server.Overlap.{begin_access, take_answer, end_access}

-- The second part, if a request was sent.
abbrev then_end :
    (SetQuotaReq → Option SetQuotaRsp) → ℕ → Bytes → Option SetQuotaReq × Server → Server
then_end net now k (none, s) = s
then_end net now k (some req, s) = end_access now k (net req) s

abbrev unlock : SetCfgFirst → SetCfgFirst
unlock cfg = record cfg { lock = 0 }

unlock-set_sum :
    (k : Bytes) (rsp : SetQuotaRsp) (cfg : SetCfgFirst) (n : ℕ)
    → unlock (set_sum k rsp cfg) ≡ unlock (set_sum k rsp (record cfg { lock = n }))
unfolding set_sum
unlock-set_sum k rsp cfg n = elim (Bool-cases (eq_bytes rsp.setkey k && positive rsp.setsum)) [
  | inl new ↦ rw new refl
  | inr old ↦ rw old refl
]

-- The set after an access with the answer `rsp`.
abbrev closed : ℕ → Bytes → Option SetQuotaRsp → SetCfgFirst → SetCfgFirst
closed now k none cfg = unlock cfg
closed now k (some rsp) cfg = unlock (set_sum k rsp (record cfg { updatetime = now }))

-- The quotas of the processes after it.
abbrev assigned : ℕ → Bytes → Option SetQuotaRsp → QDataMap → QDataMap
assigned now k none procs = procs
assigned now k (some rsp) procs =
    if eq_bytes rsp.setkey k then apply_procqs now rsp.procq procs else procs

module _ (net : SetQuotaReq → Option SetQuotaRsp) (group : ℤ) (now : ℕ) (k : Bytes)
    (cfg : SetCfgFirst) (s : Server) where
  abbrev asked : SetCfgFirst
  asked = record cfg { updatetime = now; lock = 1 }

  abbrev touched : QDataMap
  touched = touch_procs s.s_setproc s.s_map_proc_quota

  abbrev sent : Server
  sent = record s {
    s_map_proc_quota = touched;
    s_setproc = [];
    map_set_cfg_first = insert k asked s.map_set_cfg_first;
  }

  abbrev after : Option SetQuotaRsp → Server
  after rsp = record s {
    s_map_proc_quota = assigned now k rsp touched;
    s_setproc = [];
    map_set_cfg_first = insert k (closed now k rsp asked) s.map_set_cfg_first;
  }

  end_access-sent : (rsp : Option SetQuotaRsp) → end_access now k rsp sent ≡ after rsp
  unfolding end_access take_answer
  end_access-sent none =
      rw (lookup-insert_self k asked s.map_set_cfg_first, end_access)
        (ap (λ (m : Dict SetCfgFirst). record (after none) { map_set_cfg_first = m })
          (insert-insert k (closed now k none asked) asked s.map_set_cfg_first))
  end_access-sent (some rsp) =
      rw (lookup-insert_self k asked s.map_set_cfg_first, end_access)
        (ap (λ (m : Dict SetCfgFirst). record (after (some rsp)) { map_set_cfg_first = m })
          (insert-insert k (closed now k (some rsp) asked) asked s.map_set_cfg_first))

  abbrev request : SetQuotaReq
  request = set_request group k asked touched s.s_setproc

  access_second-after :
      may_ask now s.s_setproc cfg ≡ true → access_second net group now k cfg s ≡ after (net request)
  unfolding access_second set_request
  access_second-after asks = elim (Option-cases (net request)) [
    | inl e ↦ rw (asks, e) refl
    | inr (rsp, e) ↦
        rw (asks, e)
          (ap
            (λ (c : SetCfgFirst). record (after (some rsp)) {
              map_set_cfg_first = insert k c s.map_set_cfg_first;
            })
            (unlock-set_sum k rsp (record cfg { updatetime = now }) 1))
  ]

  -- The two parts, the second at once after the first, are the access of GetQueryQuota as the handler
  -- has it.
  then_end-begin_access :
      then_end net now k (begin_access group now k cfg s) ≡ access_second net group now k cfg s
  unfolding begin_access access_second
  then_end-begin_access = elim (Bool-cases (may_ask now s.s_setproc cfg)) [
    | inl asks ↦ rw asks (end_access-sent (net request)) ∙ sym (access_second-after asks)
    | inr waits ↦ rw waits refl
  ]
