-- ===== src/Host/Clean/Fresh.antt =====
-- What the cleaning spares.
use modern_flux.Base.{
  ℕ, ◌+◌, ◌-◌, ◌≤◌, ◌<◌, ◌≡◌, Bool, false, ◌&&◌, some, [], ◌∷◌, arith, ltb, Bool-cases, inl, inr,
}
use modern_flux.Base.Bytes.{Bytes}
use modern_flux.Base.Dict.{Dict, lookup, erase_if}
use modern_flux.Window.{clear_key, s_expire}
use modern_flux.Quota.Record.{clear_qdata}
use modern_flux.Host.Clean.{
  Tables, clear_data, clear_local_data, s_offline_interval, s_offline_begin,
}

-- Of a map with a time in each entry: an entry whose time lies at most three days back
-- stays.
abbrev pub Spares : {V : Type 0} → (V → ℕ) → ℕ → Dict V → Dict V → Type 0
Spares {V} updatetime now old new =
    (k : Bytes) (v : V)
    → lookup k old ≡ some v
    → now ≤ updatetime v + s_expire
    → lookup k new ≡ some v

lookup-erase_if :
    {V : Type 0} (p : V → Bool) (k : Bytes) (v : V) (m : Dict V)
    → lookup k m ≡ some v
    → p v ≡ false
    → lookup k (erase_if p m) ≡ some v
unfolding lookup erase_if
lookup-erase_if p k v [] e keep = e
lookup-erase_if p k v ((j, w) ∷ m) e keep = grind (arith, lookup-erase_if p k v m)

pub record IsSpared (now : ℕ) (old new : Tables) : Type 0 where
  qua : Spares (λ w. w.updatetime) now old.s_map_qua new.s_map_qua
  quota : Spares (λ d. d.updatetime) now old.s_map_quota new.s_map_quota
  proc_quota : Spares (λ d. d.updatetime) now old.s_map_proc_quota new.s_map_proc_quota
  setprocdata : Spares (λ d. d.updatetime) now old.s_map_setprocdata new.s_map_setprocdata
  setsumdata : Spares (λ d. d.updatetime) now old.s_map_setsumdata new.s_map_setsumdata
  local : Spares (λ d. d.updatetime) now old.s_map_local new.s_map_local

erased-Spares :
    {V : Type 0} (updatetime : V → ℕ) (now : ℕ) (m : Dict V)
    → Spares updatetime now m (erase_if (λ v. ltb s_expire (now - updatetime v)) m)
erased-Spares updatetime now m k v e young =
    lookup-erase_if (λ v. ltb s_expire (now - updatetime v)) k v m e (ground arith)

IsSpared-refl : (now : ℕ) (t : Tables) → IsSpared now t t
IsSpared-refl now t = record {
  qua = λ k v e young. e;
  quota = λ k v e young. e;
  proc_quota = λ k v e young. e;
  setprocdata = λ k v e young. e;
  setsumdata = λ k v e young. e;
  local = λ k v e young. e;
}

spared : (now hour : ℕ) (t : Tables) → IsSpared now t (clear_data now hour t)
unfolding clear_data clear_key clear_qdata clear_local_data
spared now hour t =
    elim (Bool-cases (ltb s_offline_interval (now - t.lasterase) && ltb s_offline_begin hour)) [
      | inl due ↦ rw due (record {
        qua = erased-Spares (λ w. w.updatetime) now t.s_map_qua;
        quota = erased-Spares (λ d. d.updatetime) now t.s_map_quota;
        proc_quota = erased-Spares (λ d. d.updatetime) now t.s_map_proc_quota;
        setprocdata = erased-Spares (λ d. d.updatetime) now t.s_map_setprocdata;
        setsumdata = erased-Spares (λ d. d.updatetime) now t.s_map_setsumdata;
        local = erased-Spares (λ d. d.updatetime) now t.s_map_local;
      })
      | inr early ↦ rw early (IsSpared-refl now t)
    ]

-- A cleaning that is not due.
not_due :
    (now hour : ℕ) (t : Tables) → now - t.lasterase ≤ s_offline_interval → clear_data now hour t ≡ t
unfolding clear_data
not_due now hour t early = ground arith

cleaned :
    (now hour : ℕ) (t : Tables)
    → s_offline_interval < now - t.lasterase
    → s_offline_begin < hour
    → (clear_data now hour t).lasterase ≡ now
unfolding clear_data
cleaned now hour t due late = ground arith

-- A cleaning that is due removes no entry whose `updatetime` lies at most three days back, from any of
-- the six maps; and within a day after it another call of ClearData changes nothing.
pub clear_data-IsSpared :
    (now hour later hour2 : ℕ) (t : Tables)
    → s_offline_interval < now - t.lasterase
    → s_offline_begin < hour
    → later ≤ now + s_offline_interval
    → IsSpared now t (clear_data now hour t)
      × (clear_data later hour2 (clear_data now hour t) ≡ clear_data now hour t)
clear_data-IsSpared now hour later hour2 t due late soon = (
  spared now hour t,
  not_due later hour2 (clear_data now hour t) (omega (arith, cleaned now hour t due late)),
)
