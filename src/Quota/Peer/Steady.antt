-- ===== src/Quota/Peer/Steady.antt =====
-- `ValidID` against the times at which a process has reported.
use modern_flux.Base.{
  ℕ, ◌+◌, ◌≤◌, ◌<◌, ◌≡◌, sym, Bool-cases, ◌↔◌, ◌⊎◌, inl, inr, Bool, true, false, List, [], ◌∷◌,
  arith, if◌then◌else◌, length, ◌&&◌,
}
use mathlib.Core.Path.{subst}
use modern_flux.Base.Bytes.{Bytes, eq_bytes, eq_bytes_refl, eq_bytes→eq}
use modern_flux.Base.Dict.{
  Dict, lookup_or, insert, emplace, erase_if, lookup_or-insert, lookup_or-emplace,
}
use modern_flux.Quota.Peer.{
  IdInfo, no_info, IdMap, id_info, set_id_info, judge, valid_id, init_id_info_map, clean_ids,
  is_stale,
}

-- The entry after reports at these times, newest first.
abbrev pub after_reports : List ℕ → IdInfo
after_reports [] = no_info
after_reports (t ∷ h) = (judge t (after_reports h)).1

-- From second `f` up to the newest of these times every report came less than thirty seconds after
-- the one before.
abbrev pub Steady : ℕ → List ℕ → Type 0
Steady f [] = ⊥
Steady f (t ∷ []) = f ≡ t
Steady f (t ∷ u ∷ h) = (f ≡ t) ⊎ ((u ≤ t) × (t < u + 30) × Steady f (u ∷ h))

-- Every time is past the first half minute of the epoch.
abbrev pub Late : List ℕ → Type 0
Late [] = Unit {0}
Late (t ∷ h) = (30 ≤ t) × Late h

last_report : (t : ℕ) (h : List ℕ) → (after_reports (t ∷ h)).updatetime ≡ t
unfolding judge
last_report t h = ground arith

judge_keeps :
    (t : ℕ) (info : IdInfo)
    → info.updatetime ≤ t
    → t < info.updatetime + 30
    → (judge t info).1.firsttime ≡ info.firsttime
unfolding judge
judge_keeps t info p q = ground arith

judge_restarts :
    (t : ℕ) (info : IdInfo)
    → ((info.updatetime ≤ t) × (t < info.updatetime + 30)) ⊎ ((judge t info).1.firsttime ≡ t)
unfolding judge
judge_restarts t info = ground arith

judge_passes :
    (t : ℕ) (info : IdInfo)
    → ((judge t info).0 ≡ true)
      ↔ ((info.updatetime ≤ t) × (t < info.updatetime + 30) × (info.firsttime + 120 < t))
unfolding judge
judge_passes t info = ground arith

firsttime-le : (t : ℕ) (h : List ℕ) → (after_reports (t ∷ h)).firsttime ≤ t
unfolding judge
firsttime-le t [] = ground arith
firsttime-le t (u ∷ h) = ground (arith, firsttime-le u h, last_report u h)

Steady-after_reports :
    (t : ℕ) (h : List ℕ) → Late (t ∷ h) → Steady (after_reports (t ∷ h)).firsttime (t ∷ h)
Steady-after_reports t [] l = unfold judge in ground arith
Steady-after_reports t (u ∷ h) l = elim (judge_restarts t (after_reports (u ∷ h))) [
  | inl (p, q) ↦
      let kept : (after_reports (t ∷ u ∷ h)).firsttime ≡ (after_reports (u ∷ h)).firsttime =
        judge_keeps t (after_reports (u ∷ h)) p q in
      inr (
        rw (← last_report u h) p,
        rw (← last_report u h) q,
        subst (λ f. Steady f (u ∷ h)) (sym kept) (Steady-after_reports u h l.1),
      )
  | inr e ↦ inl e
]

-- The first second kept is the earliest from which the reports are steady.
firsttime_earliest :
    (f t : ℕ) (h : List ℕ) → Steady f (t ∷ h) → (after_reports (t ∷ h)).firsttime ≤ f
firsttime_earliest f t [] e = rw e (firsttime-le t [])
firsttime_earliest f t (u ∷ h) (inl e) = rw e (firsttime-le t (u ∷ h))
firsttime_earliest f t (u ∷ h) (inr (p, q, r)) =
    omega
      (arith, judge_keeps t (after_reports (u ∷ h)), last_report u h, firsttime_earliest f u h r)

-- With all reports after the first half minute of the epoch, a report at `now` passes exactly if it
-- comes not before the last one and less than thirty seconds after it, and there is a second more
-- than two minutes ago from which the reports were steady.
pub judge-Steady :
    (now u : ℕ) (h : List ℕ)
    → Late (u ∷ h)
    → ((judge now (after_reports (u ∷ h))).0 ≡ true)
      ↔ ((f : ℕ) × (u ≤ now) × (now < u + 30) × Steady f (u ∷ h) × (f + 120 < now))
judge-Steady now u h l = (sound, complete)
  where
    info : IdInfo
    info = after_reports (u ∷ h)

    sound :
        (judge now info).0 ≡ true
        → (f : ℕ) × (u ≤ now) × (now < u + 30) × Steady f (u ∷ h) × (f + 120 < now)
    sound e =
        let r = (judge_passes now info).0 e in
        (
          info.firsttime,
          rw (← last_report u h) r.0,
          rw (← last_report u h) r.1,
          Steady-after_reports u h l,
          r.2,
        )

    complete :
        (f : ℕ) × (u ≤ now) × (now < u + 30) × Steady f (u ∷ h) × (f + 120 < now)
        → (judge now info).0 ≡ true
    complete (f, p, q, r, s) =
        (judge_passes now info).1 (omega (arith, last_report u h, firsttime_earliest f u h r))

id_info-set :
    (ip id ip' id' : Bytes) (info : IdInfo) (m : IdMap)
    → id_info ip' id' (set_id_info ip id info m)
      ≡ (if eq_bytes ip ip' && eq_bytes id id' then info else id_info ip' id' m)
id_info-set ip id ip' id' info m = elim (Bool-cases (eq_bytes ip ip')) [
  | inl e ↦ rw (
    lookup_or-insert ip ip' (insert id info (lookup_or ip [] m)) [] m,
    e,
    lookup_or-insert id id' info no_info (lookup_or ip [] m),
    eq_bytes→eq ip ip' e,
  )
  | inr e ↦ rw (lookup_or-insert ip ip' (insert id info (lookup_or ip [] m)) [] m, e)
]

id_info-init :
    (ip id ip' id' : Bytes) (m : IdMap)
    → id_info ip' id' (init_id_info_map ip id m) ≡ id_info ip' id' m
unfolding init_id_info_map
id_info-init ip id ip' id' m = elim (Bool-cases (eq_bytes ip ip')) [
  | inl e ↦ rw (
    lookup_or-insert ip ip' _ [] (emplace ip [] m),
    e,
    lookup_or-emplace id id' no_info (lookup_or ip [] (emplace ip [] m)),
    lookup_or-emplace ip ip [] m,
    eq_bytes→eq ip ip' e,
  )
  | inr e ↦ rw (lookup_or-insert ip ip' _ [] (emplace ip [] m), e, lookup_or-emplace ip ip' [] m)
]

-- `ValidID` judges the entry of its process, stores the result there, and leaves every other entry.
pub valid_id-judge :
    (m : IdMap) (ip id : Bytes) (now : ℕ)
    → ((valid_id m ip id now).0 ≡ (judge now (id_info ip id m)).0)
      × (id_info ip id (valid_id m ip id now).1 ≡ (judge now (id_info ip id m)).1)
      × ((ip' id' : Bytes)
          → (eq_bytes ip ip' && eq_bytes id id') ≡ false
          → id_info ip' id' (valid_id m ip id now).1 ≡ id_info ip' id' m)
unfolding valid_id
valid_id-judge m ip id now =
    let seen = id_info-init ip id ip id m in
    (
      rw seen,
      rw (id_info-set ip id ip id _ (init_id_info_map ip id m), eq_bytes_refl ip, eq_bytes_refl id)
          (rw seen),
      λ ip' id' n.
          rw (id_info-set ip id ip' id' _ (init_id_info_map ip id m), n)
            (id_info-init ip id ip' id' m),
    )

length-erase_if : (p : IdInfo → Bool) (m : Dict IdInfo) → length (erase_if p m) ≤ length m
unfolding erase_if
length-erase_if p [] = omega arith
length-erase_if p ((j, v) ∷ m) = ground (arith, length-erase_if p m)

-- `CleanReportId` leaves at most 500 processes of an address. With at most 300 it changes nothing.
pub clean_ids_bounds :
    (now : ℕ) (m : Dict IdInfo)
    → (length (clean_ids now m) ≤ 500) × (length m ≤ 300 → clean_ids now m ≡ m)
unfolding clean_ids
clean_ids_bounds now m = ground (arith, length-erase_if (is_stale now) m)
