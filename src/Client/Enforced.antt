-- ===== src/Client/Enforced.antt =====
-- The quota that `CheckQuota` enforces against the average of the answers: both are the same number,
-- since `QUOTA_FLOAT_PERCENT` is 0.
use modern_flux.Base.{
  ℕ, zero, suc, ◌+◌, ◌*◌, ◌/◌, ◌≤◌, ◌<◌, ◌^◌, ◌≡◌, refl, ap, ◌∙◌, ◌⊎◌, ◌&&◌, Bool, true, false,
  some, List, [], ◌∷◌, arith, ltb, if◌then◌else◌, Option-cases, inl, inr, length, set, length-set,
  ◌%◌,
}
use modern_flux.Base.Int.{ℤ, pos, negsuc, positive, ◌+ℤ◌, ◌*ℤ◌, ◌/ℤ◌, pos_part}
use modern_flux.Base.Word.{i64, i64_fits}
use modern_flux.Base.Bytes.{Bytes, eq_bytes}
use modern_flux.Message.{QuotaRsp}
use modern_flux.Client.{LocalData, no_quotas, aver_loop, get_aver_q, quota_float_percent}
use modern_flux.Client.Exchange.{
  Exchange, apply_exchange, apply_answer, set_numbers, set_aver, ring_quota,
}

-- The ring holds what answers brought, or 0.
abbrev pub AreSmall : List ℤ → Type 0
AreSmall [] = ◌≡◌ {A = ℕ} 0 0
AreSmall (q ∷ qs) = (pos_part q < 2 ^ 31) × AreSmall qs

set-AreSmall :
    (qs : List ℤ) (i : ℕ) (v : ℤ) → AreSmall qs → pos_part v < 2 ^ 31 → AreSmall (set qs i v)
set-AreSmall [] i v h s = h
set-AreSmall (q ∷ qs) zero v h s = (s, h.1)
set-AreSmall (q ∷ qs) (suc i) v h s = (h.0, set-AreSmall qs i v h.1 s)

add_fits : (t n : ℕ) → t + n < 2 ^ 63 → i64 (pos t +ℤ pos n) ≡ pos (t + n)
unfolding ◌+ℤ◌
add_fits t n h =
    let inside : pos t +ℤ pos n ≡ pos (t + n) = ground arith in
    rw inside (i64_fits (pos (t + n)) (omega arith))

-- How many numbers above 0 the ring holds, and their sum.
abbrev pub count : List ℤ → ℕ
count [] = 0
count (pos zero ∷ qs) = count qs
count (pos (suc n) ∷ qs) = suc (count qs)
count (negsuc n ∷ qs) = count qs

abbrev pub total : List ℤ → ℕ
total [] = 0
total (q ∷ qs) = pos_part q + total qs

abbrev pub mean : ℕ → ℕ → ℕ
mean num sum = if ltb 0 num then sum / num else 0

mean-le : (num sum : ℕ) → mean num sum ≤ sum
mean-le num sum = if-le (ltb 0 num) (sum / num) (grind arith)
  where
    if-le : (b : Bool) (c : ℕ) → c ≤ sum → (if b then c else 0) ≤ sum
    if-le true c h = h
    if-le false c h = omega arith

total-le : (qs : List ℤ) → AreSmall qs → total qs ≤ length qs * 2 ^ 31
total-le [] h = omega arith
total-le (q ∷ qs) h = omega (arith, h.0, total-le qs h.1)

same_mean : (m n s t : ℕ) → m ≡ n → s ≡ t → pos (mean m s) ≡ pos (mean n t)
same_mean m n s t e f = rw (e, f) refl

-- The loop of GetAverQ computes the average.
aver_loop-mean :
    (qs : List ℤ) (num t : ℕ)
    → AreSmall qs
    → t + length qs * 2 ^ 31 < 2 ^ 62
    → aver_loop qs num (pos t) ≡ pos (mean (num + count qs) (t + total qs))
unfolding aver_loop ◌/ℤ◌
aver_loop-mean [] num t h fits =
    let n : num + 0 ≡ num = omega arith in
    let s : t + 0 ≡ t = omega arith in rw (n, s) (ground arith)
aver_loop-mean (pos zero ∷ qs) num t h fits =
    aver_loop-mean qs num t h.1 (omega arith) ∙ same_mean _ _ _ _ refl (omega arith)
aver_loop-mean (pos (suc n) ∷ qs) num t h fits =
    let rest = aver_loop-mean qs (suc num) (t + suc n) h.1 (omega (arith, h.0)) in
    let added = add_fits t (suc n) (omega (arith, h.0)) in
    let counts : positive (pos (suc n)) ≡ true = ground arith in
    rw (counts, added) (rest ∙ same_mean _ _ _ _ (omega arith) (omega arith))
aver_loop-mean (negsuc n ∷ qs) num t h fits =
    let skipped : positive (negsuc n) ≡ false = ground arith in
    rw skipped (aver_loop-mean qs num t h.1 (omega arith) ∙ same_mean _ _ _ _ refl (omega arith))

-- What holds of an entry.
pub record IsEnforced (local : LocalData) : Type 0 where
  pub equal : local.restrainquota ≡ local.localquotaver
  pub small : AreSmall local.qarray
  pub twelve : length local.qarray ≡ 12
  pub average :
      (local.qarray ≡ no_quotas)
      ⊎ (local.localquotaver ≡ pos (mean (count local.qarray) (total local.qarray)))

scaled :
    (a : ℕ) → a * 100 < 2 ^ 63 → i64 (pos a *ℤ (pos 100 +ℤ quota_float_percent)) /ℤ pos 100 ≡ pos a
unfolding ◌*ℤ◌ ◌+ℤ◌ ◌/ℤ◌
scaled a fits =
    let product : pos a *ℤ (pos 100 +ℤ quota_float_percent) ≡ pos (a * 100) = ground arith in
    let back : pos (a * 100) /ℤ pos 100 ≡ pos a = ap pos (omega arith) in
    rw (product, i64_fits (pos (a * 100)) (omega arith)) back

set_aver-restrain :
    (local : LocalData)
    → AreSmall local.qarray
    → length local.qarray ≡ 12
    → ((set_aver local).restrainquota ≡ (set_aver local).localquotaver)
      × ((set_aver local).localquotaver ≡ pos (mean (count local.qarray) (total local.qarray)))
unfolding set_aver get_aver_q
set_aver-restrain local h len =
    let a = mean (count local.qarray) (total local.qarray) in
    let le = mean-le (count local.qarray) (total local.qarray) in
    let e : aver_loop local.qarray 0 (pos 0) ≡ pos a =
      aver_loop-mean local.qarray 0 0 h (omega (arith, len))
      ∙ same_mean _ _ _ _ (omega arith) (omega arith) in
    rw e (scaled a (omega (arith, le, total-le local.qarray h, len)), refl)

pub IsEnforced-if :
    (b : Bool) {l r : LocalData} → IsEnforced l → IsEnforced r → IsEnforced (if b then l else r)
IsEnforced-if true h k = h
IsEnforced-if false h k = k

IsEnforced-answer :
    (keyid : Bytes) (now : ℕ) (rsp : QuotaRsp) (local : LocalData)
    → pos_part rsp.localq < 2 ^ 31
    → IsEnforced local
    → IsEnforced (apply_answer keyid now rsp local)
unfolding apply_answer set_numbers ring_quota set_aver
IsEnforced-answer keyid now rsp local small h =
    let fresh : LocalData = record local { updatetime = now } in
    let ringed = ring_quota rsp.localq fresh in
    let ring = set-AreSmall local.qarray (local.index % 12) rsp.localq h.small small in
    let len : length ringed.qarray ≡ 12 =
      length-set local.qarray (local.index % 12) rsp.localq ∙ h.twelve in
    let keep : IsEnforced fresh = record {
      equal = h.equal;
      small = h.small;
      twelve = h.twelve;
      average = h.average;
    } in
    let taken : IsEnforced (set_numbers rsp (set_aver ringed)) = record {
      equal = (set_aver-restrain ringed ring len).0;
      small = ring;
      twelve = len;
      average = inr (set_aver-restrain ringed ring len).1;
    } in
    IsEnforced-if (eq_bytes rsp.key keyid && positive rsp.localq) taken keep

pub IsEnforced-exchange :
    (keyid : Bytes) (now : ℕ) (x : Exchange) (local : LocalData)
    → ((rsp : QuotaRsp) → x.rsp ≡ some rsp → pos_part rsp.localq < 2 ^ 31)
    → IsEnforced local
    → IsEnforced (apply_exchange keyid now x local)
unfolding apply_exchange
IsEnforced-exchange keyid now x local small h = elim (Option-cases x.rsp) [
  | inl e ↦ rw (e, apply_exchange) h
  | inr (rsp, e) ↦
      rw (e, apply_exchange)
        (IsEnforced-if x.sent (IsEnforced-answer keyid now rsp local (small rsp e) h) h)
]

-- The quotas are those of another entry.
abbrev pub SameQuota : LocalData → LocalData → Type 0
SameQuota l r =
    (l.restrainquota ≡ r.restrainquota)
    × (l.localquotaver ≡ r.localquotaver)
    × (l.qarray ≡ r.qarray)

pub IsEnforced-same : (l r : LocalData) → SameQuota r l → IsEnforced l → IsEnforced r
IsEnforced-same l r (a, b, c) h = record {
  equal = rw (a, b) h.equal;
  small = rw c h.small;
  twelve = rw c h.twelve;
  average = rw (b, c) h.average;
}
