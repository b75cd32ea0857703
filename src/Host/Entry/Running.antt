-- ===== src/Host/Entry/Running.antt =====
-- The number of running requests, and the maxima of a minute.
use modern_flux.Base.{ℕ, ◌+◌, ◌-◌, ◌^◌, ◌≤◌, ◌<◌, ◌≡◌, refl, true, List, [], ◌∷◌, arith}
use modern_flux.Base.Int.{ℤ, pos, ◌+ℤ◌, ◌-ℤ◌, eqb_ℤ}
use modern_flux.Base.Word.{i64_fits}
use modern_flux.Host.Entry.{
  MtItem, Event, enter, leave, report, mt_enter, mt_leave, report_att, happen, happen_all, max_ℤ,
}

-- The requests that run after the events, when `n` ran before; an exit takes no more than run, and the
-- number stays below 2^63.
pub data Runs : ℕ → List Event → ℕ → Type 0 where
  none_left : {n : ℕ} → Runs n [] n
  entered :
      {n k m : ℕ} {minute : ℤ} {es : List Event}
      → n + k < 2 ^ 63
      → Runs (n + k) es m
      → Runs n (enter minute k ∷ es) m
  left : {n k m : ℕ} {es : List Event} → k ≤ n → Runs (n - k) es m → Runs n (leave k ∷ es) m
  reported :
      {n m cpu mem : ℕ} {minute : ℤ} {es : List Event}
      → Runs n es m
      → Runs n (report minute cpu mem ∷ es) m

plus_pos : (n k : ℕ) → pos n +ℤ pos k ≡ pos (n + k)
unfolding ◌+ℤ◌
plus_pos n k = ground arith

minus_pos : (n k : ℕ) → k ≤ n → pos n -ℤ pos k ≡ pos (n - k)
unfolding ◌-ℤ◌
minus_pos n k h = ground arith

-- `mtnum` is the number of running requests at every moment, however entries, exits and reports of the load
-- follow each other.
pub happen_all-Runs :
    {n m : ℕ} {es : List Event}
    → Runs n es m
    → n < 2 ^ 63
    → (wi : MtItem) → wi.mtnum ≡ pos n
    → (happen_all es wi).mtnum ≡ pos m
unfolding happen_all happen mt_enter mt_leave report_att
happen_all-Runs none_left h wi e = e
happen_all-Runs (entered {n} {k} fits rest) h wi e =
    happen_all-Runs rest fits _ (rw (e, plus_pos n k) (i64_fits (pos (n + k)) (omega arith)))
happen_all-Runs (left {n} {k} le rest) h wi e =
    happen_all-Runs rest (omega arith) _
      (rw (e, minus_pos n k le) (i64_fits (pos (n - k)) (omega arith)))
happen_all-Runs (reported rest) h wi e = happen_all-Runs rest h _ e

same_minute : (minute : ℤ) → eqb_ℤ minute minute ≡ true
same_minute minute = ground arith

-- MTEnter and ReportAtt share `ident`: whichever of them runs second in a minute takes the minute
-- for its own, and its maxima go on from the minutes before.
pub shared_ident :
    (wi : MtItem) (minute : ℤ) (num cpu mem : ℕ)
    → let entered_first = report_att minute cpu mem (mt_enter minute num wi).1 in
      let reported_first = (mt_enter minute num (report_att minute cpu mem wi)).1 in
      (entered_first.mtcpumax ≡ max_ℤ wi.mtcpumax (pos cpu))
      × (entered_first.mtmemmax ≡ max_ℤ wi.mtmemmax (pos mem))
      × (reported_first.mtmax ≡ max_ℤ wi.mtmax reported_first.mtnum)
unfolding mt_enter report_att
shared_ident wi minute num cpu mem = rw (same_minute minute) (refl, refl, refl)
