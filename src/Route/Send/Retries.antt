-- ===== src/Route/Send/Retries.antt =====
-- The rounds of mt_tcpsendrcv_route.
use mathlib.Core.Path.{subst}
use modern_flux.Base.{
  ℕ, zero, suc, ◌+◌, ◌-◌, ◌≤◌, ◌<◌, ◌≡◌, ◌≢◌, ◌⊎◌, inl, inr, refl, ap, ◌∙◌, Bool, true, false, none,
  some, List, [], ◌∷◌, ◌++◌, arith, if◌then◌else◌, length, length-append, Bool-cases, get_or,
  lt→ltb,
}
use modern_flux.Base.Int.{ℤ, pos, eqb_ℤ, neg_part, ◌+ℤ◌, ◌-ℤ◌, eq_of_parts}
use modern_flux.Base.Word.{i32, i64}
use modern_flux.Route.Send.{
  Network, L5Router, Sending, SendItem, Update, Qos, init_info, init_item, mt_tcpsendrcv_route,
  send_round, send_rounds, rounds_of, timed, exchange_round, route_round, route_item, no_address,
  is_final,
}

-- Before round `i`, all earlier rounds failed.
record IsRunning (i : ℕ) (s : Sending) : Type 0 where
  times : s.info.times ≡ pos i
  none_suc : s.info.suc_num ≡ pos 0
  all_fail : s.info.fail_num ≡ pos i
  few : length s.updates ≤ i

-- At most `n` rounds have been tried, and the last return code was the only success, or there was
-- none.
pub record IsOutcome (n : ℕ) (s : Sending) : Type 0 where
  tried : ℕ
  bounded : tried ≤ n
  times : s.info.times ≡ pos tried
  few : length s.updates ≤ tried
  verdict :
      ((s.ret ≡ pos 0)
        × (1 ≤ tried)
        × (s.info.suc_num ≡ pos 1)
        × (s.info.fail_num ≡ pos (tried - 1)))
      ⊎ ((s.ret ≢ pos 0) × (s.info.suc_num ≡ pos 0) × (s.info.fail_num ≡ pos tried))

count_up : (i : ℕ) → i ≤ 1 → i32 (pos i +ℤ pos 1) ≡ pos (suc i)
unfolding i32 ◌+ℤ◌
count_up zero h = refl
count_up (suc zero) h = refl
count_up (suc (suc i)) h = absurd (omega arith)

few_updates :
    (b : Bool) (us : List Update) (u : Update) (i : ℕ)
    → length us ≤ i
    → length (if b then us ++ (u ∷ []) else us) ≤ suc i
few_updates true us u i h = omega (arith, length-append us (u ∷ []))
few_updates false us u i h = omega arith

zero_code : (z : ℤ) → eqb_ℤ z (pos 0) ≡ true → z ≡ pos 0
zero_code z h = eq_of_parts z (pos 0) (ground arith)

module _ (net : Network) where
  exchange_round-IsOutcome :
      (i : ℕ) (l5ret : ℤ) (q : Qos) (item : SendItem) (s : Sending)
      → i ≤ 1
      → IsRunning i s
      → IsOutcome (suc i) (exchange_round net i l5ret q item s)
        × ((exchange_round net i l5ret q item s).stop ≡ false
            → IsRunning (suc i) (exchange_round net i l5ret q item s))
  unfolding exchange_round is_final
  exchange_round-IsOutcome i l5ret q item s le run =
      let ret = net.send_receive i item.ip item.port in
      let next = exchange_round net i l5ret q item s in
      let up = count_up i le in
      let times : next.info.times ≡ pos (suc i) = rw (run.times) up in
      let few : length next.updates ≤ suc i =
        few_updates (eqb_ℤ l5ret (pos 0)) s.updates _ i run.few in
      elim (Bool-cases (eqb_ℤ ret (pos 0))) [
        | inl good ↦ (
          record {
            tried = suc i;
            bounded = omega arith;
            times = times;
            few = few;
            verdict = inl (
              zero_code ret good,
              omega arith,
              rw (good, run.none_suc) (count_up 0 (omega arith)),
              rw (good, run.all_fail) (ap pos (omega arith)),
            );
          },
          λ going. absurd (ground (arith, good, going)),
        )
        | inr bad ↦
            let fails : next.info.fail_num ≡ pos (suc i) = rw (bad, run.all_fail) up in
            let no_suc : next.info.suc_num ≡ pos 0 = rw (bad, run.none_suc) refl in
            (
              record {
                tried = suc i;
                bounded = omega arith;
                times = times;
                few = few;
                verdict = inr (λ e. ground (arith, bad, e), no_suc, fails);
              },
              λ going. record { times = times; none_suc = no_suc; all_fail = fails; few = few },
            )
      ]

  send_round-IsOutcome :
      (r : L5Router) (i : ℕ) (s : Sending)
      → i ≤ 1
      → IsRunning i s
      → IsOutcome (suc i) (send_round net r i s)
        × ((send_round net r i s).stop ≡ false → IsRunning (suc i) (send_round net r i s))
  unfolding send_round
  send_round-IsOutcome r i s le run =
      let (l5ret, q) = route_round net i s.qos in
      let item = route_item r l5ret q (get_or s.info.senditem i init_item) in
      let sent = exchange_round-IsOutcome i l5ret q item s le run in
      elim (Bool-cases (no_address r l5ret)) [
        | inl gone ↦ rw gone (
          record {
            tried = i;
            bounded = omega arith;
            times = run.times;
            few = run.few;
            verdict = inr (λ e. ground (arith, ap neg_part e), run.none_suc, run.all_fail);
          },
          λ going. absurd (ground (arith, going)),
        )
        | inr there ↦ rw there sent
      ]

  stopped :
      (r : L5Router) (n i : ℕ) (s : Sending)
      → i < 2
      → (send_round net r i s).stop ≡ true
      → send_rounds net r (suc n) i s ≡ some (send_round net r i s)
  unfolding send_rounds
  stopped r n i s inside stop = rw (lt→ltb i 2 inside, stop) refl

  continued :
      (r : L5Router) (n i : ℕ) (s : Sending)
      → i < 2
      → (send_round net r i s).stop ≡ false
      → send_rounds net r (suc n) i s ≡ send_rounds net r n (suc i) (send_round net r i s)
  unfolding send_rounds
  continued r n i s inside going =
      let next = send_round net r i s in
      ap
        (λ (b : Bool).
          if b then (if next.stop then some next else send_rounds net r n (suc i) next) else none)
        (lt→ltb i 2 inside)
      ∙ ap (λ (b : Bool). if b then some next else send_rounds net r n (suc i) next) going

  send_rounds-returns :
      (r : L5Router) (n i : ℕ) (s : Sending)
      → i + suc n ≤ 2
      → IsRunning i s
      → (end : Sending) × (send_rounds net r (suc n) i s ≡ some end) × IsOutcome (i + suc n) end
  unfolding send_rounds
  send_rounds-returns r zero i s le run =
      let next = send_round net r i s in
      let (outcome, running) = send_round-IsOutcome r i s (omega arith) run in
      let last : i + 1 ≡ suc i = omega arith in
      let returned : send_rounds net r 1 i s ≡ some next = elim (Bool-cases next.stop) [
        | inl stop ↦ stopped r 0 i s (omega arith) stop
        | inr going ↦ continued r 0 i s (omega arith) going
      ] in
      (next, returned, rw last outcome)
  send_rounds-returns r (suc n) i s le run =
      let next = send_round net r i s in
      let (outcome, running) = send_round-IsOutcome r i s (omega arith) run in
      elim (Bool-cases next.stop) [
        | inl stop ↦ (
          next,
          stopped r (suc n) i s (omega arith) stop,
          record {
            tried = outcome.tried;
            bounded = omega (arith, outcome.bounded);
            times = outcome.times;
            few = outcome.few;
            verdict = outcome.verdict;
          },
        )
        | inr going ↦
            let (end, returned, result) =
              send_rounds-returns r n (suc i) next (omega arith) (running going) in
            let same : suc i + suc n ≡ i + suc (suc n) = omega arith in
            (
              end,
              continued r (suc n) i s (omega arith) going ∙ returned,
              subst (λ m. IsOutcome m end) same result,
            )
      ]

  -- A call with one or two rounds and fresh counters returns. It has tried at most so many servers and
  -- told L5 of no more; its return code is 0 just where the last try succeeded, and then all tries
  -- before failed; otherwise all of them failed.
  pub mt_tcpsendrcv_route-returns :
      (r : L5Router) (n : ℕ)
      → r.num ≡ pos (suc n)
      → n ≤ 1
      → r.sendinfo ≡ init_info
      → (end : Sending) × (mt_tcpsendrcv_route net r ≡ some end) × IsOutcome (suc n) end
  unfolding mt_tcpsendrcv_route
  mt_tcpsendrcv_route-returns r n num le fresh =
      let start : Sending = record {
        qos = r.qos;
        info = r.sendinfo;
        ret = pos 0;
        updates = [];
        stop = false;
      } in
      let run : IsRunning 0 start = record {
        times = rw fresh refl;
        none_suc = rw fresh refl;
        all_fail = rw fresh refl;
        few = omega arith;
      } in
      let (end, returned, result) = send_rounds-returns r n 0 start (omega arith) run in
      let whole : Sending = record end {
        info = record end.info { delta = i64 (net.finish -ℤ net.begin) };
      } in
      let one : 0 + suc n ≡ suc n = omega arith in
      let result : IsOutcome (suc n) end = subst (λ m. IsOutcome m end) one result in
      (
        whole,
        ap (timed net) (ap (λ (k : ℤ). send_rounds net r (rounds_of k) 0 start) num ∙ returned),
        record {
          tried = result.tried;
          bounded = result.bounded;
          times = result.times;
          few = result.few;
          verdict = result.verdict;
        },
      )
