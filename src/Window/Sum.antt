-- ===== src/Window/Sum.antt =====
-- What `CheckQos` adds up, in terms of the calls of `UpdateQos`.
use modern_flux.Base.{
  ℕ, zero, suc, ◌+◌, ◌-◌, ◌%◌, ◌≤◌, ◌<◌, ◌≡◌, Bool, true, false, Option, arith, ◌==◌, ◌∙◌,
  if◌then◌else◌, get_or, [], ◌∷◌,
}
use modern_flux.Base.Word.{mod32}
use modern_flux.Params.{Flux, get_win_len, get_win_len_bounds}
use modern_flux.Window.{Tally, empty_item, add_item, scan, window}
use modern_flux.Window.History.{
  History, Ordered, replay, count, last_in, slot, replay-slot, count_after, last_in-le, last_in-mod,
}

-- What round `i` adds: the calls of second `now - i`; but round 0 takes those of second
-- `now - 30`, whose slot the running second has not taken over yet.
unfoldable pub share : Bool → ℕ → ℕ → History → ℕ
share b now zero h = if count true now h + count false now h == 0 then count b (now - 30) h else 0
share b now (suc i) h = count b (now - suc i) h

-- Rounds `i` to `i + n - 1`.
unfoldable pub expected : Bool → ℕ → ℕ → ℕ → History → ℕ
unfolding share
expected b now zero i h = 0
expected b now (suc n) i h = share b now i h + expected b now n (suc i) h

-- The latest second of a slot has a call.
count_last :
    (i : ℕ) (h : History) (now : ℕ)
    → Ordered now h
    → 0 < last_in i h
    → 0 < count true (last_in i h) h + count false (last_in i h) h
unfolding count last_in
count_last i [] now o p = absurd (omega arith)
count_last i ((u, true) ∷ h) now o p = ground (arith, count_last i h u o.2)
count_last i ((u, false) ∷ h) now o p = ground (arith, count_last i h u o.2)

add_item-share :
    (now i : ℕ) (h : History) (t : Tally)
    → Ordered now h
    → 30 < now
    → i < 30
    → t.suc < mod32
    → t.fail < mod32
    → add_item now (slot ((now - i) % 30) h) t ≡ record {
      suc = (t.suc + share true now i h) % mod32;
      fail = (t.fail + share false now i h) % mod32;
    }
unfolding add_item share
add_item-share now zero h t o p lt s f =
    let r : ℕ = now % 30 in
    ground (
      arith,
      last_in-le r now h o,
      last_in-mod r h,
      count_last r h now o,
      count_after true now now h o,
      count_after false now now h o,
      count_after true (now - 30) now h o,
      count_after false (now - 30) now h o,
    )
add_item-share now (suc i) h t o p lt s f =
    let r : ℕ = (now - suc i) % 30 in
    ground (
      arith,
      last_in-le r now h o,
      last_in-mod r h,
      count_after true (now - suc i) now h o,
      count_after false (now - suc i) now h o,
    )

one_round :
    (now i index : ℕ) (h : History) (t : Tally)
    → index ≡ (now - i) % 30
    → i < 30
    → Ordered now h
    → 30 < now
    → t.suc < mod32
    → t.fail < mod32
    → add_item now (get_or (replay h).item index empty_item) t ≡ record {
      suc = (t.suc + share true now i h) % mod32;
      fail = (t.fail + share false now i h) % mod32;
    }
one_round now i index h t x lt o p s f =
    rw (x, replay-slot now ((now - i) % 30) h o (omega arith)) (add_item-share now i h t o p lt s f)

scan-expected :
    (n i rounds index winlen now : ℕ) (h : History) (t : Tally)
    → i + n ≡ winlen
    → winlen ≤ 30
    → i + rounds ≡ 30
    → 0 < n
    → index ≡ (now - i) % 30
    → Ordered now h
    → 30 < now
    → t.suc < mod32
    → t.fail < mod32
    → scan rounds now winlen i index (replay h).item t ≡ record {
      suc = (t.suc + expected true now n i h) % mod32;
      fail = (t.fail + expected false now n i h) % mod32;
    }
unfolding scan expected
scan-expected zero i rounds index winlen now h t e l r n x o p s f = absurd (omega arith)
scan-expected (suc n) i zero index winlen now h t e l r _ x o p s f = absurd (omega arith)
scan-expected (suc zero) i (suc rounds) index winlen now h t e l r _ x o p s f =
    let first = one_round now i index h t x (omega arith) o p s f in ground (arith, first)
scan-expected (suc (suc n)) i (suc rounds) index winlen now h t e l r _ x o p s f =
    let first = one_round now i index h t x (omega arith) o p s f in
    let t' : Tally = record {
      suc = (t.suc + share true now i h) % mod32;
      fail = (t.fail + share false now i h) % mod32;
    } in
    let rest =
      scan-expected (suc n) (suc i) rounds ((index + 30 - 1) % 30) winlen now h t' (omega arith) l
        (omega arith) (omega arith) (omega arith) o p (omega arith) (omega arith) in
    rw first (ground (arith, rest))

-- With a clock past second 30 that does not go back, `CheckQos` counts, modulo 2^32, the calls of
-- the last `winlen - 1` seconds, without the running one, and in round 0 those of second `now - 30`
-- if the running second has had no call yet.
pub window-expected :
    (now : ℕ) (flux : Option Flux) (h : History)
    → Ordered now h
    → 30 < now
    → window now flux (replay h) ≡ record {
      suc = expected true now (get_win_len flux) 0 h % mod32;
      fail = expected false now (get_win_len flux) 0 h % mod32;
    }
unfolding window
window-expected now flux h o p =
    scan-expected (get_win_len flux) 0 30 (now % 30) (get_win_len flux) now h _ (omega arith)
      (get_win_len_bounds flux).1 (omega arith) (get_win_len_bounds flux).0 (omega arith) o p
      (omega arith) (omega arith)
    ∙ ground arith
