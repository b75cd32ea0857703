-- ===== src/Window/Verdict.antt =====
-- The answer of `CheckQos`, in terms of the calls of `UpdateQos`, and the removal of old windows.
use modern_flux.Base.{
  ℕ, ◌+◌, ◌-◌, ◌*◌, ◌%◌, ◌≤◌, ◌<◌, ◌≡◌, refl, Bool, true, false, ◌&&◌, Option, some, arith, ltb,
  if◌then◌else◌, ap, none, [], ◌∷◌,
}
use modern_flux.Base.Word.{mod32}
use modern_flux.Base.Bytes.{Bytes, eq_bytes, eq_bytes_refl}
use modern_flux.Base.Dict.{
  lookup_or, lookup_or-some, lookup_or-none, lookup_or-emplace, Dict, lookup-insert, lookup-emplace,
  lookup, emplace,
}
use modern_flux.Params.{
  Flux, get_win_len, get_err_num, get_err_num_rate, get_err_num_rate_bounds, hit_proba,
  gen_flow_proba,
}
use modern_flux.Window.{
  QuaWin, QosState, too_many_errors, check_qos, init_key_qua, update_qos, init_win, update_win,
}
use modern_flux.Window.History.{History, Ordered, replay}
use modern_flux.Window.Sum.{expected, window-expected}

-- The rule in plain numbers: enough failures, and more than `rate` per cent of all calls.
unfoldable pub rule : Option Flux → ℕ → ℕ → ℕ → Bool
rule flux r good bad =
    if ltb (get_err_num flux) bad && ltb (get_err_num_rate flux * (good + bad)) (100 * bad)
    then hit_proba r (100 - get_err_num_rate flux)
    else true

products_fit :
    (rate good bad : ℕ)
    → rate < 100
    → 100 * (good + bad) < mod32
    → (rate * good ≤ 100 * good)
      × (bad * (100 - rate) ≤ bad * 100)
      × (bad * (100 - rate) + bad * rate ≡ bad * 100)
products_fit rate good bad h k =
    let whole : (100 - rate) + rate ≡ 100 = omega arith in
    (grind arith, grind arith, omega (arith, ap (λ (t : ℕ). bad * t) whole))

rates_agree :
    (rate good bad : ℕ)
    → rate < 100
    → 100 * (good + bad) < mod32
    → ltb ((rate * (good % mod32)) % mod32) (((bad % mod32) * (100 - rate)) % mod32)
      ≡ ltb (rate * (good + bad)) (100 * bad)
rates_agree rate good bad h k =
    let g : good % mod32 ≡ good = omega arith in
    let b : bad % mod32 ≡ bad = omega arith in
    rw (g, b) (ground (arith, products_fit rate good bad h k))

too_many_errors-rule :
    (flux : Option Flux) (good bad : ℕ)
    → 100 * (good + bad) < mod32
    → too_many_errors flux (record { suc = good % mod32; fail = bad % mod32 })
      ≡ (ltb (get_err_num flux) bad && ltb (get_err_num_rate flux * (good + bad)) (100 * bad))
unfolding too_many_errors
too_many_errors-rule flux good bad h =
    let r = rates_agree (get_err_num_rate flux) good bad (get_err_num_rate_bounds flux).1 h in
    let b : bad % mod32 ≡ bad = omega arith in rw (r, b)

-- With a window that `UpdateQos` has filled for this key from the calls `h`, a clock past second 30
-- that does not go back, and fewer than 2^32/100 calls in the window, `CheckQos` answers by the
-- rule on the numbers of calls; it stores the answer and leaves the windows as they are.
pub check_qos-rule :
    (key : Bytes) (flux : Option Flux) (now r : ℕ) (h : History) (s : QosState)
    → lookup key s.s_map_qua ≡ some (replay h)
    → Ordered now h
    → 30 < now
    → 100 * (expected true now (get_win_len flux) 0 h + expected false now (get_win_len flux) 0 h)
      < mod32
    → let answer =
        rule flux r
          (expected true now (get_win_len flux) 0 h)
          (expected false now (get_win_len flux) 0 h) in
      check_qos key flux now r s
      ≡ (answer, record { s_map_qua = s.s_map_qua; s_qos_status = answer })
unfolding check_qos rule gen_flow_proba emplace
check_qos-rule key flux now r h s e o p fits =
    let g : ℕ = expected true now (get_win_len flux) 0 h in
    let b : ℕ = expected false now (get_win_len flux) 0 h in
    rw (e, emplace)
      (rw (lookup_or-some key init_win (replay h) s.s_map_qua e, window-expected now flux h o p)
        (rw (too_many_errors-rule flux g b fits) (ground (arith, get_err_num_rate_bounds flux))))

-- Replaying calls of `UpdateQos` through the map of all keys.
unfoldable pub update_all : Bytes → History → Dict QuaWin → Dict QuaWin
update_all key [] m = m
update_all key ((u, c) ∷ h) m = update_qos key u c (update_all key h m)

lookup-update_qos :
    (key j : Bytes) (u : ℕ) (c : Bool) (m : Dict QuaWin)
    → lookup j (update_qos key u c m)
      ≡ (if eq_bytes key j then some (update_win u c (lookup_or key init_win m)) else lookup j m)
unfolding update_qos
lookup-update_qos key j u c m =
    rw
      (
        lookup-insert key j _ (init_key_qua key m),
        lookup_or-emplace key key init_win m,
        lookup-emplace key j init_win m,
      )
      (ground arith)

-- The calls of `UpdateQos` for one key make its window as `replay` does, starting from no window,
-- and leave the windows of the other keys.
lookup-update_all :
    (key j : Bytes) (h : History) (m : Dict QuaWin)
    → lookup key m ≡ none
    → (lookup_or key init_win (update_all key h m) ≡ replay h)
      × (eq_bytes key j ≡ false → lookup j (update_all key h m) ≡ lookup j m)
unfolding update_all
lookup-update_all key j [] m e = (lookup_or-none key init_win m e, λ n. refl)
lookup-update_all key j ((u, c) ∷ h) m e =
    let old = update_all key h m in
    let before = lookup-update_all key j h m e in
    (
      lookup_or-some key init_win (replay ((u, c) ∷ h)) (update_qos key u c old) (
          rw (lookup-update_qos key key u c old, eq_bytes_refl key)
            (ap (λ w. some (update_win u c w)) before.0)),
      λ n. rw (lookup-update_qos key j u c old, n) (before.1 n),
    )
