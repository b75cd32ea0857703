-- ===== src/Window.antt =====
-- The error window of `CheckQos` and `UpdateQos` (QuaServer/ServiceQua.h): for each key a ring of
-- thirty one-second slots, by the second modulo 30.
pub mod History
pub mod Sum
pub mod Verdict
use modern_flux.Base.{
  ℕ, zero, suc, ◌+◌, ◌-◌, ◌*◌, ◌%◌, Bool, true, false, ◌&&◌, ◌||◌, Option, List, ltb, leb, ◌==◌,
  if◌then◌else◌, get_or, set, replicate, none, some,
}
use modern_flux.Base.Word.{mod32, mod64}
use modern_flux.Base.Bytes.{Bytes}
use modern_flux.Base.Dict.{Dict, lookup, insert, emplace, lookup_or, erase_if}
use modern_flux.Params.{
  Flux, get_win_len, get_err_num, get_err_num_rate, gen_flow_proba, hit_proba, s_ratio,
}

-- `suc` and `fail` are int64_t counters, as 64-bit patterns.
pub record QuaItem : Type 0 where
  pub ttime : ℕ
  pub suc : ℕ
  pub fail : ℕ

abbrev pub empty_item : QuaItem
empty_item = record { ttime = 0; suc = 0; fail = 0 }

pub record QuaWin : Type 0 where
  pub item : List QuaItem
  pub updatetime : ℕ

abbrev pub win_num : ℕ
win_num = 30

abbrev pub s_pasttime : ℕ
s_pasttime = 30

-- QUAWIN::Init
abbrev pub init_win : QuaWin
init_win = record { item = replicate win_num empty_item; updatetime = 0 }

unfoldable pub init_key_qua : Bytes → Dict QuaWin → Dict QuaWin
unfolding emplace
init_key_qua key m = emplace key init_win m

-- The slot's part of UpdateQos: a slot of an older round starts anew.
unfoldable pub update_item : ℕ → Bool → QuaItem → QuaItem
update_item now good it = if good then count_suc fresh else count_fail fresh
  where
    fresh : QuaItem
    fresh =
        if (it.ttime == 0) || (ltb it.ttime now && leb s_pasttime (now - it.ttime))
        then record { ttime = now; suc = 0; fail = 0 }
        else it

    count_suc : QuaItem → QuaItem
    count_suc i = record i { suc = (i.suc + 1) % mod64 }

    count_fail : QuaItem → QuaItem
    count_fail i = record i { fail = (i.fail + 1) % mod64 }

unfoldable pub update_win : ℕ → Bool → QuaWin → QuaWin
update_win now good w =
    let index = now % s_pasttime in
    record {
      item = set w.item index (update_item now good (get_or w.item index empty_item));
      updatetime = now;
    }

-- `good` says that the reported result `ret` is 0.
unfoldable pub update_qos : Bytes → ℕ → Bool → Dict QuaWin → Dict QuaWin
unfolding init_key_qua
update_qos key now good m =
    let m' = init_key_qua key m in insert key (update_win now good (lookup_or key init_win m')) m'

pub record Tally : Type 0 where
  pub suc : ℕ
  pub fail : ℕ

unfoldable pub add_item : ℕ → QuaItem → Tally → Tally
add_item now it t =
    if ltb it.ttime now && leb (now - it.ttime) s_pasttime
    then record { suc = (t.suc + it.suc) % mod32; fail = (t.fail + it.fail) % mod32 }
    else t

-- `for (i = 0; i < win_num; i++)` with `rounds` left, going back from slot `index`.
unfoldable pub scan : ℕ → ℕ → ℕ → ℕ → ℕ → List QuaItem → Tally → Tally
scan zero now winlen i index items t = t
scan (suc rounds) now winlen i index items t =
    let t' = add_item now (get_or items index empty_item) t in
    let rest = scan rounds now winlen (suc i) ((index + win_num - 1) % win_num) items t' in
    if leb winlen (suc i) then t' else rest

unfoldable pub window : ℕ → Option Flux → QuaWin → Tally
window now flux w =
    scan win_num now (get_win_len flux) 0 (now % s_pasttime) w.item (record { suc = 0; fail = 0 })

-- The comparison of the error rate is in uint32_t.
unfoldable pub too_many_errors : Option Flux → Tally → Bool
too_many_errors flux t =
    ltb (get_err_num flux) t.fail
    && ltb ((get_err_num_rate flux * t.suc) % mod32)
        ((t.fail * (s_ratio - get_err_num_rate flux)) % mod32)

-- The map of the windows, and the static flag with the last answer.
pub record QosState : Type 0 where
  pub s_map_qua : Dict QuaWin
  pub s_qos_status : Bool

-- `true` admits the call; `r` is what `rand()` returns.
unfoldable pub check_qos : Bytes → Option Flux → ℕ → ℕ → QosState → Bool × QosState
unfolding init_key_qua
check_qos key flux now r s =
    let m = init_key_qua key s.s_map_qua in
    let t = window now flux (lookup_or key init_win m) in
    let ret =
      if too_many_errors flux t
      then hit_proba r (gen_flow_proba (get_err_num_rate flux))
      else true in
    (ret, record { s_map_qua = m; s_qos_status = ret })

abbrev pub s_expire : ℕ
s_expire = 60 * 60 * 24 * 3

-- `ttime - updatetime` is negative for a time to come, and then not above `s_expire`.
unfoldable pub clear_key : ℕ → Dict QuaWin → Dict QuaWin
unfolding erase_if
clear_key ttime m = erase_if (λ w. ltb s_expire (ttime - w.updatetime)) m
