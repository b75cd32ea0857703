-- ===== src/Tests/Rings.antt =====
-- Concrete runs of the ring of call counts.
use modern_flux.Base.{
  ◌+◌, ◌*◌, ◌<◌, ◌%◌, ◌≡◌, refl, true, false, none, some, [], ◌∷◌, arith, get_or,
}
use modern_flux.Base.Word.{mod32}
use modern_flux.Base.Bytes.{eq_bytes}
use modern_flux.Base.Dict.{lookup}
use modern_flux.Params.{get_win_len}
use modern_flux.Window.{QosState, empty_item, check_qos, window}
use modern_flux.Window.History.{History, Ordered, replay, slot, replay-slot, count}
use modern_flux.Window.Sum.{share, expected, window-expected}
use modern_flux.Window.Verdict.{rule, check_qos-rule}

-- Two failures in second 101 and a success in second 100.
abbrev calls : History
calls = (101, false) ∷ (101, false) ∷ (100, true) ∷ []

calls-Ordered : Ordered 102 calls
calls-Ordered = ground arith

replay-slot_example : get_or (replay calls).item 11 empty_item ≡ slot 11 calls
replay-slot_example = replay-slot 102 11 calls calls-Ordered (omega arith)

window-expected_example : window 102 none (replay calls) ≡ record {
  suc = expected true 102 (get_win_len none) 0 calls % mod32;
  fail = expected false 102 (get_win_len none) 0 calls % mod32;
}
window-expected_example = window-expected 102 none calls calls-Ordered (omega arith)

abbrev filled : QosState
filled = record { s_map_qua = (97 ∷ [], replay calls) ∷ []; s_qos_status = true }

filled_there : lookup (97 ∷ []) filled.s_map_qua ≡ some (replay calls)
unfolding lookup eq_bytes
filled_there = refl

calls_few :
    100
      * (expected true 102 (get_win_len none) 0 calls
          + expected false 102 (get_win_len none) 0 calls)
    < mod32
unfolding expected share count get_win_len
calls_few = omega arith

check_qos-rule_example :
    let answer =
      rule none 5
        (expected true 102 (get_win_len none) 0 calls)
        (expected false 102 (get_win_len none) 0 calls) in
    check_qos (97 ∷ []) none 102 5 filled
    ≡ (answer, record { s_map_qua = filled.s_map_qua; s_qos_status = answer })
check_qos-rule_example =
    check_qos-rule (97 ∷ []) none 102 5 calls filled filled_there calls-Ordered (omega arith)
      calls_few
