-- ===== src/Text.antt =====
-- QuaServer/StringProcess.cpp on the bytes of a std::string, and the process ids `ip_group` of
-- QuaServer/ServiceQua.cpp. A position is kept as the rest of the text behind it.
pub mod Split
pub mod Hash
pub mod ProcId
pub mod Pairs
pub mod Hex
pub mod Number
pub mod Join
pub mod Wrap
use modern_flux.Base.{
  ℕ, zero, suc, ◌+◌, ◌-◌, ◌*◌, ◌/◌, ◌%◌, ◌^◌, ◌≡◌, Bool, true, false, ◌&&◌, ◌||◌, Option, none,
  some, List, [], ◌∷◌, ◌++◌, ltb, leb, ◌==◌, if◌then◌else◌, length, take, drop,
}
use modern_flux.Base.Word.{mod64}
use modern_flux.Base.Bytes.{Bytes, bytes}
use mathlib.Core.Option

abbrev pub starts : Bytes → Bytes → Bool
starts [] s = true
starts (d ∷ ds) [] = false
starts (d ∷ ds) (c ∷ s) = (d == c) && starts ds s

-- std::string::find, from the start of the rest.
unfoldable pub find : Bytes → Bytes → Option ℕ
find d [] = if starts d [] then some 0 else none
find d (c ∷ s) = let rest = find d s in if starts d (c ∷ s) then some 0 else Option.map suc rest

abbrev pub push_if : Bool → Bytes → List Bytes → List Bytes
push_if b piece out = if b then out ++ piece ∷ [] else out

-- The loop of SplitString; `none` says that the rounds ran out, as with an empty delimiter, where
-- the source does not return. `keep_empty` tells SplitString2 from SplitString.
unfoldable pub split_loop : Bool → ℕ → Bytes → Bytes → List Bytes → Option (List Bytes)
split_loop keep_empty fuel d [] out = some out
split_loop keep_empty zero d (c ∷ s) out = none
split_loop keep_empty (suc fuel) d (c ∷ s) out = elim (find d (c ∷ s)) [
  | none ↦ some (out ++ (c ∷ s) ∷ [])
  | some k ↦
      let out' = push_if (keep_empty || ltb 0 k) (take k (c ∷ s)) out in
      let next = split_loop keep_empty fuel d (drop (k + length d) (c ∷ s)) out' in
      if ltb (k + length d) (suc (length s)) then next else some (push_if keep_empty [] out')
]

unfoldable pub split_string : Bytes → Bytes → Option (List Bytes)
split_string src d = split_loop false (length src) d src []

unfoldable pub split_string2 : Bytes → Bytes → Option (List Bytes)
split_string2 src d = split_loop true (length src) d src []

-- GetDlmNum
unfoldable pub dlm_loop : ℕ → Bytes → Bytes → ℕ → Option ℕ
dlm_loop fuel d [] num = some num
dlm_loop zero d (c ∷ s) num = none
dlm_loop (suc fuel) d (c ∷ s) num = elim (find d (c ∷ s)) [
  | none ↦ some num
  | some k ↦
      let next = dlm_loop fuel d (drop (k + length d) (c ∷ s)) (num + 1) in
      if ltb (k + length d) (suc (length s)) then next else some (num + 1)
]

unfoldable pub get_dlm_num : Bytes → Bytes → Option ℕ
get_dlm_num src d = dlm_loop (length src) d src 0

unfoldable pub filter_string : Bytes → ℕ → Bytes → Bytes
filter_string [] delimiter des = des
filter_string (c ∷ src) delimiter des =
    filter_string src delimiter (if c == delimiter then des else des ++ c ∷ [])

unfoldable pub remove_token : Bytes → ℕ → Bytes
unfolding filter_string
remove_token src delimiter = filter_string src delimiter []

-- A byte as a `char` that is signed, widened to 64 bits.
abbrev pub sign_extend : ℕ → ℕ
sign_extend c = if ltb c 128 then c else (c + (mod64 - 256)) % mod64

-- One round of HashTime33; `& 0x7FFFFFF` keeps 27 bits.
abbrev pub hash_step : ℕ → ℕ → ℕ
hash_step hash c = (hash + ((hash * 2 ^ 5) % mod64 % 2 ^ 27 + sign_extend c) % mod64) % mod64

unfoldable pub hash_loop : ℕ → Bytes → ℕ
hash_loop hash [] = hash
hash_loop hash (c ∷ str) = hash_loop (hash_step hash c) str

unfoldable pub hash_time33 : Bytes → ℕ
unfolding hash_loop
hash_time33 str = hash_loop 5381 str % 2 ^ 27

-- The decimal digits of a number below 10^fuel, as `<<` prints them.
unfoldable pub digits : ℕ → ℕ → Bytes
digits zero n = []
digits (suc fuel) n =
    let front = digits fuel (n / 10) in
    if ltb n 10 then (n + 48) ∷ [] else front ++ (n % 10 + 48) ∷ []

-- What the split left, for a delimiter that is not empty.
abbrev pub pieces : Option (List Bytes) → List Bytes
pieces none = []
pieces (some out) = out

abbrev pub underscore : Bytes
underscore = 95 ∷ []

-- The text before the first `_`, if something follows.
abbrev first_of_two : List Bytes → Option Bytes
first_of_two [] = none
first_of_two (ip ∷ []) = none
first_of_two (ip ∷ id ∷ more) = if ltb 0 (length ip) then some ip else none

-- `none`: the source leaves the caller's empty `ip` alone and returns 0.
unfoldable pub get_report_ip : Bytes → Option Bytes
get_report_ip procid = first_of_two (pieces (split_string procid underscore))

-- `ssid << ip; if (id > 0) ssid << "_" << id;`
unfoldable pub make_procid : Bytes → ℕ → Bytes
make_procid ip id = if ltb 0 id then ip ++ underscore ++ digits 10 id else ip
