-- ===== src/Text/Pairs.antt =====
-- More of QuaServer/StringProcess.cpp: RemoveTheTail, RReplaceNString, IsSubString and ParseKV.
use modern_flux.Base.{
  ℕ, zero, suc, ◌-◌, Bool, true, false, ◌&&◌, Option, none, some, List, [], ◌∷◌, ◌++◌, ltb,
  if◌then◌else◌, length, take, drop,
}
use modern_flux.Base.Bytes.{Bytes, eq_bytes}
use modern_flux.Base.Dict.{Dict, emplace}
use modern_flux.Text.{starts, find, split_string}

-- RemoveTheTail: whether it returns 1, and the text after it.
unfoldable pub remove_the_tail : Bytes → Bytes → Bool × Bytes
remove_the_tail src tail =
    let front = length src - length tail in
    if ltb (length tail) (length src) && eq_bytes (drop front src) tail
    then (true, take front src)
    else (false, src)

-- std::string::rfind
unfoldable pub rfind : Bytes → Bytes → Option ℕ
rfind d [] = if starts d [] then some 0 else none
rfind d (c ∷ s) = elim (rfind d s) [
  | none ↦ if starts d (c ∷ s) then some 0 else none
  | some i ↦ some (suc i)
]

-- The loop of RReplaceNString.
unfoldable pub erase_last : ℕ → Bytes → Bytes → Bytes
unfolding rfind
erase_last zero d s = s
erase_last (suc num) d s = elim (rfind d s) [
  | none ↦ erase_last num d s
  | some found ↦ erase_last num d (take found s)
]

-- RReplaceNString
unfoldable pub r_replace_n_string : Bytes → Bytes → Bytes → ℕ → Bytes
unfolding erase_last
r_replace_n_string source str_find str_replace num = erase_last num str_find source ++ str_replace

-- IsSubString
unfoldable pub is_sub_string : Bytes → Bytes → Bool
is_sub_string total sub = elim (find sub total) [ none ↦ false | some i ↦ true ]

-- The entry that one part of the text gives, by its pieces.
unfoldable pub insert_kv : List Bytes → Dict Bytes → Dict Bytes
insert_kv (k ∷ []) m = if ltb 0 (length k) then emplace k [] m else m
insert_kv (k ∷ v ∷ []) m = if ltb 0 (length k) then emplace k v m else m
insert_kv (k ∷ v ∷ w ∷ []) m = if ltb 0 (length k) then emplace k (v ++ (61 ∷ []) ++ w) m else m
insert_kv _ m = m

unfoldable pub insert_kvs : Bytes → List Bytes → Dict Bytes → Option (Dict Bytes)
unfolding insert_kv
insert_kvs delimiter2 [] m = some m
insert_kvs delimiter2 (part ∷ parts) m = elim (split_string part delimiter2) [
  | none ↦ none
  | some pieces ↦ insert_kvs delimiter2 parts (insert_kv pieces m)
]

-- ParseKV; `none` for an empty delimiter, with which SplitString does not return.
unfoldable pub parse_kv : Bytes → Bytes → Bytes → Dict Bytes → Option (Dict Bytes)
unfolding insert_kvs
parse_kv src delimiter1 delimiter2 m = elim (split_string src delimiter1) [
  | none ↦ none
  | some parts ↦ insert_kvs delimiter2 parts m
]
