-- ===== src/Text/Split.antt =====
-- SplitString against the plain description of the fields of a text.
use modern_flux.Base.{
  ℕ, zero, suc, ◌≤◌, ◌<◌, ◌≡◌, refl, ap, ◌∙◌, Bool, true, false, none, some, List, [], ◌∷◌, ◌++◌,
  arith, ltb, ◌==◌, if◌then◌else◌, ◌-◌, ◌||◌, length, take, drop, Option-cases, inl, inr,
}
use mathlib.Core.List.{append-nil, append_assoc}
use modern_flux.Base.Bytes.{Bytes}
use native.Mathlib.Numerals.{add-one}
use modern_flux.Text.{push_if, find, split_loop, split_string, split_string2}

-- The fields of a text between the bytes `c`, empty ones included.
abbrev cons_head : ℕ → List Bytes → List Bytes
cons_head x [] = (x ∷ []) ∷ []
cons_head x (f ∷ fs) = (x ∷ f) ∷ fs

unfoldable pub fields : ℕ → Bytes → List Bytes
fields c [] = [] ∷ []
fields c (x ∷ s) = let rest = fields c s in if x == c then [] ∷ rest else cons_head x rest

unfoldable pub nonempty : List Bytes → List Bytes
nonempty [] = []
nonempty ([] ∷ fs) = nonempty fs
nonempty ((x ∷ f) ∷ fs) = (x ∷ f) ∷ nonempty fs

length-drop : (k : ℕ) (s : Bytes) → length (drop k s) ≡ length s - k
length-drop zero s = omega arith
length-drop (suc k) [] = omega arith
length-drop (suc k) (x ∷ s) = omega (arith, length-drop k s)

find-none : (c : ℕ) (s : Bytes) → find (c ∷ []) s ≡ none → fields c s ≡ s ∷ []
unfolding find fields
find-none c [] h = refl
find-none c (x ∷ s) h = ground (arith, Option-cases (find (c ∷ []) s), find-none c s)

find-some :
    (c k : ℕ) (s : Bytes)
    → find (c ∷ []) s ≡ some k
    → fields c s ≡ take k s ∷ fields c (drop (suc k) s)
unfolding find fields
find-some c k [] h = cc
find-some c zero (x ∷ s) h = ground (arith, Option-cases (find (c ∷ []) s))
find-some c (suc k) (x ∷ s) h = ground (arith, Option-cases (find (c ∷ []) s), find-some c k s)

find-lt : (c k : ℕ) (s : Bytes) → find (c ∷ []) s ≡ some k → k < length s
unfolding find
find-lt c k [] h = cc
find-lt c zero (x ∷ s) h = omega arith
find-lt c (suc k) (x ∷ s) h = ground (arith, Option-cases (find (c ∷ []) s), find-lt c k s)

-- SplitString2 keeps empty fields and SplitString drops them.
abbrev wanted : Bool → List Bytes → List Bytes
wanted true fs = fs
wanted false fs = nonempty fs

push-wanted :
    (keep : Bool) (k x : ℕ) (s : Bytes) (out fs : List Bytes)
    → push_if (keep || ltb 0 k) (take k (x ∷ s)) out ++ wanted keep fs
      ≡ out ++ wanted keep (take k (x ∷ s) ∷ fs)
unfolding nonempty
push-wanted true k x s out fs = append_assoc out (take k (x ∷ s) ∷ []) fs
push-wanted false zero x s out fs = refl
push-wanted false (suc k) x s out fs =
    ground (arith, append_assoc out ((x ∷ take k s) ∷ []) (nonempty fs))

wanted_one : (keep : Bool) (x : ℕ) (s : Bytes) → wanted keep ((x ∷ s) ∷ []) ≡ (x ∷ s) ∷ []
unfolding nonempty
wanted_one true x s = refl
wanted_one false x s = refl

-- The text after a delimiter, with what the loop makes of it.
after_delimiter :
    (keep : Bool) (fuel c k : ℕ) (s r : Bytes) (out : List Bytes)
    → drop k s ≡ r
    → ((y : ℕ) (r' : Bytes)
        → r ≡ y ∷ r'
        → split_loop keep fuel (c ∷ []) (y ∷ r') out
          ≡ some (out ++ wanted keep (fields c (y ∷ r'))))
    → (if ltb (suc k) (suc (length s))
        then split_loop keep fuel (c ∷ []) (drop k s) out
        else some (push_if keep [] out))
      ≡ some (out ++ wanted keep (fields c r))
unfolding nonempty fields
after_delimiter true fuel c k s [] out e ih = ground (arith, length-drop k s, ap (length {A = ℕ}) e)
after_delimiter false fuel c k s [] out e ih =
    ground (arith, length-drop k s, ap (length {A = ℕ}) e, append-nil out)
after_delimiter keep fuel c k s (y ∷ r') out e ih =
    rw e (ground (arith, length-drop k s, ap (length {A = ℕ}) e, ih y r' refl))

-- A text that has bytes is split into its fields, in order.
split_loop-fields :
    (keep : Bool) (fuel c x : ℕ) (s : Bytes) (out : List Bytes)
    → length (x ∷ s) ≤ fuel
    → split_loop keep fuel (c ∷ []) (x ∷ s) out ≡ some (out ++ wanted keep (fields c (x ∷ s)))
unfolding split_loop
split_loop-fields keep zero c x s out h = absurd (omega arith)
split_loop-fields keep (suc fuel) c x s out h = elim (Option-cases (find (c ∷ []) (x ∷ s))) [
  | inl e ↦ rw (e, split_loop) (rw (find-none c (x ∷ s) e, wanted_one keep x s))
  | inr (k, e) ↦
      let out' = push_if (keep || ltb 0 k) (take k (x ∷ s)) out in
      let ih = λ (y : ℕ) (r : Bytes) (p : drop k s ≡ y ∷ r).
        split_loop-fields keep fuel c y r out'
          (omega (arith, length-drop k s, ap (length {A = ℕ}) p)) in
      rw (e, split_loop)
        (rw (add-one, find-some c k (x ∷ s) e)
          (after_delimiter keep fuel c k s (drop k s) out' refl ih
            ∙ ap some (push-wanted keep k x s out (fields c (drop k s)))))
]

-- With a delimiter of one byte, SplitString returns, with the non-empty fields of the text in their
-- order.
pub split_string-fields :
    (c : ℕ) (s : Bytes) → split_string s (c ∷ []) ≡ some (nonempty (fields c s))
unfolding split_string nonempty fields split_loop
split_string-fields c [] = refl
split_string-fields c (x ∷ s) = split_loop-fields false (length (x ∷ s)) c x s [] (omega arith)

-- SplitString2 keeps the empty fields too; of the empty text it makes no field at all.
pub split_string2-fields :
    (c x : ℕ) (s : Bytes) → split_string2 (x ∷ s) (c ∷ []) ≡ some (fields c (x ∷ s))
unfolding split_string2
split_string2-fields c x s = split_loop-fields true (length (x ∷ s)) c x s [] (omega arith)
