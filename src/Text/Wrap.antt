-- ===== src/Text/Wrap.antt =====
-- Texts of keys and values: WrapString and WrapMap of QuaServer/DataWrap.h, with ParseKV of
-- QuaServer/StringProcess.cpp, which reads them back.
use modern_flux.Base.{
  ℕ, ◌<◌, ◌≡◌, refl, ap, sym, ◌∙◌, true, false, ◌&&◌, none, some, List, [], ◌∷◌, ◌++◌, arith,
  length, length-append, ltb, ◌==◌, if◌then◌else◌, Bool-cases, Option-cases, inl, inr,
}
use mathlib.Core.List.{append_assoc, append-nil}
use modern_flux.Base.Bytes.{Bytes, eq_bytes_iff}
use modern_flux.Base.Dict.{Dict, lookup, lookup_or, emplace, lookup-emplace}
use modern_flux.Text.Split.{fields, nonempty, split_string-fields}
use modern_flux.Text.Join.{IsFree, IsFree-append, fields-free, nonempty-cons, split_string-two}
use modern_flux.Text.Pairs.{insert_kv, insert_kvs, parse_kv}

-- WrapString::AddString, on the text that the object refers to.
unfoldable pub add_string : Bytes → Bytes → Bytes → Bytes
add_string str key val =
    let kv = key ++ (61 ∷ val) in
    if ltb 0 (length key) && ltb 0 (length val)
    then if ltb 0 (length str) then str ++ (38 ∷ kv) else kv
    else str

-- WrapMap::operator[]
unfoldable pub wrap_map : Dict Bytes → Bytes → Bytes
wrap_map m key = lookup_or key [] m

-- Several calls of AddString.
abbrev pub add_strings : Bytes → Dict Bytes → Bytes
add_strings str [] = str
add_strings str ((key, val) ∷ kvs) = add_strings (add_string str key val) kvs

-- Neither a key nor a value is empty or has one of the two delimiters.
pub record IsPair (key val : Bytes) : Type 0 where
  pub key_some : 0 < length key
  pub val_some : 0 < length val
  pub key_amp : IsFree 38 key
  pub val_amp : IsFree 38 val
  pub key_eq : IsFree 61 key
  pub val_eq : IsFree 61 val

abbrev pub ArePairs : Dict Bytes → Type 0
ArePairs [] = Unit {0}
ArePairs ((key, val) ∷ kvs) = IsPair key val × ArePairs kvs

abbrev part : Bytes × Bytes → Bytes
part (key, val) = key ++ (61 ∷ val)

abbrev parts : Dict Bytes → List Bytes
parts [] = []
parts (kv ∷ kvs) = part kv ∷ parts kvs

fields_cases : (c : ℕ) (s : Bytes) → (f : Bytes) × (fs : List Bytes) × (fields c s ≡ f ∷ fs)
unfolding fields
fields_cases c [] = ([], [], refl)
fields_cases c (x ∷ s) =
    let (f, fs, e) = fields_cases c s in
    elim (Bool-cases (x == c)) [
      | inl on ↦ rw (on, e) ([], f ∷ fs, refl)
      | inr off ↦ rw (off, e) (x ∷ f, fs, refl)
    ]

fields-append : (c : ℕ) (s t : Bytes) → fields c (s ++ (c ∷ t)) ≡ fields c s ++ fields c t
unfolding fields
fields-append c [] t = ground arith
fields-append c (x ∷ s) t =
    let (f, fs, e) = fields_cases c s in
    elim (Bool-cases (x == c)) [
      | inl on ↦ rw (on, fields-append c s t) refl
      | inr off ↦ rw (off, fields-append c s t, e) refl
    ]

nonempty-append : (a b : List Bytes) → nonempty (a ++ b) ≡ nonempty a ++ nonempty b
unfolding nonempty
nonempty-append [] b = refl
nonempty-append ([] ∷ a) b = nonempty-append a b
nonempty-append ((x ∷ f) ∷ a) b = ap (◌∷◌ (x ∷ f)) (nonempty-append a b)

part-IsFree : (key val : Bytes) → IsPair key val → IsFree 38 (part (key, val))
part-IsFree key val p =
    IsFree-append 38 key (61 ∷ val) p.key_amp ((λ e. absurd (omega (arith, e))), p.val_amp)

part-single :
    (key val : Bytes)
    → IsPair key val
    → nonempty (fields 38 (part (key, val))) ≡ part (key, val) ∷ []
unfolding nonempty
part-single key val p =
    ap nonempty (fields-free 38 (part (key, val)) (part-IsFree key val p))
    ∙ nonempty-cons (part (key, val)) [] (omega (arith, length-append key (61 ∷ val), p.key_some))

no_byte : (s : Bytes) → ltb 0 (length s) ≡ false → s ≡ []
no_byte [] h = refl
no_byte (x ∷ s) h = absurd (ground arith)

-- A call adds one part.
add_string-part :
    (str key val : Bytes)
    → IsPair key val
    → nonempty (fields 38 (add_string str key val))
      ≡ nonempty (fields 38 str) ++ (part (key, val) ∷ [])
unfolding add_string nonempty fields
add_string-part str key val p =
    let some_key : ltb 0 (length key) ≡ true = ground (arith, p.key_some) in
    let some_val : ltb 0 (length val) ≡ true = ground (arith, p.val_some) in
    let single = part-single key val p in
    let grown = fields-append 38 str (part (key, val)) in
    elim (Bool-cases (ltb 0 (length str))) [
      | inl on ↦
          rw (some_key, some_val, on)
            (ap nonempty grown
              ∙ nonempty-append (fields 38 str) (fields 38 (part (key, val)))
              ∙ ap (λ t. nonempty (fields 38 str) ++ t) single)
      | inr off ↦ rw (some_key, some_val, off) (rw (no_byte str off) single)
    ]

add_strings-parts :
    (str : Bytes) (kvs : Dict Bytes)
    → ArePairs kvs
    → nonempty (fields 38 (add_strings str kvs)) ≡ nonempty (fields 38 str) ++ parts kvs
add_strings-parts str [] h = sym (append-nil (nonempty (fields 38 str)))
add_strings-parts str ((key, val) ∷ kvs) h =
    add_strings-parts (add_string str key val) kvs h.1
    ∙ rw (add_string-part str key val h.0)
        (append_assoc (nonempty (fields 38 str)) (part (key, val) ∷ []) (parts kvs))

-- What ParseKV inserts.
abbrev emplace_all : Dict Bytes → Dict Bytes → Dict Bytes
emplace_all [] m = m
emplace_all ((key, val) ∷ kvs) m = emplace_all kvs (emplace key val m)

insert_kvs-parts :
    (kvs m : Dict Bytes)
    → ArePairs kvs
    → insert_kvs (61 ∷ []) (parts kvs) m ≡ some (emplace_all kvs m)
unfolding insert_kvs
insert_kvs-parts [] m h = refl
insert_kvs-parts ((key, val) ∷ kvs) m h =
    let p = h.0 in
    let some_key : ltb 0 (length key) ≡ true = ground (arith, p.key_some) in
    let two = split_string-two 61 key val p.key_eq p.val_eq p.key_some p.val_some in
    let one : insert_kv (key ∷ val ∷ []) m ≡ emplace key val m = rw (insert_kv, some_key) refl in
    rw (two, insert_kvs, one) (insert_kvs-parts kvs (emplace key val m) h.1)

lookup-emplace_all :
    (key : Bytes) (kvs m : Dict Bytes)
    → lookup key (emplace_all kvs m)
      ≡ (elim (lookup key m) [ none ↦ lookup key kvs | some v ↦ some v ])
unfolding lookup lookup_or
lookup-emplace_all key [] m = elim (Option-cases (lookup key m)) [
  | inl e ↦ rw e refl
  | inr (v, e) ↦ rw e refl
]
lookup-emplace_all key ((k, v) ∷ kvs) m =
    lookup-emplace_all key kvs (emplace k v m)
    ∙ rw (lookup-emplace k key v m)
        (ground (arith, eq_bytes_iff k key, Option-cases (lookup key m)))

-- ParseKV reads what calls of AddString have written, for keys and values that are not empty and have
-- neither delimiter: WrapMap then gives each key the value that was first added for it, and the
-- empty text for any other key.
pub parse_kv-add_strings :
    (kvs : Dict Bytes)
    → ArePairs kvs
    → (m : Dict Bytes) × (parse_kv (add_strings [] kvs) (38 ∷ []) (61 ∷ []) [] ≡ some m)
      × ((key : Bytes) → wrap_map m key ≡ lookup_or key [] kvs)
unfolding parse_kv wrap_map lookup_or lookup nonempty fields
parse_kv-add_strings kvs h =
    let split = split_string-fields 38 (add_strings [] kvs) in
    let whole = add_strings-parts [] kvs h in
    (
      emplace_all kvs [],
      rw (split, parse_kv, whole) (insert_kvs-parts kvs [] h),
      λ key. rw (lookup-emplace_all key kvs [], wrap_map, lookup_or) refl,
    )
