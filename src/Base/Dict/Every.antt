-- ===== src/Base/Dict/Every.antt =====
-- What holds of every entry of a map, through its operations.
use modern_flux.Base.{◌≡◌, Bool, false, some, [], ◌∷◌, arith, Bool-cases, Option-cases, inl, inr}
use modern_flux.Base.Bytes.{Bytes, eq_bytes}
use modern_flux.Base.Dict.{Dict, lookup, insert, emplace, lookup_or, erase_if}

abbrev pub Every : {V : Type 0} → (V → Type 0) → Dict V → Type 0
Every P [] = Unit {0}
Every P ((k, v) ∷ m) = P v × Every P m

module _ {V : Type 0} (P : V → Type 0) where
  pub Every-insert : (k : Bytes) (v : V) (m : Dict V) → P v → Every P m → Every P (insert k v m)
  unfolding insert
  Every-insert k v [] p h = (p, h)
  Every-insert k v ((j, w) ∷ m) p h = elim (Bool-cases (eq_bytes j k)) [
    | inl same ↦ rw same (p, h.1)
    | inr other ↦ rw other (h.0, Every-insert k v m p h.1)
  ]

  pub Every-emplace : (k : Bytes) (v : V) (m : Dict V) → P v → Every P m → Every P (emplace k v m)
  unfolding emplace
  Every-emplace k v m p h = elim (Option-cases (lookup k m)) [
    | inl missing ↦ rw (missing, emplace) (Every-insert k v m p h)
    | inr (w, there) ↦ rw (there, emplace) h
  ]

  Every-lookup : (k : Bytes) (v : V) (m : Dict V) → lookup k m ≡ some v → Every P m → P v
  unfolding lookup
  Every-lookup k v [] e h = absurd (ground arith)
  Every-lookup k v ((j, w) ∷ m) e h = ground (arith, Every-lookup k v m)

  pub Every-lookup_or : (k : Bytes) (d : V) (m : Dict V) → P d → Every P m → P (lookup_or k d m)
  unfolding lookup_or
  Every-lookup_or k d m p h = elim (Option-cases (lookup k m)) [
    | inl missing ↦ rw (missing, lookup_or) p
    | inr (v, there) ↦ rw (there, lookup_or) (Every-lookup k v m there h)
  ]

  pub Every-erase_if : (b : V → Bool) (m : Dict V) → Every P m → Every P (erase_if b m)
  unfolding erase_if
  Every-erase_if b [] h = h
  Every-erase_if b ((j, w) ∷ m) h = elim (Bool-cases (b w)) [
    | inl erased ↦ rw erased (Every-erase_if b m h.1)
    | inr stays ↦ rw stays (h.0, Every-erase_if b m h.1)
  ]

module _ {V : Type 0} (P Q : V → Type 0) where
  pub Every-map : (m : Dict V) → ((v : V) → P v → Q v) → Every P m → Every Q m
  Every-map [] f h = tt
  Every-map ((j, w) ∷ m) f h = (f w h.0, Every-map m f h.1)

module _ {V : Type 0} (b : V → Bool) where
  -- What an erasing loop is to keep, it keeps.
  pub lookup-erase_if :
      (k : Bytes) (v : V) (m : Dict V)
      → lookup k m ≡ some v
      → b v ≡ false
      → lookup k (erase_if b m) ≡ some v
  unfolding lookup erase_if
  lookup-erase_if k v [] e h = absurd (ground arith)
  lookup-erase_if k v ((j, w) ∷ m) e h = ground (arith, lookup-erase_if k v m)

  pub erase_if-Every : (m : Dict V) → Every (λ v. b v ≡ false) (erase_if b m)
  unfolding erase_if
  erase_if-Every [] = tt
  erase_if-Every ((j, w) ∷ m) = elim (Bool-cases (b w)) [
    | inl erased ↦ rw erased (erase_if-Every m)
    | inr stays ↦ rw stays (stays, erase_if-Every m)
  ]
