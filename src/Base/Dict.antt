-- ===== src/Base/Dict.antt =====
-- std::map with string keys: an association list in which each key stands once. It is kept in the
-- order of insertion, since no loop of the source over such a map depends on the order.
pub mod Every
use modern_flux.Base.{
  ℕ, ◌≡◌, refl, ◌+◌, ◌≤◌, Option-cases, Bool-cases, ap, inl, inr, Bool, Option, none, some, List,
  [], ◌∷◌, arith, if◌then◌else◌,
}
use modern_flux.Base.Bytes.{Bytes, eq_bytes, eq_bytes_iff, eq_bytes_refl}

abbrev pub Dict {ℓ} : Type ℓ → Type ℓ
Dict V = List (Bytes × V)

module _ {ℓ} {V : Type ℓ} where
  -- m.find(k)
  unfoldable pub lookup : Bytes → Dict V → Option V
  lookup k [] = none
  lookup k ((j, v) ∷ m) = if eq_bytes j k then some v else lookup k m

  -- m[k] = v
  unfoldable pub insert : Bytes → V → Dict V → Dict V
  insert k v [] = (k, v) ∷ []
  insert k v ((j, w) ∷ m) =
      let rest = insert k v m in if eq_bytes j k then (j, v) ∷ m else (j, w) ∷ rest

  -- m.insert(make_pair(k, v)), which leaves an entry that is there; m[k] as a mere reference.
  unfoldable pub emplace : Bytes → V → Dict V → Dict V
  emplace k v m = elim (lookup k m) [ none ↦ insert k v m | some w ↦ m ]

  -- The entry of `k`, or `d`.
  unfoldable pub lookup_or : Bytes → V → Dict V → V
  lookup_or k d m = elim (lookup k m) [ none ↦ d | some w ↦ w ]

  -- The loop `if (p(it->second)) erase(it++); else ++it;`.
  unfoldable pub erase_if : (V → Bool) → Dict V → Dict V
  erase_if p [] = []
  erase_if p ((j, v) ∷ m) = let rest = erase_if p m in if p v then rest else (j, v) ∷ rest

  pub lookup-insert :
      (k j : Bytes) (v : V) (m : Dict V)
      → lookup j (insert k v m) ≡ (if eq_bytes k j then some v else lookup j m)
  unfolding lookup insert
  lookup-insert k j v [] = refl
  lookup-insert k j v ((i, w) ∷ m) =
      ground (arith, eq_bytes_iff k j, eq_bytes_iff i k, eq_bytes_iff i j, lookup-insert k j v m)

  pub lookup-insert_self : (k : Bytes) (v : V) (m : Dict V) → lookup k (insert k v m) ≡ some v
  lookup-insert_self k v m = rw (lookup-insert k k v m, eq_bytes_refl k)

  -- Only the last of two writes counts.
  pub insert-insert : (k : Bytes) (v w : V) (m : Dict V) → insert k v (insert k w m) ≡ insert k v m
  unfolding insert
  insert-insert k v w [] = rw (eq_bytes_refl k) refl
  insert-insert k v w ((j, u) ∷ m) = elim (Bool-cases (eq_bytes j k)) [
    | inl same ↦ rw (same, same) refl
    | inr other ↦ rw (other, other) (ap (◌∷◌ (j, u)) (insert-insert k v w m))
  ]

  pub lookup_or-some :
      (k : Bytes) (d v : V) (m : Dict V) → lookup k m ≡ some v → lookup_or k d m ≡ v
  unfolding lookup_or
  lookup_or-some k d v m e = rw (e, lookup_or)

  pub lookup_or-none : (k : Bytes) (d : V) (m : Dict V) → lookup k m ≡ none → lookup_or k d m ≡ d
  unfolding lookup_or
  lookup_or-none k d m e = rw (e, lookup_or)

  pub lookup-emplace :
      (k j : Bytes) (v : V) (m : Dict V)
      → lookup j (emplace k v m) ≡ (if eq_bytes k j then some (lookup_or k v m) else lookup j m)
  unfolding emplace lookup_or
  lookup-emplace k j v m = elim (Option-cases (lookup k m)) [
    | inl e ↦ rw (e, emplace) (rw (e, lookup_or) (lookup-insert k j v m))
    | inr (w, e) ↦ rw (e, emplace) (rw (e, lookup_or) (ground (arith, eq_bytes_iff k j)))
  ]

module _ {ℓ} {V : Type ℓ} where
  -- The default entry makes no difference to a reader that has the same default.
  pub lookup_or-emplace :
      (k j : Bytes) (d : V) (m : Dict V) → lookup_or j d (emplace k d m) ≡ lookup_or j d m
  unfolding lookup_or
  lookup_or-emplace k j d m = ground (arith, lookup-emplace k j d m, eq_bytes_iff k j)

  pub lookup_or-insert :
      (k j : Bytes) (v d : V) (m : Dict V)
      → lookup_or j d (insert k v m) ≡ (if eq_bytes k j then v else lookup_or j d m)
  unfolding lookup_or
  lookup_or-insert k j v d m = ground (arith, lookup-insert k j v m)

-- A sum over the entries of a map.
unfoldable pub sum_by {ℓ} : {V : Type ℓ} → (V → ℕ) → Dict V → ℕ
sum_by f [] = 0
sum_by f ((j, v) ∷ m) = f v + sum_by f m

-- Writing an entry exchanges its share of the sum.
pub sum_by-insert {ℓ} :
    {V : Type ℓ} (f : V → ℕ) (k : Bytes) (v d : V) (m : Dict V)
    → f d ≡ 0
    → sum_by f (insert k v m) + f (lookup_or k d m) ≡ sum_by f m + f v
unfolding sum_by insert lookup lookup_or
sum_by-insert f k v d [] z = omega arith
sum_by-insert f k v d ((j, w) ∷ m) z = ground (arith, sum_by-insert f k v d m z)

-- One entry is at most the sum.
pub le-sum_by {ℓ} :
    {V : Type ℓ} (f : V → ℕ) (k : Bytes) (d : V) (m : Dict V)
    → f d ≡ 0
    → f (lookup_or k d m) ≤ sum_by f m
le-sum_by f k d m z = omega (arith, sum_by-insert f k d d m z)

pub ruleset dict_laws = (lookup-insert, lookup-insert_self, lookup-emplace)
