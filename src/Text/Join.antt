-- ===== src/Text/Join.antt =====
-- Texts that a delimiter joins are split into their parts by SplitString (QuaServer/StringProcess.cpp).
use modern_flux.Base.{
  ℕ, ◌<◌, ◌≡◌, ◌≢◌, refl, Bool, true, not, ◌&&◌, ◌==◌, ◌∙◌, some, List, [], ◌∷◌, ◌++◌, arith,
  length,
}
use modern_flux.Base.Bytes.{Bytes}
use modern_flux.Text.{split_string}
use modern_flux.Text.Split.{fields, nonempty, split_string-fields}

-- A byte does not stand in a text.
abbrev pub IsFree : ℕ → Bytes → Type 0
IsFree c [] = Unit {0}
IsFree c (x ∷ s) = (x ≢ c) × IsFree c s

-- The same as a test.
abbrev pub misses : ℕ → Bytes → Bool
misses c [] = true
misses c (x ∷ s) = not (x == c) && misses c s

pub misses-IsFree : (c : ℕ) (s : Bytes) → misses c s ≡ true → IsFree c s
misses-IsFree c [] h = tt
misses-IsFree c (x ∷ s) h = ((λ e. ground (arith, e, h)), misses-IsFree c s (ground (arith, h)))

pub IsFree-append : (c : ℕ) (s t : Bytes) → IsFree c s → IsFree c t → IsFree c (s ++ t)
IsFree-append c [] t p q = q
IsFree-append c (x ∷ s) t p q = (p.0, IsFree-append c s t p.1 q)

pub fields-free : (c : ℕ) (s : Bytes) → IsFree c s → fields c s ≡ s ∷ []
unfolding fields
fields-free c [] p = refl
fields-free c (x ∷ s) p = ground (arith, fields-free c s p.1)

pub fields-join : (c : ℕ) (s t : Bytes) → IsFree c s → fields c (s ++ (c ∷ t)) ≡ s ∷ fields c t
unfolding fields
fields-join c [] t p = ground arith
fields-join c (x ∷ s) t p = ground (arith, fields-join c s t p.1)

pub nonempty-cons :
    (s : Bytes) (fs : List Bytes) → 0 < length s → nonempty (s ∷ fs) ≡ s ∷ nonempty fs
unfolding nonempty
nonempty-cons [] fs h = absurd (omega arith)
nonempty-cons (x ∷ s) fs h = refl

-- Two and three parts.
pub split_string-two :
    (c : ℕ) (s t : Bytes)
    → IsFree c s
    → IsFree c t
    → 0 < length s
    → 0 < length t
    → split_string (s ++ (c ∷ t)) (c ∷ []) ≡ some (s ∷ t ∷ [])
unfolding nonempty
split_string-two c s t p q hs ht =
    split_string-fields c (s ++ (c ∷ t))
    ∙ rw
        (fields-join c s t p, fields-free c t q, nonempty-cons s (t ∷ []) hs, nonempty-cons t [] ht)
        refl

pub split_string-three :
    (c : ℕ) (s t u : Bytes)
    → IsFree c s
    → IsFree c t
    → IsFree c u
    → 0 < length s
    → 0 < length t
    → 0 < length u
    → split_string (s ++ (c ∷ t ++ (c ∷ u))) (c ∷ []) ≡ some (s ∷ t ∷ u ∷ [])
unfolding nonempty
split_string-three c s t u p q r hs ht hu =
    split_string-fields c (s ++ (c ∷ t ++ (c ∷ u)))
    ∙ rw
        (
          fields-join c s (t ++ (c ∷ u)) p,
          fields-join c t u q,
          fields-free c u r,
          nonempty-cons s (t ∷ u ∷ []) hs,
          nonempty-cons t (u ∷ []) ht,
          nonempty-cons u [] hu,
        )
        refl
