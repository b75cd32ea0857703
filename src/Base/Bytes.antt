-- ===== src/Base/Bytes.antt =====
-- std::string as the list of its bytes, with its equality and its order.
use Prim.Native.Char.{code}
use Prim.Native.String.{String}
use modern_flux.Base.{
  ℕ, ◌≡◌, ◌↔◌, refl, Bool, true, false, ◌&&◌, List, [], ◌∷◌, arith, ltb, ◌==◌, if◌then◌else◌,
}

abbrev pub Bytes : Type 0
Bytes = List ℕ

-- The bytes of an ASCII literal.
abbrev pub bytes : String → Bytes
bytes String.[] = []
bytes (String.◌∷◌ c s) = code c ∷ bytes s

unfoldable pub eq_bytes : Bytes → Bytes → Bool
eq_bytes [] [] = true
eq_bytes [] (y ∷ ys) = false
eq_bytes (x ∷ xs) [] = false
eq_bytes (x ∷ xs) (y ∷ ys) = (x == y) && eq_bytes xs ys

unfoldable pub lt_bytes : Bytes → Bytes → Bool
lt_bytes xs [] = false
lt_bytes [] (y ∷ ys) = true
lt_bytes (x ∷ xs) (y ∷ ys) = let rest = lt_bytes xs ys in if x == y then rest else ltb x y

pub eq_bytes_refl : (xs : Bytes) → eq_bytes xs xs ≡ true
unfolding eq_bytes
eq_bytes_refl [] = refl
eq_bytes_refl (x ∷ xs) = ground (arith, eq_bytes_refl xs)

pub eq_bytes→eq : (xs ys : Bytes) → eq_bytes xs ys ≡ true → xs ≡ ys
unfolding eq_bytes
eq_bytes→eq [] [] h = refl
eq_bytes→eq [] (y ∷ ys) h = cc
eq_bytes→eq (x ∷ xs) [] h = cc
eq_bytes→eq (x ∷ xs) (y ∷ ys) h = ground (arith, eq_bytes→eq xs ys)

pub eq_bytes_iff : (xs ys : Bytes) → (eq_bytes xs ys ≡ true) ↔ (xs ≡ ys)
eq_bytes_iff xs ys = (eq_bytes→eq xs ys, λ e. ground (arith, eq_bytes_refl xs))
