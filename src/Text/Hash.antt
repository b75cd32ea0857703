-- ===== src/Text/Hash.antt =====
-- HashTime33 of QuaServer/StringProcess.cpp.
use modern_flux.Base.{
  ℕ, ◌+◌, ◌-◌, ◌*◌, ◌%◌, ◌^◌, ◌<◌, ◌≡◌, refl, [], ◌∷◌, arith, ltb, if◌then◌else◌,
}
use modern_flux.Base.Bytes.{Bytes}
use modern_flux.Text.{hash_step, hash_loop, hash_time33}

abbrev pub AreBytes : Bytes → Type 0
AreBytes [] = Unit {0}
AreBytes (c ∷ s) = (c < 256) × AreBytes s

-- A signed `char`, modulo 2^27.
abbrev pub char27 : ℕ → ℕ
char27 c = if ltb c 128 then c else c + (2 ^ 27 - 256)

-- h * 33 + c in unbounded numbers, cut once at the end.
unfoldable pub times33 : ℕ → Bytes → ℕ
times33 h [] = h % 2 ^ 27
times33 h (c ∷ s) = times33 (h * 33 + char27 c) s

hash_step-mod :
    (h k c : ℕ)
    → c < 256
    → h % 2 ^ 27 ≡ k % 2 ^ 27
    → hash_step h c % 2 ^ 27 ≡ (k * 33 + char27 c) % 2 ^ 27
hash_step-mod h k c b e = ground arith

hash_loop-times33 :
    (h k : ℕ) (s : Bytes)
    → AreBytes s
    → h % 2 ^ 27 ≡ k % 2 ^ 27
    → hash_loop h s % 2 ^ 27 ≡ times33 k s
unfolding hash_loop times33
hash_loop-times33 h k [] b e = e
hash_loop-times33 h k (c ∷ s) b e =
    hash_loop-times33 (hash_step h c) (k * 33 + char27 c) s b.1 (hash_step-mod h k c b.0 e)

-- The 64-bit loop with its masked shift computes the hash `h * 33 + c` modulo 2^27, for any bytes.
pub hash_time33-times33 : (s : Bytes) → AreBytes s → hash_time33 s ≡ times33 5381 s
unfolding hash_time33
hash_time33-times33 s b = hash_loop-times33 5381 5381 s b refl
