-- ===== src/Config/Intact.antt =====
-- Which files TmlptActLoadFile accepts.
use modern_flux.Base.{
  ℕ, suc, ◌+◌, ◌<◌, ◌≡◌, ◌≢◌, refl, ap, sym, ◌∙◌, false, none, some, [], ◌∷◌, ◌++◌, arith,
  if◌then◌else◌, length, length-append, take, drop, Bool-cases, inl, inr,
}
use modern_flux.Base.Bytes.{Bytes, eq_bytes, eq_bytes_refl, eq_bytes→eq}
use modern_flux.Packet.{htonl}
use modern_flux.Packet.Stream.{ntohl-htonl, length-htonl, take_all}
use modern_flux.Config.{Format, load_file, buffer_size, md5_bin_len}

take-append : (xs ys : Bytes) → take (length xs) (xs ++ ys) ≡ xs
take-append [] ys = refl
take-append (x ∷ xs) ys = ap (◌∷◌ x) (take-append xs ys)

drop-append : (xs ys : Bytes) → drop (length xs) (xs ++ ys) ≡ ys
drop-append [] ys = refl
drop-append (x ∷ xs) ys = drop-append xs ys

take_prefix : (n : ℕ) (xs ys : Bytes) → length xs ≡ n → take n (xs ++ ys) ≡ xs
take_prefix n xs ys e = rw (← e) (take-append xs ys)

drop_prefix : (n : ℕ) (xs ys : Bytes) → length xs ≡ n → drop n (xs ++ ys) ≡ ys
drop_prefix n xs ys e = rw (← e) (drop-append xs ys)

drop_header : (n k : ℕ) (rest : Bytes) → drop (4 + k) (htonl n ++ rest) ≡ drop k rest
unfolding htonl
drop_header n k rest = let four : 4 + k ≡ suc (suc (suc (suc k))) = omega arith in rw four refl

module _ {A : Type 0} (format : Format A) where
  -- A file with a header, a sum and a body: its sum decides.
  load_file-layout :
      (sum body : Bytes)
      → length sum ≡ md5_bin_len
      → 0 < length body
      → length body + 20 < buffer_size
      → load_file format (some (htonl (length body) ++ (sum ++ body)))
        ≡ (if eq_bytes (format.md5 body) sum then format.parse body else none)
  unfolding load_file
  load_file-layout sum body sixteen some_byte fits =
      let n = length body in
      let size : length (htonl n ++ (sum ++ body)) ≡ 4 + 16 + n =
        length-append (htonl n) (sum ++ body)
        ∙ omega (arith, length-htonl n, length-append sum body) in
      rw
        (
          size,
          ntohl-htonl n (sum ++ body) (omega arith),
          drop_header n 16 (sum ++ body),
          drop_header n 0 (sum ++ body),
          drop_prefix 16 sum body sixteen,
          take_prefix 16 sum body sixteen,
          take_all body,
        )
        (ground arith)

  -- A file of a length, a sum and a body, as `pack` writes it, with a body of at least one byte that
  -- leaves the file below 10 MiB: with the sum of its body it loads as what the body parses to; with the
  -- same sum before another body of the same length, whose sum is another, it is refused.
  pub load_file-pack :
      (body other : Bytes)
      → length (format.md5 body) ≡ md5_bin_len
      → 0 < length body
      → length body + 20 < buffer_size
      → length other ≡ length body
      → format.md5 other ≢ format.md5 body
      → let head = htonl (length body) in
        (load_file format (some (head ++ (format.md5 body ++ body))) ≡ format.parse body)
        × (load_file format (some (head ++ (format.md5 body ++ other))) ≡ none)
  load_file-pack body other sixteen some_byte fits same differs =
      let sum = format.md5 body in
      let refused : eq_bytes (format.md5 other) sum ≡ false =
        elim (Bool-cases (eq_bytes (format.md5 other) sum)) [
          | inl e ↦ absurd (differs (eq_bytes→eq (format.md5 other) sum e))
          | inr e ↦ e
        ] in
      let whole = load_file-layout sum body sixteen some_byte fits in
      let damaged = load_file-layout sum other sixteen (omega arith) (omega arith) in
      (
        whole ∙ rw (eq_bytes_refl sum) refl,
        ap (λ (n : ℕ). load_file format (some (htonl n ++ (sum ++ other)))) (sym same)
            ∙ damaged
            ∙ rw refused refl,
      )
