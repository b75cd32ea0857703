-- ===== src/Packet/Stream.antt =====
-- Packets in a stream of bytes.
use modern_flux.Base.{
  ℕ, zero, suc, ◌+◌, ◌-◌, ◌%◌, ◌^◌, ◌≤◌, ◌<◌, ◌≡◌, refl, ap, sym, ◌∙◌, some, [], ◌∷◌, ◌++◌, arith,
  ltb, leb, if◌then◌else◌, length, length-append, take, drop, Bool-cases, inl, inr, ltb→lt,
}
use mathlib.Core.List.{append_assoc}
use modern_flux.Base.Int.{pos, negsuc}
use modern_flux.Base.Word.{mod32, i32, u32, i32_fits}
use modern_flux.Base.Bytes.{Bytes}
use modern_flux.Packet.{htonl, ntohl, frame, set_binary_pack, protocol_check}

pub ntohl-htonl : (n : ℕ) (rest : Bytes) → n < mod32 → ntohl (htonl n ++ rest) ≡ n
unfolding ntohl htonl
ntohl-htonl n rest h = omega arith

pub length-htonl : (n : ℕ) → length (htonl n) ≡ 4
unfolding htonl
length-htonl n = refl

pub length-frame : (body : Bytes) → length (frame body) ≡ length body + 4
unfolding frame
length-frame body = omega arith

length-take_le : (k : ℕ) (s : Bytes) → k ≤ length s → length (take k s) ≡ k
length-take_le zero s h = refl
length-take_le (suc k) [] h = absurd (omega arith)
length-take_le (suc k) (x ∷ s) h = ap suc (length-take_le k s (omega arith))

-- The test of a header `n` that keeps the sum an int32_t.
protocol_check-header :
    (n : ℕ) (rest : Bytes)
    → n + 4 < 2 ^ 31
    → protocol_check (htonl n ++ rest) ≡ (if leb n (length rest) then pos (n + 4) else pos 0)
unfolding protocol_check
protocol_check-header n rest h =
    let size : length (htonl n ++ rest) ≡ length rest + 4 =
      length-append (htonl n) rest ∙ omega (arith, length-htonl n) in
    rw (ntohl-htonl n rest (omega arith), i32_fits (pos (n + 4)) (omega arith), size) (ground arith)

-- Of a packet with anything behind it ProtocolCheck finds the exact end.
pub protocol_check-frame :
    (body rest : Bytes)
    → length body + 4 < 2 ^ 31
    → protocol_check (frame body ++ rest) ≡ pos (length body + 4)
unfolding frame
protocol_check-frame body rest h =
    let n : length body % mod32 ≡ length body = omega arith in
    rw
      (
        n,
        append_assoc (htonl (length body)) body rest,
        protocol_check-header (length body) (body ++ rest) h,
        length-append body rest,
      )
      (ground arith)

short_header : (arrived : Bytes) → length arrived < 4 → protocol_check arrived ≡ pos 0
unfolding protocol_check
short_header arrived h = ground arith

take-htonl : (n k : ℕ) (body : Bytes) → take (k + 4) (htonl n ++ body) ≡ htonl n ++ take k body
unfolding htonl
take-htonl n k body = let four : k + 4 ≡ suc (suc (suc (suc k))) = omega arith in rw four refl

-- Of a packet that has not arrived whole it asks for more.
pub protocol_check-take :
    (body : Bytes) (k : ℕ)
    → length body + 4 < 2 ^ 31
    → k < length body + 4
    → protocol_check (take k (frame body)) ≡ pos 0
protocol_check-take body k h lt = elim (Bool-cases (ltb k 4)) [
  | inl small ↦ short_header (take k (frame body)) (
      omega
        (arith, length-take_le k (frame body) (omega (arith, length-frame body)), ltb→lt k 4 small))
  | inr large ↦
      let n : length body % mod32 ≡ length body = omega arith in
      let back : k ≡ (k - 4) + 4 = ground arith in
      let whole : take k (frame body) ≡ htonl (length body) ++ take (k - 4) body =
        ap (λ (j : ℕ). take j (frame body)) back
        ∙ unfold frame in rw n (take-htonl (length body) (k - 4) body) in
      rw
        (
          whole,
          protocol_check-header (length body) (take (k - 4) body) h,
          length-take_le (k - 4) body (omega arith),
        )
        (ground arith)
]

-- A packet of less than 2^31 bytes is found at its exact end, whatever follows, and before its last
-- byte has arrived more is asked for.
pub protocol_check-packs :
    (tlen : ℕ) (body packet rest : Bytes) (k : ℕ)
    → tlen ≤ 2 ^ 31
    → set_binary_pack tlen body ≡ some packet
    → length body < 2 ^ 31
    → k < length packet
    → (protocol_check (packet ++ rest) ≡ pos (length packet))
      × (protocol_check (take k packet) ≡ pos 0)
unfolding set_binary_pack
protocol_check-packs tlen body packet rest k t packed h lt =
    let made : packet ≡ frame body = ground arith in
    let fits : length body + 4 < 2 ^ 31 = ground arith in
    let size : length packet ≡ length body + 4 = ap length made ∙ length-frame body in
    rw made (
      protocol_check-frame body rest fits ∙ ap pos (sym (length-frame body)),
      protocol_check-take body k fits (omega arith),
    )

-- A header from 2^31 - 4 on: the sum is negative, which is returned; at 2^32 - 4 it is 0, and more is
-- asked for; above, it is a length of one to three bytes, less than the header itself.
pub protocol_check-overflow :
    (n : ℕ) (rest : Bytes)
    → 2 ^ 31 ≤ n + 4
    → n < mod32
    → (n + 4 < mod32 → protocol_check (htonl n ++ rest) ≡ negsuc (mod32 - 1 - (n + 4)))
      × (mod32 ≤ n + 4 → protocol_check (htonl n ++ rest) ≡ pos (n + 4 - mod32))
unfolding protocol_check i32 u32
protocol_check-overflow n rest big lt =
    let size : length (htonl n ++ rest) ≡ length rest + 4 =
      length-append (htonl n) rest ∙ omega (arith, length-htonl n) in
    rw (ntohl-htonl n rest lt, size) (λ a. ground arith, λ b. ground arith)

pub ntohl-frame : (body : Bytes) → length body < mod32 → ntohl (frame body) ≡ length body
unfolding frame
ntohl-frame body h = ntohl-htonl (length body % mod32) body (omega arith) ∙ omega arith

pub drop-frame : (body : Bytes) → drop 4 (frame body) ≡ body
unfolding frame htonl
drop-frame body = refl

pub take_all : (s : Bytes) → take (length s) s ≡ s
take_all [] = refl
take_all (x ∷ s) = ap (◌∷◌ x) (take_all s)
