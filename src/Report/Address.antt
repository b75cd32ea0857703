-- ===== src/Report/Address.antt =====
-- IPv4 addresses as text: IsLocalIP of QuaServer/UDPAPI.cpp, and `inet_ntoa` of the system, by which
-- spp_handle_process of QuaServer/Frame.cpp names a client.
pub mod Local
pub mod Ids
use modern_flux.Base.{
  ℕ, ◌-◌, Bool, true, false, ◌&&◌, ◌||◌, [], ◌∷◌, ◌++◌, if◌then◌else◌, take, drop, ltb, ◌==◌,
}
use modern_flux.Base.Int.{ℤ, pos, ltb_ℤ}
use modern_flux.Base.Bytes.{Bytes, bytes}
use modern_flux.Text.{starts, digits}
use modern_flux.Text.Number.{atoi}

-- An address of four bytes in network order.
pub record InAddr : Type 0 where
  pub s1 : ℕ
  pub s2 : ℕ
  pub s3 : ℕ
  pub s4 : ℕ

unfoldable pub inet_ntoa : InAddr → Bytes
inet_ntoa i = digits 3 i.s1 ++ (46 ∷ digits 3 i.s2 ++ (46 ∷ digits 3 i.s3 ++ (46 ∷ digits 3 i.s4)))

-- `num = atoi(ip.substr(4, 3).c_str())` lies between two bounds.
abbrev pub second_between : ℤ → ℤ → Bytes → Bool
second_between low high ip = let num = atoi (take 3 (drop 4 ip)) in ltb_ℤ low num && ltb_ℤ num high

-- IsLocalIP
unfoldable pub is_local_ip : Bytes → Bool
is_local_ip ip =
    if starts (bytes "10.") ip || starts (bytes "192.168.") ip || starts (bytes "169.254.") ip
    then true
    else if starts (bytes "172.") ip && second_between (pos 15) (pos 32) ip
    then true
    else if starts (bytes "100.") ip && second_between (pos 63) (pos 128) ip
    then true
    else starts (bytes "9.") ip
