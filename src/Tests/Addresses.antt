-- ===== src/Tests/Addresses.antt =====
-- Concrete runs of addresses, numbers and the start of a process.
use modern_flux.Base.{ℕ, ◌-◌, ◌%◌, ◌≡◌, ◌≢◌, refl, some, [], ◌∷◌, arith, true, if◌then◌else◌, ltb}
use modern_flux.Base.Int.{pos, negsuc}
use modern_flux.Base.Word.{mod32, i32, u32}
use modern_flux.Base.Bytes.{Bytes, bytes}
use modern_flux.Text.{find, make_procid}
use modern_flux.Text.Pairs.{is_sub_string}
use modern_flux.Text.Number.{
  decimal, skip_spaces, signed, strtoll, atoi, to_string, to_uint32, transform_to_uint32,
}
use modern_flux.Text.Number.Decimal.{to_uint32-to_string}
use modern_flux.Report.Local.{first_normal, get_local_normal_ip}
use modern_flux.Report.Address.{InAddr, inet_ntoa, is_local_ip}
use modern_flux.Report.Address.Local.{in_local_net, is_local_ip-inet_ntoa}
use modern_flux.Frame.Init.{
  Document, elements, Startup, Globals, find_acceptor, get_first_port, init_port, spp_handle_init,
  request_id,
}
use modern_flux.Frame.Init.Unique.{spp_handle_init_unique}

to_uint32-to_string_example :
    (to_uint32 (to_string (pos 5000000000))
      ≡ (if ltb 5000000000 mod32 then 5000000000 else mod32 - 1))
    × (to_uint32 (to_string (negsuc 5000000000)) ≡ mod32 - 1)
    × (transform_to_uint32 (to_string (pos 5000000000)) ≡ 5000000000 % mod32)
    × (transform_to_uint32 (to_string (negsuc 5000000000)) ≡ mod32 - 1 - 5000000000 % mod32)
to_uint32-to_string_example = to_uint32-to_string 5000000000 (omega arith)

-- A host inside 172.16/12, and one in 10/8.
abbrev inner : InAddr
inner = record { s1 = 172; s2 = 31; s3 = 0; s4 = 9 }

abbrev ten : InAddr
ten = record { s1 = 10; s2 = 0; s3 = 0; s4 = 2 }

is_local_ip-inet_ntoa_example : is_local_ip (inet_ntoa inner) ≡ in_local_net inner
is_local_ip-inet_ntoa_example = is_local_ip-inet_ntoa inner (omega arith) (omega arith)

-- The files of two proxies, and the interfaces of a host.
abbrev proxy : Bytes → Document
proxy port = elements (
    record { value = bytes "module"; ports = [] }
    ∷ record { value = bytes "acceptor"; ports = some port ∷ [] }
    ∷ [])

abbrev start_of : Bytes → Startup
start_of port = record {
  groups_sum = 4;
  setrlimit = pos 0;
  is_worker = true;
  init_frame = pos 0;
  time = 100;
  proxy = proxy port;
  interfaces =
      some (record { ifa_name = bytes "eth1"; ifa_addr = some (some (bytes "10.0.0.2")) } ∷ []);
}

abbrev unset : Globals
unset = record { g_groups_num = 1; g_uptime = 0; g_proxy_port = pos 0; g_host = [] }

abbrev globals : ℕ → Globals
globals port = record {
  g_groups_num = 4;
  g_uptime = 100;
  g_proxy_port = pos port;
  g_host = bytes "10.0.0.2";
}

started_first : spp_handle_init (start_of (bytes "19100")) unset ≡ some (pos 0, globals 19100)
unfolding spp_handle_init init_port get_first_port find_acceptor get_local_normal_ip first_normal
    atoi strtoll signed skip_spaces decimal is_sub_string find i32 u32
started_first = refl

started_second : spp_handle_init (start_of (bytes "19101")) unset ≡ some (pos 0, globals 19101)
unfolding spp_handle_init init_port get_first_port find_acceptor get_local_normal_ip first_normal
    atoi strtoll signed skip_spaces decimal is_sub_string find i32 u32
started_second = refl

spp_handle_init_unique_example :
    make_procid (inet_ntoa ten) (u32 (request_id (globals 19100) 1))
    ≢ make_procid (inet_ntoa ten) (u32 (request_id (globals 19101) 1))
spp_handle_init_unique_example =
    spp_handle_init_unique (start_of (bytes "19100")) (start_of (bytes "19101")) unset
      (globals 19100) unset (globals 19101) ten ten 1 1 started_first started_second (omega arith)
      (omega arith) (omega arith) (omega arith) (λ same ports. absurd (ground (arith, ports)))
