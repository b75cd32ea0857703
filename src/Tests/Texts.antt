-- ===== src/Tests/Texts.antt =====
-- Concrete runs of texts of keys and values, of times as texts, and of reports that find no receiver.
use modern_flux.Base.{◌<◌, ◌≡◌, refl, some, [], ◌∷◌, arith, true, length, ◌&&◌}
use modern_flux.Base.Int.{pos, negsuc}
use modern_flux.Base.Bytes.{Bytes, bytes}
use modern_flux.Base.Dict.{Dict, lookup_or}
use modern_flux.Text.Join.{misses, misses-IsFree}
use modern_flux.Text.Pairs.{parse_kv}
use modern_flux.Text.Wrap.{IsPair, wrap_map, add_strings, parse_kv-add_strings}
use modern_flux.Clock.Slices.{IsField, time_text, two_digits, get_min_time, get_min_time-slice}
use modern_flux.Route.Send.{Qos}
use modern_flux.Report.{Socket, Sockets, Sender, send_report}
use modern_flux.Report.Routing.{L5Api, get_l5_ip_and_port, asks, send_report_unrouted}

-- The keys `a`, `b` and again `a`.
abbrev pairs : Dict Bytes
pairs = (97 ∷ [], 49 ∷ 50 ∷ []) ∷ (98 ∷ [], 51 ∷ []) ∷ (97 ∷ [], 52 ∷ []) ∷ []

is_pair :
    (key val : Bytes)
    → 0 < length key
    → 0 < length val
    → (misses 38 key && misses 38 val && misses 61 key && misses 61 val) ≡ true
    → IsPair key val
is_pair key val some_key some_val h = record {
  key_some = some_key;
  val_some = some_val;
  key_amp = misses-IsFree 38 key (ground (arith, h));
  val_amp = misses-IsFree 38 val (ground (arith, h));
  key_eq = misses-IsFree 61 key (ground (arith, h));
  val_eq = misses-IsFree 61 val (ground (arith, h));
}

parse_kv-add_strings_example :
    (m : Dict Bytes) × (parse_kv (add_strings [] pairs) (38 ∷ []) (61 ∷ []) [] ≡ some m)
    × ((key : Bytes) → wrap_map m key ≡ lookup_or key [] pairs)
parse_kv-add_strings_example = parse_kv-add_strings pairs (
  is_pair (97 ∷ []) (49 ∷ 50 ∷ []) (omega arith) (omega arith) refl,
  (
    is_pair (98 ∷ []) (51 ∷ []) (omega arith) (omega arith) refl,
    (is_pair (97 ∷ []) (52 ∷ []) (omega arith) (omega arith) refl, tt),
  ),
)

is_field : (s : Bytes) → 0 < length s → (misses 32 s && misses 58 s) ≡ true → IsField s
is_field s some_byte h = record {
  some_byte = some_byte;
  no_space = misses-IsFree 32 s (ground (arith, h));
  no_colon = misses-IsFree 58 s (ground (arith, h));
}

-- 20190131 17:38:09 in slices of five minutes.
abbrev day : Bytes
day = bytes "20190131"

get_min_time-slice_example :
    let rounded = time_text day (bytes "17") (two_digits (pos 35)) (48 ∷ 48 ∷ []) in
    (get_min_time (time_text day (bytes "17") (two_digits (pos 38)) (bytes "09")) [] (pos 5)
      ≡ some rounded)
    × (get_min_time rounded [] (pos 5) ≡ some rounded)
get_min_time-slice_example =
    get_min_time-slice day (bytes "17") (bytes "09") [] 38 5 (is_field day (omega arith) refl)
      (is_field (bytes "17") (omega arith) refl) (is_field (bytes "09") (omega arith) refl)
      (omega arith) (omega arith)

-- L5 does not know the receiver that a hundred reports went to.
abbrev lost : L5Api
lost = record { api_init_route = λ m c. pos 0; api_get_route = λ q. (negsuc 4, q) }

abbrev unasked : Qos
unasked = record { modid = pos 0; cmd = pos 0; host_ip = []; host_port = pos 0 }

abbrev sender : Sender
sender = record { num = 99; ip = bytes "10.0.0.1"; port = pos 80 }

abbrev sockets : Sockets
sockets = record { mapfd = []; held = [] }

abbrev io : Socket
io = record { socket = pos 3; send = λ fd packet. pos 1 }

send_report_unrouted_example :
    let find = λ (old : Sender). get_l5_ip_and_port lost unasked (pos 1) (pos 2) in
    let after = send_report io find (1 ∷ []) (sender, sockets) in
    (after.1 ≡ sockets) × (asks after.0 ≡ true) × ((send_report io find (2 ∷ []) after).1 ≡ sockets)
send_report_unrouted_example =
    send_report_unrouted io lost unasked (pos 1) (pos 2) (1 ∷ []) (2 ∷ []) sender sockets refl
      (omega arith) refl
