-- ===== src/Network/Tests.antt =====
-- The theorems on IPv4 masks and routes (src/network) at a mask and a table of two routes.
use nanodistro.Base.{
  ◌≤◌, true, false, [], ◌∷◌, ◌≡◌, ◌↔◌, ok, throw, invalid_argument, refl, arith, eqb, codes, List,
}
use nanodistro.Base.Int.{negsuc}
use nanodistro.Text.{str_trim_start}
use nanodistro.Base.{All, codes, throw, undefined, eqb, ok, ◌>>=◌, ◌<◌}
use nanodistro.Text.{find, str_split, str_trim_start}
use nanodistro.Text.Number.{stoi, strto, scan}
use nanodistro.Network.Mac.{Mac, mac_to_string, parse_mac}
use nanodistro.Network.Mac.Digits.{parse_mac-to_string, mac_to_string-throws}
use nanodistro.Network.Ipv6.{Ipv6, hex_text, parse_ipv6, ipv6_to_string, next_ipv6}
use nanodistro.Network.Ipv6.Texts.{parse_ipv6-to_string}
use nanodistro.Network.Ipv6.Networks.{parse_cidr6, cidr6_to_string, parse_cidr6-to_string}
use nanodistro.Network.Addresses.{has_dot, parse_addr, set_mask_addr, parse_cidr, cidr_to_string}
use nanodistro.Network.Addresses.RoundTrip.{parse_cidr-to_string}
use nanodistro.Network.Addresses.Wildcards.{set_mask_addr-refuses}
use nanodistro.Network.{Ipv4, Cidr, Route, mask_bits, set_netmask, find_route}
use nanodistro.Network.Masks.{ones_to, set_netmask_iff}
use nanodistro.Network.Routes.{IsLongest, find_route-IsLongest}

abbrev mask_20 : Ipv4
mask_20 = record { d0 = 255; d1 = 255; d2 = 240; d3 = 0 }

set_netmask_iff_example :
    (set_netmask mask_20 ≡ ok 20) ↔ ((20 ≤ 32) × (mask_bits mask_20 ≡ ones_to 32 20))
set_netmask_iff_example = set_netmask_iff mask_20 20

abbrev host : Ipv4
host = record { d0 = 10; d1 = 1; d2 = 2; d3 = 3 }

abbrev two_routes : List Route
two_routes =
    record {
      dest = record { addr = host; prefix = 32 };
      gateway = host;
      ifname = codes "eth0";
      metric = negsuc 0;
    }
    ∷ record {
      dest = record { addr = host; prefix = 0 };
      gateway = host;
      ifname = codes "wlan0";
      metric = negsuc 0;
    }
    ∷ []

find_route-IsLongest_example : IsLongest true host two_routes (find_route true host two_routes)
find_route-IsLongest_example = find_route-IsLongest true host two_routes

-- 10.1.2.3/20
abbrev lan : Cidr
lan = record { addr = host; prefix = 20 }

parse_cidr-to_string_example : parse_cidr true (cidr_to_string lan) ≡ ok lan
parse_cidr-to_string_example =
    parse_cidr-to_string true lan
      (record {
        first_byte = omega arith;
        second_byte = omega arith;
        third_byte = omega arith;
        fourth_byte = omega arith;
      })
      (omega arith)

-- 255.255.255.0
abbrev mask_24 : Ipv4
mask_24 = record { d0 = 255; d1 = 255; d2 = 255; d3 = 0 }

set_mask_addr-refuses_example : set_mask_addr true mask_24 ≡ throw invalid_argument
set_mask_addr-refuses_example =
    set_mask_addr-refuses mask_24 refl (omega arith) (omega arith) (omega arith) (omega arith)

-- What stands behind a number in an item is passed over.
loose_items : parse_addr true (codes "10.1x.2.3") ≡ ok host
unfolding parse_addr str_trim_start eqb
loose_items = refl

abbrev small_bytes : Mac
small_bytes = 0 ∷ 10 ∷ 11 ∷ 12 ∷ 13 ∷ 15 ∷ []

parse_mac-to_string_example :
    (mac_to_string small_bytes (58 ∷ []) false >>= parse_mac)
    ≡ ok (0 ∷ 160 ∷ 176 ∷ 192 ∷ 208 ∷ 240 ∷ [])
parse_mac-to_string_example =
    parse_mac-to_string small_bytes (58 ∷ []) false refl
      (omega arith, (omega arith, (omega arith, (omega arith, (omega arith, (omega arith, tt))))))
      refl

mac_to_string-throws_example :
    mac_to_string (0 ∷ 26 ∷ 43 ∷ 60 ∷ 77 ∷ 255 ∷ []) (58 ∷ []) false ≡ throw invalid_argument
mac_to_string-throws_example =
    mac_to_string-throws (0 ∷ []) 26 (43 ∷ 60 ∷ 77 ∷ 255 ∷ []) (58 ∷ []) false (omega arith)
      (omega arith)

abbrev documentation : Ipv6
documentation = 8193 ∷ 3512 ∷ 0 ∷ 0 ∷ 1 ∷ 0 ∷ 0 ∷ 66 ∷ []

documentation-small : All (λ g. g < 65536) documentation
documentation-small = (
  omega arith,
  (
    omega arith,
    (omega arith, (omega arith, (omega arith, (omega arith, (omega arith, (omega arith, tt)))))),
  ),
)

documentation-text : ipv6_to_string false documentation ≡ codes "2001:db8::1:0:0:42"
unfolding ipv6_to_string hex_text
documentation-text = refl

-- A dotted address behind seven values is written out of bounds, and behind two colons over the
-- last value; what follows the digits of an item is not looked at.
seven_and_dotted : parse_ipv6 true (codes "1:2:3:4:5:6:7:1.2.3.4") ≡ throw undefined
unfolding parse_ipv6 find str_split eqb stoi strto str_trim_start scan has_dot parse_addr
seven_and_dotted = refl

parse_ipv6-to_string_example :
    parse_ipv6 true (ipv6_to_string false documentation) ≡ ok documentation
parse_ipv6-to_string_example =
    parse_ipv6-to_string false true documentation refl documentation-small

parse_cidr6-to_string_example :
    parse_cidr6 true (cidr6_to_string (record { addr = documentation; prefix = 64 }))
    ≡ ok (record { addr = documentation; prefix = 64 })
parse_cidr6-to_string_example =
    parse_cidr6-to_string true (record { addr = documentation; prefix = 64 }) refl
      documentation-small (omega arith)

overwritten :
    parse_ipv6 true (codes "1:2:3:4:5:6:7::1.2.3.4") ≡ ok (1 ∷ 2 ∷ 3 ∷ 4 ∷ 5 ∷ 6 ∷ 258 ∷ 772 ∷ [])
unfolding parse_ipv6 find str_split eqb stoi strto str_trim_start scan has_dot parse_addr
overwritten = refl

-- On a machine with the low byte first, the address behind ::1 is not ::2.
next_of_one :
    next_ipv6 true (0 ∷ 0 ∷ 0 ∷ 0 ∷ 0 ∷ 0 ∷ 0 ∷ 1 ∷ []) ≡ 0 ∷ 0 ∷ 0 ∷ 0 ∷ 256 ∷ 0 ∷ 0 ∷ 1 ∷ []
unfolding next_ipv6
next_of_one = refl
