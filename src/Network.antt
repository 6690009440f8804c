-- ===== src/Network.antt =====
-- IPv4 addresses, masks, networks and routes (src/network, include/net-utils.h). An address is a
-- union of four bytes and a word; how the word stands in the bytes is the first argument `little`.
pub mod Masks
pub mod Routes
pub mod Addresses
pub mod Mac
pub mod Ipv6
mod Tests
use Prim.Native.Nat.{bit_and, compare, Ordering}
use nanodistro.Base.{
  ℕ, zero, suc, ◌+◌, ◌-◌, ◌*◌, ◌/◌, ◌%◌, ◌^◌, Bool, true, false, not, ◌&&◌, ◌||◌, List, [], ◌∷◌,
  ◌++◌, Option, none, some, Bytes, eqb, ltb, leb, ◌==◌, if◌then◌else◌, Result, ok, throw, Error,
  invalid_argument, runtime_error, errno_error,
}
use nanodistro.Base.Int.{ℤ, pos, negsuc, ltb_ℤ, eqb_ℤ}

pub record Ipv4 : Type 0 where
  pub d0 : ℕ
  pub d1 : ℕ
  pub d2 : ℕ
  pub d3 : ℕ

-- the member `v` of the union, and a write to it
abbrev pub to_word : Bool → Ipv4 → ℕ
to_word true a = ((a.d3 * 256 + a.d2) * 256 + a.d1) * 256 + a.d0
to_word false a = ((a.d0 * 256 + a.d1) * 256 + a.d2) * 256 + a.d3

abbrev pub of_word : Bool → ℕ → Ipv4
of_word true v = record {
  d0 = v % 256;
  d1 = v / 256 % 256;
  d2 = v / 65536 % 256;
  d3 = v / 16777216 % 256;
}
of_word false v = record {
  d0 = v / 16777216 % 256;
  d1 = v / 65536 % 256;
  d2 = v / 256 % 256;
  d3 = v % 256;
}

-- the sign of `memcmp` on one more byte
abbrev pub then_by : Ordering → Ordering → Ordering
then_by Ordering.lt rest = Ordering.lt
then_by Ordering.eq rest = rest
then_by Ordering.gt rest = Ordering.gt

-- `ipv4::compare`, by its sign
unfoldable pub compare_addr : Ipv4 → Ipv4 → Ordering
compare_addr a b =
    then_by (compare a.d0 b.d0)
      (then_by (compare a.d1 b.d1) (then_by (compare a.d2 b.d2) (compare a.d3 b.d3)))

-- `operator<=`
abbrev pub at_most : Ordering → Bool
at_most Ordering.lt = true
at_most Ordering.eq = true
at_most Ordering.gt = false

unfoldable pub next : Bool → Ipv4 → Ipv4
next little a = of_word little ((to_word little a + 1) % 2 ^ 32)

unfoldable pub prev : Bool → Ipv4 → Ipv4
prev little a = of_word little ((to_word little a + 2 ^ 32 - 1) % 2 ^ 32)

-- `ipv4_mask::set(int)`, for a prefix that is not negative
unfoldable pub set_prefix : ℕ → Result ℕ
set_prefix prefix = if ltb 32 prefix then throw invalid_argument else ok prefix

-- The bits of a mask in the order of the loop: `mask.d[i/8]&(1<<(7-i%8))` for i from 0 on.
abbrev pub byte_bits : ℕ → List Bool
byte_bits d =
    (d / 128 % 2 == 1)
    ∷ (d / 64 % 2 == 1)
    ∷ (d / 32 % 2 == 1)
    ∷ (d / 16 % 2 == 1)
    ∷ (d / 8 % 2 == 1)
    ∷ (d / 4 % 2 == 1)
    ∷ (d / 2 % 2 == 1)
    ∷ (d % 2 == 1)
    ∷ []

unfoldable pub mask_bits : Ipv4 → List Bool
mask_bits m = byte_bits m.d0 ++ (byte_bits m.d1 ++ (byte_bits m.d2 ++ byte_bits m.d3))

-- The loop with `zero_found` and `prefix`.
unfoldable pub netmask_loop : List Bool → Bool → ℕ → Result ℕ
netmask_loop [] zero_found prefix = ok prefix
netmask_loop (true ∷ bits) true prefix = throw invalid_argument
netmask_loop (true ∷ bits) false prefix = netmask_loop bits false (prefix + 1)
netmask_loop (false ∷ bits) zero_found prefix = netmask_loop bits true prefix

unfoldable pub set_netmask : Ipv4 → Result ℕ
unfolding netmask_loop mask_bits
set_netmask mask = netmask_loop (mask_bits mask) false 0

-- The loop with `one_found` and `prefix`.
unfoldable pub wildcard_loop : List Bool → Bool → ℕ → Result ℕ
wildcard_loop [] one_found prefix = ok prefix
wildcard_loop (false ∷ bits) true prefix = throw invalid_argument
wildcard_loop (false ∷ bits) false prefix = wildcard_loop bits false (prefix + 1)
wildcard_loop (true ∷ bits) one_found prefix = wildcard_loop bits true prefix

unfoldable pub set_wildcard : Ipv4 → Result ℕ
unfolding wildcard_loop mask_bits
set_wildcard mask = wildcard_loop (mask_bits mask) false 0

-- The words of `to_netmask` and `to_wildcard`, where the shift is by less than 32.
abbrev pub netmask_word : ℕ → ℕ
netmask_word prefix = (2 ^ 32 - 1) * 2 ^ (32 - prefix) % 2 ^ 32

abbrev pub wildcard_word : ℕ → ℕ
wildcard_word prefix = (2 ^ 32 - 1) / 2 ^ prefix

pub record Cidr : Type 0 where
  pub addr : Ipv4
  pub prefix : ℕ

-- `net()` and `brd()`
unfoldable pub net : Bool → Cidr → Ipv4
net little c = of_word little (bit_and (to_word little c.addr) (netmask_word c.prefix))

unfoldable pub brd : Bool → Cidr → Ipv4
unfolding net
brd little c = of_word little ((to_word little (net little c) + wildcard_word c.prefix) % 2 ^ 32)

-- `begin()` and `end()`
unfoldable pub first : Bool → Cidr → Ipv4
unfolding net next
first little c = if ltb 0 c.prefix && ltb c.prefix 32 then next little (net little c) else c.addr

unfoldable pub last : Bool → Cidr → Ipv4
unfolding brd prev
last little c = if ltb 0 c.prefix && ltb c.prefix 32 then prev little (brd little c) else c.addr

unfoldable pub is_addr_in : Bool → Cidr → Ipv4 → Bool
unfolding first last compare_addr
is_addr_in little c a =
    at_most (compare_addr (first little c) a) && at_most (compare_addr a (last little c))

unfoldable pub compare_cidr : Cidr → Cidr → Ordering
unfolding compare_addr
compare_cidr a b = then_by (compare_addr a.addr b.addr) (compare a.prefix b.prefix)

-- A route, without the members that are not read here.
pub record Route : Type 0 where
  pub dest : Cidr
  pub gateway : Ipv4
  pub ifname : Bytes
  pub metric : ℤ

unfoldable pub compare_route : Route → Route → Ordering
unfolding compare_cidr compare_addr
compare_route a b = then_by (compare_cidr a.dest b.dest) (compare_addr a.gateway b.gateway)

abbrev pub int32_max : ℤ
int32_max = pos 2147483647

-- The loop of `find` with `best`, `bp` and `bm`.
unfoldable pub find_loop : Bool → Ipv4 → List Route → Option Route → ℤ → ℤ → Option Route
unfolding is_addr_in
find_loop little dest [] best bp bm = best
find_loop little dest (r ∷ routes) best bp bm =
    let p = pos r.dest.prefix in
    let m = if ltb_ℤ r.metric (pos 0) then int32_max else r.metric in
    let taken = find_loop little dest routes (some r) p r.metric in
    let passed = find_loop little dest routes best bp bm in
    if not (is_addr_in little r.dest dest)
    then passed
    else if ltb_ℤ bp p || (eqb_ℤ p bp && ltb_ℤ m bm)
    then taken
    else passed

-- The two overloads throw different exceptions.
abbrev pub found_or : Error → Option Route → Result Route
found_or e none = throw e
found_or e (some r) = ok r

unfoldable pub find_const : Bool → Ipv4 → List Route → Result Route
unfolding find_loop
find_const little dest routes =
    found_or runtime_error (find_loop little dest routes none (negsuc 0) int32_max)

unfoldable pub find_route : Bool → Ipv4 → List Route → Result Route
unfolding find_loop
find_route little dest routes =
    found_or errno_error (find_loop little dest routes none (negsuc 0) int32_max)

unfoldable pub by_ifname : Bytes → List Route → List Route
by_ifname ifn [] = []
by_ifname ifn (r ∷ routes) =
    let rest = by_ifname ifn routes in if eqb r.ifname ifn then r ∷ rest else rest
