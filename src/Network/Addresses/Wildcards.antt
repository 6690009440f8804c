-- ===== src/Network/Addresses/Wildcards.antt =====
-- Dotted masks on a machine whose words are little-endian (src/network/ipv4_mask.cpp).
use nanodistro.Base.{
  take, drop, ℕ, ◌+◌, ◌/◌, ◌%◌, ◌^◌, ◌<◌, ◌≡◌, refl, Bool, true, false, List, [], ◌∷◌, ◌++◌, ◌==◌,
  throw, invalid_argument, arith,
}
use nanodistro.Network.{Ipv4, to_word, byte_bits, mask_bits, wildcard_loop, set_wildcard}
use nanodistro.Network.Addresses.{set_mask_addr}

-- After a one, a zero ends the search for a wildcard with an error.
wildcard_loop-refuses :
    (bits rest : List Bool) (found : Bool) (prefix : ℕ)
    → found ≡ true
    → wildcard_loop (bits ++ false ∷ rest) found prefix ≡ throw invalid_argument
unfolding wildcard_loop
wildcard_loop-refuses [] rest true prefix h = refl
wildcard_loop-refuses [] rest false prefix h = absurd (ground (arith, h))
wildcard_loop-refuses (true ∷ bits) rest found prefix h =
    wildcard_loop-refuses bits rest true prefix refl
wildcard_loop-refuses (false ∷ bits) rest true prefix h = refl
wildcard_loop-refuses (false ∷ bits) rest false prefix h = absurd (ground (arith, h))

wildcard_loop-one :
    (bits more rest : List Bool) (found : Bool) (prefix : ℕ)
    → wildcard_loop (bits ++ true ∷ (more ++ false ∷ rest)) found prefix ≡ throw invalid_argument
unfolding wildcard_loop
wildcard_loop-one [] more rest found prefix = wildcard_loop-refuses more rest true prefix refl
wildcard_loop-one (true ∷ bits) more rest found prefix =
    wildcard_loop-one bits more rest true prefix
wildcard_loop-one (false ∷ bits) more rest true prefix = refl
wildcard_loop-one (false ∷ bits) more rest false prefix =
    wildcard_loop-one bits more rest false (prefix + 1)

-- On a little-endian machine `ipv4_mask::set` of an address refuses every mask whose first byte is
-- odd and whose last byte is below 128, 255.255.255.0 among them: it takes the mask for a wildcard.
pub set_mask_addr-refuses :
    (m : Ipv4)
    → m.d0 % 2 ≡ 1
    → m.d3 < 128
    → m.d0 < 256
    → m.d1 < 256
    → m.d2 < 256
    → set_mask_addr true m ≡ throw invalid_argument
unfolding set_mask_addr set_wildcard mask_bits
set_mask_addr-refuses m odd low a b c =
    let high : (to_word true m / 2 ^ 31 % 2 == 0) ≡ true = ground (arith, low, a, b, c) in
    let one : (to_word true m % 2 == 0) ≡ false = ground (arith, odd) in
    let last_of_first : (m.d0 % 2 == 1) ≡ true = ground (arith, odd) in
    let first_of_last : (m.d3 / 128 % 2 == 1) ≡ false = ground (arith, low) in
    rw (high, one)
      (rw (last_of_first, first_of_last)
        (wildcard_loop-one (take 7 (byte_bits m.d0)) (byte_bits m.d1 ++ byte_bits m.d2)
          (drop 1 (byte_bits m.d3)) false 0))
