-- ===== src/Guard.antt =====
-- internal/netguard/netguard.go: which addresses a target may have. The tests of package net on an
-- address are written out; net.ParseIP and the resolver's lookup are parameters.
pub mod Ranges
pub mod Hosts
use chi_jie.Prelude.{
  ℕ, ◌/◌, ◌%◌, Bool, true, false, ◌&&◌, ◌||◌, Option, none, some, List, [], ◌∷◌, if◌then◌else◌, leb,
  ◌==◌, any, Str, trim_space, is_nil,
}

-- An address by its bytes: four of them, also where it is written in sixteen, or the first two of
-- sixteen and the others.
pub data Ip : Type 0 where
  v4 : ℕ → ℕ → ℕ → ℕ → Ip
  v6 : ℕ → ℕ → List ℕ → Ip

-- The bytes are zero; and they are zero but for the last, which is one.
abbrev pub are_zero : List ℕ → Bool
are_zero [] = true
are_zero (b ∷ bs) = (b == 0) && are_zero bs

abbrev pub are_one : List ℕ → Bool
are_one [] = false
are_one (b ∷ []) = b == 1
are_one (b ∷ (c ∷ bs)) = (b == 0) && are_one (c ∷ bs)

unfoldable pub is_loopback : Ip → Bool
is_loopback (v4 a b c d) = a == 127
is_loopback (v6 a b rest) = (a == 0) && ((b == 0) && are_one rest)

unfoldable pub is_unspecified : Ip → Bool
is_unspecified (v4 a b c d) = (a == 0) && ((b == 0) && ((c == 0) && (d == 0)))
is_unspecified (v6 a b rest) = (a == 0) && ((b == 0) && are_zero rest)

unfoldable pub is_link_local_unicast : Ip → Bool
is_link_local_unicast (v4 a b c d) = (a == 169) && (b == 254)
is_link_local_unicast (v6 a b rest) = (a == 254) && (b / 64 == 2)

unfoldable pub is_link_local_multicast : Ip → Bool
is_link_local_multicast (v4 a b c d) = (a == 224) && ((b == 0) && (c == 0))
is_link_local_multicast (v6 a b rest) = (a == 255) && (b % 16 == 2)

unfoldable pub is_interface_local_multicast : Ip → Bool
is_interface_local_multicast (v4 a b c d) = false
is_interface_local_multicast (v6 a b rest) = (a == 255) && (b % 16 == 1)

unfoldable pub is_multicast : Ip → Bool
is_multicast (v4 a b c d) = a / 16 == 14
is_multicast (v6 a b rest) = a == 255

unfoldable pub is_private : Ip → Bool
is_private (v4 a b c d) = (a == 10) || (((a == 172) && (b / 16 == 1)) || ((a == 192) && (b == 168)))
is_private (v6 a b rest) = a / 2 == 126

-- The three tests on the bytes of an address of four.
unfoldable pub is_reserved : Ip → Bool
is_reserved (v4 a b c d) = ((a == 100) && (b / 64 == 1)) || ((a == 0) || leb 240 a)
is_reserved (v6 a b rest) = false

-- IsBlockedIP; `none` is a nil address.
unfoldable pub is_blocked_ip : Option Ip → Bool
unfolding is_loopback is_unspecified is_link_local_unicast is_link_local_multicast
    is_interface_local_multicast is_multicast is_private is_reserved
is_blocked_ip none = true
is_blocked_ip (some ip) =
    if is_loopback ip
      || (is_unspecified ip
          || (is_link_local_unicast ip
              || (is_link_local_multicast ip
                  || (is_interface_local_multicast ip || (is_multicast ip || is_private ip)))))
    then true
    else is_reserved ip

pub data HostError : Type 0 where
  empty_host resolve_failed no_addresses blocked_address : HostError

unfoldable pub check_addresses : Option (List (Option Ip)) → Option HostError
unfolding is_blocked_ip
check_addresses none = some resolve_failed
check_addresses (some []) = some no_addresses
check_addresses (some (a ∷ more)) =
    if any is_blocked_ip (a ∷ more) then some blocked_address else none

-- CheckHost: `none` where the host is accepted.
unfoldable pub check_host :
    (Str → Option Ip) → (Str → Option (List (Option Ip))) → Str → Option HostError
unfolding check_addresses
check_host parse_ip lookup_ip host =
    let h = trim_space host in
    if is_nil h then some empty_host else elim (parse_ip h) [
      | some ip ↦ if is_blocked_ip (some ip) then some blocked_address else none
      | none ↦ check_addresses (lookup_ip h)
    ]
