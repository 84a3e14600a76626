-- ===== src/Guard/Hosts.antt =====
-- What an accepted host stands for.
use chi_jie.Prelude.{
  ◌≡◌, ◌≢◌, ◌⊎◌, inl, inr, refl, false, Option, none, some, List, [], ◌∷◌, any, All, Str,
  trim_space, is_nil, arith, Option-cases, Bool-cases,
}
use chi_jie.Guard.{Ip, is_blocked_ip, check_addresses, check_host}

abbrev pub IsOpen : Option Ip → Type 0
IsOpen ip = is_blocked_ip ip ≡ false

-- The host is an address that is open, or a name that stands for some addresses, all open.
abbrev pub IsSafe : (Str → Option Ip) → (Str → Option (List (Option Ip))) → Str → Type 0
IsSafe parse_ip lookup_ip h =
    ((ip : Ip) × ((parse_ip h ≡ some ip) × IsOpen (some ip)))
    ⊎ ((parse_ip h ≡ none)
        × ((found : List (Option Ip)) × ((lookup_ip h ≡ some found)
              × ((found ≢ []) × All IsOpen found))))

any-IsOpen : (found : List (Option Ip)) → any is_blocked_ip found ≡ false → All IsOpen found
any-IsOpen [] h = tt
any-IsOpen (a ∷ more) h = ground (arith, any-IsOpen more)

check_addresses-IsOpen :
    (result : Option (List (Option Ip)))
    → check_addresses result ≡ none
    → (found : List (Option Ip)) × ((result ≡ some found) × ((found ≢ []) × All IsOpen found))
unfolding check_addresses
check_addresses-IsOpen none h = absurd (cc)
check_addresses-IsOpen (some []) h = absurd (cc)
check_addresses-IsOpen (some (a ∷ more)) h =
    (a ∷ more, (refl, ((λ e. cc e), any-IsOpen (a ∷ more) (ground arith))))

-- A host is accepted only if, trimmed, it is an address that is not blocked, or no address but a
-- name that resolves to at least one address, none of them blocked.
pub check_host-IsSafe :
    (parse_ip : Str → Option Ip) (lookup_ip : Str → Option (List (Option Ip))) (host : Str)
    → check_host parse_ip lookup_ip host ≡ none
    → IsSafe parse_ip lookup_ip (trim_space host)
unfolding check_host
check_host-IsSafe parse_ip lookup_ip host h = elim (Bool-cases (is_nil (trim_space host))) [
  | inl e ↦ absurd (ground arith)
  | inr e ↦ elim (Option-cases (parse_ip (trim_space host))) [
    | inl name ↦ inr (name, check_addresses-IsOpen (lookup_ip (trim_space host)) (ground arith))
    | inr (ip, parsed) ↦ inl (ip, (parsed, ground arith))
  ]
]
