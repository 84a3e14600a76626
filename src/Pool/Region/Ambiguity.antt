-- ===== src/Pool/Region/Ambiguity.antt =====
-- Names that hold two aliases.
use chi_jie.Prelude.{◌≡◌, ◌≢◌, true, ◌∷◌, List, Perm, arith, Str, to_lower, contains, Dict, is_nil}
use mathlib.Core.List.Perm
use chi_jie.Pool.Region.{
  flag_region_code, find_alias, detect_by_words, detect_region_from_node_name,
}

-- The detected region is that of the alias which comes first among those in the name.
pub detect_first_alias :
    (alias region : Str) (rest : Dict Str) (codes : List Str) (name : Str)
    → is_nil (flag_region_code name) ≡ true
    → contains (to_lower name) alias ≡ true
    → detect_region_from_node_name ((alias, region) ∷ rest) codes name ≡ region
unfolding detect_region_from_node_name detect_by_words find_alias
detect_first_alias alias region rest codes name h k = ground arith

-- For a name without a flag that contains two aliases of different regions, two iteration orders
-- of the same alias map make the detection return different regions.
pub detect_depends_on_order :
    (a b x y : Str) (rest : Dict Str) (codes : List Str) (name : Str)
    → is_nil (flag_region_code name) ≡ true
    → contains (to_lower name) a ≡ true
    → contains (to_lower name) b ≡ true
    → x ≢ y
    → Perm ((a, x) ∷ (b, y) ∷ rest) ((b, y) ∷ (a, x) ∷ rest)
      × (detect_region_from_node_name ((a, x) ∷ (b, y) ∷ rest) codes name
          ≢ detect_region_from_node_name ((b, y) ∷ (a, x) ∷ rest) codes name)
detect_depends_on_order a b x y rest codes name h ha hb ne = (
  Perm.swap (b, y) (a, x) rest,
  λ e. ne (
      cc (
        e,
        detect_first_alias a x ((b, y) ∷ rest) codes name h ha,
        detect_first_alias b y ((a, x) ∷ rest) codes name h hb,
      )),
)
