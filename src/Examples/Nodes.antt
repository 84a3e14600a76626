-- ===== src/Examples/Nodes.antt =====
-- Marks, switches, probes and runs of concrete nodes.
use chi_jie.Prelude.{
  ◌≡◌, ◌≢◌, refl, [], ◌∷◌, ◌++◌, Str, text, str_eq, contains, to_lower, All, ltb, pos, Perm, lookup,
}
use chi_jie.Pool.Types.{PoolConfig}
use chi_jie.Pool.Candidates.{entry_choices}
use chi_jie.Pool.Nodes.{mark_node_unavailable}
use chi_jie.Pool.Nodes.Marked.{IsOther, marked_not_candidate}
use chi_jie.Pool.Health.{reached, fail_limit}
use chi_jie.Pool.Health.Runs.{probe_all, failures, probe_after_success}
use chi_jie.Pool.Region.{detect_region_from_node_name, flag_region_code}
use chi_jie.Pool.Region.Ambiguity.{detect_depends_on_order}
use chi_jie.Examples.Data.{first_entry, home, manager, plain, config_of, ne_of_str_eq}

abbrev n1 : Str
n1 = text "n1"

marked_not_candidate_example :
    All
      (IsOther (text "home") n1)
      (entry_choices (mark_node_unavailable manager (text "home") n1).1.pools (text "US") plain)
unfolding mark_node_unavailable lookup
marked_not_candidate_example =
    marked_not_candidate manager (text "home") n1 home (text "US") plain ((refl, tt), (tt, tt)) refl
      ((refl, tt), (tt, tt)) refl

abbrev subscription : PoolConfig
subscription = config_of (text "subscription") []

probe_after_success_example :
    ((probe_all first_entry (failures 4 ++ (reached 9 ∷ failures 2)) (pos 3)).alive
      ≡ ltb 2 (fail_limit (pos 3)))
    × ((probe_all first_entry (failures 4 ++ (reached 9 ∷ failures 2)) (pos 3)).latency ≡ 9)
probe_after_success_example = probe_after_success first_entry (failures 4) 9 2 (pos 3)

abbrev oceania : Str
oceania = text "Australia 1"

detect_depends_on_order_example :
    Perm {A = Str × Str}
      ((text "australia", text "AU") ∷ (text "us", text "US") ∷ [])
      ((text "us", text "US") ∷ (text "australia", text "AU") ∷ [])
    × (detect_region_from_node_name
          ((text "australia", text "AU") ∷ (text "us", text "US") ∷ [])
          []
          oceania
        ≢ detect_region_from_node_name
            ((text "us", text "US") ∷ (text "australia", text "AU") ∷ [])
            []
            oceania)
unfolding flag_region_code contains to_lower str_eq
detect_depends_on_order_example =
    detect_depends_on_order (text "australia") (text "us") (text "AU") (text "US") [] [] oceania
      refl refl refl (ne_of_str_eq (text "AU") (text "US") refl)
