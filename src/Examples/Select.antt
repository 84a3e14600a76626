-- ===== src/Examples/Select.antt =====
-- Selection on two pools.
use mathlib.Core.List.{Mem, mem-cons_self, mem-cons_of_mem}
use chi_jie.Prelude.{
  ◌≡◌, ◌≢◌, ◌↔◌, ◌⊎◌, refl, true, false, List, [], ◌∷◌, ◌++◌, Str, text, str_lt, Perm, All,
}
use chi_jie.Pool.Types.{EgressChoice}
use chi_jie.Pool.Names.{normalize_strategy, least_latency, normalize_region_code, egress_group_for}
use chi_jie.Pool.Order.{order_egress_choices}
use chi_jie.Pool.Order.Laws.{Ranked, order_egress_choices-Ranked}
use chi_jie.Pool.Order.Premium.{PremiumFirst}
use chi_jie.Pool.Order.Rotation.{firsts, firsts-perm}
use chi_jie.Pool.Candidates.{
  serves_nodes, is_candidate, node_choice, entry_choices, try_offline_entry_choices,
  template_choices,
}
use chi_jie.Pool.Select.{
  ok, err, none_in_region, residential_fallback, egress_candidate_group, select_candidates,
  select_egress_candidates_with_template_fallback_for,
}
use chi_jie.Pool.Select.Groups.{
  IsUnserved, egress_candidate_group-perm, egress_candidate_group-PremiumFirst,
}
use chi_jie.Pool.Select.Classes.{Fits, select_candidates_ok, select_candidates_err, online_selected}
use chi_jie.Examples.Data.{
  first_entry, second_entry, home_config, home, pools, still, manager, empty_manager, plain, prized,
  outside,
}

abbrev us : Str
us = text "US"

abbrev fastest : Str
fastest = text "least-latency"

-- The two nodes of the first pool, the faster one first.
abbrev both : List EgressChoice
both =
    node_choice (text "home") home_config us us second_entry
    ∷ node_choice (text "home") home_config us us first_entry
    ∷ []

select_candidates_ok_example :
    (both ≢ []) × All (Fits manager.pools (normalize_region_code us) plain) both
unfolding select_candidates normalize_region_code egress_candidate_group order_egress_choices
    entry_choices str_lt normalize_strategy egress_group_for
select_candidates_ok_example = select_candidates_ok false outside manager us fastest plain both refl

select_candidates_err_example :
    ((select_candidates true outside empty_manager us fastest plain).0
      ≡ err (none_in_region (normalize_region_code us) false))
    ↔ (IsUnserved outside [] (normalize_region_code us) plain
        × ((false ≡ true)
            ⊎ IsUnserved outside [] (normalize_region_code us) (residential_fallback plain)))
unfolding normalize_region_code
select_candidates_err_example =
    select_candidates_err true outside empty_manager us fastest plain (λ e. cc e)

online_selected_example :
    (cs : List EgressChoice) × ((select_egress_candidates_with_template_fallback_for outside manager
        us fastest plain).0
      ≡ ok cs)
    × Mem
        (node_choice
          (text "home")
          home_config
          (normalize_region_code us)
          (egress_group_for (normalize_region_code us) plain)
          second_entry)
        cs
unfolding normalize_region_code is_candidate serves_nodes
online_selected_example =
    online_selected outside manager us fastest plain (text "home") home second_entry (λ e. cc e)
      mem-cons_self refl (mem-cons_of_mem first_entry mem-cons_self) refl

egress_candidate_group-perm_example :
    Perm (egress_candidate_group outside pools still us least_latency plain true).0 (
      (entry_choices pools us plain ++ try_offline_entry_choices pools us plain)
      ++ template_choices outside pools us plain)
egress_candidate_group-perm_example =
    egress_candidate_group-perm outside pools still us least_latency plain

egress_candidate_group-PremiumFirst_example :
    PremiumFirst (egress_candidate_group outside pools still us least_latency prized true).0
egress_candidate_group-PremiumFirst_example =
    egress_candidate_group-PremiumFirst outside pools still us least_latency prized true refl

firsts-perm_example : Perm (firsts 2 still both us) both
firsts-perm_example = firsts-perm still both us

order_egress_choices-Ranked_example : Ranked (order_egress_choices still both least_latency us).0
order_egress_choices-Ranked_example = order_egress_choices-Ranked still both us

abbrev anywhere : List EgressChoice
anywhere =
    node_choice (text "home") home_config us (text "ANY") second_entry
    ∷ node_choice (text "home") home_config us (text "ANY") first_entry
    ∷ []
