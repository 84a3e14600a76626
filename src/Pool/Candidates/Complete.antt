-- ===== src/Pool/Candidates/Complete.antt =====
-- Membership in the candidate list of a region.
use mathlib.Core.List.{Mem, mem-map_of_mem}
use mathlib.Core.List.Perm
use chi_jie.Prelude.{◌≡◌, true, Str, Dict, mem-select, mem-concat_map, concat_map, sort_by-perm}
use chi_jie.Pool.Types.{NodeEntry, Pool, EgressSelector}
use chi_jie.Pool.Names.{egress_group_for}
use chi_jie.Pool.Order.{less_name}
use chi_jie.Pool.Candidates.{serves_nodes, is_candidate, node_choice, pool_choices, entry_choices}

module _ (region : Str) (s : EgressSelector) (pools : Dict Pool) (name : Str) (pool : Pool)
    (e : NodeEntry) (listed : Mem (name, pool) pools) (serves : serves_nodes pool.config ≡ true)
    (held : Mem e pool.entries) (online : is_candidate region s e ≡ true) where
  mem-pool_choices :
      Mem
        (node_choice name pool.config region (egress_group_for region s) e)
        (pool_choices region s (name, pool))
  unfolding pool_choices
  mem-pool_choices = rw serves (
      mem-map_of_mem (node_choice name pool.config region (egress_group_for region s))
        (mem-select (is_candidate region s) pool.entries e online held))

  pub mem-entry_choices :
      Mem
        (node_choice name pool.config region (egress_group_for region s) e)
        (entry_choices pools region s)
  unfolding entry_choices
  mem-entry_choices =
      Perm.subset (Perm.symm (sort_by-perm less_name (concat_map (pool_choices region s) pools))) _
        (mem-concat_map (pool_choices region s) pools (name, pool) _ listed mem-pool_choices)
