-- ===== src/Pool/Nodes.antt =====
-- The run-time node operations of internal/pool/manager.go.
pub mod Marked
pub mod Switched
use chi_jie.Prelude.{
  ℕ, ◌+◌, Bool, true, false, not, ◌||◌, Option, none, some, List, [], ◌∷◌, ◌++◌, if◌then◌else◌, Str,
  text, str_eq, trim_space, equal_fold, is_nil, Dict, lookup, insert,
}
use chi_jie.Pool.Types.{Node, NodeEntry, PoolConfig, Pool, Manager}
use chi_jie.Util.{contains_string, remove_string}

-- The loop of MarkNodeUnavailable over the entries; `none` where it returns false.
unfoldable pub mark_entry : Str → List NodeEntry → Option (List NodeEntry)
unfolding str_eq equal_fold
mark_entry node_name [] = none
mark_entry node_name (e ∷ es) =
    let rest = mark_entry node_name es in
    if str_eq e.node.name node_name
    then if equal_fold e.node.type (text "direct")
      then none
      else some (record e { alive = false; fail_count = e.fail_count + 1 } ∷ es)
    else elim rest [ none ↦ none | some more ↦ some (e ∷ more) ]

unfoldable pub mark_in_pool : Manager → Str → Str → Pool → Bool × Manager
unfolding mark_entry
mark_in_pool m pool_name node_name pool = elim (mark_entry node_name pool.entries) [
  | none ↦ (false, m)
  | some es ↦ (true, record m { pools = insert pool_name (record pool { entries = es }) m.pools })
]

-- MarkNodeUnavailable
unfoldable pub mark_node_unavailable : Manager → Str → Str → Bool × Manager
unfolding mark_in_pool trim_space
mark_node_unavailable m pool_name node_name =
    if is_nil (trim_space pool_name) || is_nil (trim_space node_name)
    then (false, m)
    else elim (lookup pool_name m.pools) [
      | none ↦ (false, m)
      | some pool ↦ mark_in_pool m pool_name node_name pool
    ]

-- The loop of updateConfigNodeEnabled over the configured nodes; `none` where no name fits.
unfoldable pub switch_config_node : Str → Bool → List Node → Option (List Node)
unfolding str_eq
switch_config_node node_name enabled [] = none
switch_config_node node_name enabled (n ∷ ns) =
    let rest = switch_config_node node_name enabled ns in
    if str_eq n.name node_name
    then some (record n { enabled = some enabled } ∷ ns)
    else elim rest [ none ↦ none | some more ↦ some (n ∷ more) ]

unfoldable pub switch_disabled : Str → Bool → List Str → List Str
unfolding contains_string remove_string
switch_disabled node_name enabled disabled =
    if enabled
    then remove_string disabled node_name
    else if contains_string disabled node_name
    then disabled
    else disabled ++ (node_name ∷ [])

-- updateConfigNodeEnabled
unfoldable pub update_config_node_enabled : PoolConfig → Str → Bool → PoolConfig
unfolding switch_config_node switch_disabled
update_config_node_enabled cfg node_name enabled =
    elim (switch_config_node node_name enabled cfg.nodes) [
      | some nodes ↦ record cfg { nodes = nodes }
      | none ↦ record cfg { disabled_nodes = switch_disabled node_name enabled cfg.disabled_nodes }
    ]

-- The loop of SetNodeEnabled over the entries. A static pool's entry shares its node with the
-- configuration, where updateConfigNodeEnabled finds it again.
unfoldable pub switch_entry : Str → Bool → List NodeEntry → Option (List NodeEntry)
unfolding str_eq
switch_entry node_name on [] = none
switch_entry node_name on (e ∷ es) =
    let rest = switch_entry node_name on es in
    if str_eq e.node.name node_name
    then some (record e { enabled = on; node = record e.node { enabled = some on } } ∷ es)
    else elim rest [ none ↦ none | some more ↦ some (e ∷ more) ]

pub data NodeError : Type 0 where
  pool_not_found node_not_found : NodeError

unfoldable pub switch_in_pool : Manager → Str → Str → Bool → Pool → Option NodeError × Manager
unfolding switch_entry update_config_node_enabled
switch_in_pool m pool_name node_name on pool = elim (switch_entry node_name on pool.entries) [
  | none ↦ (some node_not_found, m)
  | some es ↦ (
    none,
    record m {
      pools =
          insert pool_name
            (record pool {
              entries = es;
              config = update_config_node_enabled pool.config node_name on;
            })
            m.pools;
    },
  )
]

-- SetNodeEnabled
unfoldable pub set_node_enabled : Manager → Str → Str → Bool → Option NodeError × Manager
unfolding switch_in_pool
set_node_enabled m pool_name node_name on = elim (lookup pool_name m.pools) [
  | none ↦ (some pool_not_found, m)
  | some pool ↦ switch_in_pool m pool_name node_name on pool
]

-- isNodeEnabled
unfoldable pub is_node_enabled : Node → PoolConfig → Bool
unfolding contains_string
is_node_enabled node cfg = elim node.enabled [
  | some b ↦ b
  | none ↦ not (contains_string cfg.disabled_nodes node.name)
]
