-- ===== src/Pool/Nodes/Switched.antt =====
-- The stored configuration after a node is switched.
use chi_jie.Prelude.{
  ◌≡◌, refl, inl, inr, Bool, true, false, not, none, some, List, [], ◌∷◌, arith, Str, str_eq,
  str_eq_iff, Option, Bool-cases, if◌then◌else◌,
}
use chi_jie.Pool.Types.{Node, PoolConfig}
use chi_jie.Util.{contains_string}
use chi_jie.Util.Laws.{contains-remove, contains-append}
use chi_jie.Pool.Nodes.{
  switch_config_node, switch_disabled, update_config_node_enabled, is_node_enabled,
}

-- The list of disabled nodes holds the name exactly where the node is off.
pub contains-switch_disabled :
    (node_name : Str) (on : Bool) (disabled : List Str)
    → contains_string (switch_disabled node_name on disabled) node_name ≡ not on
unfolding switch_disabled contains_string
contains-switch_disabled node_name true disabled =
    ground (arith, contains-remove disabled node_name node_name, str_eq_iff node_name node_name)
contains-switch_disabled node_name false disabled =
    ground
      (arith, contains-append disabled (node_name ∷ []) node_name, str_eq_iff node_name node_name)

-- The first configured node of a name.
unfoldable pub first_node : Str → List Node → Option Node
first_node name [] = none
first_node name (n ∷ ns) = if str_eq n.name name then some n else first_node name ns

switch_config_node-none :
    (name : Str) (on : Bool) (ns : List Node)
    → first_node name ns ≡ none
    → switch_config_node name on ns ≡ none
unfolding first_node switch_config_node
switch_config_node-none name on [] h = refl
switch_config_node-none name on (n ∷ ns) h = ground (arith, switch_config_node-none name on ns)

switch_config_node-some :
    (name : Str) (on : Bool) (ns : List Node) (n : Node)
    → first_node name ns ≡ some n
    → (ms : List Node) × (switch_config_node name on ns ≡ some ms)
      × (first_node name ms ≡ some (record n { enabled = some on }))
unfolding first_node switch_config_node
switch_config_node-some name on [] n h = absurd (cc)
switch_config_node-some name on (k ∷ ns) n h = elim (Bool-cases (str_eq k.name name)) [
  | inl t ↦ (record k { enabled = some on } ∷ ns, ground arith, ground arith)
  | inr f ↦
      let (ms, e, g) = switch_config_node-some name on ns n (ground arith) in
      (k ∷ ms, ground arith, ground arith)
]

-- After a switch, the first configured node of the name, if there is one, is read from the
-- configuration with the new setting.
pub listed_node_switched :
    (cfg : PoolConfig) (name : Str) (on : Bool) (n : Node)
    → first_node name cfg.nodes ≡ some n
    → (m : Node) × (first_node name (update_config_node_enabled cfg name on).nodes ≡ some m)
      × (is_node_enabled m (update_config_node_enabled cfg name on) ≡ on)
unfolding update_config_node_enabled is_node_enabled
listed_node_switched cfg name on n h =
    let (ms, e, g) = switch_config_node-some name on cfg.nodes n h in
    (record n { enabled = some on }, ground arith, refl)

-- After a switch, a node that the configuration does not list and that has no setting of its own
-- is read with the new setting.
pub subscribed_node_switched :
    (cfg : PoolConfig) (node : Node) (on : Bool)
    → first_node node.name cfg.nodes ≡ none
    → node.enabled ≡ none
    → is_node_enabled node (update_config_node_enabled cfg node.name on) ≡ on
unfolding update_config_node_enabled is_node_enabled
subscribed_node_switched cfg node on h none_set = ground (
  arith,
  switch_config_node-none node.name on cfg.nodes h,
  contains-switch_disabled node.name on cfg.disabled_nodes,
)
