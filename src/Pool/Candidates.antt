-- ===== src/Pool/Candidates.antt =====
-- The candidate lists of internal/pool/manager.go. What the program calls outside this model is a
-- record of functions: dialer.NewDialer over third-party dialers, and ChijieProxyURL over net/url.
pub mod Classes
pub mod Offline
pub mod Complete
pub mod Backed
use chi_jie.Prelude.{
  ℕ, zero, ◌+◌, Bool, true, false, not, ◌&&◌, ◌||◌, Option, none, some, List, [], ◌∷◌, ◌++◌, map,
  if◌then◌else◌, ltb, ◌==◌, Str, text, str_eq, str_lt, equal_fold, to_lower, to_upper, replace_all,
  Dict, select, concat_map, sort_by, ℤ, int_lt, int_eq,
}
use chi_jie.Pool.Types.{
  Dialer, Node, PoolConfig, NodeEntry, Pool, EgressChoice, EgressSelector, pool_enabled,
}
use chi_jie.Pool.Names.{
  egress_group_for, any_egress_group_for, normalize_template_type, template_covers_selector,
}
use chi_jie.Pool.Metadata.{normalize_tags}
use chi_jie.Pool.Order.{less_name, less_latency}

-- `none` is an error return.
pub record Outside : Type 0 where
  pub new_dialer : Node → Option Dialer
  pub chijie_proxy_url : Str → ℤ → Option Str

-- Static and subscription pools that are switched on serve nodes.
unfoldable pub serves_nodes : PoolConfig → Bool
unfolding str_eq pool_enabled
serves_nodes cfg =
    (str_eq cfg.source (text "static") || str_eq cfg.source (text "subscription"))
    && pool_enabled cfg

-- entryMatchesSelector
unfoldable pub entry_matches_selector : NodeEntry → EgressSelector → Bool
entry_matches_selector e selector =
    if e.residential then selector.residential else not selector.residential

-- `entry.Region == region`, and the class asked for.
unfoldable pub is_of_group : Str → EgressSelector → NodeEntry → Bool
unfolding entry_matches_selector
is_of_group region selector e = str_eq e.region region && entry_matches_selector e selector

unfoldable pub is_candidate : Str → EgressSelector → NodeEntry → Bool
unfolding is_of_group
is_candidate region selector e = (e.enabled && e.alive) && is_of_group region selector e

-- The &EgressChoice{...} literal of a node.
unfoldable pub node_choice : Str → PoolConfig → Str → Str → NodeEntry → EgressChoice
node_choice pool_name cfg region group e = record {
  dialer = e.dialer;
  pool_name = pool_name;
  node_name = e.node.name;
  source = cfg.source;
  template_type = [];
  region = region;
  group = group;
  residential = e.residential;
  premium = e.premium;
  template = false;
  priority = ℤ.pos 0;
  endpoint = [];
  bearer_token = [];
  latency = e.latency;
}

-- The candidates of one pool, in the order of its entries.
unfoldable pub pool_choices : Str → EgressSelector → Str × Pool → List EgressChoice
unfolding serves_nodes is_candidate node_choice
pool_choices region selector (name, pool) =
    if serves_nodes pool.config
    then map (node_choice name pool.config region (egress_group_for region selector))
        (select (is_candidate region selector) pool.entries)
    else []

-- entryChoices
unfoldable pub entry_choices : Dict Pool → Str → EgressSelector → List EgressChoice
unfolding pool_choices sort_by less_name
entry_choices pools region selector =
    sort_by less_name (concat_map (pool_choices region selector) pools)

-- The two variables of tryOfflineEntryChoices' loops.
pub record Scan : Type 0 where
  pub all_matching : ℕ
  pub fallback : Option EgressChoice

unfoldable pub scan_entry : Str → EgressSelector → Str → PoolConfig → Scan → NodeEntry → Scan
unfolding is_of_group node_choice str_eq
scan_entry region selector name cfg s e =
    if e.enabled && is_of_group region selector e
    then if (str_eq cfg.source (text "subscription") && cfg.try_offline) && not e.alive
      then record {
        all_matching = s.all_matching + 1;
        fallback = some (node_choice name cfg region (egress_group_for region selector) e);
      }
      else record s { all_matching = s.all_matching + 1 }
    else s

unfoldable pub scan_entries : Str → EgressSelector → Str → PoolConfig → Scan → List NodeEntry → Scan
unfolding scan_entry
scan_entries region selector name cfg s [] = s
scan_entries region selector name cfg s (e ∷ es) =
    scan_entries region selector name cfg (scan_entry region selector name cfg s e) es

unfoldable pub scan_pools : Str → EgressSelector → Scan → Dict Pool → Scan
unfolding scan_entries serves_nodes
scan_pools region selector s [] = s
scan_pools region selector s ((name, pool) ∷ rest) =
    scan_pools region selector
      (if serves_nodes pool.config
        then scan_entries region selector name pool.config s pool.entries
        else s)
      rest

abbrev pub start : Scan
start = record { all_matching = 0; fallback = none }

abbrev pub lone_fallback : Scan → List EgressChoice
lone_fallback s =
    if s.all_matching == 1 then elim s.fallback [ none ↦ [] | some c ↦ c ∷ [] ] else []

-- tryOfflineEntryChoices: the region's only node, tried although it is offline.
unfoldable pub try_offline_entry_choices : Dict Pool → Str → EgressSelector → List EgressChoice
unfolding scan_pools
try_offline_entry_choices pools region selector =
    lone_fallback (scan_pools region selector start pools)

-- The tests of anyEntryChoices; `max_latency` 0 is no limit.
unfoldable pub is_any_candidate : EgressSelector → ℕ → NodeEntry → Bool
unfolding equal_fold entry_matches_selector
is_any_candidate selector max_latency e =
    (e.enabled && e.alive)
    && (not (equal_fold e.node.type (text "direct"))
        && (entry_matches_selector e selector
            && not (ltb 0 max_latency && ((e.latency == 0) || ltb max_latency e.latency))))

unfoldable pub pool_any_choices : EgressSelector → ℕ → Str × Pool → List EgressChoice
unfolding serves_nodes is_any_candidate node_choice any_egress_group_for
pool_any_choices selector max_latency (name, pool) =
    if serves_nodes pool.config
    then map (λ e. node_choice name pool.config e.region (any_egress_group_for selector) e)
        (select (is_any_candidate selector max_latency) pool.entries)
    else []

-- anyEntryChoices
unfoldable pub any_entry_choices : Dict Pool → EgressSelector → ℕ → List EgressChoice
unfolding pool_any_choices sort_by less_latency
any_entry_choices pools selector max_latency =
    sort_by less_latency (concat_map (pool_any_choices selector max_latency) pools)

-- templateUsername
unfoldable pub template_username : Str → Str → Str
unfolding replace_all to_lower to_upper
template_username username_template region =
    replace_all (replace_all username_template (text "{region}") (to_lower region))
      (text "{REGION}") (to_upper region)

unfoldable pub template_node : Str → PoolConfig → Str → Node
unfolding template_username to_lower normalize_tags
template_node pool_name cfg region = record {
  name = pool_name ++ text "-" ++ to_lower region;
  type = cfg.type;
  server = cfg.server;
  port = cfg.port;
  region = [];
  username = template_username cfg.username_template region;
  password = cfg.password;
  enabled = none;
  residential = cfg.residential;
  premium = cfg.premium;
  tags = normalize_tags cfg.tags;
  extra = [];
}

-- buildTemplateDialer
unfoldable pub build_template_dialer : Outside → Str → PoolConfig → Str → Option Dialer
unfolding template_node
build_template_dialer o pool_name cfg region = o.new_dialer (template_node pool_name cfg region)

-- The &EgressChoice{...} literal of a template.
unfoldable pub template_choice :
    Str → PoolConfig → Str → EgressSelector → Option Dialer → Str → EgressChoice
unfolding to_lower
template_choice pool_name cfg region selector d endpoint = record {
  dialer = d;
  pool_name = pool_name;
  node_name = pool_name ++ text "-" ++ to_lower region;
  source = text "template";
  template_type = normalize_template_type cfg.template_type;
  region = region;
  group = egress_group_for region selector;
  residential = selector.residential;
  premium = cfg.premium;
  template = true;
  priority = cfg.priority;
  endpoint = endpoint;
  bearer_token = cfg.bearer_token;
  latency = 0;
}

unfoldable pub pool_template_choices :
    Outside → Str → EgressSelector → Str × Pool → List EgressChoice
unfolding str_eq pool_enabled build_template_dialer template_choice
pool_template_choices o region selector (name, pool) =
    let cfg = pool.config in
    if (str_eq cfg.source (text "template") && pool_enabled cfg)
      && template_covers_selector cfg selector
    then if str_eq (normalize_template_type cfg.template_type) (text "chijie")
      then elim (o.chijie_proxy_url cfg.endpoint cfg.port) [
        | none ↦ []
        | some endpoint ↦ template_choice name cfg region selector none endpoint ∷ []
      ]
      else elim (build_template_dialer o name cfg region) [
        | none ↦ []
        | some d ↦ template_choice name cfg region selector (some d) [] ∷ []
      ]
    else []

-- Templates come by preference, then by priority from the highest, then by name.
unfoldable pub less_template : EgressSelector → EgressChoice → EgressChoice → Bool
unfolding str_lt
less_template selector a b =
    if selector.premium && (if a.premium then not b.premium else b.premium)
    then a.premium
    else if int_eq a.priority b.priority
    then str_lt a.pool_name b.pool_name
    else int_lt b.priority a.priority

-- templateChoices
unfoldable pub template_choices : Outside → Dict Pool → Str → EgressSelector → List EgressChoice
unfolding pool_template_choices sort_by less_template
template_choices o pools region selector =
    sort_by (less_template selector) (concat_map (pool_template_choices o region selector) pools)
