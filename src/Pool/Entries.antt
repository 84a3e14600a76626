-- ===== src/Pool/Entries.antt =====
-- From the nodes of a subscription to the entries of a pool, in internal/pool/manager.go.
pub mod Accepted
use chi_jie.Prelude.{
  ℕ, zero, suc, ◌+◌, Bool, true, false, not, ◌&&◌, ◌||◌, Option, none, some, List, [], ◌∷◌, ◌++◌,
  map, select, any, length, if◌then◌else◌, ltb, ◌==◌, Str, text, str_eq, str_lt, trim_space,
  to_lower, equal_fold, is_nil, join, decimal, sort_by, Dict, lookup, insert,
}
use chi_jie.Util.{contains_string, first_non_empty}
use chi_jie.Pool.Types.{Dialer, Node, NodeEntry, PoolConfig}
use chi_jie.Pool.Names.{region_code_of}
use chi_jie.Pool.Region.{detect_region_from_node_name}
use chi_jie.Pool.Metadata.{
  tags_for_node, alias_for_node, region_for_node, residential_for_node, premium_for_node,
}
use chi_jie.Pool.Nodes.{is_node_enabled}

-- dialer.NewDialer: a dialer, or the text of an error.
pub data Dialed : Type 0 where
  dialed : Dialer → Dialed
  not_dialed : Str → Dialed

-- regexp.Compile: what MatchString answers, or the text of an error.
pub data Compiled : Type 0 where
  compiled : (Str → Bool) → Compiled
  not_compiled : Str → Compiled

-- The orders in which one call of detectRegionFromNodeName meets the two maps of regions: Go draws
-- them anew at every call.
pub record RegionOrder : Type 0 where
  pub aliases : Dict Str
  pub codes : List Str

-- The loops that call it: over the nodes to filter, over the nodes to make entries of, and over the
-- entries to keep.
pub data Loop : Type 0 where
  filtering making keeping : Loop

-- The packages that the pool calls, with strconv.Quote as quote, and the orders that the rounds of
-- each loop draw, counted from 0.
pub record Packages : Type 0 where
  pub new_dialer : Node → Dialed
  pub direct_dialer : Dialer
  pub compile : Str → Compiled
  pub quote : Str → Str
  pub orders : Loop → ℕ → RegionOrder

-- The orders left after one round.
abbrev pub later : (ℕ → RegionOrder) → ℕ → RegionOrder
later orders i = orders (suc i)

unfoldable pub new_node_entry : RegionOrder → Node → Option Dialer → PoolConfig → NodeEntry
unfolding tags_for_node is_node_enabled region_for_node alias_for_node residential_for_node
    premium_for_node
new_node_entry order node dialer cfg =
    let tags = tags_for_node node cfg in
    record {
      node = node;
      dialer = dialer;
      enabled = is_node_enabled node cfg;
      alive = true;
      latency = 0;
      fail_count = 0;
      region = region_for_node order.aliases order.codes node cfg;
      alias = alias_for_node node cfg;
      residential = residential_for_node node cfg tags;
      premium = premium_for_node node cfg tags;
      tags = tags;
    }

-- The codes of the regions that a filter names.
unfoldable pub region_set : List Str → List Str
unfolding region_code_of
region_set regions = select (λ r. not (is_nil r)) (map region_code_of regions)

-- The loop over the nodes.
unfoldable pub keep_regions : (ℕ → RegionOrder) → List Str → List Node → List Node
unfolding detect_region_from_node_name contains_string
keep_regions orders regions [] = []
keep_regions orders regions (n ∷ nodes) =
    let rest = keep_regions (later orders) regions nodes in
    if contains_string regions
      (detect_region_from_node_name (orders 0).aliases (orders 0).codes n.name)
    then n ∷ rest
    else rest

unfoldable pub filter_by_region : Packages → List Node → List Str → List Node
unfolding region_set keep_regions
filter_by_region packages nodes regions =
    if is_nil regions
    then nodes
    else keep_regions (packages.orders filtering) (region_set regions) nodes

-- What preparing the nodes of a subscription yields: a value, or the text of an error.
pub data Checked {ℓ} (A : Type ℓ) : Type ℓ where
  good : A → Checked A
  bad : Str → Checked A

-- A pattern and those after it.
unfoldable pub add_pattern :
    Packages → Str → Compiled → Checked (List (Str → Bool)) → Checked (List (Str → Bool))
add_pattern packages p (not_compiled e) rest =
    bad (text "invalid reject regex " ++ (packages.quote p ++ (text ": " ++ e)))
add_pattern packages p (compiled f) (bad e) = bad e
add_pattern packages p (compiled f) (good fs) = good (f ∷ fs)

-- The loop that compiles the patterns.
unfoldable pub compile_patterns : Packages → List Str → Checked (List (Str → Bool))
unfolding trim_space add_pattern
compile_patterns packages [] = good []
compile_patterns packages (p ∷ ps) =
    let rest = compile_patterns packages ps in
    if is_nil (trim_space p)
    then rest
    else add_pattern packages (trim_space p) (packages.compile (trim_space p)) rest

unfoldable pub is_rejected : List (Str → Bool) → Node → Bool
is_rejected regexes node = any (λ (f : Str → Bool). f node.name) regexes

-- The nodes that no pattern rejects.
unfoldable pub keep_unrejected : List Node → Checked (List (Str → Bool)) → Checked (List Node)
unfolding is_rejected
keep_unrejected nodes (bad e) = bad e
keep_unrejected nodes (good regexes) = good (select (λ n. not (is_rejected regexes n)) nodes)

unfoldable pub apply_reject_regexes : Packages → List Node → List Str → Checked (List Node)
unfolding compile_patterns keep_unrejected
apply_reject_regexes packages nodes patterns =
    keep_unrejected nodes (compile_patterns packages patterns)

abbrev extra_of : Str → Node → Str
extra_of key node = elim (lookup key node.extra) [ none ↦ [] | some v ↦ v ]

unfoldable pub subscription_skip_reason : Node → Str → Str
unfolding to_lower first_non_empty lookup str_eq equal_fold
subscription_skip_reason node error =
    let network = to_lower (
      first_non_empty (
        extra_of (text "network") node
        ∷ extra_of (text "transport") node
        ∷ extra_of (text "transport_type") node
        ∷ [])) in
    if str_eq network (text "xhttp")
      || (str_eq network (text "splithttp") || str_eq network (text "split-http"))
    then (if equal_fold node.type (text "vless")
        then error
        else text "unsupported v2ray transport \"" ++ (network ++ text "\""))
    else error

abbrev count_of : Option ℕ → ℕ
count_of none = 0
count_of (some n) = n

-- The entries made so far, and how often each reason to skip a node came up.
pub record Loading : Type 0 where
  pub entries : List NodeEntry
  pub skipped : Dict ℕ
  pub skipped_total : ℕ

abbrev pub skip : Str → Loading → Loading
skip reason l = record l {
  skipped = insert reason (suc (count_of (lookup reason l.skipped))) l.skipped;
  skipped_total = suc l.skipped_total;
}

unfoldable pub load_nodes :
    Packages → PoolConfig → (ℕ → RegionOrder) → List Node → Loading → Loading
unfolding new_node_entry subscription_skip_reason lookup insert
load_nodes packages cfg orders [] l = l
load_nodes packages cfg orders (node ∷ nodes) l = elim (packages.new_dialer node) [
  | not_dialed e ↦
      load_nodes packages cfg (later orders) nodes (skip (subscription_skip_reason node e) l)
  | dialed d ↦
      load_nodes packages cfg (later orders) nodes
        (record l { entries = l.entries ++ new_node_entry (orders 0) node (some d) cfg ∷ [] })
]

abbrev pub keys : Dict ℕ → List Str
keys [] = []
keys ((k, n) ∷ more) = k ∷ keys more

unfoldable pub format_reason : Dict ℕ → Str → Str
unfolding lookup decimal
format_reason reasons reason =
    let n = count_of (lookup reason reasons) in
    if ltb 1 n then reason ++ (text " (" ++ (decimal n ++ text ")")) else reason

unfoldable pub format_skip_reasons : Dict ℕ → Str
unfolding format_reason join sort_by str_lt
format_skip_reasons reasons =
    join (text "; ") (map (format_reason reasons) (sort_by str_lt (keys reasons)))

unfoldable pub loading_warning : ℕ → Loading → Str
unfolding format_skip_reasons decimal
loading_warning parsed l =
    if l.skipped_total == 0
    then []
    else if is_nil l.entries && ltb 0 parsed
    then text "subscription parsed "
      ++ (decimal parsed
          ++ (text " nodes but loaded 0 supported nodes: " ++ format_skip_reasons l.skipped))
    else text "subscription skipped "
      ++ (decimal l.skipped_total ++ (text " nodes: " ++ format_skip_reasons l.skipped))

-- The entries of a subscription and the warning that goes with them.
pub record Prepared : Type 0 where
  pub entries : List NodeEntry
  pub warning : Str

unfoldable pub build_subscription_entries : Packages → List Node → PoolConfig → Prepared
unfolding load_nodes loading_warning
build_subscription_entries packages nodes cfg =
    let l =
      load_nodes packages cfg (packages.orders making) nodes
        (record { entries = []; skipped = []; skipped_total = 0 }) in
    record { entries = l.entries; warning = loading_warning (length nodes) l }

unfoldable pub prepare_filtered : Packages → PoolConfig → Checked (List Node) → Checked Prepared
unfolding build_subscription_entries
prepare_filtered packages cfg (bad e) = bad e
prepare_filtered packages cfg (good filtered) =
    good (build_subscription_entries packages filtered cfg)

unfoldable pub prepare_subscription_entries : Packages → List Node → PoolConfig → Checked Prepared
unfolding filter_by_region apply_reject_regexes prepare_filtered
prepare_subscription_entries packages nodes cfg = prepare_filtered packages cfg (
    apply_reject_regexes packages (filter_by_region packages nodes cfg.filter_region)
      cfg.reject_regex)
