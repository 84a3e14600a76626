-- ===== src/Pool/Metadata.antt =====
-- internal/pool/node_metadata.go: tags, classes, aliases and server keys of a node.
use chi_jie.Prelude.{
  Bool, not, ◌||◌, Option, none, some, List, [], ◌∷◌, ◌++◌, if◌then◌else◌, Str, text, str_eq,
  str_lt, trim_space, to_lower, replace_all, contains, decimal, Dict, lookup, is_nil, any, sort_by,
  ℤ, is_not_positive, magnitude,
}
use chi_jie.Pool.Types.{Node, PoolConfig}
use chi_jie.Pool.Names.{normalize_region_code, region_code_of}
use chi_jie.Pool.Region.{detect_region_from_node_name}
use chi_jie.Util.{contains_string}

abbrev or_nil {ℓ} : {A : Type ℓ} → Option (List A) → List A
or_nil none = []
or_nil (some xs) = xs

-- strings.TrimSpace, ToLower and the two ReplaceAll calls on one tag.
unfoldable pub clean_tag : Str → Str
unfolding trim_space to_lower replace_all
clean_tag tag =
    replace_all (replace_all (to_lower (trim_space tag)) (text " ") (text "-")) (text "_")
      (text "-")

-- The loop over the tags; `seen` holds those that were kept.
unfoldable pub distinct_tags : List Str → List Str → List Str
unfolding clean_tag contains_string
distinct_tags seen [] = []
distinct_tags seen (tag ∷ rest) =
    let t = clean_tag tag in
    let skipped = distinct_tags seen rest in
    let kept = t ∷ distinct_tags (t ∷ seen) rest in
    if is_nil t || contains_string seen t then skipped else kept

-- normalizeTags
unfoldable pub normalize_tags : List Str → List Str
unfolding distinct_tags sort_by str_lt
normalize_tags tags = sort_by str_lt (distinct_tags [] tags)

abbrev holds_any : Str → List Str → Bool
holds_any s words = any (contains s) words

-- detectTagsFromNodeName
unfoldable pub detect_tags_from_node_name : Str → List Str
unfolding contains to_lower
detect_tags_from_node_name name =
    let lower = to_lower name in
    (if holds_any name (text "家宽" ∷ text "住宅" ∷ text "家庭宽带" ∷ [])
        || holds_any lower
            (text "residential" ∷ text "resi" ∷ text "home-broadband" ∷ text "home broadband" ∷ [])
      then text "residential" ∷ []
      else [])
    ++ (if holds_any name (text "高端" ∷ [])
          || holds_any lower (text "premium" ∷ text "high-end" ∷ text "high end" ∷ [])
        then text "premium" ∷ []
        else [])

-- ServerKey
unfoldable pub server_key : Str → ℤ → Str
unfolding trim_space to_lower decimal
server_key server port =
    let s = trim_space (to_lower server) in
    if is_nil s
    then []
    else if is_not_positive port
    then s
    else s ++ text ":" ++ decimal (magnitude port)

-- nodeServerKey
abbrev pub node_server_key : Node → Str
node_server_key node = server_key node.server node.port

-- tagsForNode
unfoldable pub tags_for_node : Node → PoolConfig → List Str
unfolding normalize_tags detect_tags_from_node_name server_key lookup
tags_for_node node cfg = normalize_tags (
    cfg.tags
    ++ (or_nil (lookup (node_server_key node) cfg.node_server_tags)
        ++ (or_nil (lookup node.name cfg.node_tags)
            ++ (node.tags ++ detect_tags_from_node_name node.name))))

-- residentialForNode
unfoldable pub residential_for_node : Node → PoolConfig → List Str → Bool
unfolding contains_string
residential_for_node node cfg tags =
    node.residential || (cfg.residential || contains_string tags (text "residential"))

-- premiumForNode
unfoldable pub premium_for_node : Node → PoolConfig → List Str → Bool
unfolding contains_string
premium_for_node node cfg tags =
    node.premium
    || (cfg.premium
        || (contains_string tags (text "premium") || contains_string tags (text "high-end")))

-- The loop over NodeAliases, in the map's iteration order.
unfoldable pub find_alias_of : Dict Str → Str → Str
unfolding str_eq
find_alias_of [] name = []
find_alias_of ((alias, target) ∷ rest) name =
    if str_eq target name then alias else find_alias_of rest name

-- aliasForNode
unfoldable pub alias_for_node : Node → PoolConfig → Str
unfolding trim_space lookup find_alias_of server_key
alias_for_node node cfg =
    let by_server = trim_space (or_nil (lookup (node_server_key node) cfg.node_server_aliases)) in
    if is_nil by_server then find_alias_of cfg.node_aliases node.name else by_server

-- regionForNode; the two maps' iteration orders are arguments.
unfoldable pub region_for_node : Dict Str → List Str → Node → PoolConfig → Str
unfolding normalize_region_code region_code_of lookup detect_region_from_node_name
region_for_node aliases codes node cfg =
    let own = normalize_region_code node.region in
    let by_server =
      region_code_of (or_nil (lookup (node_server_key node) cfg.node_server_regions)) in
    let by_name = region_code_of (or_nil (lookup node.name cfg.node_regions)) in
    if not (is_nil own)
    then own
    else if not (is_nil by_server)
    then by_server
    else if not (is_nil by_name)
    then by_name
    else detect_region_from_node_name aliases codes node.name
