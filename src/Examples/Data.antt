-- ===== src/Examples/Data.antt =====
-- Two pools, a manager that holds them, and the world outside.
use chi_jie.Prelude.{
  ℕ, Bool, true, false, none, some, List, [], ◌∷◌, Str, text, Dict, ℤ, ◌≡◌, ◌≢◌, str_eq, str_eq_iff,
  is_nil, arith,
}
use chi_jie.Pool.Types.{
  Node, PoolConfig, NodeEntry, Pool, EgressChoice, EgressSelector, Cursor, Manager,
}
use chi_jie.Pool.Candidates.{Outside}

abbrev pub node_of : Str → Node
node_of name = record {
  name = name;
  type = text "vmess";
  server = text "192.0.2.1";
  port = ℤ.pos 443;
  region = [];
  username = [];
  password = [];
  enabled = none;
  residential = false;
  premium = false;
  tags = [];
  extra = [];
}

abbrev pub entry_of : Str → Str → Bool → ℕ → NodeEntry
entry_of name region alive latency = record {
  node = node_of name;
  dialer = some 1;
  enabled = true;
  alive = alive;
  latency = latency;
  fail_count = 0;
  region = region;
  alias = [];
  residential = false;
  premium = false;
  tags = [];
}

abbrev pub config_of : Str → List Node → PoolConfig
config_of source nodes = record {
  source = source;
  enabled = none;
  residential = false;
  premium = false;
  url = [];
  allow_private_host = false;
  update_interval = [];
  filter_region = [];
  health_check = none;
  try_offline = true;
  nodes = nodes;
  disabled_nodes = [];
  template_type = text "socks5";
  type = text "socks5";
  server = text "192.0.2.2";
  port = ℤ.pos 1080;
  endpoint = [];
  bearer_token = [];
  username_template = text "u-{region}";
  password = text "p";
  priority = ℤ.pos 1;
  coverage = [];
  tags = [];
  reject_regex = [];
  node_regions = [];
  node_aliases = [];
  node_tags = [];
  node_server_regions = [];
  node_server_aliases = [];
  node_server_tags = [];
  region_group_names = [];
}

abbrev pub pool_of : Str → PoolConfig → List NodeEntry → Pool
pool_of name cfg entries = record {
  name = name;
  config = cfg;
  entries = entries;
  error = [];
  last_refresh_at = 0;
  last_refresh_failed = false;
}

abbrev pub first_entry : NodeEntry
first_entry = entry_of (text "n1") (text "US") true 30

abbrev pub second_entry : NodeEntry
second_entry = entry_of (text "n2") (text "US") true 20

abbrev pub home_config : PoolConfig
home_config = config_of (text "static") (node_of (text "n1") ∷ node_of (text "n2") ∷ [])

abbrev pub home : Pool
home = pool_of (text "home") home_config (first_entry ∷ second_entry ∷ [])

abbrev pub spare : Pool
spare = pool_of (text "spare") (config_of (text "template") []) []

abbrev pub pools : Dict Pool
pools = (text "home", home) ∷ (text "spare", spare) ∷ []

abbrev pub still : Cursor
still = record { rr_by_group = []; draws = [] }

abbrev pub manager : Manager
manager = record { pools = pools; cursor = still }

abbrev pub empty_manager : Manager
empty_manager = record { pools = []; cursor = still }

abbrev pub plain : EgressSelector
plain = record { residential = false; premium = false }

abbrev pub prized : EgressSelector
prized = record { residential = false; premium = true }

abbrev pub outside : Outside
outside = record { new_dialer = λ n. some 7; chijie_proxy_url = λ e p. none }

abbrev pub choice_of : Str → Bool → ℕ → EgressChoice
choice_of name template latency = record {
  dialer = some 1;
  pool_name = text "home";
  node_name = name;
  source = text "static";
  template_type = [];
  region = text "US";
  group = text "US";
  residential = false;
  premium = template;
  template = template;
  priority = ℤ.pos 0;
  endpoint = [];
  bearer_token = [];
  latency = latency;
}

pub ne_of_str_eq : (s t : Str) → str_eq s t ≡ false → s ≢ t
ne_of_str_eq s t h e = ground (arith, str_eq_iff s t)

pub ne_of_is_nil : (cs : List EgressChoice) → is_nil cs ≡ false → cs ≢ []
ne_of_is_nil [] h e = cc h
ne_of_is_nil (c ∷ cs) h e = cc e
