-- ===== src/Pool/Order.antt =====
-- orderEgressChoices and the premium groupings of internal/pool/manager.go.
pub mod Laws
pub mod Rotation
pub mod Premium
use chi_jie.Prelude.{
  ℕ, zero, ◌+◌, ◌-◌, ◌%◌, Bool, true, false, not, ◌&&◌, ◌||◌, none, some, List, [], ◌∷◌, ◌++◌,
  if◌then◌else◌, ltb, ◌==◌, Str, str_eq, str_lt, lookup, insert, length, take, drop, is_nil, select,
  sort_by, shuffle_from,
}
use chi_jie.Pool.Types.{EgressChoice, Cursor}
use chi_jie.Pool.Names.{Strategy, random, round_robin, least_latency}

-- The comparison of names in every sort.Slice of candidates: by pool, then by node.
unfoldable pub less_name : EgressChoice → EgressChoice → Bool
less_name a b =
    if str_eq a.pool_name b.pool_name
    then str_lt a.node_name b.node_name
    else str_lt a.pool_name b.pool_name

-- The comparison of sort.SliceStable: measured latencies first, by their size, then by names.
unfoldable pub less_latency : EgressChoice → EgressChoice → Bool
less_latency a b =
    if a.latency == b.latency
    then less_name a b
    else if a.latency == 0
    then false
    else if b.latency == 0
    then true
    else ltb a.latency b.latency

-- m.rrByGroup[rrKey]: a missing counter reads 0.
unfoldable pub counter : Str → Cursor → ℕ
counter key c = elim (lookup key c.rr_by_group) [ none ↦ 0 | some n ↦ n ]

-- append(ordered[idx:], ordered[:idx]...)
unfoldable pub rotate : ℕ → List EgressChoice → List EgressChoice
rotate idx cs = drop idx cs ++ take idx cs

-- The draws of one rand.Shuffle of `n` elements are used up.
unfoldable pub order_egress_choices :
    Cursor → List EgressChoice → Strategy → Str → List EgressChoice × Cursor
unfolding counter rotate less_latency sort_by shuffle_from
order_egress_choices c [] strategy key = ([], c)
order_egress_choices c (x ∷ xs) round_robin key =
    let n = counter key c in
    (
      rotate (n % length (x ∷ xs)) (x ∷ xs),
      record c { rr_by_group = insert key (n + 1) c.rr_by_group },
    )
order_egress_choices c (x ∷ xs) least_latency key = (sort_by less_latency (x ∷ xs), c)
order_egress_choices c (x ∷ xs) random key =
    (shuffle_from (length xs) c.draws (x ∷ xs), record c { draws = drop (length xs) c.draws })

-- filterChoicesByPremium
unfoldable pub filter_choices_by_premium : Bool → List EgressChoice → List EgressChoice
filter_choices_by_premium premium = select (λ c. if premium then c.premium else not c.premium)

-- prioritizePremiumChoices
unfoldable pub prioritize_premium_choices : List EgressChoice → Bool → List EgressChoice
unfolding filter_choices_by_premium
prioritize_premium_choices choices prefer =
    let premium = filter_choices_by_premium true choices in
    if not prefer || is_nil choices
    then choices
    else if is_nil premium
    then choices
    else premium ++ filter_choices_by_premium false choices

-- premiumCandidateGroup: the empty list stands for nil.
unfoldable pub premium_candidate_group :
    List EgressChoice → List EgressChoice → List EgressChoice → Bool → List EgressChoice
unfolding filter_choices_by_premium
premium_candidate_group entries offline templates include_template_fallback =
    let premium_entries = filter_choices_by_premium true entries in
    let premium_offline = filter_choices_by_premium true offline in
    let premium_templates = filter_choices_by_premium true templates in
    let ordinary =
      filter_choices_by_premium false entries
      ++ (filter_choices_by_premium false offline
          ++ (if include_template_fallback
              then filter_choices_by_premium false templates
              else [])) in
    if is_nil premium_entries && (is_nil premium_offline && is_nil premium_templates)
    then []
    else if not (is_nil premium_entries)
    then premium_entries ++ (premium_templates ++ ordinary)
    else if not (is_nil premium_offline)
    then premium_offline ++ (premium_templates ++ ordinary)
    else premium_templates ++ ordinary
