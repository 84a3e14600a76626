-- ===== src/Pool/Select.antt =====
-- The selection entry points of internal/pool/manager.go.
pub mod Groups
pub mod Classes
pub mod Anywhere
use chi_jie.Prelude.{
  ℕ, Bool, true, false, not, ◌||◌, List, [], ◌∷◌, ◌++◌, if◌then◌else◌, ltb, Str, is_nil, Dict,
  Option, none, some,
}
use chi_jie.Pool.Types.{Pool, EgressChoice, EgressSelector, Cursor, Manager}
use chi_jie.Pool.Names.{
  Strategy, normalize_strategy, normalize_region_code, egress_group_for, any_egress_group_for,
}
use chi_jie.Pool.Order.{order_egress_choices, prioritize_premium_choices, premium_candidate_group}
use chi_jie.Pool.Candidates.{
  Outside, entry_choices, try_offline_entry_choices, any_entry_choices, template_choices,
}

-- The error returns: a region that is no two-letter code, no candidate for a region, no candidate
-- anywhere under a latency limit.
pub data SelectError : Type 0 where
  bad_region : SelectError
  none_in_region : Str → Bool → SelectError
  none_anywhere : Str → ℕ → SelectError

pub data Selected : Type 0 where
  ok : List EgressChoice → Selected
  err : SelectError → Selected

-- The choice between the ordered lists at the end of egressCandidateGroup.
unfoldable pub ordinary_group :
    List EgressChoice → List EgressChoice → List EgressChoice → Bool → List EgressChoice
ordinary_group entries offline templates include =
    if not (is_nil entries)
    then (if include then entries ++ templates else entries)
    else if not (is_nil offline)
    then (if include then offline ++ templates else offline)
    else templates

unfoldable pub choose_group :
    EgressSelector
    → List EgressChoice
    → List EgressChoice
    → List EgressChoice
    → Bool
    → List EgressChoice
unfolding ordinary_group
choose_group selector entries offline templates include =
    let premium = premium_candidate_group entries offline templates include in
    if selector.premium
    then (if is_nil premium then ordinary_group entries offline templates include else premium)
    else ordinary_group entries offline templates include

-- egressCandidateGroup: both node lists are ordered, the second from the state the first leaves.
unfoldable pub egress_candidate_group :
    Outside
    → Dict Pool
    → Cursor
    → Str
    → Strategy
    → EgressSelector
    → Bool
    → List EgressChoice × Cursor
unfolding choose_group
egress_candidate_group o pools c region strategy selector include =
    let group = egress_group_for region selector in
    let (entries, c1) =
      order_egress_choices c (entry_choices pools region selector) strategy group in
    let (offline, c2) =
      order_egress_choices c1 (try_offline_entry_choices pools region selector) strategy group in
    (choose_group selector entries offline (template_choices o pools region selector) include, c2)

-- `fallback := selector; fallback.Residential = true`
abbrev pub residential_fallback : EgressSelector → EgressSelector
residential_fallback s = record s { residential = true }

-- appendPremiumResidentialFallback
unfoldable pub append_premium_residential_fallback :
    Outside
    → Dict Pool
    → Cursor
    → Str
    → Strategy
    → EgressSelector
    → List EgressChoice
    → Bool
    → List EgressChoice × Cursor
append_premium_residential_fallback o pools c region strategy selector choices include =
    let (more, c') =
      egress_candidate_group o pools c region strategy (residential_fallback selector) include in
    if not selector.premium || (selector.residential || is_nil choices)
    then (choices, c)
    else (choices ++ more, c')

-- What is left to try once the class asked for has no candidate.
unfoldable pub select_fallback :
    Outside → Dict Pool → Cursor → Str → Strategy → EgressSelector → Bool → Selected × Cursor
select_fallback o pools c region strategy selector include =
    let (choices, c') =
      egress_candidate_group o pools c region strategy (residential_fallback selector) include in
    let failed = err (none_in_region region selector.residential) in
    if selector.residential
    then (failed, c)
    else if is_nil choices
    then (failed, c')
    else (ok choices, c')

unfoldable pub select_in_region :
    Outside → Dict Pool → Cursor → Str → Strategy → EgressSelector → Bool → Selected × Cursor
unfolding append_premium_residential_fallback select_fallback
select_in_region o pools c region strategy selector include =
    let (choices, c1) = egress_candidate_group o pools c region strategy selector include in
    if is_nil choices
    then select_fallback o pools c1 region strategy selector include
    else (let (all, c2) =
          append_premium_residential_fallback o pools c1 region strategy selector choices include in
        (ok all, c2))

-- The body that the two functions below share; `include` says whether templates follow the nodes.
unfoldable pub select_candidates :
    Bool → Outside → Manager → Str → Str → EgressSelector → Selected × Cursor
unfolding select_in_region
select_candidates include o m region strategy selector =
    let r = normalize_region_code region in
    if is_nil r
    then (err bad_region, m.cursor)
    else select_in_region o m.pools m.cursor r (normalize_strategy strategy) selector include

-- SelectEgressCandidatesFor
unfoldable pub select_egress_candidates_for :
    Outside → Manager → Str → Str → EgressSelector → Selected × Cursor
unfolding select_candidates
select_egress_candidates_for = select_candidates false

-- SelectEgressCandidatesWithTemplateFallbackFor
unfoldable pub select_egress_candidates_with_template_fallback_for :
    Outside → Manager → Str → Str → EgressSelector → Selected × Cursor
unfolding select_candidates
select_egress_candidates_with_template_fallback_for = select_candidates true

-- SelectAnyEgressCandidatesFor
unfoldable pub select_any_egress_candidates_for :
    Manager → Str → EgressSelector → ℕ → Selected × Cursor
select_any_egress_candidates_for m strategy selector max_latency =
    let group = any_egress_group_for selector in
    let (ordered, c) =
      order_egress_choices m.cursor (any_entry_choices m.pools selector max_latency)
        (normalize_strategy strategy) group in
    let choices = prioritize_premium_choices ordered selector.premium in
    if is_nil choices then (err (none_anywhere group max_latency), c) else (ok choices, c)

abbrev first_of_list : List EgressChoice → Option EgressChoice
first_of_list [] = none
first_of_list (c ∷ cs) = some c

-- SelectEgressFor: `choices[0]`; `none` in the second place would be an index out of range.
unfoldable pub select_egress_for :
    Outside → Manager → Str → Str → EgressSelector → (Selected × Option EgressChoice) × Cursor
unfolding select_egress_candidates_for
select_egress_for o m region strategy selector =
    let (result, c) = select_egress_candidates_for o m region strategy selector in
    elim result [
      | err e ↦ ((err e, none), c)
      | ok choices ↦ ((ok choices, first_of_list choices), c)
    ]
