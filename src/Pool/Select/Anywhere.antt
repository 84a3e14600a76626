-- ===== src/Pool/Select/Anywhere.antt =====
-- Selection without a region.
use mathlib.Core.List.Perm
use chi_jie.Prelude.{ℕ, ◌<◌, ◌≡◌, ◌≢◌, List, [], arith, Str, All, All-perm, Perm}
use chi_jie.Pool.Types.{EgressChoice, EgressSelector, Manager}
use chi_jie.Pool.Names.{normalize_strategy, any_egress_group_for}
use chi_jie.Pool.Order.{order_egress_choices, prioritize_premium_choices}
use chi_jie.Pool.Order.Laws.{order_egress_choices-perm}
use chi_jie.Pool.Order.Premium.{prioritize_premium_choices-perm}
use chi_jie.Pool.Candidates.{any_entry_choices}
use chi_jie.Pool.Candidates.Classes.{
  IsOfClass, IsOfClass-prop, node-IsOfClass, IsTimely, IsTimely-prop, node-IsTimely,
  any_entry_choices-All,
}
use chi_jie.Pool.Select.{ok, select_any_egress_candidates_for}

-- Where the selection in any region succeeds, it returns a rearrangement of all the eligible
-- nodes, and there is at least one.
pub select_any_perm :
    (m : Manager) (strategy : Str) (s : EgressSelector) (max_latency : ℕ) (cs : List EgressChoice)
    → (select_any_egress_candidates_for m strategy s max_latency).0 ≡ ok cs
    → (cs ≢ []) × Perm cs (any_entry_choices m.pools s max_latency)
unfolding select_any_egress_candidates_for
select_any_perm m strategy s max_latency cs h =
    let eligible = any_entry_choices m.pools s max_latency in
    let ordered =
      (order_egress_choices m.cursor eligible (normalize_strategy strategy)
        (any_egress_group_for s)).0 in
    let p : Perm (prioritize_premium_choices ordered s.premium) eligible =
      Perm.trans (prioritize_premium_choices-perm ordered s.premium) (
        order_egress_choices-perm m.cursor eligible (normalize_strategy strategy)
          (any_egress_group_for s)) in
    ground (arith, p)

-- All are nodes, no templates, of the class asked for.
pub select_any_ok :
    (m : Manager) (strategy : Str) (s : EgressSelector) (max_latency : ℕ) (cs : List EgressChoice)
    → (select_any_egress_candidates_for m strategy s max_latency).0 ≡ ok cs
    → All (IsOfClass s) cs
select_any_ok m strategy s max_latency cs h =
    All-perm (IsOfClass s) (IsOfClass-prop s) _ cs (select_any_perm m strategy s max_latency cs h).1
      (any_entry_choices-All s max_latency (IsOfClass s) (IsOfClass-prop s)
        (node-IsOfClass s max_latency) m.pools)

-- Where the selection in any region succeeds under a positive latency limit, every candidate was
-- measured and is no slower than the limit.
pub select_any-IsTimely :
    (m : Manager) (strategy : Str) (s : EgressSelector) (max_latency : ℕ) (cs : List EgressChoice)
    → 0 < max_latency
    → (select_any_egress_candidates_for m strategy s max_latency).0 ≡ ok cs
    → All (IsTimely max_latency) cs
select_any-IsTimely m strategy s max_latency cs limited h =
    All-perm (IsTimely max_latency) (IsTimely-prop max_latency) _ cs
      (select_any_perm m strategy s max_latency cs h).1
      (any_entry_choices-All s max_latency (IsTimely max_latency) (IsTimely-prop max_latency)
        (node-IsTimely s max_latency limited) m.pools)
