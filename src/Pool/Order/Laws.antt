-- ===== src/Pool/Order/Laws.antt =====
-- The orders of the strategies.
use mathlib.Core.List.Perm
use mathlib.Core.List.{perm_append_comm}
use chi_jie.Prelude.{
  ℕ, ◌≤◌, ◌≡◌, ◌≢◌, ◌⊎◌, subst, true, false, List, [], ◌∷◌, Perm, arith, Str, All, str_eq_iff,
  length, take, drop, take-append-drop, IsSorted, IsOrder, sort_by-perm, sort_by-IsSorted,
  shuffle_from-perm, str_lt-asym, str_lt-cotrans, str_lt-total,
}
use chi_jie.Pool.Types.{EgressChoice, Cursor}
use chi_jie.Pool.Names.{Strategy, random, round_robin, least_latency}
use chi_jie.Pool.Order.{less_name, less_latency, rotate, order_egress_choices}

pub rotate-perm : (n : ℕ) (cs : List EgressChoice) → Perm (rotate n cs) cs
unfolding rotate
rotate-perm n cs =
    Perm.trans (perm_append_comm (drop n cs) (take n cs))
      (subst (Perm _) (take-append-drop n cs) (Perm.refl _))

-- Every strategy returns a rearrangement of the candidates that it was given.
pub order_egress_choices-perm :
    (c : Cursor) (cs : List EgressChoice) (s : Strategy) (key : Str)
    → Perm (order_egress_choices c cs s key).0 cs
unfolding order_egress_choices
order_egress_choices-perm c [] s key = Perm.refl []
order_egress_choices-perm c (x ∷ xs) random key = shuffle_from-perm (length xs) c.draws (x ∷ xs)
order_egress_choices-perm c (x ∷ xs) round_robin key = rotate-perm _ (x ∷ xs)
order_egress_choices-perm c (x ∷ xs) least_latency key = sort_by-perm less_latency (x ∷ xs)

less_name-asym : (a b : EgressChoice) → less_name a b ≡ true → less_name b a ≡ false
unfolding less_name
less_name-asym a b h = ground (
  arith,
  str_lt-asym a.node_name b.node_name,
  str_lt-asym a.pool_name b.pool_name,
  str_eq_iff a.pool_name b.pool_name,
  str_eq_iff b.pool_name a.pool_name,
)

less_name-cotrans :
    (a b c : EgressChoice) → less_name a b ≡ false → less_name b c ≡ false → less_name a c ≡ false
unfolding less_name
less_name-cotrans a b c h k = ground (
  arith,
  str_lt-cotrans a.node_name b.node_name c.node_name,
  str_lt-cotrans a.pool_name b.pool_name c.pool_name,
  str_lt-total a.pool_name b.pool_name,
  str_eq_iff a.pool_name b.pool_name,
  str_eq_iff b.pool_name c.pool_name,
  str_eq_iff a.pool_name c.pool_name,
)

pub less_name-IsOrder : IsOrder less_name
less_name-IsOrder = record { asym = less_name-asym; cotrans = less_name-cotrans }

less_latency-asym : (a b : EgressChoice) → less_latency a b ≡ true → less_latency b a ≡ false
unfolding less_latency
less_latency-asym a b h = ground (arith, less_name-asym a b)

-- `b` may stand after `a`: it is unmeasured, or both are measured and `a` is no slower.
abbrev pub MayFollow : EgressChoice → EgressChoice → Type 0
MayFollow a b = (b.latency ≡ 0) ⊎ ((a.latency ≢ 0) × (a.latency ≤ b.latency))

less_latency-cotrans :
    (a b c : EgressChoice)
    → less_latency a b ≡ false
    → less_latency b c ≡ false
    → less_latency a c ≡ false
unfolding less_latency
less_latency-cotrans a b c h k = ground (arith, less_name-cotrans a b c)

pub less_latency-IsOrder : IsOrder less_latency
less_latency-IsOrder = record { asym = less_latency-asym; cotrans = less_latency-cotrans }

less_latency-MayFollow : (a b : EgressChoice) → less_latency b a ≡ false → MayFollow a b
unfolding less_latency
less_latency-MayFollow a b h = ground arith

abbrev pub Ranked : List EgressChoice → Type 0
Ranked [] = Unit
Ranked (x ∷ xs) = All (MayFollow x) xs × Ranked xs

All-MayFollow :
    (x : EgressChoice) (ys : List EgressChoice)
    → All (λ y. less_latency y x ≡ false) ys
    → All (MayFollow x) ys
All-MayFollow x [] h = tt
All-MayFollow x (y ∷ ys) h = (less_latency-MayFollow x y h.0, All-MayFollow x ys h.1)

IsSorted-Ranked : (xs : List EgressChoice) → IsSorted less_latency xs → Ranked xs
IsSorted-Ranked [] h = tt
IsSorted-Ranked (x ∷ xs) h = (All-MayFollow x xs h.0, IsSorted-Ranked xs h.1)

-- Under the least-latency strategy the measured candidates come in order of their latency, and the
-- unmeasured ones after all of them.
pub order_egress_choices-Ranked :
    (c : Cursor) (cs : List EgressChoice) (key : Str)
    → Ranked (order_egress_choices c cs least_latency key).0
unfolding order_egress_choices
order_egress_choices-Ranked c [] key = tt
order_egress_choices-Ranked c (x ∷ xs) key =
    IsSorted-Ranked _ (sort_by-IsSorted less_latency less_latency-IsOrder (x ∷ xs))
