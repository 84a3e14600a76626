-- ===== src/Pool/Order/Rotation.antt =====
-- Successive round-robin calls.
use native.Mathlib.Nat.{mod-lt, mod-eq_of_lt, mod-add-mod, mod_self, zero-add, suc-add}
use mathlib.Core.List.{append_assoc, append-nil}
use mathlib.Core.List.Perm
use mathlib.Core.Path.{ap₂}
use chi_jie.Prelude.{
  ℕ, zero, suc, ◌+◌, ◌-◌, ◌%◌, ◌≤◌, ◌<◌, ◌≡◌, refl, sym, ap, ◌∙◌, List, [], ◌∷◌, ◌++◌, Perm, arith,
  Str, length, take, drop, length-drop, lookup-insert, str_eq_iff, subst,
}
use chi_jie.Pool.Types.{EgressChoice, Cursor}
use chi_jie.Pool.Names.{round_robin}
use chi_jie.Pool.Order.{counter, rotate, order_egress_choices}
use chi_jie.Pool.Order.Laws.{rotate-perm}

-- The first candidates of `k` successive round-robin calls.
unfoldable pub firsts : ℕ → Cursor → List EgressChoice → Str → List EgressChoice
firsts zero c cs key = []
firsts (suc k) c cs key =
    let (ordered, c') = order_egress_choices c cs round_robin key in
    take 1 ordered ++ firsts k c' cs key

abbrev next : Cursor → List EgressChoice → Str → Cursor
next c cs key = (order_egress_choices c cs round_robin key).1

after : ℕ → Cursor → List EgressChoice → Str → Cursor
after zero c cs key = c
after (suc k) c cs key = after k (next c cs key) cs key

counter-next :
    (c : Cursor) (x : EgressChoice) (xs : List EgressChoice) (key : Str)
    → counter key (next c (x ∷ xs) key) ≡ counter key c + 1
unfolding order_egress_choices
counter-next c x xs key =
    ground (arith, lookup-insert key key (counter key c + 1) c.rr_by_group, str_eq_iff key key)

counter-after :
    (k : ℕ) (c : Cursor) (x : EgressChoice) (xs : List EgressChoice) (key : Str)
    → counter key (after k c (x ∷ xs) key) ≡ counter key c + k
unfolding after
counter-after zero c x xs key = omega arith
counter-after (suc k) c x xs key =
    omega (arith, counter-after k (next c (x ∷ xs) key) x xs key, counter-next c x xs key)

firsts-add :
    (a b : ℕ) (c : Cursor) (cs : List EgressChoice) (key : Str)
    → firsts (a + b) c cs key ≡ firsts a c cs key ++ firsts b (after a c cs key) cs key
unfolding firsts after
firsts-add zero b c cs key = rw zero-add
firsts-add (suc a) b c cs key =
    rw (suc-add a b) (simp (append_assoc, firsts-add a b (next c cs key) cs key))

take_one-append : (xs ys : List EgressChoice) → 0 < length xs → take 1 (xs ++ ys) ≡ take 1 xs
take_one-append [] ys h = elim h [ ]
take_one-append (x ∷ xs) ys h = refl

take-nil : (k : ℕ) → take {A = EgressChoice} k [] ≡ []
take-nil zero = refl
take-nil (suc k) = refl

take_one-rotate :
    (n : ℕ) (cs : List EgressChoice) → n < length cs → take 1 (rotate n cs) ≡ take 1 (drop n cs)
unfolding rotate
take_one-rotate zero [] h = refl
take_one-rotate zero (x ∷ xs) h = refl
take_one-rotate (suc n) [] h = refl
take_one-rotate (suc n) (x ∷ xs) h = take_one-append (drop n xs) _ (omega (arith, length-drop n xs))

take-suc-drop :
    (k n : ℕ) (cs : List EgressChoice)
    → take 1 (drop n cs) ++ take k (drop (suc n) cs) ≡ take (suc k) (drop n cs)
take-suc-drop k zero [] = take-nil k
take-suc-drop k zero (x ∷ xs) = refl
take-suc-drop k (suc n) [] = take-nil k
take-suc-drop k (suc n) (x ∷ xs) = take-suc-drop k n xs

mod-suc : (n l s : ℕ) → n % l ≡ s → s + 1 < l → (n + 1) % l ≡ s + 1
mod-suc n l s e h = sym (mod-add-mod n l 1) ∙ rw e (mod-eq_of_lt h)

mod_wrap : (n l a : ℕ) → n % l + a ≡ l → (n + a) % l ≡ 0
mod_wrap n l a e = sym (mod-add-mod n l a) ∙ ap (λ (t : ℕ). t % l) e ∙ mod_self l

first-order :
    (s : ℕ) (c : Cursor) (x : EgressChoice) (xs : List EgressChoice) (key : Str)
    → counter key c % length (x ∷ xs) ≡ s
    → s < length (x ∷ xs)
    → take 1 (order_egress_choices c (x ∷ xs) round_robin key).0 ≡ take 1 (drop s (x ∷ xs))
unfolding order_egress_choices
first-order s c x xs key e h = rw e (take_one-rotate s (x ∷ xs) h)

-- Before the counter wraps, the calls walk along the list.
firsts_run :
    (k s : ℕ) (c : Cursor) (x : EgressChoice) (xs : List EgressChoice) (key : Str)
    → counter key c % length (x ∷ xs) ≡ s
    → s + k ≤ length (x ∷ xs)
    → firsts k c (x ∷ xs) key ≡ take k (drop s (x ∷ xs))
unfolding firsts
firsts_run zero s c x xs key e h = refl
firsts_run (suc zero) s c x xs key e h = rw append-nil (first-order s c x xs key e (omega arith))
firsts_run (suc (suc k)) s c x xs key e h =
    let onward : counter key (next c (x ∷ xs) key) % length (x ∷ xs) ≡ suc s =
      rw (counter-next c x xs key)
        (mod-suc (counter key c) (length (x ∷ xs)) s e (omega arith) ∙ omega arith) in
    ap₂ ◌++◌ (first-order s c x xs key e (omega arith))
      (firsts_run (suc k) (suc s) (next c (x ∷ xs) key) x xs key onward (omega arith))
    ∙ take-suc-drop (suc k) s (x ∷ xs)

take_all : (n : ℕ) (cs : List EgressChoice) → length cs ≤ n → take n cs ≡ cs
take_all zero [] h = refl
take_all zero (x ∷ xs) h = elim h [ ]
take_all (suc n) [] h = refl
take_all (suc n) (x ∷ xs) h = ap (◌∷◌ x) (take_all n xs (omega arith))

-- `a` calls reach the end of the list, and `s` more its place `s` again.
cycle_at :
    (s a : ℕ) (c : Cursor) (x : EgressChoice) (xs : List EgressChoice) (key : Str)
    → counter key c % length (x ∷ xs) ≡ s
    → s + a ≡ length (x ∷ xs)
    → firsts (a + s) c (x ∷ xs) key ≡ rotate s (x ∷ xs)
unfolding rotate
cycle_at s a c x xs key e h =
    firsts-add a s c (x ∷ xs) key
    ∙ ap₂ ◌++◌
        (firsts_run a s c x xs key e (omega arith)
          ∙ take_all a (drop s (x ∷ xs)) (omega (arith, length-drop s (x ∷ xs))))
        (firsts_run s 0 (after a c (x ∷ xs) key) x xs key
          (rw (counter-after a c x xs key) (mod_wrap (counter key c) (length (x ∷ xs)) a (rw e h)))
          (omega arith))

cycle :
    (c : Cursor) (x : EgressChoice) (xs : List EgressChoice) (key : Str)
    → firsts (length (x ∷ xs)) c (x ∷ xs) key ≡ rotate (counter key c % length (x ∷ xs)) (x ∷ xs)
cycle c x xs key =
    let l = length (x ∷ xs) in
    let s = counter key c % l in
    let below : s < l = mod-lt (counter key c) (omega arith) in
    subst (λ n. firsts n c (x ∷ xs) key ≡ rotate s (x ∷ xs)) (omega arith)
      (cycle_at s (l - s) c x xs key refl (omega arith))

-- In as many successive round-robin calls as there are candidates, from any state of the counters,
-- each candidate comes first exactly as often as it stands in the list.
pub firsts-perm :
    (c : Cursor) (cs : List EgressChoice) (key : Str) → Perm (firsts (length cs) c cs key) cs
unfolding firsts
firsts-perm c [] key = Perm.refl []
firsts-perm c (x ∷ xs) key = rw (cycle c x xs key) (rotate-perm _ (x ∷ xs))
