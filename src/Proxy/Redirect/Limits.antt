-- ===== src/Proxy/Redirect/Limits.antt =====
-- Whole chains of redirects: how many are followed, and where to.
use chi_jie.Prelude.{
  ℕ, ◌+◌, ◌≤◌, ◌≡◌, refl, sym, ap, ◌∙◌, subst, Bool, true, false, Option, none, List, [], ◌∷◌, ◌++◌,
  if◌then◌else◌, Str, length, ℤ, pos, negsuc, is_not_positive, int_lt, magnitude, All, All-append,
  length-append, arith, Bool-cases, Option-cases, inl, inr, not,
}
use chi_jie.Proxy.Settings.{ProxySettings, proxy_settings}
use chi_jie.Proxy.Settings.Bounds.{proxy_settings-IsBounded}
use chi_jie.Proxy.Redirect.{
  ProxyRedirect, Tracker, Request, Verdict, go_on, use_last_response, refused,
  new_proxy_redirect_tracker, with_default, redirect_step, check_target, check_limit,
  check_redirect,
}

abbrev pub goes_on : Verdict → Bool
goes_on go_on = true
goes_on use_last_response = false
goes_on (refused e) = false

-- The request to the address was allowed.
abbrev pub IsAllowed : (Str → Option Str) → ProxyRedirect → Type 0
IsAllowed validate r = validate r.to_url ≡ none

count_within :
    (z : ℤ) (n : ℕ) → is_not_positive z ≡ false → int_lt z (pos n) ≡ false → n ≤ magnitude z
count_within (pos m) n h k = ground arith
count_within (negsuc m) n h k = absurd (cc)

length-snoc {ℓ} : {A : Type ℓ} (xs : List A) (x : A) → length (xs ++ (x ∷ [])) ≡ length xs + 1
length-snoc xs x = length-append xs (x ∷ [])

else_of {ℓ} : {A : Type ℓ} (x y : A) (b : Bool) → b ≡ true → (if not b then x else y) ≡ y
else_of x y true h = refl
else_of x y false h = absurd (cc)

module _ (validate : Str → Option Str) where
  -- What net/http does with a chain of redirects: it asks before each request, with all requests
  -- made so far, and ends at the first answer that is not nil.
  unfoldable pub chase : Tracker → List Request → List Request → Tracker
  chase t via [] = t
  chase t via (next ∷ more) =
      let (verdict, u) = check_redirect validate t next via in
      let rest = chase u (via ++ (next ∷ [])) more in if goes_on verdict then rest else u

  -- A tracker after `n` redirects, all of them allowed, and no more than its limit.
  abbrev IsWithin : ℤ → ℕ → Tracker → Type 0
  IsWithin limit n t =
      (t.max_redirects ≡ limit)
      × ((length t.redirects ≡ n) × ((n ≤ magnitude limit) × All (IsAllowed validate) t.redirects))

  check_target-IsWithin :
      (limit : ℤ) (n : ℕ) (t : Tracker) (next : Request) (to : Str) (via : List Request)
      → IsWithin limit n t
      → n + 1 ≤ magnitude limit
      → IsWithin limit
          (if goes_on (check_target validate t next to via).0 then n + 1 else n)
          (check_target validate t next to via).1
  unfolding check_target redirect_step
  check_target-IsWithin limit n t next to via w room = elim (Option-cases (validate to)) [
    | inl allowed ↦
        rw (allowed, check_target)
          (
            w.0,
            (
              length-snoc t.redirects (redirect_step next to via) ∙ ap (λ k. k + 1) w.1.0,
              (
                room,
                All-append (IsAllowed validate) t.redirects (redirect_step next to via ∷ []) w.1.1.1
                    (allowed, tt),
              ),
            ),
          )
    | inr (e, blocked) ↦ rw (blocked, check_target) w
  ]

  check_limit-IsWithin :
      (limit : ℤ) (n : ℕ) (t : Tracker) (next : Request) (via : List Request)
      → is_not_positive limit ≡ false
      → length via ≡ n + 1
      → IsWithin limit n t
      → IsWithin limit
          (if goes_on (check_limit validate t next via).0 then n + 1 else n)
          (check_limit validate t next via).1
  unfolding check_limit
  check_limit-IsWithin limit n t next via h k w =
      elim (Bool-cases (int_lt t.max_redirects (pos (length via)))) [
        | inl full ↦ simp (full, check_limit) w
        | inr room ↦ elim (Option-cases next.url) [
          | inl missing ↦ simp (room, missing, check_limit) w
          | inr (to, given) ↦
              simp (room, given, check_limit)
                (check_target-IsWithin limit n t next to via w (
                  subst (λ i. i ≤ magnitude limit) k
                    (count_within limit (length via) h
                      (sym (ap (λ z. int_lt z (pos (length via))) w.0) ∙ room))))
        ]
      ]

  with_default_same : (t : Tracker) → is_not_positive t.max_redirects ≡ false → with_default t ≡ t
  with_default_same t e = simp e refl

  abbrev IsStep : ℤ → ℕ → Verdict × Tracker → Type 0
  IsStep limit n r = IsWithin limit (if goes_on r.0 then n + 1 else n) r.1

  check_redirect_on :
      (t : Tracker) (next : Request) (via : List Request)
      → t.follow ≡ true
      → check_redirect validate t next via ≡ check_limit validate (with_default t) next via
  unfolding check_redirect
  check_redirect_on t next via on = else_of (use_last_response, t) _ t.follow on

  check_redirect-IsWithin :
      (limit : ℤ) (n : ℕ) (t : Tracker) (next : Request) (via : List Request)
      → is_not_positive limit ≡ false
      → length via ≡ n + 1
      → IsWithin limit n t
      → IsWithin limit
          (if goes_on (check_redirect validate t next via).0 then n + 1 else n)
          (check_redirect validate t next via).1
  unfolding check_redirect
  check_redirect-IsWithin limit n t next via h k w = elim (Bool-cases t.follow) [
    | inr stay ↦ simp (stay, check_redirect) w
    | inl on ↦ subst (IsStep limit n) (sym (check_redirect_on t next via on)) (
        check_limit-IsWithin limit n (with_default t) next via h k
          (subst (IsWithin limit n) (sym (with_default_same t (ap is_not_positive w.0 ∙ h))) w))
  ]

  chase-IsWithin :
      (limit : ℤ) (n : ℕ) (t : Tracker) (via nexts : List Request)
      → is_not_positive limit ≡ false
      → length via ≡ n + 1
      → IsWithin limit n t
      → (m : ℕ) × IsWithin limit m (chase t via nexts)
  unfolding chase
  chase-IsWithin limit n t via [] h k w = (n, w)
  chase-IsWithin limit n t via (next ∷ more) h k w =
      let r = check_redirect validate t next via in
      let step = check_redirect-IsWithin limit n t next via h k w in
      elim (Bool-cases (goes_on r.0)) [
        | inl on ↦
            rw (on, chase)
              (chase-IsWithin limit (n + 1) r.1 (via ++ (next ∷ [])) more h
                (length-snoc via next ∙ ap (λ i. i + 1) k) (rw on at step))
        | inr off ↦ rw (off, chase) (n, rw off at step)
      ]

  -- However long a chain of redirects is, and whether or not the caller asked to follow them, the
  -- tracker of a request records at most as many as the server's settings allow.
  pub chain_bounded :
      (held : ProxySettings) (follow : Bool) (first : Request) (nexts : List Request)
      → length (chase (new_proxy_redirect_tracker held follow) (first ∷ []) nexts).redirects
        ≤ magnitude (proxy_settings held).max_redirects
  unfolding new_proxy_redirect_tracker
  chain_bounded held follow first nexts =
      let (m, (e, (l, (b, a)))) =
        chase-IsWithin (proxy_settings held).max_redirects 0
          (new_proxy_redirect_tracker held follow) (first ∷ []) nexts
          (proxy_settings-IsBounded held).1.0.0 refl (refl, (refl, (omega arith, tt))) in
      omega (arith, l, b)

  -- Wherever a chain of redirects leads, validateTargetURL accepted the target of every redirect
  -- that the tracker records.
  pub chain-IsAllowed :
      (held : ProxySettings) (follow : Bool) (first : Request) (nexts : List Request)
      → All
          (IsAllowed validate)
          (chase (new_proxy_redirect_tracker held follow) (first ∷ []) nexts).redirects
  unfolding new_proxy_redirect_tracker
  chain-IsAllowed held follow first nexts =
      (chase-IsWithin (proxy_settings held).max_redirects 0 (new_proxy_redirect_tracker held follow)
        (first ∷ []) nexts (proxy_settings-IsBounded held).1.0.0 refl
        (refl, (refl, (omega arith, tt)))).1.1.1.1
