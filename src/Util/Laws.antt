-- ===== src/Util/Laws.antt =====
-- Membership and removal of strings.
use chi_jie.Prelude.{
  ◌≡◌, refl, false, List, [], ◌∷◌, ◌++◌, arith, Str, str_eq, str_eq_iff, if◌then◌else◌, ◌||◌,
}
use chi_jie.Util.{contains_string, remove_string}

-- RemoveString takes out every occurrence of the value, and of no other.
pub contains-remove :
    (xs : List Str) (v w : Str)
    → contains_string (remove_string xs v) w ≡ (if str_eq v w then false else contains_string xs w)
unfolding contains_string remove_string
contains-remove [] v w = ground arith
contains-remove (x ∷ xs) v w =
    ground (arith, contains-remove xs v w, str_eq_iff x v, str_eq_iff x w, str_eq_iff v w)

pub contains-append :
    (xs ys : List Str) (w : Str)
    → contains_string (xs ++ ys) w ≡ (contains_string xs w || contains_string ys w)
unfolding contains_string
contains-append [] ys w = refl
contains-append (x ∷ xs) ys w = ground (arith, contains-append xs ys w)
