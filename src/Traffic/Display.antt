-- ===== src/Traffic/Display.antt =====
-- displayTraces of internal/traffic/store.go: the rows that the console shows, with the traces of
-- one key in one row.
pub mod Members
pub mod Grouping
pub mod Shown
use chi_jie.Prelude.{
  ℕ, zero, suc, ◌+◌, Bool, true, false, not, Option, none, some, List, [], ◌∷◌, ◌++◌, map,
  if◌then◌else◌, leb, length, Str, is_nil, Dict, lookup, insert,
}
use chi_jie.Traffic.Types.{Trace, TrafficConfig}
use chi_jie.Traffic.Group.{
  UrlApi, Fold, success_fold_group, is_failure, failure_group_key, failure_group_target,
}

pub record DisplayTrace : Type 0 where
  pub trace : Trace
  pub group_key : Str
  pub group_target : Str
  pub group_count : ℕ
  pub excluded_from_metric : Bool
  pub children : List Trace

-- The rows so far, and the place of the row of each key.
pub record Rows : Type 0 where
  pub rows : List DisplayTrace
  pub index_by_key : Dict ℕ

abbrev pub no_rows : Rows
no_rows = record { rows = []; index_by_key = [] }

-- A row without a key.
unfoldable pub plain_row : Trace → DisplayTrace
plain_row t = record {
  trace = t;
  group_key = [];
  group_target = [];
  group_count = 1;
  excluded_from_metric = false;
  children = [];
}

unfoldable pub keyed_row : Trace → Str → Str → Bool → DisplayTrace
keyed_row t key target excluded = record {
  trace = t;
  group_key = key;
  group_target = target;
  group_count = 1;
  excluded_from_metric = excluded;
  children = t ∷ [];
}

abbrev pub join_row : Trace → DisplayTrace → DisplayTrace
join_row t row = record row { group_count = suc row.group_count; children = row.children ++ t ∷ [] }

-- rows[index].GroupCount++, rows[index].Children = append(...)
unfoldable pub bump : ℕ → Trace → List DisplayTrace → List DisplayTrace
bump i t [] = []
bump zero t (row ∷ rows) = join_row t row ∷ rows
bump (suc i) t (row ∷ rows) = row ∷ bump i t rows

unfoldable pub add_plain : Trace → Rows → Rows
unfolding plain_row
add_plain t s = record s { rows = s.rows ++ plain_row t ∷ [] }

unfoldable pub add_keyed : Trace → Str → Str → Bool → Rows → Rows
unfolding bump lookup insert keyed_row
add_keyed t key target excluded s = elim (lookup key s.index_by_key) [
  | some i ↦ record s { rows = bump i t s.rows }
  | none ↦ record {
    rows = s.rows ++ keyed_row t key target excluded ∷ [];
    index_by_key = insert key (length s.rows) s.index_by_key;
  }
]

-- A row of one trace lists no children.
unfoldable pub finish : DisplayTrace → DisplayTrace
finish row = record row { children = if leb row.group_count 1 then [] else row.children }

module _ (urls : UrlApi) (c : TrafficConfig) where
  unfoldable pub display_trace : Trace → Rows → Rows
  unfolding success_fold_group is_failure failure_group_key failure_group_target add_plain add_keyed
  display_trace t s = elim (success_fold_group urls t c) [
    | some fold ↦ add_keyed t fold.key fold.target true s
    | none ↦
        if not (is_failure t)
        then add_plain t s
        else if is_nil (failure_group_key urls t c)
        then add_plain t s
        else add_keyed t (failure_group_key urls t c) (failure_group_target urls t c) false s
  ]

  unfoldable pub display_all : List Trace → Rows → Rows
  unfolding display_trace
  display_all [] s = s
  display_all (t ∷ ts) s = display_all ts (display_trace t s)

  unfoldable pub display_traces : List Trace → List DisplayTrace
  unfolding display_all finish
  display_traces traces = map finish (display_all traces no_rows).rows
