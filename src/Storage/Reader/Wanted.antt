-- ===== src/Storage/Reader/Wanted.antt =====
-- What the breakdown by model selects, against a reference that names every filter.
use mathlib.Core.List.{append-nil}
use promptmeter.Prelude.{
  ℕ, ◌≡◌, refl, sym, ap, ◌∙◌, Bool, true, false, ◌&&◌, ◌||◌, Option, some, List, [], ◌∷◌, ◌++◌, Str,
  lit, str_eq, str_eq_refl, all, is_empty, if◌then◌else◌, Bool-cases, inl, inr,
}
use promptmeter.Domain.Cost.{CostBreakdownItem}
use promptmeter.Storage.Sql.{
  Cell, Column, Condition, Args, Query, Fact, Times, arg_of, cell_eq, holds, selects,
}
use promptmeter.Storage.Reader.{
  DashboardQueryParams, Ask, unix_uint32, filter_by, collect, project_filter, model_filter,
  provider_filter, feature_filter,
}
use promptmeter.Storage.Reader.Breakdown.{
  cost_by_model_query, cross_dimensional_query, scan_model, scan_group, get_cost_by_model,
  get_cost_cross_dimensional, get_cost_breakdown, needs_cross_dimensional, feature_not_empty,
}

-- A filter is met by every row if it is empty, and else by the rows with its text.
abbrev pub meets : Str → Cell → Bool
meets v c = is_empty v || cell_eq c (Cell.text v)

module _ (times : Times) (p : DashboardQueryParams) (r : Fact) where
  -- From the day on which the period begins to the day on which it ends.
  abbrev pub in_days : Bool
  in_days =
      times.le (times.convert Column.date (Cell.uint (unix_uint32 p.since))) (r Column.date)
      && times.le (r Column.date) (times.convert Column.date (Cell.uint (unix_uint32 p.until)))

  abbrev pub in_times : Bool
  in_times =
      times.le (times.convert Column.timestamp (Cell.time p.since)) (r Column.timestamp)
      && times.le (r Column.timestamp) (times.convert Column.timestamp (Cell.time p.until))

  -- A row of the organisation that meets every filter; without a filter on features the period is
  -- measured in days.
  unfoldable pub wanted : Bool
  wanted =
      cell_eq (r Column.org_id) (Cell.uint p.org_id)
      && ((if is_empty p.feature_filter then in_days else in_times)
          && (meets p.project_id (r Column.project_id)
              && (meets p.model_filter (r Column.model)
                  && (meets p.provider_filter (r Column.provider)
                      && meets p.feature_filter (r Column.feature)))))

arg-skip :
    (c : Column) (n m v : Str) (rest : Args)
    → str_eq m n ≡ false
    → arg_of n ((filter_by c m v).1 ++ rest) ≡ arg_of n rest
unfolding arg_of filter_by
arg-skip c n m [] rest h = refl
arg-skip c n m (x ∷ v) rest h = rw h refl

arg-hit :
    (c : Column) (n v : Str) (rest : Args)
    → is_empty v ≡ false
    → arg_of n ((filter_by c n v).1 ++ rest) ≡ some (Cell.text v)
unfolding arg_of filter_by
arg-hit c n [] rest h = cc
arg-hit c n (x ∷ v) rest h = rw (str_eq_refl n) refl

arg-hit-last :
    (c : Column) (n v : Str)
    → is_empty v ≡ false
    → arg_of n (filter_by c n v).1 ≡ some (Cell.text v)
unfolding arg_of filter_by
arg-hit-last c n [] h = cc
arg-hit-last c n (x ∷ v) h = rw (str_eq_refl n) refl

and_true : (a : Bool) → (a && true) ≡ a
and_true true = refl
and_true false = refl

and_assoc : (a b c : Bool) → ((a && b) && c) ≡ (a && (b && c))
and_assoc true b c = refl
and_assoc false b c = refl

module _ (times : Times) (args : Args) (r : Fact) where
  all-filter_by :
      (c : Column) (n v : Str) (rest : List Condition)
      → (is_empty v ≡ false → arg_of n args ≡ some (Cell.text v))
      → all (λ x. holds times args r x) ((filter_by c n v).0 ++ rest)
        ≡ (meets v (r c) && all (λ x. holds times args r x) rest)
  unfolding holds filter_by
  all-filter_by c n [] rest bound = refl
  all-filter_by c n (x ∷ v) rest bound = rw (bound refl) refl

  all-filter_by-last :
      (c : Column) (n v : Str)
      → (is_empty v ≡ false → arg_of n args ≡ some (Cell.text v))
      → all (λ x. holds times args r x) (filter_by c n v).0 ≡ meets v (r c)
  all-filter_by-last c n v bound =
      ap (all (λ x. holds times args r x)) (sym (append-nil (filter_by c n v).0))
      ∙ all-filter_by c n v [] bound
      ∙ and_true (meets v (r c))

module _ (times : Times) (p : DashboardQueryParams) (limit : ℕ) (r : Fact) where
  bound_project :
      is_empty p.project_id ≡ false
      → arg_of (lit "project_id") (cost_by_model_query p limit).args ≡ some (Cell.text p.project_id)
  unfolding arg_of cost_by_model_query
  bound_project h = arg-hit Column.project_id (lit "project_id") p.project_id _ h

  bound_model :
      is_empty p.model_filter ≡ false
      → arg_of (lit "model_filter") (cost_by_model_query p limit).args
        ≡ some (Cell.text p.model_filter)
  unfolding arg_of cost_by_model_query
  bound_model h =
      arg-skip Column.project_id (lit "model_filter") (lit "project_id") p.project_id _ refl
      ∙ arg-hit Column.model (lit "model_filter") p.model_filter _ h

  bound_provider :
      is_empty p.provider_filter ≡ false
      → arg_of (lit "provider_filter") (cost_by_model_query p limit).args
        ≡ some (Cell.text p.provider_filter)
  unfolding arg_of cost_by_model_query
  bound_provider h =
      arg-skip Column.project_id (lit "provider_filter") (lit "project_id") p.project_id _ refl
      ∙ arg-skip Column.model (lit "provider_filter") (lit "model_filter") p.model_filter _ refl
      ∙ arg-hit-last Column.provider (lit "provider_filter") p.provider_filter h

  by_model-meets :
      all
        (λ x. holds times (cost_by_model_query p limit).args r x)
        ((project_filter p).0 ++ ((model_filter p).0 ++ (provider_filter p).0))
      ≡ (meets p.project_id (r Column.project_id)
          && (meets p.model_filter (r Column.model) && meets p.provider_filter (r Column.provider)))
  by_model-meets =
      all-filter_by times _ r Column.project_id (lit "project_id") p.project_id _ bound_project
      ∙ ap (λ b. meets p.project_id (r Column.project_id) && b)
          (all-filter_by times _ r Column.model (lit "model_filter") p.model_filter _ bound_model
            ∙ ap (λ b. meets p.model_filter (r Column.model) && b)
                (all-filter_by-last times _ r Column.provider (lit "provider_filter")
                  p.provider_filter bound_provider))

  by_model-wanted :
      is_empty p.feature_filter ≡ true
      → selects times (cost_by_model_query p limit) r ≡ wanted times p r
  unfolding selects wanted cost_by_model_query
  by_model-wanted h =
      rw (by_model-meets, h, and_true (meets p.provider_filter (r Column.provider)), and_assoc) refl

  event_project :
      is_empty p.project_id ≡ false
      → arg_of (lit "project_id") (cross_dimensional_query p (lit "model") limit).args
        ≡ some (Cell.text p.project_id)
  unfolding arg_of cross_dimensional_query
  event_project h = arg-hit Column.project_id (lit "project_id") p.project_id _ h

  event_model :
      is_empty p.model_filter ≡ false
      → arg_of (lit "model_filter") (cross_dimensional_query p (lit "model") limit).args
        ≡ some (Cell.text p.model_filter)
  unfolding arg_of cross_dimensional_query
  event_model h =
      arg-skip Column.project_id (lit "model_filter") (lit "project_id") p.project_id _ refl
      ∙ arg-hit Column.model (lit "model_filter") p.model_filter _ h

  event_provider :
      is_empty p.provider_filter ≡ false
      → arg_of (lit "provider_filter") (cross_dimensional_query p (lit "model") limit).args
        ≡ some (Cell.text p.provider_filter)
  unfolding arg_of cross_dimensional_query
  event_provider h =
      arg-skip Column.project_id (lit "provider_filter") (lit "project_id") p.project_id _ refl
      ∙ arg-skip Column.model (lit "provider_filter") (lit "model_filter") p.model_filter _ refl
      ∙ arg-hit Column.provider (lit "provider_filter") p.provider_filter _ h

  event_feature :
      is_empty p.feature_filter ≡ false
      → arg_of (lit "feature_filter") (cross_dimensional_query p (lit "model") limit).args
        ≡ some (Cell.text p.feature_filter)
  unfolding arg_of cross_dimensional_query
  event_feature h =
      arg-skip Column.project_id (lit "feature_filter") (lit "project_id") p.project_id _ refl
      ∙ arg-skip Column.model (lit "feature_filter") (lit "model_filter") p.model_filter _ refl
      ∙ arg-skip Column.provider (lit "feature_filter") (lit "provider_filter") p.provider_filter _
          refl
      ∙ arg-hit-last Column.feature (lit "feature_filter") p.feature_filter h

  event-meets :
      all
        (λ x. holds times (cross_dimensional_query p (lit "model") limit).args r x)
        ((project_filter p).0
          ++ ((model_filter p).0
              ++ ((provider_filter p).0
                  ++ ((feature_filter p).0 ++ feature_not_empty (lit "model")))))
      ≡ (meets p.project_id (r Column.project_id)
          && (meets p.model_filter (r Column.model)
              && (meets p.provider_filter (r Column.provider)
                  && meets p.feature_filter (r Column.feature))))
  unfolding feature_not_empty
  event-meets =
      all-filter_by times _ r Column.project_id (lit "project_id") p.project_id _ event_project
      ∙ ap (λ b. meets p.project_id (r Column.project_id) && b)
          (all-filter_by times _ r Column.model (lit "model_filter") p.model_filter _ event_model
            ∙ ap (λ b. meets p.model_filter (r Column.model) && b)
                (all-filter_by times _ r Column.provider (lit "provider_filter") p.provider_filter _
                    event_provider
                  ∙ ap (λ b. meets p.provider_filter (r Column.provider) && b)
                      (all-filter_by times _ r Column.feature (lit "feature_filter")
                          p.feature_filter [] event_feature
                        ∙ and_true (meets p.feature_filter (r Column.feature)))))

  event-wanted :
      is_empty p.feature_filter ≡ false
      → selects times (cross_dimensional_query p (lit "model") limit) r ≡ wanted times p r
  unfolding selects wanted cross_dimensional_query
  event-wanted h = rw (event-meets, h, and_assoc) refl

-- The breakdown by model, whichever table it is read from, scans the answer to one query, which
-- selects exactly the rows of the organisation that lie in the period and meet every filter that is
-- given: on the project, the model, the provider and the feature.
pub get_cost_breakdown-wanted :
    (times : Times) (ask : Ask) (p : DashboardQueryParams) (limit : ℕ)
    → (q : Query) × (scan : List Cell → Option CostBreakdownItem) × (get_cost_breakdown ask p
          (lit "model")
          limit
        ≡ collect scan (ask q))
      × ((r : Fact) → selects times q r ≡ wanted times p r)
unfolding get_cost_breakdown get_cost_by_model get_cost_cross_dimensional needs_cross_dimensional
get_cost_breakdown-wanted times ask p limit = elim (Bool-cases (is_empty p.feature_filter)) [
  | inl free ↦ (
    cost_by_model_query p limit,
    scan_model,
    rw free refl,
    λ r. by_model-wanted times p limit r free,
  )
  | inr given ↦ (
    cross_dimensional_query p (lit "model") limit,
    scan_group,
    rw given refl,
    λ r. event-wanted times p limit r given,
  )
]
