-- ===== src/Storage/Reader/Isolated.antt =====
-- No query of the dashboard reads what belongs to another organisation.
use promptmeter.Prelude.{
  ℕ, ◌≡◌, refl, sym, ap, ◌∙◌, Bool, true, false, ◌&&◌, Option, List, [], ◌∷◌, Str, lit, str_eq,
  Bool-cases, inl, inr,
}
use promptmeter.Domain.Floats.{Floats}
use promptmeter.Storage.Sql.{
  Cell, Column, Query, Fact, Times, cell_eq, selects, Database, filter, Rows, IsSql,
}
use promptmeter.Storage.Reader.{DashboardQueryParams}
use promptmeter.Storage.Reader.Overview.{overview_query, get_overview_kpis}
use promptmeter.Storage.Reader.Breakdown.{
  cost_by_model_query, cost_by_tag_query, cost_by_project_query, cross_dimensional_query,
  get_cost_by_model, get_cost_by_tag, get_cost_by_project, get_cost_cross_dimensional,
  get_cost_breakdown,
}
use promptmeter.Storage.Reader.Timeseries.{
  hourly_query, weekly_query, daily_query, total_query, top_models_query, models_query,
  top_features_query, features_query, get_timeseries_total, get_timeseries_by_model,
  get_timeseries_by_feature, get_cost_timeseries,
}
use promptmeter.Storage.Reader.FilterValues.{
  distinct_query, distinct_features_query, get_cost_filters,
}
use promptmeter.Storage.Reader.Compare.{get_cost_compare}

-- A row of the organisation.
abbrev pub of_org : ℕ → Fact → Bool
of_org org r = cell_eq (r Column.org_id) (Cell.uint org)

-- Two states of the database that differ at most in what other organisations have.
abbrev pub IsSameFor : ℕ → Database → Database → Type 0
IsSameFor org d e = (t : Str) → filter (of_org org) (d t) ≡ filter (of_org org) (e t)

and_left : (a b : Bool) → a && b ≡ true → a ≡ true
and_left true b h = refl
and_left false b h = h

filter-absorb :
    (p o : Fact → Bool) (xs : List Fact)
    → ((r : Fact) → p r ≡ true → o r ≡ true)
    → filter p xs ≡ filter p (filter o xs)
unfolding filter
filter-absorb p o [] h = refl
filter-absorb p o (x ∷ xs) h = elim (Bool-cases (p x)) [
  | inl hit ↦ rw (hit, h x hit) (rw hit (ap (λ l. x ∷ l) (filter-absorb p o xs h)))
  | inr miss ↦ elim (Bool-cases (o x)) [
    | inl mine ↦ rw (miss, mine) (rw miss (filter-absorb p o xs h))
    | inr other ↦ rw (miss, other) (filter-absorb p o xs h)
  ]
]

-- A query that selects rows of one organisation only.
abbrev IsOwn : Times → ℕ → Query → Type 0
IsOwn times org q = (r : Fact) → selects times q r ≡ true → of_org org r ≡ true

module _ (times : Times) (conn : Database → Query → Option Rows) (sql : IsSql times conn)
    (d e : Database) (org : ℕ) (same : IsSameFor org d e) where
  answer_same : (q : Query) → IsOwn times org q → conn d q ≡ conn e q
  answer_same q own = sql.answer d e q (
      filter-absorb (λ r. selects times q r) (of_org org) (d q.table) own
      ∙ ap (filter (λ r. selects times q r)) (same q.table)
      ∙ sym (filter-absorb (λ r. selects times q r) (of_org org) (e q.table) own))

module _ (times : Times) (p : DashboardQueryParams) where
  overview-IsOwn : IsOwn times p.org_id (overview_query p)
  unfolding selects overview_query
  overview-IsOwn r h = and_left _ _ h

  cost_by_model-IsOwn : (limit : ℕ) → IsOwn times p.org_id (cost_by_model_query p limit)
  unfolding selects cost_by_model_query
  cost_by_model-IsOwn limit r h = and_left _ _ h

  cost_by_tag-IsOwn :
      (tag_key : Str) (limit : ℕ) → IsOwn times p.org_id (cost_by_tag_query p tag_key limit)
  unfolding selects cost_by_tag_query
  cost_by_tag-IsOwn tag_key limit r h = and_left _ _ h

  cost_by_project-IsOwn : (limit : ℕ) → IsOwn times p.org_id (cost_by_project_query p limit)
  unfolding selects cost_by_project_query
  cost_by_project-IsOwn limit r h = and_left _ _ h

  cross_dimensional-IsOwn :
      (group_by : Str) (limit : ℕ) → IsOwn times p.org_id (cross_dimensional_query p group_by limit)
  unfolding selects cross_dimensional_query
  cross_dimensional-IsOwn group_by limit r h = and_left _ _ h

  hourly-IsOwn : IsOwn times p.org_id (hourly_query p)
  unfolding selects hourly_query
  hourly-IsOwn r h = and_left _ _ h

  weekly-IsOwn : IsOwn times p.org_id (weekly_query p)
  unfolding selects weekly_query
  weekly-IsOwn r h = and_left _ _ h

  daily-IsOwn : IsOwn times p.org_id (daily_query p)
  unfolding selects daily_query
  daily-IsOwn r h = and_left _ _ h

  total-IsOwn : (granularity : Str) → IsOwn times p.org_id (total_query p granularity)
  unfolding total_query
  total-IsOwn granularity = elim (Bool-cases (str_eq granularity (lit "hour"))) [
    | inl hourly ↦ rw hourly (hourly-IsOwn)
    | inr longer ↦ elim (Bool-cases (str_eq granularity (lit "week"))) [
      | inl weekly ↦ rw (longer, weekly) (weekly-IsOwn)
      | inr other ↦ rw (longer, other) (daily-IsOwn)
    ]
  ]

  top_models-IsOwn : IsOwn times p.org_id (top_models_query p)
  unfolding selects top_models_query
  top_models-IsOwn r h = and_left _ _ h

  models-IsOwn : (granularity : Str) → IsOwn times p.org_id (models_query p granularity)
  unfolding selects models_query
  models-IsOwn granularity r h = and_left _ _ h

  top_features-IsOwn : IsOwn times p.org_id (top_features_query p)
  unfolding selects top_features_query
  top_features-IsOwn r h = and_left _ _ h

  features-IsOwn : (granularity : Str) → IsOwn times p.org_id (features_query p granularity)
  unfolding selects features_query
  features-IsOwn granularity r h = and_left _ _ h

  distinct-IsOwn : (column : Str) → IsOwn times p.org_id (distinct_query p column)
  unfolding selects distinct_query
  distinct-IsOwn column r h = and_left _ _ h

  distinct_features-IsOwn : IsOwn times p.org_id (distinct_features_query p)
  unfolding selects distinct_features_query
  distinct_features-IsOwn r h = and_left _ _ h

module _ (times : Times) (conn : Database → Query → Option Rows) (sql : IsSql times conn)
    (d e : Database) (p : DashboardQueryParams) (same : IsSameFor p.org_id d e) where
  answered : (q : Query) → IsOwn times p.org_id q → conn d q ≡ conn e q
  answered q own = answer_same times conn sql d e p.org_id same q own

  overview_same : get_overview_kpis (conn d) p ≡ get_overview_kpis (conn e) p
  unfolding get_overview_kpis
  overview_same = rw (answered (overview_query p) (overview-IsOwn times p)) refl

  breakdown_same :
      (group_by : Str) (limit : ℕ)
      → get_cost_breakdown (conn d) p group_by limit ≡ get_cost_breakdown (conn e) p group_by limit
  unfolding get_cost_breakdown get_cost_by_model get_cost_by_tag get_cost_by_project
      get_cost_cross_dimensional
  breakdown_same group_by limit =
      rw
        (
          answered (cost_by_model_query p limit) (cost_by_model-IsOwn times p limit),
          answered (cost_by_tag_query p (lit "feature") limit)
              (cost_by_tag-IsOwn times p (lit "feature") limit),
          answered (cost_by_project_query p limit) (cost_by_project-IsOwn times p limit),
          answered (cross_dimensional_query p group_by limit)
              (cross_dimensional-IsOwn times p group_by limit),
        )
        refl

  timeseries_same :
      (fl : Floats) (group_by granularity : Str)
      → get_cost_timeseries fl (conn d) p group_by granularity
        ≡ get_cost_timeseries fl (conn e) p group_by granularity
  unfolding get_cost_timeseries get_timeseries_total get_timeseries_by_model
      get_timeseries_by_feature
  timeseries_same fl group_by granularity =
      rw
        (
          answered (total_query p granularity) (total-IsOwn times p granularity),
          answered (top_models_query p) (top_models-IsOwn times p),
          answered (models_query p granularity) (models-IsOwn times p granularity),
          answered (top_features_query p) (top_features-IsOwn times p),
          answered (features_query p granularity) (features-IsOwn times p granularity),
        )
        refl

  filters_same : get_cost_filters (conn d) p ≡ get_cost_filters (conn e) p
  unfolding get_cost_filters
  filters_same =
      rw
        (
          answered (distinct_query p (lit "model")) (distinct-IsOwn times p (lit "model")),
          answered (distinct_query p (lit "provider")) (distinct-IsOwn times p (lit "provider")),
          answered (distinct_features_query p) (distinct_features-IsOwn times p),
        )
        refl

-- The state of the database that another organisation sees may be any other: where two states agree
-- on the rows of the caller's organisation, every query of the dashboard (the overview, the breakdown
-- by any group, the time series, the values of the filters, and the comparison with an earlier period
-- of the same organisation) has the same result in both.
pub reader-IsSameFor :
    (times : Times) (conn : Database → Query → Option Rows)
    → IsSql times conn
    → (d e : Database) (p before : DashboardQueryParams) → IsSameFor p.org_id d e
    → p.org_id ≡ before.org_id
    → (fl : Floats) (group_by granularity : Str) (limit : ℕ)
    → (get_overview_kpis (conn d) p ≡ get_overview_kpis (conn e) p)
      × (get_cost_breakdown (conn d) p group_by limit
          ≡ get_cost_breakdown (conn e) p group_by limit)
      × (get_cost_timeseries fl (conn d) p group_by granularity
          ≡ get_cost_timeseries fl (conn e) p group_by granularity)
      × (get_cost_filters (conn d) p ≡ get_cost_filters (conn e) p)
      × (get_cost_compare fl (conn d) p before group_by limit
          ≡ get_cost_compare fl (conn e) p before group_by limit)
unfolding get_cost_compare
reader-IsSameFor times conn sql d e p before same one_org fl group_by granularity limit =
    let same_before : IsSameFor before.org_id d e = rw (sym one_org) same in
    (
      overview_same times conn sql d e p same,
      breakdown_same times conn sql d e p same group_by limit,
      timeseries_same times conn sql d e p same fl group_by granularity,
      filters_same times conn sql d e p same,
      rw
          (
            breakdown_same times conn sql d e p same group_by limit,
            breakdown_same times conn sql d e before same_before group_by limit,
          )
          refl,
    )
