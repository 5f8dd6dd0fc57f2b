-- ===== src/Dashboard/Plans/Alike.antt =====
-- The plan for a request depends on the time only in what it would read.
use promptmeter.Prelude.{
  sym, ◌*◌, ◌≤◌, ◌≡◌, refl, Bool, Option, none, some, List, Str, lit, arith, Bool-cases,
  Option-cases, inl, inr, ◌⊎◌,
}
use promptmeter.Domain.Time.{Time, second}
use promptmeter.Storage.Reader.{DashboardQueryParams}
use promptmeter.Dashboard.CacheKey.{cache_key}
use promptmeter.Dashboard.CacheKey.Shared.{IsColonFree, all-IsColonFree}
use promptmeter.Dashboard.Params.{
  Request, valid_period, valid_group_by, asked_period, asked_timezone, asked_params,
  parse_dashboard_params,
}
use promptmeter.Dashboard.Answers.{Plan}
use promptmeter.Dashboard.Plans.{
  Libraries, asked_group, plan_overview_of, plan_overview, plan_breakdown_of, plan_breakdown,
}
use promptmeter.Dashboard.Plans.Costs.{
  Periods, valid_timeseries_group_by, lengths_differ, plan_timeseries_of, plan_timeseries,
  plan_compare_of, plan_compare, plan_filters_of, plan_filters, Endpoint, plan_of,
}

-- The key is one of the organisation, for a name without a colon.
abbrev pub IsKeyOf : Libraries → Str → Str → Type 0
IsKeyOf lib org k =
    (endpoint : Str) × (params : List Str) × (k ≡ cache_key lib.sha256 org endpoint params)
    × IsColonFree endpoint

-- Both refuse, or both have the same key of the organisation and the same time to live, of at least a
-- minute.
abbrev pub IsAlike : Libraries → Str → Plan → Plan → Type 0
IsAlike lib org Plan.bad_request Plan.bad_request = Unit
IsAlike lib org (Plan.ready k ttl _) (Plan.ready j time _) =
    (k ≡ j) × (ttl ≡ time) × (60 * second ≤ ttl) × IsKeyOf lib org k
IsAlike lib org _ _ = ⊥

-- The parameters of two times differ in the period only.
pub record IsShifted (p q : DashboardQueryParams) : Type 0 where
  pub project : p.project_id ≡ q.project_id
  pub timezone : p.timezone ≡ q.timezone

pub parse-cases :
    (known : Str → Bool) (r : Request) (now t : Time)
    → ((parse_dashboard_params known r now ≡ none) × (parse_dashboard_params known r t ≡ none))
      ⊎ ((p : DashboardQueryParams) × (q : DashboardQueryParams) × (period : Str)
          × (parse_dashboard_params known r now ≡ some (p, period))
          × (parse_dashboard_params known r t ≡ some (q, period))
          × IsShifted p q)
unfolding parse_dashboard_params
parse-cases known r now t = elim (Option-cases (valid_period (asked_period r))) [
  | inl e ↦ inl (rw e refl, rw e refl)
  | inr (dur, e) ↦ elim (Bool-cases (known (asked_timezone r))) [
    | inl f ↦ inr (
      asked_params dur r now,
      asked_params dur r t,
      asked_period r,
      rw (e, f) refl,
      rw (e, f) refl,
      record { project = refl; timezone = refl },
    )
    | inr f ↦ inl (rw (e, f) refl, rw (e, f) refl)
  ]
]

module _ (lib : Libraries) (r : Request) (now t : Time) where
  overview-IsAlike : IsAlike lib r.org_id (plan_overview lib r now) (plan_overview lib r t)
  unfolding plan_overview plan_overview_of
  overview-IsAlike = elim (parse-cases lib.load_location r now t) [
    | inl (e, f) ↦ rw (e, f) tt
    | inr (p, q, period, e, f, same) ↦
        rw (e, f, sym same.project, sym same.timezone)
          (
            refl,
            refl,
            omega arith,
            (lit "overview", _, refl, all-IsColonFree (lit "overview") refl),
          )
  ]

  breakdown-IsAlike : IsAlike lib r.org_id (plan_breakdown lib r now) (plan_breakdown lib r t)
  unfolding plan_breakdown plan_breakdown_of
  breakdown-IsAlike = elim (parse-cases lib.load_location r now t) [
    | inl (e, f) ↦ rw (e, f) tt
    | inr (p, q, period, e, f, same) ↦ elim (Bool-cases (valid_group_by (asked_group lib r))) [
      | inl valid ↦
          rw (e, f, valid, sym same.project, sym same.timezone)
            (refl, refl, omega arith, (lit "cost", _, refl, all-IsColonFree (lit "cost") refl))
      | inr bad ↦ rw (e, f, bad) tt
    ]
  ]

  timeseries-IsAlike : IsAlike lib r.org_id (plan_timeseries lib r now) (plan_timeseries lib r t)
  unfolding plan_timeseries plan_timeseries_of
  timeseries-IsAlike = elim (parse-cases lib.load_location r now t) [
    | inl (e, f) ↦ rw (e, f) tt
    | inr (p, q, period, e, f, same) ↦
        elim (Bool-cases (valid_timeseries_group_by (r.get (lit "group_by")))) [
          | inl valid ↦
              rw (e, f, valid, sym same.project, sym same.timezone)
                (
                  refl,
                  refl,
                  omega arith,
                  (lit "timeseries", _, refl, all-IsColonFree (lit "timeseries") refl),
                )
          | inr bad ↦ rw (e, f, bad) tt
        ]
  ]

  compare_of-IsAlike :
      (o : Option Periods)
      → IsAlike lib r.org_id (plan_compare_of lib r o) (plan_compare_of lib r o)
  unfolding plan_compare_of
  compare_of-IsAlike none = tt
  compare_of-IsAlike (some periods) = elim (Bool-cases (lengths_differ lib periods)) [
    | inl far ↦ rw far tt
    | inr near ↦ elim (Bool-cases (valid_group_by (asked_group lib r))) [
      | inl valid ↦
          rw (near, valid)
            (
              refl,
              refl,
              omega arith,
              (lit "compare", _, refl, all-IsColonFree (lit "compare") refl),
            )
      | inr bad ↦ rw (near, bad) tt
    ]
  ]

  filters-IsAlike : IsAlike lib r.org_id (plan_filters lib r now) (plan_filters lib r t)
  unfolding plan_filters plan_filters_of
  filters-IsAlike = elim (parse-cases lib.load_location r now t) [
    | inl (e, f) ↦ rw (e, f) tt
    | inr (p, q, period, e, f, same) ↦
        rw (e, f, sym same.project, sym same.timezone)
          (
            refl,
            refl,
            omega arith,
            (lit "cost-filters", _, refl, all-IsColonFree (lit "cost-filters") refl),
          )
  ]

  pub plan_of-IsAlike :
      (endpoint : Endpoint)
      → IsAlike lib r.org_id (plan_of lib endpoint r now) (plan_of lib endpoint r t)
  unfolding plan_of plan_compare
  plan_of-IsAlike Endpoint.overview = overview-IsAlike
  plan_of-IsAlike Endpoint.cost = breakdown-IsAlike
  plan_of-IsAlike Endpoint.timeseries = timeseries-IsAlike
  plan_of-IsAlike Endpoint.compare = compare_of-IsAlike _
  plan_of-IsAlike Endpoint.filters = filters-IsAlike
