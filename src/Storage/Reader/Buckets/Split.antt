-- ===== src/Storage/Reader/Buckets/Split.antt =====
-- The series that a split time series is answered with, against the rows behind it.
use promptmeter.Prelude.{
  ◌+◌, ◌≤◌, ◌≡◌, refl, sym, ◌∙◌, true, false, Option, none, some, List, [], ◌∷◌, ◌++◌, Str, lit,
  str_eq, str_eq_iff, any, is_empty, arith, Bool-cases, inl, inr, All, In, length, length-append,
}
use promptmeter.Domain.Floats.{Floats}
use promptmeter.Domain.Time.{Time}
use promptmeter.Domain.Cost.{TimeseriesPoint, TimeseriesSeries}
use promptmeter.Storage.Sql.{Rows}
use promptmeter.Storage.Reader.{collect, collect_unchecked}
use promptmeter.Storage.Reader.Timeseries.{
  DetailRow, SeriesMap, fill, with_points, series_of, scan_top, scan_detail, split_series,
}
use promptmeter.Storage.Reader.Buckets.{
  IsOrdered, IsIncreasing, point_at, series_name, summed, nothing-IsBehind, fill_lem, summed-In,
}

point_at-is_empty :
    (t : Time) (ps : List TimeseriesPoint) (q : TimeseriesPoint)
    → point_at t ps ≡ some q
    → is_empty ps ≡ false
point_at-is_empty t [] q h = absurd (cc)
point_at-is_empty t (p ∷ ps) q h = refl

module _ (m : SeriesMap) where
  with_points-All :
      (P : TimeseriesSeries → Type 0) (gs : List Str)
      → ((g : Str) → P (record { group = g; points = m g }))
      → All P (with_points gs m)
  unfolding with_points
  with_points-All P [] h = tt
  with_points-All P (g ∷ gs) h = elim (Bool-cases (is_empty (m g))) [
    | inl e ↦ rw e (with_points-All P gs h)
    | inr e ↦ rw e (h g, with_points-All P gs h)
  ]

  length-with_points : (gs : List Str) → length (with_points gs m) ≤ length gs
  unfolding with_points
  length-with_points [] = omega arith
  length-with_points (g ∷ gs) = ground (arith, length-with_points gs)

  with_points-In :
      (g : Str) (gs : List Str)
      → In g gs
      → is_empty (m g) ≡ false
      → In (record { group = g; points = m g }) (with_points gs m)
  unfolding with_points
  with_points-In g [] h e = absurd h
  with_points-In g (x ∷ gs) (inl same) e = rw (sym same, e) (inl refl)
  with_points-In g (x ∷ gs) (inr later) e = elim (Bool-cases (is_empty (m x))) [
    | inl gone ↦ rw gone (with_points-In g gs later e)
    | inr kept ↦ rw kept (inr (with_points-In g gs later e))
  ]

any-In :
    (g : Str) (tops : List Str)
    → any (λ t. str_eq t g) tops ≡ true
    → In g (tops ++ lit "_other" ∷ [])
any-In g [] h = absurd (cc)
any-In g (t ∷ tops) h = elim (Bool-cases (str_eq t g)) [
  | inl e ↦ inl (sym ((str_eq_iff t g).0 e))
  | inr e ↦ inr (any-In g tops (rw e at h))
]

other-In : (tops : List Str) → In (lit "_other") (tops ++ lit "_other" ∷ [])
other-In [] = inl refl
other-In (t ∷ tops) = inr (other-In tops)

series_name-In : (tops : List Str) (g : Str) → In (series_name tops g) (tops ++ lit "_other" ∷ [])
series_name-In tops g = elim (Bool-cases (any (λ t. str_eq t g) tops)) [
  | inl e ↦ rw e (any-In g tops e)
  | inr e ↦ rw e (other-In tops)
]

-- A series is what the rows make of it.
pub record IsSummed (fl : Floats) (tops : List Str) (rows : List DetailRow) (s : TimeseriesSeries)
    : Type 0 where
  pub increasing : IsIncreasing s.points
  pub points : (t : Time) → point_at t s.points ≡ summed fl tops s.group t rows none

module _ (fl : Floats) (tops : List Str) (rows : List DetailRow) (ordered : IsOrdered rows) where
  filled :
      (g : Str)
      → IsSummed fl tops rows (record { group = g; points = fill fl tops rows (λ g. []) g })
  filled g =
      let (increasing, points) =
        fill_lem fl tops rows (λ g. []) g ordered tt (nothing-IsBehind fl rows) in
      record { increasing = increasing; points = points }

  row_shown :
      (r : DetailRow)
      → In r rows
      → (s : TimeseriesSeries) × In s (series_of fl tops rows)
        × (s.group ≡ series_name tops r.group)
  unfolding series_of
  row_shown r h =
      let g = series_name tops r.group in
      let (q, shown) = summed-In fl tops r rows none h in
      (
        record { group = g; points = fill fl tops rows (λ g. []) g },
        with_points-In (fill fl tops rows (λ g. [])) g _ (series_name-In tops r.group)
            (point_at-is_empty r.ts _ q ((filled g).points r.ts ∙ shown)),
        refl,
      )

-- Where both queries of a split time series are answered, the second in the order of the times, the
-- result has at most one series more than there are top groups. The times in a series increase; the
-- point at a time has the costs of the rows of its series and time, added up in their order, and their
-- requests, added up modulo 2 ^ 64, and there is none without such a row. And the series that a row belongs to, its own if its group is
-- one of the top ones and else `_other`, is among the result.
pub split_series-IsSummed :
    (fl : Floats) (top detail : Option Rows) (tops : List Str) (rows : List DetailRow)
    → collect_unchecked scan_top top ≡ some tops
    → collect scan_detail detail ≡ some rows
    → IsOrdered rows
    → (result : List TimeseriesSeries) × (split_series fl top detail ≡ some result)
      × (length result ≤ length tops + 1)
      × All (IsSummed fl tops rows) result
      × ((r : DetailRow)
          → In r rows
          → (s : TimeseriesSeries) × In s result × (s.group ≡ series_name tops r.group))
unfolding split_series series_of
split_series-IsSummed fl top detail tops rows e f ordered = (
  series_of fl tops rows,
  rw (e, f) refl,
  omega (
    arith,
    length-with_points (fill fl tops rows (λ g. [])) (tops ++ lit "_other" ∷ []),
    length-append tops (lit "_other" ∷ []),
  ),
  with_points-All (fill fl tops rows (λ g. [])) (IsSummed fl tops rows) _
      (filled fl tops rows ordered),
  row_shown fl tops rows ordered,
)
