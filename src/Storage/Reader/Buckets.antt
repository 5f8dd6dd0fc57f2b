-- ===== src/Storage/Reader/Buckets.antt =====
-- The bucketing of a split time series: each point is what the rows of its series and time add up to.
pub mod Split
use promptmeter.Prelude.{
  ℕ, ◌+◌, ◌%◌, ◌^◌, ◌≤◌, ◌<◌, ◌≡◌, refl, sym, ap, ◌∙◌, Bool, true, false, ◌&&◌, Option, none, some,
  List, [], ◌∷◌, ◌++◌, Str, lit, str_eq, str_eq_iff, str_eq_refl, any, is_empty, ◌==◌, ==_refl,
  if◌then◌else◌, arith, Bool-cases, inl, inr, All, In, length, length-append,
}
use promptmeter.Domain.Floats.{Floats}
use promptmeter.Domain.Time.{Time}
use promptmeter.Domain.Cost.{TimeseriesPoint, TimeseriesSeries}
use promptmeter.Storage.Reader.Timeseries.{
  DetailRow, SeriesMap, target_series, as_point, add_row, add_point, fill, with_points, series_of,
}

-- The rows come in the order of their times, as ORDER BY ts has them.
abbrev pub IsOrdered : List DetailRow → Type 0
IsOrdered [] = Unit
IsOrdered (r ∷ rs) = All (λ s. r.ts ≤ s.ts) rs × IsOrdered rs

abbrev pub IsIncreasing : List TimeseriesPoint → Type 0
IsIncreasing [] = Unit
IsIncreasing (p ∷ ps) = All (λ q. p.timestamp < q.timestamp) ps × IsIncreasing ps

abbrev pub point_at : Time → List TimeseriesPoint → Option TimeseriesPoint
point_at t [] = none
point_at t (p ∷ ps) = let later = point_at t ps in if p.timestamp == t then some p else later

-- The name of the series for a group: its own for one of the top groups.
abbrev pub series_name : List Str → Str → Str
series_name tops g = if any (λ t. str_eq t g) tops then g else lit "_other"

-- A row belongs to the point of a series at a time.
abbrev pub belongs : List Str → Str → Time → DetailRow → Bool
belongs tops g t r = str_eq (series_name tops r.group) g && (r.ts == t)

module _ (fl : Floats) where
  abbrev pub plus_row : Option TimeseriesPoint → DetailRow → TimeseriesPoint
  plus_row none r = record { timestamp = r.ts; cost_usd = r.cost; requests = r.requests }
  plus_row (some p) r = record {
    timestamp = p.timestamp;
    cost_usd = fl.add p.cost_usd r.cost;
    requests = (p.requests + r.requests) % 2 ^ 64;
  }

  -- The reference: the rows that belong to the point, added up in their order.
  abbrev pub summed :
      List Str → Str → Time → List DetailRow → Option TimeseriesPoint → Option TimeseriesPoint
  summed tops g t [] sum = sum
  summed tops g t (r ∷ rs) sum =
      summed tops g t rs (if belongs tops g t r then some (plus_row sum r) else sum)

  add_point-bound :
      (b : ℕ) (r : DetailRow) (ps : List TimeseriesPoint)
      → All (λ p. p.timestamp ≤ b) ps
      → r.ts ≤ b
      → All (λ p. p.timestamp ≤ b) (add_point fl r ps)
  unfolding add_point
  add_point-bound b r [] h k = (k, tt)
  add_point-bound b r (p ∷ []) h k = elim (Bool-cases (p.timestamp == r.ts)) [
    | inl e ↦ rw e (h.0, tt)
    | inr e ↦ rw e (h.0, (k, tt))
  ]
  add_point-bound b r (p ∷ q ∷ ps) h k = (h.0, add_point-bound b r (q ∷ ps) h.1 k)

  add_point-above :
      (b : ℕ) (r : DetailRow) (ps : List TimeseriesPoint)
      → All (λ p. b < p.timestamp) ps
      → b < r.ts
      → All (λ p. b < p.timestamp) (add_point fl r ps)
  unfolding add_point
  add_point-above b r [] h k = (k, tt)
  add_point-above b r (p ∷ []) h k = elim (Bool-cases (p.timestamp == r.ts)) [
    | inl e ↦ rw e (h.0, tt)
    | inr e ↦ rw e (h.0, (k, tt))
  ]
  add_point-above b r (p ∷ q ∷ ps) h k = (h.0, add_point-above b r (q ∷ ps) h.1 k)

  add_point-IsIncreasing :
      (r : DetailRow) (ps : List TimeseriesPoint)
      → IsIncreasing ps
      → All (λ p. p.timestamp ≤ r.ts) ps
      → IsIncreasing (add_point fl r ps)
  unfolding add_point
  add_point-IsIncreasing r [] h k = (tt, tt)
  add_point-IsIncreasing r (p ∷ []) h k = elim (Bool-cases (p.timestamp == r.ts)) [
    | inl e ↦ rw e (tt, tt)
    | inr e ↦ rw e ((ground (arith, k.0), tt), (tt, tt))
  ]
  add_point-IsIncreasing r (p ∷ q ∷ ps) h k = (
    add_point-above p.timestamp r (q ∷ ps) h.0 (omega (arith, h.0.0, k.1.0)),
    add_point-IsIncreasing r (q ∷ ps) h.1 k.1,
  )

  point_at-add_point :
      (t : Time) (r : DetailRow) (ps : List TimeseriesPoint)
      → IsIncreasing ps
      → All (λ p. p.timestamp ≤ r.ts) ps
      → point_at t (add_point fl r ps)
        ≡ (if r.ts == t then some (plus_row (point_at t ps) r) else point_at t ps)
  unfolding add_point
  point_at-add_point t r [] h k = refl
  point_at-add_point t r (p ∷ []) h k = ground arith
  point_at-add_point t r (p ∷ q ∷ ps) h k =
      ground (arith, point_at-add_point t r (q ∷ ps) h.1 k.1, h.0.0, k.1.0)

  -- No point of the series is later than one of the rows that are still to come.
  abbrev IsBehind : List DetailRow → List TimeseriesPoint → Type 0
  IsBehind rs ps = All (λ r. All (λ p. p.timestamp ≤ r.ts) ps) rs

  pub nothing-IsBehind : (rs : List DetailRow) → IsBehind rs []
  nothing-IsBehind [] = tt
  nothing-IsBehind (r ∷ rs) = (tt, nothing-IsBehind rs)

  add_point-IsBehind :
      (r : DetailRow) (rs : List DetailRow) (ps : List TimeseriesPoint)
      → All (λ s. r.ts ≤ s.ts) rs
      → IsBehind rs ps
      → IsBehind rs (add_point fl r ps)
  add_point-IsBehind r [] ps h k = tt
  add_point-IsBehind r (s ∷ rs) ps h k =
      (add_point-bound s.ts r ps k.0 h.0, add_point-IsBehind r rs ps h.1 k.1)

  abbrev stepped : List Str → DetailRow → SeriesMap → SeriesMap
  stepped tops r m g = if str_eq (target_series tops r.group) g then add_point fl r (m g) else m g

  pub fill_lem :
      (tops : List Str) (rs : List DetailRow) (m : SeriesMap) (g : Str)
      → IsOrdered rs
      → IsIncreasing (m g)
      → IsBehind rs (m g)
      → IsIncreasing (fill fl tops rs m g)
        × ((t : Time) → point_at t (fill fl tops rs m g) ≡ summed tops g t rs (point_at t (m g)))
  unfolding fill target_series
  fill_lem tops [] m g o i b = (i, λ t. refl)
  fill_lem tops (r ∷ rs) m g o i b = elim (Bool-cases (str_eq (target_series tops r.group) g)) [
    | inl mine ↦
        let here : stepped tops r m g ≡ add_point fl r (m g) = rw mine refl in
        let (increasing, points) =
          fill_lem tops rs (stepped tops r m) g o.1 (rw here (add_point-IsIncreasing r (m g) i b.0))
            (rw here (add_point-IsBehind r rs (m g) o.0 b.1)) in
        (
          increasing,
          λ t.
              points t
              ∙ ap (summed tops g t rs)
                  (ap (point_at t) here ∙ point_at-add_point t r (m g) i b.0 ∙ rw mine refl),
        )
    | inr other ↦
        let here : stepped tops r m g ≡ m g = rw other refl in
        let (increasing, points) =
          fill_lem tops rs (stepped tops r m) g o.1 (rw here i) (rw here b.1) in
        (increasing, λ t. points t ∙ ap (summed tops g t rs) (ap (point_at t) here ∙ rw other refl))
  ]

  summed_started :
      (tops : List Str) (g : Str) (t : Time) (rs : List DetailRow) (p : TimeseriesPoint)
      → (q : TimeseriesPoint) × (summed tops g t rs (some p) ≡ some q)
  summed_started tops g t [] p = (p, refl)
  summed_started tops g t (r ∷ rs) p = elim (Bool-cases (belongs tops g t r)) [
    | inl e ↦ rw e (summed_started tops g t rs (plus_row (some p) r))
    | inr e ↦ rw e (summed_started tops g t rs p)
  ]

  -- A row has a share in its point.
  pub summed-In :
      (tops : List Str) (r : DetailRow) (rs : List DetailRow) (sum : Option TimeseriesPoint)
      → In r rs
      → (q : TimeseriesPoint) × (summed tops (series_name tops r.group) r.ts rs sum ≡ some q)
  summed-In tops r [] sum h = absurd h
  summed-In tops r (s ∷ rs) sum (inl same) =
      rw (sym same, str_eq_refl (series_name tops r.group), ==_refl r.ts)
        (summed_started tops (series_name tops r.group) r.ts rs (plus_row sum r))
  summed-In tops r (s ∷ rs) sum (inr later) = summed-In tops r rs _ later
