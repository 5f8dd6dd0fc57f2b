-- ===== src/Domain/ObjectKey.antt =====
-- `S3ObjectKey` of server/internal/domain/event.go: where the text of an event is stored.
pub mod Distinct
use promptmeter.Prelude.{ℕ, ◌≢◌, ◌++◌, Str, lit, All}
use promptmeter.Domain.Time.{Time}
use promptmeter.Domain.Event.{Event}
use promptmeter.Domain.Decimal.{uint_to_str}

-- The layouts "2006", "01" and "02" of time.Time.Format, for times of one location. A time.Time carries
-- its location and is formatted in it; a Time here is the instant alone, so the calendar of the location
-- comes with it as a parameter.
pub record Calendar : Type 0 where
  pub year : Time → Str
  pub month : Time → Str
  pub day : Time → Str

abbrev pub IsSlashFree : Str → Type 0
IsSlashFree s = All (λ c. c ≢ b'/') s

-- The documentation of the layouts: digits, with no slash.
pub record IsPlain (cal : Calendar) : Type 0 where
  pub year_plain : (t : Time) → IsSlashFree (cal.year t)
  pub month_plain : (t : Time) → IsSlashFree (cal.month t)
  pub day_plain : (t : Time) → IsSlashFree (cal.day t)

-- S3ObjectKey, with the calendar of the location that e.Timestamp carries.
unfoldable pub s3_object_key : Calendar → Event → Str
s3_object_key cal e =
    let t = e.timestamp in
    lit "v1/"
    ++ (uint_to_str e.org_id
        ++ (lit "/"
            ++ (cal.year t
                ++ (lit "/"
                    ++ (cal.month t
                        ++ (lit "/" ++ (cal.day t ++ (lit "/" ++ (e.event_id ++ lit ".zst")))))))))
