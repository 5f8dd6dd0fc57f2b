-- ===== src/Storage/Events.antt =====
-- InsertEvents of server/internal/storage/clickhouse.go. The UUID parser and the connection are
-- parameters.
use promptmeter.Prelude.{
  ℕ, ◌*◌, ◌/◌, ◌≤◌, ◌≡◌, ◌%◌, ◌^◌, Bool, true, false, Option, none, some, List, [], ◌∷◌, ◌++◌, Str,
  is_empty, if◌then◌else◌,
}
use promptmeter.Domain.Floats.{Float64}
use promptmeter.Domain.Time.{Time}
use promptmeter.Domain.Tags.{TagMap}
use promptmeter.Domain.Event.{Event, S3Status}

-- A row of the table `events`.
pub record EventRow (Uuid : Type 0) : Type 0 where
  pub org_id : ℕ
  pub event_id : Uuid
  pub project_id : Str
  pub timestamp : Time
  pub inserted_at : Time
  pub model : Str
  pub provider : Str
  pub prompt_tokens : ℕ
  pub completion_tokens : ℕ
  pub total_tokens : ℕ
  pub cost_usd : Float64
  pub latency_ms : ℕ
  pub status_code : ℕ
  pub tags : Option TagMap
  pub prompt_hash : Str
  pub s3_key : Str
  pub s3_status : S3Status
  pub schema_version : ℕ

abbrev pub or_none : S3Status → S3Status
or_none S3Status.unset = S3Status.none
or_none s = s

-- What the connection does in one insertion: PrepareBatch, false if it fails; Append of a row, with the
-- row as its columns hold it, `none` if they do not; and Send, which says whether it succeeded and what
-- rows it has stored, in either case.
pub record Insertion (Uuid : Type 0) : Type 0 where
  pub prepares : Bool
  pub appends : EventRow Uuid → Option (EventRow Uuid)
  pub sends : List (EventRow Uuid) → Bool × List (EventRow Uuid)

-- The columns of type DateTime64(3) hold milliseconds.
abbrev pub to_millis : Time → Time
to_millis t = t / 1000000 * 1000000

abbrev pub in_columns : {Uuid : Type 0} → EventRow Uuid → EventRow Uuid
in_columns row = record row {
  timestamp = to_millis row.timestamp;
  inserted_at = to_millis row.inserted_at;
}

-- A connection that works: a Send that reports success has stored every row, and Append takes every
-- row whose times lie in the range of DateTime64(3), from `first` to `last`; it refuses others.
pub record IsWorking {Uuid : Type 0} (first last : Time) (c : Insertion Uuid) : Type 0 where
  pub prepared : c.prepares ≡ true
  pub appended :
      (row : EventRow Uuid)
      → first ≤ row.timestamp
      → row.timestamp ≤ last
      → first ≤ row.inserted_at
      → row.inserted_at ≤ last
      → c.appends row ≡ some (in_columns row)
  pub sent : (rows : List (EventRow Uuid)) → c.sends rows ≡ (true, rows)

module _ {Uuid : Type 0} (parse : Str → Option Uuid) where
  abbrev pub row_of : Time → Event → Uuid → EventRow Uuid
  row_of now e id = record {
    org_id = e.org_id;
    event_id = id;
    project_id = e.project_id;
    timestamp = e.timestamp;
    inserted_at = now;
    model = e.model;
    provider = e.provider;
    prompt_tokens = e.prompt_tokens;
    completion_tokens = e.completion_tokens;
    total_tokens = e.total_tokens;
    cost_usd = e.cost_usd;
    latency_ms = e.latency_ms;
    status_code = e.status_code % 2 ^ 16;
    tags = e.tags;
    prompt_hash = e.prompt_hash;
    s3_key = e.s3_key;
    s3_status = or_none e.s3_status;
    schema_version = e.schema_version % 2 ^ 8;
  }

  abbrev pub held_before :
      List (EventRow Uuid) → Option (EventRow Uuid) → Option (List (EventRow Uuid))
  held_before rows none = none
  held_before rows (some row) = some (row ∷ rows)

  abbrev pub appended :
      Insertion Uuid → EventRow Uuid → Option (List (EventRow Uuid)) → Option (List (EventRow Uuid))
  appended c row none = none
  appended c row (some rows) = held_before rows (c.appends row)

  abbrev pub parsed_row : Time → Event → Option Uuid → Option (EventRow Uuid)
  parsed_row now e none = none
  parsed_row now e (some id) = some (row_of now e id)

  abbrev pub with_row :
      Insertion Uuid
      → Option (EventRow Uuid)
      → Option (List (EventRow Uuid))
      → Option (List (EventRow Uuid))
  with_row c none rest = none
  with_row c (some row) rest = appended c row rest

  -- The loop over the events; an error ends it.
  unfoldable pub append_events : Insertion Uuid → Time → List Event → Option (List (EventRow Uuid))
  append_events c now [] = some []
  append_events c now (e ∷ es) =
      with_row c (parsed_row now e (parse e.event_id)) (append_events c now es)

  abbrev pub send :
      Insertion Uuid
      → List (EventRow Uuid)
      → Option (List (EventRow Uuid))
      → Bool × List (EventRow Uuid)
  send c table none = (false, table)
  send c table (some rows) = let (ok, kept) = c.sends rows in (ok, table ++ kept)

  -- InsertEvents on the rows of the table; false is an error.
  unfoldable pub insert_events :
      Insertion Uuid → Time → List Event → List (EventRow Uuid) → Bool × List (EventRow Uuid)
  unfolding append_events
  insert_events c now events table =
      if is_empty events
      then (true, table)
      else if c.prepares
      then send c table (append_events c now events)
      else (false, table)
