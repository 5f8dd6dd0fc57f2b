-- ===== src/Worker/InsertTests.antt =====
-- The insertion of accepted events, at a concrete input.
use promptmeter.Prelude.{ℕ, true, ◌&&◌, leb, Option, none, some, [], Str, if◌then◌else◌}
use promptmeter.Ingestion.Build.{build_proto_event}
use promptmeter.Ingestion.Samples.{sample_request, sample_parse}
use promptmeter.Storage.Events.{Insertion, in_columns}
use promptmeter.Worker.PriceCache.{PriceCache}
use promptmeter.Worker.Inserted.{Arrival}

abbrev no_prices : PriceCache
no_prices = record { prices = [] }

-- Texts stand for UUIDs.
abbrev read_uuid : Str → Option Str
read_uuid s = some s

-- A connection that works, for times up to 1000.
abbrev working : Insertion Str
working = record {
  prepares = true;
  appends = λ row.
      if leb row.timestamp 1000 && leb row.inserted_at 1000 then some (in_columns row) else none;
  sends = λ rows. (true, rows);
}

abbrev arrival : Arrival
arrival = (sample_request, build_proto_event sample_parse (λ s. s) 7 210 sample_request)

abbrev time_of : Option ℕ → ℕ
time_of none = 0
time_of (some t) = t
