-- ===== src/Dashboard/ApiKeys/Created.antt =====
-- A key that the dashboard creates is accepted by the ingestion API.
use promptmeter.Domain.ApiKey.{ApiKey}
use promptmeter.Domain.Time.{Time}
