-- ===== src/Storage/AnswerCache.antt =====
-- The cache of the dashboard's answers: GetCached and SetCached of server/internal/storage/redis.go.
use promptmeter.Prelude.{Bool, true, false, Option, none, some, Str}
use promptmeter.Domain.Time.{Time, Duration}
use promptmeter.Storage.Redis.{Got, Cache}

-- The value, nil being `none`, and whether there was an error.
unfoldable pub got_cached : Got Str → Option Str × Bool
got_cached Got.failed = (none, true)
got_cached Got.missing = (none, false)
got_cached (Got.found v) = (some v, false)

module _ {S : Type 0} (c : Cache S Str) where
  unfoldable pub get_cached : S → Str → Time → Option Str × Bool
  unfolding got_cached
  get_cached s key now = got_cached (c.get s key now)

  -- False is an error.
  unfoldable pub set_cached : S → Str → Str → Time → Duration → Bool × S
  set_cached s key body now ttl = c.set s key body now ttl
