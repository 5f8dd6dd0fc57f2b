-- ===== src/Middleware/Requests.antt =====
-- server/internal/middleware: the address of the caller, and the origins that may call.
use promptmeter.Prelude.{
  ℕ, Bool, true, false, Option, none, some, List, [], ◌∷◌, Str, lit, str_eq, is_empty, any, ◌==◌,
  if◌then◌else◌,
}

-- What stands before the first comma.
unfoldable pub before_comma : Str → Str
before_comma [] = []
before_comma (c ∷ s) = let rest = before_comma s in if c == b',' then [] else c ∷ rest

abbrev last_of : ℕ → Str → Option Str → Option Str
last_of c s none = if c == b':' then some [] else none
last_of c s (some rest) = some (c ∷ rest)

-- addr[:strings.LastIndex(addr, ":")], `none` without a colon
unfoldable pub before_last_colon : Str → Option Str
before_last_colon [] = none
before_last_colon (c ∷ s) = last_of c s (before_last_colon s)

or_address : Str → Option Str → Str
or_address address none = address
or_address address (some host) = host

-- ClientIP, of the headers X-Forwarded-For and X-Real-Ip and the remote address. strings.TrimSpace is a
-- parameter.
unfoldable pub client_ip : (Str → Str) → Str → Str → Str → Str
unfolding before_comma before_last_colon or_address
client_ip trim forwarded real address =
    if is_empty forwarded
    then (if is_empty real then or_address address (before_last_colon address) else real)
    else trim (before_comma forwarded)

-- What CORSMiddleware adds to a response: the origin that is allowed.
pub record CorsReply : Type 0 where
  pub allow_origin : Option Str
  -- whether the next handler is called; if not, the answer is 204
  pub passed : Bool

-- originSet[origin], of the list in the configuration, split at its commas
unfoldable pub is_allowed : (Str → Str) → List Str → Str → Bool
unfolding str_eq
is_allowed trim origins origin = any (λ o. str_eq (trim o) origin) origins

-- CORSMiddleware
unfoldable pub cors : (Str → Str) → List Str → Str → Str → CorsReply
unfolding is_allowed
cors trim origins origin method = record {
  allow_origin = if is_allowed trim origins origin then some origin else none;
  passed = if str_eq method (lit "OPTIONS") then false else true;
}
