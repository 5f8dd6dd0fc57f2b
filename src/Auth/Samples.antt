-- ===== src/Auth/Samples.antt =====
-- Test data: a codec for the tokens of one set of claims.
use promptmeter.Prelude.{
  Str, [], ◌∷◌, ◌+◌, ◌-◌, ap, arith, lit, ltb, if◌then◌else◌, ◌≡◌, refl, some,
}
use promptmeter.Auth.Jwt.{JwtClaims, Codec, IsDotFree, IsCodec}

-- An encoding that leaves out the dot, and its inverse.
unfoldable pub undotted : Str → Str
undotted [] = []
undotted (c ∷ s) = (if ltb c 46 then c else c + 1) ∷ undotted s

unfoldable pub dotted : Str → Str
dotted [] = []
dotted (c ∷ s) = (if ltb c 46 then c else c - 1) ∷ dotted s

undotted-IsDotFree : (s : Str) → IsDotFree (undotted s)
unfolding undotted
undotted-IsDotFree [] = tt
undotted-IsDotFree (c ∷ s) = ((λ e. absurd (ground (arith, e))), undotted-IsDotFree s)

dotted-undotted : (s : Str) → dotted (undotted s) ≡ s
unfolding dotted undotted
dotted-undotted [] = refl
dotted-undotted (c ∷ s) = ground (arith, dotted-undotted s)

-- The mac is the secret, and one text stands for one value.
abbrev pub held_codec : JwtClaims → Codec
held_codec claims = record {
  hmac = λ secret input. secret;
  encode64 = λ s. undotted s;
  decode64 = λ s. some (dotted s);
  marshal = λ c. some (lit "{}");
  unmarshal = λ s. some claims;
}

pub held_codec-IsCodec : (claims : JwtClaims) → IsCodec (held_codec claims)
held_codec-IsCodec claims = record {
  dot_free = λ s. undotted-IsDotFree s;
  decoded = λ s. ap some (dotted-undotted s);
}
