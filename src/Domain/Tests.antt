-- ===== src/Domain/Tests.antt =====
-- The properties of the domain types at concrete inputs.
use promptmeter.Prelude.{◌≡◌, refl, [], ◌∷◌, lit, arith, runes, hex_encode}
use promptmeter.Domain.Event.{Event}
use promptmeter.Domain.Decimal.{uint_to_str, value_of, value_of-uint_to_str}
use promptmeter.Domain.ObjectKey.{IsPlain, s3_object_key}
use promptmeter.Domain.ObjectKey.Distinct.{s3_object_key-injective}
use promptmeter.Domain.OrgId.{strip_dashes, big_endian, org_id_to_uint64}
use promptmeter.Domain.OrgId.RoundTrip.{org_id_to_uint64-hex_encode}
use promptmeter.Domain.Samples.{sample_calendar, sample_event}

value_of-uint_to_str_example : value_of (uint_to_str 1207) ≡ 1207
value_of-uint_to_str_example = value_of-uint_to_str 1207 (omega arith)

org_id_to_uint64-hex_encode_example :
    org_id_to_uint64 (lit "00000000-0000-0a12-89ab-0123456789ab")
    ≡ big_endian 0 (0 ∷ 0 ∷ 0 ∷ 0 ∷ 0 ∷ 0 ∷ 10 ∷ 18 ∷ [])
unfolding strip_dashes runes hex_encode
org_id_to_uint64-hex_encode_example =
    org_id_to_uint64-hex_encode (lit "00000000-0000-0a12-89ab-0123456789ab")
      (0 ∷ 0 ∷ 0 ∷ 0 ∷ 0 ∷ 0 ∷ 10 ∷ 18 ∷ []) (lit "89ab0123456789ab") refl
      (
        omega arith,
        (
          omega arith,
          (
            omega arith,
            (omega arith, (omega arith, (omega arith, (omega arith, (omega arith, tt))))),
          ),
        ),
      )
      refl

plain : IsPlain sample_calendar
plain = record {
  year_plain = λ t. (omega arith, (omega arith, (omega arith, (omega arith, tt))));
  month_plain = λ t. (omega arith, (omega arith, tt));
  day_plain = λ t. (omega arith, (omega arith, tt));
}

abbrev other_event : Event
other_event = record sample_event { prompt = [] }

s3_object_key-injective_example :
    (sample_event.org_id ≡ other_event.org_id)
    × (sample_calendar.year sample_event.timestamp ≡ sample_calendar.year other_event.timestamp)
    × (sample_calendar.month sample_event.timestamp ≡ sample_calendar.month other_event.timestamp)
    × (sample_calendar.day sample_event.timestamp ≡ sample_calendar.day other_event.timestamp)
    × (sample_event.event_id ≡ other_event.event_id)
unfolding s3_object_key
s3_object_key-injective_example =
    s3_object_key-injective sample_calendar sample_calendar sample_event other_event plain plain
      (omega arith) (omega arith) refl
