-- ===== src/Domain/ObjectKey/Distinct.antt =====
-- Events of different organizations, dates or identifiers are stored under different keys.
use mathlib.Core.List.{append_cancel_right}
use promptmeter.Prelude.{ℕ, ◌^◌, ◌<◌, ◌≡◌, refl, sym, ap, ◌∙◌, [], ◌∷◌, ◌++◌, arith, Str, lit, All}
use promptmeter.Domain.Event.{Event}
use promptmeter.Domain.Decimal.{
  uint_to_str, value_of, value_of-uint_to_str, IsDigit, uint_to_str-IsDigit,
}
use promptmeter.Domain.ObjectKey.{Calendar, IsSlashFree, IsPlain, s3_object_key}

-- A text cut at its first slash.
cut_slash :
    (a b r s : Str)
    → IsSlashFree a
    → IsSlashFree b
    → a ++ b'/' ∷ r ≡ b ++ b'/' ∷ s
    → (a ≡ b) × (r ≡ s)
cut_slash [] [] r s h k e = (refl, cc)
cut_slash [] (y ∷ b) r s h k e = absurd (k.0 (cc))
cut_slash (x ∷ a) [] r s h k e = absurd (h.0 (cc))
cut_slash (x ∷ a) (y ∷ b) r s h k e = let (p, q) = cut_slash a b r s h.1 k.1 (cc) in (cc, q)

digits-IsSlashFree : (s : Str) → All IsDigit s → IsSlashFree s
digits-IsSlashFree [] h = tt
digits-IsSlashFree (x ∷ s) h = (omega arith, digits-IsSlashFree s h.1)

uint_to_str-injective : (m n : ℕ) → m < 2 ^ 64 → n < 2 ^ 64 → uint_to_str m ≡ uint_to_str n → m ≡ n
uint_to_str-injective m n h k e =
    sym (value_of-uint_to_str m h) ∙ ap value_of e ∙ value_of-uint_to_str n k

-- If the formatted dates hold no slash, two events with one S3 key, whatever the locations of their
-- times, have the same organization, the same year, month and day, each in its own location, and the
-- same identifier.
pub s3_object_key-injective :
    (cal cal' : Calendar) (e f : Event)
    → IsPlain cal
    → IsPlain cal'
    → e.org_id < 2 ^ 64
    → f.org_id < 2 ^ 64
    → s3_object_key cal e ≡ s3_object_key cal' f
    → (e.org_id ≡ f.org_id)
      × (cal.year e.timestamp ≡ cal'.year f.timestamp)
      × (cal.month e.timestamp ≡ cal'.month f.timestamp)
      × (cal.day e.timestamp ≡ cal'.day f.timestamp)
      × (e.event_id ≡ f.event_id)
unfolding s3_object_key
s3_object_key-injective cal cal' e f plain plain' p q same =
    let org = uint_to_str e.org_id in
    let (o, r) =
      cut_slash (uint_to_str e.org_id) (uint_to_str f.org_id) _ _
        (digits-IsSlashFree _ (uint_to_str-IsDigit e.org_id))
        (digits-IsSlashFree _ (uint_to_str-IsDigit f.org_id)) (cc) in
    let (y, r') =
      cut_slash _ _ _ _ (plain.year_plain e.timestamp) (plain'.year_plain f.timestamp) r in
    let (m, r'') =
      cut_slash _ _ _ _ (plain.month_plain e.timestamp) (plain'.month_plain f.timestamp) r' in
    let (d, r''') =
      cut_slash _ _ _ _ (plain.day_plain e.timestamp) (plain'.day_plain f.timestamp) r'' in
    (
      uint_to_str-injective e.org_id f.org_id p q o,
      y,
      m,
      d,
      append_cancel_right e.event_id f.event_id (lit ".zst") r''',
    )
