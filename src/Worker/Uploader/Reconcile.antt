-- ===== src/Worker/Uploader/Reconcile.antt =====
-- What the reconciler leaves in the object store.
use mathlib.Core.Path.{subst}
use promptmeter.Prelude.{
  ◌≡◌, refl, ap, ◌∙◌, Bool, true, false, Option, some, List, [], ◌∷◌, Str, arith, In, inl, inr,
  str_eq, str_eq_refl, if◌then◌else◌, Bool-cases,
}
use promptmeter.Domain.Event.{Event, S3Status}
use promptmeter.Domain.ObjectKey.{Calendar, s3_object_key}
use promptmeter.Worker.Uploader.{
  Payload, PendingRow, Stores, scan_pending, payload_of, after_upload, upload_event, reconcile_rows,
  reconcile,
}

-- The object store as its clients see it: an upload that succeeds puts the payload under its key and
-- leaves every other key alone, and the event table is another store.
pub record IsObjectStore {S : Type 0} (st : Stores S) (object : S → Str → Option Payload)
    : Type 0 where
  pub put :
      (s : S) (k j : Str) (p : Payload)
      → (st.upload s k p).0 ≡ true
      → object (st.upload s k p).1 j ≡ (if str_eq k j then some p else object s j)
  pub apart :
      (s : S) (id : Str) (status : S3Status) (k j : Str)
      → object (st.update_status s id status k).1 j ≡ object s j

-- The object holds a payload with no text.
abbrev pub IsBlank : Option Payload → Type 0
IsBlank o = (p : Payload) × (o ≡ some p) × (p.prompt ≡ []) × (p.response ≡ [])

module _ {S : Type 0} (st : Stores S) (cal : Calendar) (object : S → Str → Option Payload)
    (laws : IsObjectStore st object)
    (up : (s : S) (k : Str) (p : Payload) → (st.upload s k p).0 ≡ true) where
  object-after_upload :
      (e : Event) (key : Str) (j : Str) (r : Bool × S)
      → object (after_upload st cal e key r).1 j ≡ object r.1 j
  unfolding after_upload
  object-after_upload e key j (false, s) = refl
  object-after_upload e key j (true, s) = elim (Bool-cases st.has_pending_store) [
    | inl present ↦ rw present (laws.apart s e.event_id S3Status.uploaded key j)
    | inr missing ↦ rw missing refl
  ]

  object-upload_event :
      (e : Event) (s : S) (j : Str)
      → object (upload_event st cal e s).1 j
        ≡ (if str_eq (s3_object_key cal e) j then some (payload_of e) else object s j)
  unfolding upload_event
  object-upload_event e s j =
      let key = s3_object_key cal e in
      object-after_upload e key j (st.upload s key (payload_of e))
      ∙ laws.put s key j (payload_of e) (up s key (payload_of e))

  scan_pending-IsBlank : (row : PendingRow) → IsBlank (some (payload_of (scan_pending row)))
  unfolding payload_of scan_pending
  scan_pending-IsBlank row = (payload_of (scan_pending row), refl, refl, refl)

  -- What is blank stays blank.
  keeps_IsBlank :
      (rows : List PendingRow) (s : S) (j : Str)
      → IsBlank (object s j)
      → IsBlank (object (reconcile_rows st cal rows s) j)
  unfolding reconcile_rows
  keeps_IsBlank [] s j h = h
  keeps_IsBlank (row ∷ rows) s j h =
      let e = scan_pending row in
      keeps_IsBlank rows (upload_event st cal e s).1 j
        (rw (object-upload_event e s j) (either (str_eq (s3_object_key cal e) j)))
    where
      either : (b : Bool) → IsBlank (if b then some (payload_of (scan_pending row)) else object s j)
      either true = scan_pending-IsBlank row
      either false = h

  blanks :
      (rows : List PendingRow) (s : S) (row : PendingRow)
      → In row rows
      → IsBlank (object (reconcile_rows st cal rows s) (s3_object_key cal (scan_pending row)))
  unfolding reconcile_rows
  blanks [] s row h = absurd h
  blanks (x ∷ rows) s row (inl same) =
      let key = s3_object_key cal (scan_pending row) in
      keeps_IsBlank rows (upload_event st cal (scan_pending x) s).1 key (
        rw
          (
            object-upload_event (scan_pending x) s key,
            ap (λ r. s3_object_key cal (scan_pending r)) same,
            str_eq_refl (s3_object_key cal (scan_pending x)),
          )
          (scan_pending-IsBlank x))
  blanks (x ∷ rows) s row (inr h) = blanks rows (upload_event st cal (scan_pending x) s).1 row h

reconcile_lem :
    {S : Type 0} (st : Stores S) (cal : Calendar) (s : S) (rows : List PendingRow)
    → st.has_pending_store ≡ true
    → st.pending s 100 ≡ some rows
    → reconcile st cal s ≡ reconcile_rows st cal rows s
unfolding reconcile
reconcile_lem st cal s rows present found = ground arith

-- The row is one of the event, and names the same day: `cal` is the calendar of the location in which
-- the driver gives the row's time, `own` that of the event's.
pub record IsRowOf (cal own : Calendar) (row : PendingRow) (e : Event) : Type 0 where
  pub org_id : row.org_id ≡ e.org_id
  pub event_id : row.event_id ≡ e.event_id
  pub year : cal.year row.timestamp ≡ own.year e.timestamp
  pub month : cal.month row.timestamp ≡ own.month e.timestamp
  pub day : cal.day row.timestamp ≡ own.day e.timestamp

IsRowOf-key :
    (cal own : Calendar) (row : PendingRow) (e : Event)
    → IsRowOf cal own row e
    → s3_object_key cal (scan_pending row) ≡ s3_object_key own e
unfolding s3_object_key scan_pending
IsRowOf-key cal own row e same =
    rw (same.org_id, same.event_id, same.year, same.month, same.day) refl

-- If every upload succeeds, then after a tick of the reconciler the object of each event that the
-- table reports as pending is a payload without prompt and response, whatever it was before, so also
-- where the text had been uploaded. The row must have the event's identifier as it was sent, and its
-- time, in the location in which the driver gives it, the same date as the event's in its own: then the
-- reconciler uses the key under which the worker stores the text.
pub reconcile-IsBlank :
    {S : Type 0} (st : Stores S) (cal own : Calendar) (object : S → Str → Option Payload) (s : S)
    (rows : List PendingRow) (row : PendingRow) (e : Event)
    → IsObjectStore st object
    → ((s : S) (k : Str) (p : Payload) → (st.upload s k p).0 ≡ true)
    → st.has_pending_store ≡ true
    → st.pending s 100 ≡ some rows
    → In row rows
    → IsRowOf cal own row e
    → IsBlank (object (reconcile st cal s) (s3_object_key own e))
reconcile-IsBlank st cal own object s rows row e laws up present found listed same =
    rw (reconcile_lem st cal s rows present found) (
      subst (λ k. IsBlank (object (reconcile_rows st cal rows s) k))
        (IsRowOf-key cal own row e same) (blanks st cal object laws up rows s row listed))
