-- ===== src/Worker/Message/Handled.antt =====
-- What handling a message does to the worker's state.
use promptmeter.Prelude.{
  ℕ, ◌≤◌, ◌<◌, ◌≡◌, ◌⊎◌, inl, inr, refl, Bool, true, false, List, [], ◌∷◌, ◌++◌, ltb, ltb→lt,
  ltb_false→le, length, if◌then◌else◌, Bool-cases,
}
use promptmeter.Domain.Floats.{Floats}
use promptmeter.Domain.Time.{Time}
use promptmeter.Domain.Event.{Event, has_text}
use promptmeter.Domain.ObjectKey.{Calendar}
use promptmeter.Ingestion.Wire.{LlmEvent}
use promptmeter.Worker.BatchWriter.{Ack, add}
use promptmeter.Worker.Uploader.{queue_capacity, enqueue}
use promptmeter.Worker.Message.{Worker, prepare, handle_message}

queued :
    (text : Bool) (e : Event) (queue : List Event)
    → ((text ≡ true)
        × (length queue < queue_capacity)
        × ((if text then enqueue e queue else queue) ≡ queue ++ e ∷ []))
      ⊎ (((text ≡ false) ⊎ (queue_capacity ≤ length queue))
          × ((if text then enqueue e queue else queue) ≡ queue))
unfolding enqueue
queued false e queue = inr (inl refl, refl)
queued true e queue = elim (Bool-cases (ltb (length queue) queue_capacity)) [
  | inl room ↦ inl (refl, ltb→lt _ _ room, rw room refl)
  | inr full ↦ inr (inr (ltb_false→le _ _ full), rw full refl)
]

-- A message is buffered once, last, with its ack function; its event is queued for upload exactly if
-- it has a text and the queue has room; the price cache stays as it is.
pub handle_message_lem :
    (fl : Floats) (cal : Calendar) (sizeof : ℕ) (start now : Time) (pb : LlmEvent) (ack : Ack)
    (w : Worker)
    → let e = prepare fl cal w.price_cache pb in
      let w' = (handle_message fl cal sizeof start now pb ack w).1 in
      (w'.batch_writer.buffer ≡ w.batch_writer.buffer ++ e ∷ [])
      × (w'.batch_writer.ack_funcs ≡ w.batch_writer.ack_funcs ++ ack ∷ [])
      × (w'.price_cache ≡ w.price_cache)
      × (((has_text e ≡ true)
            × (length w.upload_queue < queue_capacity)
            × (w'.upload_queue ≡ w.upload_queue ++ e ∷ []))
          ⊎ (((has_text e ≡ false) ⊎ (queue_capacity ≤ length w.upload_queue))
              × (w'.upload_queue ≡ w.upload_queue)))
unfolding handle_message add
handle_message_lem fl cal sizeof start now pb ack w =
    let e = prepare fl cal w.price_cache pb in
    (refl, refl, refl, queued (has_text e) e w.upload_queue)
