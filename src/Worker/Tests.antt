-- ===== src/Worker/Tests.antt =====
-- The properties of the worker at concrete inputs.
use promptmeter.Prelude.{
  ℕ, ◌+◌, ◌≡◌, inl, inr, refl, Bool, false, some, List, [], ◌∷◌, lit, arith, count, In, ◌==◌,
  str_eq,
}
use promptmeter.Domain.Event.{Event}
use promptmeter.Domain.Samples.{sample_event, sample_floats}
use promptmeter.Worker.BatchWriter.{
  BatchWriter, ℤ, Batch, new_batch_writer, add, take_batch, put_back, ack_ids, flush,
  estimate_event_size,
}
use promptmeter.Worker.BatchWriter.Pipeline.{
  Pipeline, Reach, here, next, receive, begin, succeed, fail,
}
use promptmeter.Worker.BatchWriter.Entries.{events_of}
use promptmeter.Worker.BatchWriter.Flush.{IsValid, IsOutcome, flush-IsOutcome}
use promptmeter.Worker.BatchWriter.Delivery.{
  start, IsIdle, acked-In_stored, stored-count_received, drains,
}
use promptmeter.Worker.PriceCache.{
  ModelPrice, PriceCache, key_eq, event_key, price_of, calculate_cost,
}
use promptmeter.Worker.PriceCache.Latest.{with_key, IsCharged, refreshed, calculate_cost-IsCharged}

-- One event with its ack function in the buffer of a writer.
abbrev waiting : Pipeline
waiting = record (start (ℤ.pos 2) (ℤ.pos 5)) {
  writer = (add 300 10 11 sample_event (some 7) (new_batch_writer (ℤ.pos 2) (ℤ.pos 5))).0;
  received = (sample_event, some 7) ∷ [];
}

abbrev taken : Batch
taken = record { events = sample_event ∷ []; acks = some 7 ∷ [] }

-- It is put back by an insertion that has stored it and then fails, and is stored again.
abbrev emptied : BatchWriter
emptied = record (waiting.writer) { buffer = []; ack_funcs = []; mem_bytes = 0 }

abbrev flying : Pipeline
flying = record waiting { writer = emptied; in_flight = taken ∷ [] }

abbrev put : Pipeline
put = record waiting {
  writer = put_back 300 taken emptied;
  stored = sample_event ∷ [];
  strays = sample_event ∷ [];
}

abbrev flying_again : Pipeline
flying_again = record put {
  writer = record (put.writer) { buffer = []; ack_funcs = []; mem_bytes = 0 };
  in_flight = taken ∷ [];
}

abbrev done : Pipeline
done = record flying_again {
  in_flight = [];
  stored = sample_event ∷ sample_event ∷ [];
  acked = 7 ∷ [];
}

to_done : Reach 300 (start (ℤ.pos 2) (ℤ.pos 5)) done
unfolding add take_batch put_back ack_ids new_batch_writer
to_done =
    next
      (next
        (next
          (next (next here (receive _ 10 11 sample_event (some 7))) (begin _ taken emptied refl))
          (fail _ taken [] [] (sample_event ∷ []) refl (λ test. omega arith)))
        (begin _ taken _ refl))
      (succeed _ taken [] [] refl)

acked-In_stored_example : (e : Event) × In e done.stored × In (e, some 7) done.received
acked-In_stored_example = acked-In_stored 300 (ℤ.pos 2) (ℤ.pos 5) done 7 to_done (inl refl)

stored-count_received_example :
    count (λ e. e.org_id == 7) done.stored
    ≡ count (λ e. e.org_id == 7) (events_of done.received) + count (λ e. e.org_id == 7) done.strays
stored-count_received_example =
    stored-count_received 300 (ℤ.pos 2) (ℤ.pos 5) done (λ e. e.org_id == 7) to_done
      (record { buffer = refl; in_flight = refl })

drains_example : (q : Pipeline) × Reach 300 flying q × IsIdle q × (q.received ≡ flying.received)
drains_example = drains 300 flying

waiting-IsValid : IsValid 300 waiting.writer
unfolding new_batch_writer add estimate_event_size
waiting-IsValid = record { aligned = refl; measured = refl; sized = omega arith }

-- A store that refuses every insertion.
abbrev refusing : ℕ → List Event → Bool × ℕ
refusing s es = (false, s + 1)

flush-IsOutcome_example :
    IsValid 300 (flush refusing 300 waiting.writer 0).writer
    × IsOutcome refusing 300 waiting.writer false (flush refusing 300 waiting.writer 0)
    × ((flush refusing 300 waiting.writer 0).ok ≡ false)
    × ((flush refusing 300 waiting.writer 0).store ≡ 1)
unfolding add new_batch_writer
flush-IsOutcome_example = flush-IsOutcome refusing 300 waiting.writer 0 waiting-IsValid

-- Two prices of one model.
abbrev old_price : ModelPrice
old_price = record {
  id = lit "1";
  provider = lit "openai";
  model_name = lit "gpt";
  input_price_per_million = 5;
  output_price_per_million = 6;
  effective_from = 50;
  created_at = 0;
}

abbrev new_price : ModelPrice
new_price = record old_price { effective_from = 120; input_price_per_million = 7 }

abbrev two_prices : List ModelPrice
two_prices = new_price ∷ old_price ∷ []

abbrev no_prices : PriceCache
no_prices = record { prices = [] }

calculate_cost-IsCharged_example :
    (q : ModelPrice) × IsCharged 100 (with_key (event_key sample_event) two_prices) q
    × (calculate_cost sample_floats (refreshed two_prices no_prices) sample_event
        ≡ (price_of sample_floats q sample_event, sample_event))
unfolding key_eq str_eq
calculate_cost-IsCharged_example =
    calculate_cost-IsCharged sample_floats two_prices no_prices sample_event old_price
      ((omega arith, tt), (tt, tt)) (inr (inl refl)) (omega arith)
