-- ===== src/View/TimeRuns.antt =====
-- getStartTime and getEndTime over two bags.
use embag.Prelude.{false, none, ℕ, ◌≡◌, refl, [], ◌∷◌, All}
use embag.Bytes.{codes}
use embag.Result.{ok}
use embag.Bag.{empty_chunk_info, Bag, Chunk}
use embag.View.{View}
use embag.View.Times.{
  get_start_time, get_end_time, IsOneOf, largest_time, smallest_time, time_range,
}
use embag.Time
use embag.Time.{Time}

abbrev at_second : ℕ → Time
at_second s = record { secs = s; nsecs = 0 }

abbrev timed_chunk : ℕ → Chunk
timed_chunk s = record {
  offset = 4117;
  info = record empty_chunk_info { start_time = at_second s; end_time = at_second s };
  compression = codes "none";
  uncompressed_size = 0;
  chunk_record = record { header_len = 0; header = none; data_len = 0; content = none };
}

abbrev timed_bag : ℕ → ℕ → Bag
timed_bag from till = record {
  connections = [];
  topic_connection_map = [];
  chunk_infos = [];
  chunks = timed_chunk from ∷ timed_chunk till ∷ [];
  index_pos = 0;
}

abbrev timed_view : View
timed_view = record {
  bags =
      record { address = 100; bag = timed_bag 20 25 }
      ∷ record { address = 200; bag = timed_bag 10 15 }
      ∷ [];
  bag_wrappers = [];
}

time_range_example :
    ((r : Time) × (get_start_time timed_view ≡ ok r)
      × All (λ s. Time.before s r ≡ false) (at_second 20 ∷ at_second 10 ∷ [])
      × IsOneOf r (largest_time ∷ at_second 20 ∷ at_second 10 ∷ []))
    × ((r : Time) × (get_end_time timed_view ≡ ok r)
        × All (λ s. Time.before r s ≡ false) (at_second 25 ∷ at_second 15 ∷ [])
        × IsOneOf r (smallest_time ∷ at_second 25 ∷ at_second 15 ∷ []))
time_range_example =
    time_range timed_view (at_second 20 ∷ at_second 10 ∷ []) (at_second 25 ∷ at_second 15 ∷ [])
      ((timed_chunk 20, refl, refl), ((timed_chunk 10, refl, refl), tt))
      ((timed_chunk 25, refl, refl), ((timed_chunk 15, refl, refl), tt))
