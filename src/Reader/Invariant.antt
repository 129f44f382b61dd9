-- ===== src/Reader/Invariant.antt =====
-- What every bag satisfies that Bag::readRecords returns (lib/embag.cc).
use embag.Prelude.{
  ℕ, zero, suc, ◌+◌, ◌^◌, ◌%◌, ◌≡◌, refl, sym, ap, ◌∙◌, subst, List, [], ◌∷◌, map, arith, length,
  get_elem?, take, All, All-replicate, length-replicate, take-all,
}
use embag.Bytes.{codes}
use embag.Result.{
  Result, ok, ◌>>=◌, undefined, or_err, Ensures, >>=-Ensures, Ensures-trivial, Ensures-ok,
}
use embag.Header.{Header, get_u32, get_u64, get_time, get_string}
use embag.Stream.{Device, Stream, seek_to, read_record, read_header}
use embag.Bag.{
  Bag, ChunkInfo, Chunk, empty_connection, empty_chunk_info, add_connection, make_chunk_info,
  count_messages, make_chunk, push_chunk,
}
use embag.Bag.Valid.{
  Inv, Fresh, TopicPointers, BlockPointers, connection_messages, info_messages, fresh-counts,
  count_messages-Inv, push_chunk-Inv, add_connection-Fresh, store_info-Fresh,
}
use embag.Reader.{
  State, for_each, tell_offset, sized_bag, read_connection, read_chunk_info, read_index_data,
  read_chunk, read_records,
}

-- A step whose value nothing depends on.
skip {ℓ κ μ} :
    {A : Type ℓ} {B : Type κ} (Q : B → Type μ) (m : Result A) (f : A → Result B)
    → ((a : A) → Ensures Q (f a))
    → Ensures Q (m >>= f)
skip Q m f k = >>=-Ensures (λ _. Unit {0}) Q m f (Ensures-trivial m) λ a _. k a

for_each-Ensures {ℓ} :
    (P : ℕ → State → Type ℓ) (body : ℕ → State → Result State)
    → ((i : ℕ) (st : State) → P i st → Ensures (P (suc i)) (body i st))
    → (n i j : ℕ) (st : State) → i + n ≡ j
    → P i st
    → Ensures (P j) (for_each n i body st)
for_each-Ensures P body keep zero i j st e h =
    let same : i ≡ j = omega arith in subst (λ k. P k st) same h
for_each-Ensures P body keep (suc n) i j st e h =
    >>=-Ensures (P (suc i)) (P j) (body i st) (λ st'. for_each n (suc i) body st') (keep i st h)
      λ st' h'. for_each-Ensures P body keep n (suc i) j st' (omega arith) h'

make_chunk_info-no_messages : (h : Header) → Ensures (λ i. i.message_count ≡ 0) (make_chunk_info h)
unfolding make_chunk_info
make_chunk_info-no_messages h =
    let Q : ChunkInfo → Type 0 = λ i. i.message_count ≡ 0 in
    skip Q (get_u32 (codes "ver") h) _ λ _. skip Q (get_u64 (codes "chunk_pos") h) _ λ _.
      skip Q (get_time (codes "start_time") h) _ λ _.
        skip Q (get_time (codes "end_time") h) _ λ _. skip Q (get_u32 (codes "count") h) _ λ _. refl

module _ (d : Device) (n k : ℕ) where
  abbrev FreshState : ℕ → State → Type 0
  FreshState i st = Fresh n k st.1

  abbrev InvState : ℕ → State → Type 0
  InvState i st = Inv n k i st.1

  read_connection-Fresh :
      (i : ℕ) (st : State) → FreshState i st → Ensures (FreshState (suc i)) (read_connection d i st)
  unfolding read_connection
  read_connection-Fresh i (s, bag) h =
      let Q : State → Type 0 = FreshState (suc i) in
      let r = (read_record d s).0 in
      skip Q (read_header r) _ λ hd. skip Q (get_u32 (codes "conn") hd) _ λ id.
        skip Q (get_string (codes "topic") hd) _ λ topic.
          >>=-Ensures (Fresh n k) Q (add_connection id topic r bag) _
            (add_connection-Fresh n k id topic r bag h) λ bag' h'. h'

  read_chunk_info-Fresh :
      (i : ℕ) (st : State) → FreshState i st → Ensures (FreshState (suc i)) (read_chunk_info d i st)
  unfolding read_chunk_info
  read_chunk_info-Fresh i (s, bag) h =
      let Q : State → Type 0 = FreshState (suc i) in
      skip Q (read_header (read_record d s).0) _ λ hd.
        >>=-Ensures (λ x. x.message_count ≡ 0) Q (make_chunk_info hd) _
          (make_chunk_info-no_messages hd) λ info hi. store_info-Fresh n k i info bag hi h

  read_index_data-Inv :
      (i j : ℕ) (st : State) → InvState i st → Ensures (InvState i) (read_index_data d i j st)
  unfolding read_index_data
  read_index_data-Inv i j (s, bag) h =
      let Q : State → Type 0 = InvState i in
      skip Q (read_header (read_record d s).0) _ λ hd. skip Q (get_u32 (codes "ver") hd) _ λ _.
        skip Q (get_u32 (codes "conn") hd) _ λ id.
          skip Q (get_u32 (codes "count") hd) _ λ msg_count.
            >>=-Ensures (Inv n k i) Q (count_messages i id msg_count bag) _
              (count_messages-Inv n k i id msg_count bag h) λ bag' h'. h'

  read_chunk-Inv :
      (i : ℕ) (st : State) → InvState i st → Ensures (InvState (suc i)) (read_chunk d i st)
  unfolding read_chunk
  read_chunk-Inv i (s, bag) h =
      let Q : State → Type 0 = InvState (suc i) in
      skip Q (or_err undefined (get_elem? bag.chunk_infos i)) _ λ info.
        let rs = read_record d (seek_to d info.chunk_pos s) in
        skip Q (read_header rs.0) _ λ hd. skip Q (make_chunk (tell_offset rs.1) rs.0 hd) _ λ chunk.
          >>=-Ensures (InvState i) Q
            (for_each info.connection_count 0 (read_index_data d i) (rs.1, bag)) _
            (for_each-Ensures (λ _. InvState i) (read_index_data d i) (read_index_data-Inv i)
              info.connection_count 0 info.connection_count (rs.1, bag) (omega arith) h)
            λ st' h'.
              >>=-Ensures (Inv n k (suc i)) Q (push_chunk i chunk st'.1) _
                (push_chunk-Inv n k i chunk st'.1 h') λ bag'' h''. h''

sized_bag-Fresh : (n k index_pos : ℕ) → Fresh n k (sized_bag n k index_pos)
unfolding sized_bag
sized_bag-Fresh n k index_pos =
    let cs = All-replicate (λ c. c.info.message_count ≡ 0) n empty_connection refl in
    let is = All-replicate (λ i. i.message_count ≡ 0) k empty_chunk_info refl in
    record {
      inv = record {
        connections_length = length-replicate n empty_connection;
        infos_length = length-replicate k empty_chunk_info;
        topics = tt;
        blocks = All-replicate (BlockPointers k) n empty_connection tt;
        stored = refl;
        counts = fresh-counts _ _ cs is;
      };
      no_messages = cs;
      no_info_messages = is;
    }

-- Each topic has a pointer, each of its pointers stands at a connection, each block of a connection
-- at a chunk; the chunks hold the chunk infos, in order; and the messages of all connections are
-- as many as those of all chunks, as uint32_t numbers.
pub record IsValid (bag : Bag) : Type 0 where
  pub topics : All (λ e. TopicPointers (length bag.connections) e.1) bag.topic_connection_map
  pub blocks : All (BlockPointers (length bag.chunks)) bag.connections
  pub stored : map (λ c. c.info) bag.chunks ≡ bag.chunk_infos
  pub counts :
      connection_messages bag.connections % 2 ^ 32
      ≡ info_messages (map (λ c. c.info) bag.chunks) % 2 ^ 32

length-infos : (cs : List Chunk) → length (map (λ c. c.info) cs) ≡ length cs
length-infos [] = refl
length-infos (c ∷ cs) = ap suc (length-infos cs)

Inv-IsValid : (n k : ℕ) (bag : Bag) → Inv n k k bag → IsValid bag
Inv-IsValid n k bag h =
    let all_stored : map (λ c. c.info) bag.chunks ≡ bag.chunk_infos =
      h.stored ∙ ap (λ j. take j bag.chunk_infos) (sym h.infos_length) ∙ take-all bag.chunk_infos in
    let as_many : k ≡ length bag.chunks =
      sym h.infos_length ∙ sym (ap length all_stored) ∙ length-infos bag.chunks in
    record {
      topics =
          subst (λ n. All (λ e. TopicPointers n e.1) bag.topic_connection_map)
            (sym h.connections_length) h.topics;
      blocks = subst (λ k. All (BlockPointers k) bag.connections) as_many h.blocks;
      stored = all_stored;
      counts = h.counts ∙ ap (λ is. info_messages is % 2 ^ 32) (sym all_stored);
    }

module _ (d : Device) where
  read_records-Ensures : (s : Stream) → Ensures IsValid (read_records d s)
  unfolding read_records
  read_records-Ensures s = skip IsValid (read_header (read_record d s).0) _ λ hd.
      skip IsValid (get_u32 (codes "conn_count") hd) _ λ n.
        skip IsValid (get_u32 (codes "chunk_count") hd) _ λ k.
          skip IsValid (get_u64 (codes "index_pos") hd) _ λ index_pos.
            >>=-Ensures (FreshState d n k n) IsValid (for_each n 0 (read_connection d) _) _
              (for_each-Ensures (FreshState d n k) (read_connection d) (read_connection-Fresh d n k)
                n 0 n _ (omega arith) (sized_bag-Fresh n k index_pos))
              λ st1 h1.
                >>=-Ensures (FreshState d n k k) IsValid (for_each k 0 (read_chunk_info d) st1) _
                  (for_each-Ensures (FreshState d n k) (read_chunk_info d)
                    (read_chunk_info-Fresh d n k) k 0 k st1 (omega arith) h1)
                  λ st2 h2.
                    >>=-Ensures (InvState d n k k) IsValid (for_each k 0 (read_chunk d) st2) _
                      (for_each-Ensures (InvState d n k) (read_chunk d) (read_chunk-Inv d n k) k 0 k
                        st2 (omega arith) h2.inv)
                      λ st3 h3. Inv-IsValid n k st3.1 h3

  -- A bag that readRecords returns is valid: no pointer that it keeps leaves the vectors, and the
  -- message counts of its connections and its chunks agree modulo 2^32.
  pub read_records-IsValid : (s : Stream) {bag : Bag} → read_records d s ≡ ok bag → IsValid bag
  read_records-IsValid s e = Ensures-ok IsValid (read_records d s) (read_records-Ensures s) e
