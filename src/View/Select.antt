-- ===== src/View/Select.antt =====
-- View::getMessages for topics (lib/view.cc) on valid bags.
use embag.Prelude.{
  ℕ, zero, suc, ◌<◌, ◌≡◌, refl, Option, none, some, List, [], ◌∷◌, arith, ltb, ◌==◌, length,
  get_elem?, All, get_elem?-All, Bool-cases, inl, inr,
}
use embag.Bytes.{Bytes}
use embag.Result.{ok}
use embag.Assoc.{find, find-All}
use embag.Bag.{Bag, Chunk, pointers_or_empty}
use embag.Bag.Valid.{TopicPointers, BlockPointers}
use embag.Reader.Invariant.{IsValid}
use embag.Topics.Cache.{lt-get_elem?}
use embag.Wrapper.{Wrapper}
use embag.View.{
  View, BagPointer, insert_chunk, insert_id, new_wrapper, put_wrapper, Selection, select_blocks,
  select_connections, select_topics, wrap_topics, get_messages_of,
}

-- The order of a set of chunks: by offset, each offset once.
abbrev pub IsChunkSet : List Chunk → Type 0
IsChunkSet [] = Unit
IsChunkSet (c ∷ cs) = All (λ d. c.offset < d.offset) cs × IsChunkSet cs

-- A wrapper of which nothing is read.
abbrev pub IsUnread : Wrapper → Type 0
IsUnread w = (w.current_buffer ≡ none) × (w.processed_bytes ≡ 0) × IsChunkSet w.chunks_to_parse

insert_chunk-All :
    (P : Chunk → Type 0) (c : Chunk) (cs : List Chunk) → P c → All P cs → All P (insert_chunk c cs)
unfolding insert_chunk
insert_chunk-All P c [] hc h = (hc, tt)
insert_chunk-All P c (d ∷ ds) hc h = elim (Bool-cases (ltb c.offset d.offset)) [
  | inl e ↦ rw e (hc, h)
  | inr e ↦ elim (Bool-cases (ltb d.offset c.offset)) [
    | inl e' ↦ rw (e, e') (h.0, insert_chunk-All P c ds hc h.1)
    | inr e' ↦ rw (e, e') h
  ]
]

below-All :
    (c d : Chunk) (ds : List Chunk)
    → c.offset < d.offset
    → All (λ x. d.offset < x.offset) ds
    → All (λ x. c.offset < x.offset) ds
below-All c d [] h k = tt
below-All c d (x ∷ ds) h k = (omega (arith, k.0), below-All c d ds h k.1)

insert_chunk-IsChunkSet :
    (c : Chunk) (cs : List Chunk) → IsChunkSet cs → IsChunkSet (insert_chunk c cs)
unfolding insert_chunk
insert_chunk-IsChunkSet c [] h = (tt, tt)
insert_chunk-IsChunkSet c (d ∷ ds) h = elim (Bool-cases (ltb c.offset d.offset)) [
  | inl e ↦
      let lt : c.offset < d.offset = ground (arith, e) in rw e ((lt, below-All c d ds lt h.0), h)
  | inr e ↦ elim (Bool-cases (ltb d.offset c.offset)) [
    | inl e' ↦
        let lt : d.offset < c.offset = ground (arith, e') in
        rw (e, e')
          (
            insert_chunk-All (λ x. d.offset < x.offset) c ds lt h.0,
            insert_chunk-IsChunkSet c ds h.1,
          )
    | inr e' ↦ rw (e, e') h
  ]
]

lt-chunk : (xs : List Chunk) (i : ℕ) → i < length xs → (c : Chunk) × (get_elem? xs i ≡ some c)
lt-chunk [] i h = absurd (omega arith)
lt-chunk (x ∷ xs) zero h = (x, refl)
lt-chunk (x ∷ xs) (suc i) h = lt-chunk xs i (omega arith)

module _ (bag : Bag) (v : IsValid bag) where
  select_blocks-returns :
      (bs : List ℕ) (s : List Chunk)
      → All (λ b. b < length bag.chunks) bs
      → IsChunkSet s
      → (s' : List Chunk) × (select_blocks bag bs s ≡ ok s') × IsChunkSet s'
  unfolding select_blocks
  select_blocks-returns [] s h hs = (s, refl, hs)
  select_blocks-returns (b ∷ bs) s h hs =
      let (c, ec) = lt-chunk bag.chunks b h.0 in
      let (s', e, hs') =
        select_blocks-returns bs (insert_chunk c s) h.1 (insert_chunk-IsChunkSet c s hs) in
      (s', rw ec e, hs')

  select_connections-returns :
      (is : List ℕ) (s : Selection)
      → All (λ i. i < length bag.connections) is
      → IsChunkSet s.chunks
      → (s' : Selection) × (select_connections bag is s ≡ ok s') × IsChunkSet s'.chunks
  unfolding select_connections
  select_connections-returns [] s h hs = (s, refl, hs)
  select_connections-returns (i ∷ is) s h hs =
      let (c, ec) = lt-get_elem? bag.connections i h.0 in
      let (cs, ecs, hcs) =
        select_blocks-returns c.blocks s.chunks
          (get_elem?-All (BlockPointers (length bag.chunks)) bag.connections i v.blocks ec) hs in
      let (s', e, hs') =
        select_connections-returns is (record { chunks = cs; ids = insert_id c.id s.ids }) h.1
          hcs in
      (s', rw (ec, ecs) e, hs')

  pointers-in :
      (o : Option (List ℕ)) (topic : Bytes)
      → find topic bag.topic_connection_map ≡ o
      → All (λ i. i < length bag.connections) (pointers_or_empty o)
  pointers-in none topic e = tt
  pointers-in (some is) topic e =
      (find-All (TopicPointers (length bag.connections)) topic bag.topic_connection_map v.topics
        e).1

  select_topics-returns :
      (ts : List Bytes) (s : Selection)
      → IsChunkSet s.chunks
      → (s' : Selection) × (select_topics bag ts s ≡ ok s') × IsChunkSet s'.chunks
  unfolding select_topics
  select_topics-returns [] s hs = (s, refl, hs)
  select_topics-returns (t ∷ ts) s hs =
      let (s1, e1, hs1) =
        select_connections-returns (pointers_or_empty (find t bag.topic_connection_map)) s
          (pointers-in _ t refl) hs in
      let (s', e, hs') = select_topics-returns ts s1 hs1 in (s', rw e1 e, hs')

put_wrapper-All :
    (a : ℕ) (w : Wrapper) (ws : List (ℕ × Wrapper))
    → IsUnread w
    → All (λ p. IsUnread p.1) ws
    → All (λ p. IsUnread p.1) (put_wrapper a w ws)
unfolding put_wrapper
put_wrapper-All a w [] hw h = (hw, tt)
put_wrapper-All a w ((b, x) ∷ ws) hw h = elim (Bool-cases (b == a)) [
  | inl e ↦ rw e (hw, h.1)
  | inr e ↦ rw e (h.0, put_wrapper-All a w ws hw h.1)
]

wrap_topics-returns :
    (topics : List Bytes) (bs : List BagPointer) (ws : List (ℕ × Wrapper))
    → All (λ b. IsValid b.bag) bs
    → All (λ p. IsUnread p.1) ws
    → (ws' : List (ℕ × Wrapper)) × (wrap_topics topics bs ws ≡ ok ws') × All (λ p. IsUnread p.1) ws'
unfolding wrap_topics
wrap_topics-returns topics [] ws h hw = (ws, refl, hw)
wrap_topics-returns topics (b ∷ bs) ws h hw =
    let (s, e, hs) = select_topics-returns b.bag h.0 topics (record { chunks = []; ids = [] }) tt in
    let (ws', e', hw') =
      wrap_topics-returns topics bs (put_wrapper b.address (new_wrapper b.bag s.chunks s.ids) ws)
        h.1
        (put_wrapper-All b.address (new_wrapper b.bag s.chunks s.ids) ws
          (unfold new_wrapper in (refl, refl, hs)) hw) in
    (ws', rw e e', hw')

-- On valid bags getMessages for topics never follows a pointer that leaves a vector, and gives
-- wrappers of which nothing is read, each with its chunks in the order of their offsets and each
-- offset once.
pub get_messages_of-IsUnread :
    (topics : List Bytes) (v : View)
    → All (λ b. IsValid b.bag) v.bags
    → (v' : View) × (get_messages_of topics v ≡ ok v')
      × (v'.bags ≡ v.bags)
      × All (λ p. IsUnread p.1) v'.bag_wrappers
unfolding get_messages_of
get_messages_of-IsUnread topics v h =
    let (ws, e, hw) = wrap_topics-returns topics v.bags [] h tt in
    (record v { bag_wrappers = ws }, rw e, refl, hw)
