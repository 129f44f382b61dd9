-- ===== src/View/Begin.antt =====
-- The iteration over a view: begin, then operator++ until end (lib/view.h, lib/view.cc).
use mathlib.Core.List.{Perm}
use mathlib.Core.List.Perm
use embag.Prelude.{
  ℕ, ◌+◌, ◌≤◌, ◌≡◌, refl, sym, subst, List, [], ◌∷◌, ◌++◌, arith, All, length, append_assoc,
  append-nil, none, length-append,
}
use embag.Bytes.{Bytes}
use embag.Result.{Result, ok, ◌>>=◌}
use embag.Bag.{Chunk}
use embag.Wrapper.{Wrapper}
use embag.Wrapper.Items.{Item, Msg}
use embag.Wrapper.Messages.{AreChunks, before, wanted_all}
use embag.View.{View, begin_queue, begin}
use embag.View.Pick.{InOrder, concat, Holds, perm_swap_front}
use embag.View.Merge.{iterate, read_and_push-Pushed, iterate-Merged}

-- for (message : view): the messages, one by one.
unfoldable pub read_all : (Chunk → Result Bytes) → ℕ → View → Result (List Msg)
unfolding begin
read_all decompress fuel v = do it ← begin decompress v; iterate decompress fuel it.msg_queue

module _ (decompress : Chunk → Result Bytes) where
  -- The wrappers of a view as getMessages leaves them: nothing is read, and the chunks hold records;
  -- the lists are their wanted messages.
  abbrev pub Start : List (ℕ × Wrapper) → List (List Msg) → Type 0
  Start [] [] = Unit
  Start [] (l ∷ ls) = ⊥
  Start (w ∷ ws) [] = ⊥
  Start ((a, w) ∷ ws) (l ∷ ls) =
      ((iss : List (List Item)) × (w.current_buffer ≡ none)
        × (w.processed_bytes ≡ 0)
        × AreChunks decompress w.chunks_to_parse iss
        × (l ≡ wanted_all w.connection_ids iss))
      × Start ws ls

  record Begun (queue : Result (List Wrapper)) (ls qs : List (List Msg)) : Type 0 where
    after : List Wrapper
    lists : List (List Msg)
    begun : queue ≡ ok after
    holding : Holds decompress after lists
    same : Perm (concat lists) (concat ls ++ concat qs)
    size : length (concat lists) ≡ length (concat ls) + length (concat qs)
    sorted : All InOrder ls → All InOrder qs → All InOrder lists

  begin_queue-Begun :
      (ws : List (ℕ × Wrapper)) (ls : List (List Msg)) (queue : List Wrapper) (qs : List (List Msg))
      → Start ws ls
      → Holds decompress queue qs
      → Begun (begin_queue decompress ws queue) ls qs
  unfolding begin_queue
  begin_queue-Begun [] [] queue qs s h = record {
    after = queue;
    lists = qs;
    begun = refl;
    holding = h;
    same = Perm.refl (concat qs);
    size = omega arith;
    sorted = λ _ o. o;
  }
  begin_queue-Begun [] (l ∷ ls) queue qs s h = absurd s
  begin_queue-Begun (w ∷ ws) [] queue qs s h = absurd s
  begin_queue-Begun ((a, w) ∷ ws) (l ∷ ls) queue qs ((iss, en, ep, hc, em), s) h =
      let w0 : Wrapper = record w { chunk_iter = w.chunks_to_parse } in
      let q =
        read_and_push-Pushed decompress w0 queue w.connection_ids l qs (before iss refl en ep hc em)
          h in
      let r = begin_queue-Begun ws ls q.after q.lists s q.holding in
      record {
        after = r.after;
        lists = r.lists;
        begun = rw (q.pushed) r.begun;
        holding = r.holding;
        same =
            subst (λ (z : List Msg). Perm (concat r.lists) z)
              (sym (append_assoc l (concat ls) (concat qs)))
              (Perm.trans r.same (
                Perm.trans (Perm.append_left (concat ls) q.same)
                  (perm_swap_front (concat ls) l (concat qs))));
        size = omega (arith, r.size, q.size, length-append l (concat ls));
        sorted = λ os oq. r.sorted os.1 (q.sorted os.0 oq);
      }

  -- For a view whose wrappers have not been read yet, over chunks that hold records of which the last
  -- has data, the iteration over several bags ends, with enough rounds for the messages, and gives
  -- just the wanted messages of the chunks of all bags, each as often as the chunks hold it; where
  -- the messages of each bag are stored in the order of time, no message comes after a later one.
  pub read_all-merges :
      (fuel : ℕ) (v : View) (ls : List (List Msg))
      → Start v.bag_wrappers ls
      → length (concat ls) ≤ fuel
      → (output : List Msg) × (read_all decompress fuel v ≡ ok output)
        × Perm output (concat ls)
        × (All InOrder ls → InOrder output)
  unfolding read_all begin
  read_all-merges fuel v ls s hf =
      let q = begin_queue-Begun v.bag_wrappers ls [] [] s tt in
      let m = iterate-Merged decompress fuel q.after q.lists q.holding (omega (arith, q.size)) in
      (
        m.output,
        rw (q.begun) m.returned,
        Perm.trans m.same
            (subst (λ (z : List Msg). Perm (concat q.lists) z) (append-nil (concat ls)) q.same),
        λ o. m.sorted (q.sorted o tt),
      )
