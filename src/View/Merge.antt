-- ===== src/View/Merge.antt =====
-- The iterator of View (lib/view.cc) merges the messages of its bags in the order of time.
use mathlib.Core.List.{Perm, perm_append_comm}
use mathlib.Core.List.Perm
use embag.Prelude.{
  ℕ, zero, suc, ◌+◌, ◌≤◌, ◌≡◌, refl, sym, ap, ◌∙◌, subst, List, [], ◌∷◌, ◌++◌, arith, All,
  All-append, All-split, length, append_assoc, append-nil, length-append,
}
use embag.Bytes.{Bytes}
use embag.Result.{Result, ok, err, ◌>>=◌, stuck}
use embag.Time.{Time}
use embag.Bag.{Chunk}
use embag.Wrapper.{Wrapper}
use embag.Wrapper.Items.{Msg}
use embag.Wrapper.Messages.{current_msg, Future, read_message-Reads}
use embag.View.{pick_top, read_and_push, advance}
use embag.View.Pick.{NotBefore, InOrder, concat, Stands, Holds, pick_top-Picked}

-- for (message : view): the messages until the queue is as empty as that of the end iterator.
pub iterate : (Chunk → Result Bytes) → ℕ → List Wrapper → Result (List Msg)
iterate decompress fuel [] = ok []
iterate decompress zero (w ∷ ws) = err stuck
iterate decompress (suc fuel) (w ∷ ws) = do
  queue ← advance decompress (w ∷ ws)
  rest ← iterate decompress fuel queue
  ok (current_msg (pick_top w ws).0 ∷ rest)

concat-snoc : (ls : List (List Msg)) (l : List Msg) → concat (ls ++ (l ∷ [])) ≡ concat ls ++ l
concat-snoc [] l = append-nil l
concat-snoc (k ∷ ks) l = ap (◌++◌ k) (concat-snoc ks l) ∙ sym (append_assoc k (concat ks) l)

front_split :
    (t : Time) {first ms : List Msg} {m : Msg} (others : List Msg)
    → first ≡ m ∷ ms
    → All (NotBefore t) (first ++ others)
    → All (NotBefore t) (m ∷ ms) × All (NotBefore t) others
front_split t {first = first} others e h =
    let (hf, ho) = All-split (NotBefore t) first others h in (subst (All (NotBefore t)) e hf, ho)

module _ (decompress : Chunk → Result Bytes) where
  Holds-append :
      (ws : List Wrapper) (ls : List (List Msg)) (w : Wrapper) (l : List Msg)
      → Holds decompress ws ls
      → Stands decompress w l
      → Holds decompress (ws ++ (w ∷ [])) (ls ++ (l ∷ []))
  Holds-append [] [] w l h s = (s, tt)
  Holds-append [] (k ∷ ks) w l h s = absurd h
  Holds-append (x ∷ xs) [] w l h s = absurd h
  Holds-append (x ∷ xs) (k ∷ ks) w l h s = (h.0, Holds-append xs ks w l h.1 s)

  -- What a queue holds after a wrapper has read on.
  pub record Pushed (queue : Result (List Wrapper)) (ms : List Msg) (ls : List (List Msg))
      : Type 0 where
    pub after : List Wrapper
    pub lists : List (List Msg)
    pub pushed : queue ≡ ok after
    pub holding : Holds decompress after lists
    pub same : Perm (concat lists) (ms ++ concat ls)
    pub size : length (concat lists) ≡ length ms + length (concat ls)
    pub bound :
        (t : Time)
        → All (NotBefore t) ms
        → All (NotBefore t) (concat ls)
        → All (NotBefore t) (concat lists)
    pub sorted : InOrder ms → All InOrder ls → All InOrder lists

  pub read_and_push-Pushed :
      (w : Wrapper) (ws : List Wrapper) (ids : List ℕ) (ms : List Msg) (ls : List (List Msg))
      → Future decompress ids w ms
      → Holds decompress ws ls
      → Pushed (read_and_push decompress w ws) ms ls
  unfolding read_and_push
  read_and_push-Pushed w ws ids [] ls f h =
      let (w', e) = read_message-Reads decompress ids w [] f in
      record {
        after = ws;
        lists = ls;
        pushed = rw e;
        holding = h;
        same = Perm.refl (concat ls);
        size = omega arith;
        bound = λ t hm hl. hl;
        sorted = λ om ol. ol;
      }
  read_and_push-Pushed w ws ids (m ∷ ms) ls f h =
      let (w', e, em, f') = read_message-Reads decompress ids w (m ∷ ms) f in
      record {
        after = ws ++ (w' ∷ []);
        lists = ls ++ ((m ∷ ms) ∷ []);
        pushed = rw e;
        holding = Holds-append ws ls w' (m ∷ ms) h (ids, ms, ap (λ x. x ∷ ms) (sym em), f');
        same =
            subst (λ (z : List Msg). Perm z ((m ∷ ms) ++ concat ls)) (sym (concat-snoc ls (m ∷ ms)))
              (perm_append_comm (concat ls) (m ∷ ms));
        size =
            omega (arith, ap length (concat-snoc ls (m ∷ ms)), length-append (concat ls) (m ∷ ms));
        bound = λ t hm hl.
            subst (All (NotBefore t)) (sym (concat-snoc ls (m ∷ ms)))
              (All-append (NotBefore t) (concat ls) (m ∷ ms) hl hm);
        sorted = λ om ol. All-append InOrder ls ((m ∷ ms) ∷ []) ol (om, tt);
      }

  -- What the iteration over a queue gives.
  pub record Merged (run : Result (List Msg)) (ls : List (List Msg)) : Type 0 where
    pub output : List Msg
    pub returned : run ≡ ok output
    pub same : Perm output (concat ls)
    bound : (t : Time) → All (NotBefore t) (concat ls) → All (NotBefore t) output
    pub sorted : All InOrder ls → InOrder output

  pub iterate-Merged :
      (fuel : ℕ) (ws : List Wrapper) (ls : List (List Msg))
      → Holds decompress ws ls
      → length (concat ls) ≤ fuel
      → Merged (iterate decompress fuel ws) ls
  unfolding iterate advance
  iterate-Merged zero [] [] h hf = record {
    output = [];
    returned = refl;
    same = Perm.refl [];
    bound = λ t h. tt;
    sorted = λ _. tt;
  }
  iterate-Merged (suc fuel) [] [] h hf = record {
    output = [];
    returned = refl;
    same = Perm.refl [];
    bound = λ t h. tt;
    sorted = λ _. tt;
  }
  iterate-Merged fuel [] (l ∷ ls) h hf = absurd h
  iterate-Merged fuel (w ∷ ws) [] h hf = absurd h
  iterate-Merged zero (w ∷ ws) (l ∷ ls) ((ids, ms, e, f), hs) hf =
      absurd (omega (arith, length-append l (concat ls), ap length e))
  iterate-Merged (suc fuel) (w ∷ ws) (l ∷ ls) (s, hs) hf =
      let p = pick_top-Picked decompress ws w l ls s hs in
      let (ids, ms, e, f) = p.stands in
      let top = (pick_top w ws).0 in
      let q = read_and_push-Pushed top (pick_top w ws).1 ids ms p.others f p.holds in
      let r = iterate-Merged fuel q.after q.lists q.holding (
        omega (
          arith,
          p.size,
          q.size,
          ap length e,
          length-append p.first (concat p.others),
          length-append ms (concat p.others),
        )) in
      let whole : p.first ++ concat p.others ≡ current_msg top ∷ (ms ++ concat p.others) =
        ap (λ (x : List Msg). x ++ concat p.others) e in
      record {
        output = current_msg top ∷ r.output;
        returned = rw (q.pushed, r.returned);
        same =
            Perm.trans (Perm.cons (current_msg top) (Perm.trans r.same q.same))
              (subst (λ (x : List Msg). Perm x (l ++ concat ls)) whole p.same);
        bound = λ t h.
            let (hm, ho) = front_split t (concat p.others) e (p.bound t h) in
            (hm.0, r.bound t (q.bound t hm.1 ho));
        sorted = λ ho.
            let (of, oo, front) = p.ordered ho.0 ho.1 in
            let (hm, hs') = front_split top.current_timestamp (concat p.others) e front in
            (
              r.bound top.current_timestamp (q.bound top.current_timestamp hm.1 hs'),
              r.sorted (q.sorted (subst InOrder e of).1 oo),
            );
      }
