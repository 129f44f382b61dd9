-- ===== src/View/Pick.antt =====
-- The choice of the wrapper that goes on (timestamp_compare_t of lib/view.h, operator++ of lib/view.cc).
use mathlib.Core.List.{Perm, perm_append_comm}
use mathlib.Core.List.Perm
use embag.Prelude.{
  ℕ, ◌+◌, ◌≡◌, refl, sym, ◌∙◌, subst, true, false, List, [], ◌∷◌, ◌++◌, arith, Bool-cases, inl, inr,
  All, All-append, All-split, All-map, length, append_assoc, length-append,
}
use embag.Bytes.{Bytes}
use embag.Result.{Result}
use embag.Time.{Time, before}
use embag.Bag.{Chunk}
use embag.Wrapper.{Wrapper}
use embag.Wrapper.Items.{Msg}
use embag.Wrapper.Messages.{current_msg, Future}
use embag.View.{is_later, pick_top}

-- Not earlier than a time.
abbrev pub NotBefore : Time → Msg → Type 0
NotBefore t m = before m.timestamp t ≡ false

-- No message is earlier than one in front of it.
abbrev pub InOrder : List Msg → Type 0
InOrder [] = Unit
InOrder (m ∷ ms) = All (NotBefore m.timestamp) ms × InOrder ms

abbrev pub concat : List (List Msg) → List Msg
concat [] = []
concat (l ∷ ls) = l ++ concat ls

-- Not later than what is not later than a message.
NotBefore-trans : (a b : Time) (m : Msg) → before b a ≡ false → NotBefore b m → NotBefore a m
unfolding before
NotBefore-trans a b m h k = ground arith

is_later-before : (w x : Wrapper) → is_later w x ≡ before x.current_timestamp w.current_timestamp
unfolding is_later before
is_later-before w x = ground arith

before-asym : (a b : Time) → before a b ≡ true → before b a ≡ false
unfolding before
before-asym a b h = ground arith

before_irrefl : (a : Time) → before a a ≡ false
unfolding before
before_irrefl a = ground arith

pub perm_swap_front : (a b c : List Msg) → Perm (a ++ (b ++ c)) (b ++ (a ++ c))
perm_swap_front a b c =
    subst (λ (l : List Msg). Perm l (b ++ (a ++ c))) (append_assoc a b c)
      (subst (λ (l : List Msg). Perm ((a ++ b) ++ c) l) (append_assoc b a c)
        (Perm.append_right c (perm_append_comm a b)))

module _ (decompress : Chunk → Result Bytes) where
  -- A wrapper stands at the first message of a list, with the others ahead.
  abbrev pub Stands : Wrapper → List Msg → Type 0
  Stands w l =
      (ids : List ℕ) × (ms : List Msg) × (l ≡ current_msg w ∷ ms) × Future decompress ids w ms

  -- Each wrapper of the queue stands at the first message of its list.
  abbrev pub Holds : List Wrapper → List (List Msg) → Type 0
  Holds [] [] = Unit
  Holds [] (l ∷ ls) = ⊥
  Holds (w ∷ ws) [] = ⊥
  Holds (w ∷ ws) (l ∷ ls) = Stands w l × Holds ws ls

  Stands-NotBefore :
      (w : Wrapper) (l : List Msg) → Stands w l → InOrder l → All (NotBefore w.current_timestamp) l
  Stands-NotBefore w l (ids, ms, e, f) o =
      subst (All (NotBefore w.current_timestamp)) (sym e)
        (before_irrefl w.current_timestamp, (subst InOrder e o).0)

  -- What the choice of the top and the lists after it have to do with those before it.
  pub record Picked (w top : Wrapper) (rest : List Wrapper) (l : List Msg) (ls : List (List Msg))
      : Type 0 where
    pub first : List Msg
    pub others : List (List Msg)
    pub stands : Stands top first
    pub holds : Holds rest others
    pub same : Perm (first ++ concat others) (l ++ concat ls)
    pub size : length (first ++ concat others) ≡ length (l ++ concat ls)
    pub not_later : before w.current_timestamp top.current_timestamp ≡ false
    pub bound :
        (t : Time) → All (NotBefore t) (l ++ concat ls) → All (NotBefore t) (first ++ concat others)
    pub ordered :
        InOrder l
        → All InOrder ls
        → InOrder first
          × All InOrder others
          × All (NotBefore top.current_timestamp) (first ++ concat others)

  -- The choice between w and the next wrapper: `wn` goes on, with its list wl, and `lo` stays.
  record Duel (w wn lo : Wrapper) (l k wl ll : List Msg) : Type 0 where
    lost : Stands lo ll
    winner_not_later : before lo.current_timestamp wn.current_timestamp ≡ false
    first_not_later : before w.current_timestamp wn.current_timestamp ≡ false
    same_lists : (ms : List Msg) → Perm (wl ++ (ll ++ ms)) (l ++ (k ++ ms))
    same_size : length wl + length ll ≡ length l + length k
    parts :
        (t : Time)
        → All (NotBefore t) l
        → All (NotBefore t) k
        → All (NotBefore t) wl × All (NotBefore t) ll
    sorted : InOrder l → InOrder k → InOrder wl × InOrder ll

  Duel-Picked :
      (w wn lo top : Wrapper) (rest : List Wrapper) (l k wl ll : List Msg) (ks : List (List Msg))
      → Duel w wn lo l k wl ll
      → Picked wn top rest wl ks
      → Picked w top (lo ∷ rest) l (k ∷ ks)
  Duel-Picked w wn lo top rest l k wl ll ks d p =
      let toward_top = λ (m : Msg) (h : NotBefore wn.current_timestamp m).
        NotBefore-trans top.current_timestamp wn.current_timestamp m p.not_later h in
      record {
        first = p.first;
        others = ll ∷ p.others;
        stands = p.stands;
        holds = (d.lost, p.holds);
        same = Perm.trans (perm_swap_front p.first ll (concat p.others)) (
            Perm.trans (Perm.append_left ll p.same)
              (Perm.trans (perm_swap_front ll wl (concat ks)) (d.same_lists (concat ks))));
        size = omega (
          arith,
          p.size,
          d.same_size,
          length-append p.first (concat p.others),
          length-append p.first (ll ++ concat p.others),
          length-append ll (concat p.others),
          length-append wl (concat ks),
          length-append l (k ++ concat ks),
          length-append k (concat ks),
        );
        not_later =
            NotBefore-trans top.current_timestamp wn.current_timestamp (current_msg w) p.not_later
              d.first_not_later;
        bound = λ t h.
            let (hl, hk) = All-split (NotBefore t) l (k ++ concat ks) h in
            let (hk', hks) = All-split (NotBefore t) k (concat ks) hk in
            let (hwl, hll) = d.parts t hl hk' in
            let front = p.bound t (All-append (NotBefore t) wl (concat ks) hwl hks) in
            let (hf, ho) = All-split (NotBefore t) p.first (concat p.others) front in
            All-append (NotBefore t) p.first (ll ++ concat p.others) hf
              (All-append (NotBefore t) ll (concat p.others) hll ho);
        ordered = λ ol ols.
            let (owl, oll) = d.sorted ol ols.0 in
            let (of, oo, front) = p.ordered owl ols.1 in
            let (hf, ho) =
              All-split (NotBefore top.current_timestamp) p.first (concat p.others) front in
            let lost_later =
              All-map (NotBefore lo.current_timestamp) (NotBefore top.current_timestamp) ll
                (λ m h. toward_top m (
                  NotBefore-trans wn.current_timestamp lo.current_timestamp m d.winner_not_later h))
                (Stands-NotBefore lo ll d.lost oll) in
            (
              of,
              (oll, oo),
              All-append (NotBefore top.current_timestamp) p.first (ll ++ concat p.others) hf
                  (All-append (NotBefore top.current_timestamp) ll (concat p.others) lost_later ho),
            );
      }

  kept-Duel :
      (w x : Wrapper) (l k : List Msg) → is_later w x ≡ false → Stands x k → Duel w w x l k l k
  kept-Duel w x l k e s = record {
    lost = s;
    winner_not_later = sym (is_later-before w x) ∙ e;
    first_not_later = before_irrefl w.current_timestamp;
    same_lists = λ ms. Perm.refl (l ++ (k ++ ms));
    same_size = refl;
    parts = λ t hl hk. (hl, hk);
    sorted = λ ol ok'. (ol, ok');
  }

  changed-Duel :
      (w x : Wrapper) (l k : List Msg) → is_later w x ≡ true → Stands w l → Duel w x w l k k l
  changed-Duel w x l k e s =
      let earlier : before w.current_timestamp x.current_timestamp ≡ false =
        before-asym x.current_timestamp w.current_timestamp (sym (is_later-before w x) ∙ e) in
      record {
        lost = s;
        winner_not_later = earlier;
        first_not_later = earlier;
        same_lists = λ ms. perm_swap_front k l ms;
        same_size = omega arith;
        parts = λ t hl hk. (hk, hl);
        sorted = λ ol ok'. (ok', ol);
      }

  pub pick_top-Picked :
      (ws : List Wrapper) (w : Wrapper) (l : List Msg) (ls : List (List Msg))
      → Stands w l
      → Holds ws ls
      → Picked w (pick_top w ws).0 (pick_top w ws).1 l ls
  unfolding pick_top
  pick_top-Picked [] w l [] s h = record {
    first = l;
    others = [];
    stands = s;
    holds = tt;
    same = Perm.refl (l ++ []);
    size = refl;
    not_later = before_irrefl w.current_timestamp;
    bound = λ t h. h;
    ordered = λ ol _.
        (ol, tt, All-append (NotBefore w.current_timestamp) l [] (Stands-NotBefore w l s ol) tt);
  }
  pick_top-Picked [] w l (k ∷ ks) s h = absurd h
  pick_top-Picked (x ∷ xs) w l [] s h = absurd h
  pick_top-Picked (x ∷ xs) w l (k ∷ ks) s h = elim (Bool-cases (is_later w x)) [
    | inl e ↦ rw e (
        Duel-Picked w x w (pick_top x xs).0 (pick_top x xs).1 l k k l ks (changed-Duel w x l k e s)
          (pick_top-Picked xs x k ks h.0 h.1))
    | inr e ↦ rw e (
        Duel-Picked w w x (pick_top w xs).0 (pick_top w xs).1 l k l k ks (kept-Duel w x l k e h.0)
          (pick_top-Picked xs w l ks s h.1))
  ]
