-- ===== src/MessageParser/Frames.antt =====
-- What the steps of MessageParser (lib/message_parser.cc) leave alone, and how the layouts that they
-- give are put together.
use embag.Prelude.{
  ℕ, suc, ◌+◌, ◌≤◌, ◌<◌, ◌≡◌, ◌≢◌, ◌∙◌, ◌⊎◌, inl, inr, some, List, arith, length, get_elem?,
}
use embag.Bytes.{Bytes}
use embag.Result.{Result, ok, err, ◌>>=◌}
use embag.Value.{RosValue}
use embag.MessageParser.{ParserState}
use embag.MessageParser.Layout.{
  Layout, leaf, packed, items, fields, Layouts, nil, cons, count, Shows, ShowsAll,
}

-- The same values at a position.
abbrev pub Same : List RosValue → List RosValue → ℕ → Type 0
Same vs vs' k = get_elem? vs' k ≡ get_elem? vs k

module _ (buffer : Bytes) (vs vs' : List RosValue) where
  mutual
    unfolding Shows

    Shows-frame :
        (t : Layout) (lo hi slot : ℕ)
        → Same vs vs' slot
        → ((k : ℕ) → lo ≤ k → k < hi → Same vs vs' k)
        → Shows buffer vs lo hi slot t
        → Shows buffer vs' lo hi slot t
    Shows-frame (leaf t o) lo hi slot s f (q, h) = (q, s ∙ h)
    Shows-frame (packed e o n) lo hi slot s f (q, h) = (q, s ∙ h)
    Shows-frame (items ts) lo hi slot s f (h, b, r) = (
      s ∙ h,
      b,
      ShowsAll-frame ts (lo + count ts) hi lo (λ k p q. f k p (omega arith))
          (λ k p q. f k (omega arith) q) r,
    )
    Shows-frame (fields m ts) lo hi slot s f (h, b, r) = (
      s ∙ h,
      b,
      ShowsAll-frame ts (lo + count ts) hi lo (λ k p q. f k p (omega arith))
          (λ k p q. f k (omega arith) q) r,
    )

    ShowsAll-frame :
        (ts : Layouts) (lo hi slot : ℕ)
        → ((k : ℕ) → slot ≤ k → k < slot + count ts → Same vs vs' k)
        → ((k : ℕ) → lo ≤ k → k < hi → Same vs vs' k)
        → ShowsAll buffer vs lo hi slot ts
        → ShowsAll buffer vs' lo hi slot ts
    ShowsAll-frame nil lo hi slot s f h = h
    ShowsAll-frame (cons t ts) lo hi slot s f (mid, a, b, h, r) = (
      mid,
      a,
      b,
      Shows-frame t lo mid slot (s slot (omega arith) (omega arith)) (λ k p q. f k p (omega arith))
          h,
      ShowsAll-frame ts mid hi (suc slot) (λ k p q. s k (omega arith) (omega arith))
          (λ k p q. f k (omega arith) q) r,
    )

module _ (buffer : Bytes) where
  -- After the value at q has its layout: all else is as before, and what is new stands behind.
  pub record After (q : ℕ) (st : ParserState) (t : Layout) (o : ℕ) (st' : ParserState)
      : Type 0 where
    pub moved : st'.buffer_offset ≡ o
    pub counted : st'.values_offset ≡ length st'.values
    pub grown : length st.values ≤ length st'.values
    pub kept : (k : ℕ) → k < length st.values → k ≢ q → Same st.values st'.values k
    pub shows : Shows buffer st'.values (length st.values) (length st'.values) q t

  -- After the values from c on have their layouts, where p holds w in the end.
  pub record AfterAll (p c n : ℕ) (w : RosValue) (st : ParserState) (ts : Layouts) (o : ℕ)
      (st' : ParserState) : Type 0 where
    pub moved : st'.buffer_offset ≡ o
    pub counted : st'.values_offset ≡ length st'.values
    pub grown : length st.values ≤ length st'.values
    pub many : count ts ≡ n
    pub kept :
        (k : ℕ) → k < length st.values → k ≢ p → (k < c) ⊎ (c + n ≤ k) → Same st.values st'.values k
    pub parent : get_elem? st'.values p ≡ some w
    pub shows : ShowsAll buffer st'.values (length st.values) (length st'.values) c ts

  -- The run fails as the layout does, or gives it.
  abbrev pub Done : ℕ → ParserState → Result (Layout × ℕ) → Result ParserState → Type 0
  Done q st (err e) r = r ≡ err e
  Done q st (ok (t, o)) r = (st' : ParserState) × (r ≡ ok st') × After q st t o st'

  abbrev pub DoneAll :
      ℕ → ℕ → ℕ → RosValue → ParserState → Result (Layouts × ℕ) → Result ParserState → Type 0
  DoneAll p c n w st (err e) r = r ≡ err e
  DoneAll p c n w st (ok (ts, o)) r =
      (st' : ParserState) × (r ≡ ok st') × AfterAll p c n w st ts o st'

  module _ (p c n : ℕ) (w : RosValue) (st : ParserState) where
    AfterAll-cons :
        (t : Layout) (ts : Layouts) (o o' : ℕ) (st1 st2 : ParserState)
        → p < c
        → c + suc n ≤ length st.values
        → After c st t o st1
        → AfterAll p (suc c) n w st1 ts o' st2
        → AfterAll p c (suc n) w st (cons t ts) o' st2
    unfolding ShowsAll
    AfterAll-cons t ts o o' st1 st2 hp hc a b = record {
      moved = b.moved;
      counted = b.counted;
      grown = omega (arith, a.grown, b.grown);
      many = omega (arith, b.many);
      kept = λ k hk ne side.
          let outside : (k < suc c) ⊎ (suc c + n ≤ k) = ground arith in
          let apart : k ≢ c = λ e. absurd (omega arith) in
          b.kept k (omega (arith, a.grown)) ne outside ∙ a.kept k hk apart;
      parent = b.parent;
      shows = (
        length st1.values,
        a.grown,
        b.grown,
        Shows-frame buffer st1.values st2.values t (length st.values) (length st1.values) c
            (b.kept c (omega (arith, a.grown)) (λ e. absurd (omega arith)) (inl (omega arith)))
            (λ k lo hi. b.kept k hi (λ e. absurd (omega arith)) (inr (omega arith))) a.shows,
        b.shows,
      );
    }

    extend :
        (t : Layout) (o : ℕ) (st1 : ParserState) (rest : Result (Layouts × ℕ))
        (run : Result ParserState)
        → p < c
        → c + suc n ≤ length st.values
        → After c st t o st1
        → DoneAll p (suc c) n w st1 rest run
        → DoneAll p c (suc n) w st (rest >>= λ (ts, o2). ok (cons t ts, o2)) run
    extend t o st1 (err e) run hp hc a d = d
    extend t o st1 (ok (ts, o2)) run hp hc a (st2, e, b) =
        (st2, e, AfterAll-cons t ts o o2 st1 st2 hp hc a b)

    -- One layout and then the others.
    pub DoneAll-cons :
        (first : Result (Layout × ℕ)) (run : Result ParserState) (rest : ℕ → Result (Layouts × ℕ))
        (next : ParserState → Result ParserState)
        → p < c
        → c + suc n ≤ length st.values
        → Done c st first run
        → ((t : Layout) (o : ℕ) (st1 : ParserState)
            → After c st t o st1
            → DoneAll p (suc c) n w st1 (rest o) (next st1))
        → DoneAll p c
            (suc n)
            w
            st
            (first >>= λ (t, o). rest o >>= λ (ts, o2). ok (cons t ts, o2))
            (run >>= next)
    DoneAll-cons (err e) run rest next hp hc d f = rw d
    DoneAll-cons (ok (t, o)) run rest next hp hc (st1, e, a) f =
        rw e (extend t o st1 (rest o) (next st1) hp hc a (f t o st1 a))
