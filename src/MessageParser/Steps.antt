-- ===== src/MessageParser/Steps.antt =====
-- initPrimitive and initArray of MessageParser (lib/message_parser.cc) against the layout of a field.
use embag.Prelude.{
  ℕ, zero, suc, ◌+◌, ◌*◌, ◌≤◌, ◌<◌, ◌≡◌, ◌≢◌, refl, sym, ◌∙◌, subst, inl, Option, some, List, [],
  ◌∷◌, ◌++◌, arith, length, get_elem?, replicate, get_elem?-set_self, get_elem?-set_ne, length-set,
  get_elem?-lt,
}
use embag.Bytes.{Bytes}
use embag.Result.{Result, ok, err, ◌>>=◌}
use embag.Assoc.{Assoc}
use embag.RosType.{RosType}
use embag.Schema.{FieldDef, BaseMsgDef}
use embag.Value.{RosValue, primitive_info, primitive_array_info, get_primitive}
use embag.Wrapper.{u32_at}
use embag.MessageParser.{ParserState, with_place, store, init_many, init_primitive}
use embag.MessageParser.Layout.{
  Layout, leaf, packed, Layouts, count, layout_many, layout_primitive, Shows, ShowsAll,
}
use embag.MessageParser.Frames.{Same, After, AfterAll, Done, DoneAll, DoneAll-cons}

-- values_offset_ counts the values.
abbrev pub IsCounted : ParserState → Type 0
IsCounted st = st.values_offset ≡ length st.values

pub get_elem?-append_left :
    (vs ws : List RosValue) (k : ℕ) → k < length vs → get_elem? (vs ++ ws) k ≡ get_elem? vs k
get_elem?-append_left [] ws k h = absurd (omega arith)
get_elem?-append_left (v ∷ vs) ws zero h = refl
get_elem?-append_left (v ∷ vs) ws (suc k) h = get_elem?-append_left vs ws k (omega arith)

pub get_elem?-replicate :
    (vs : List RosValue) (n : ℕ) (v : RosValue) (k : ℕ)
    → length vs ≤ k
    → k < length vs + n
    → get_elem? (vs ++ replicate n v) k ≡ some v
get_elem?-replicate [] zero v k a b = absurd (omega arith)
get_elem?-replicate [] (suc n) v zero a b = refl
get_elem?-replicate [] (suc n) v (suc k) a b =
    get_elem?-replicate [] n v k (omega arith) (omega arith)
get_elem?-replicate (w ∷ vs) n v zero a b = absurd (omega arith)
get_elem?-replicate (w ∷ vs) n v (suc k) a b =
    get_elem?-replicate vs n v k (omega arith) (omega arith)

module _ (buffer : Bytes) where
  -- A layout that is one value, stored at its position.
  stored-After :
      (q : ℕ) (st : ParserState) (v : RosValue) (o : ℕ) (t : Layout)
      → IsCounted st
      → q < length st.values
      → ((vs : List RosValue) (lo hi : ℕ)
          → lo ≡ hi
          → get_elem? vs q ≡ some v
          → Shows buffer vs lo hi q t)
      → After buffer q st t o (record (store q v st) { buffer_offset = o })
  stored-After q st v o t hc hq show = record {
    moved = refl;
    counted = hc ∙ sym (length-set st.values q v);
    grown = omega (arith, length-set st.values q v);
    kept = λ k hk ne. get_elem?-set_ne st.values v (λ e. ne (sym e));
    shows = show _ _ _ (sym (length-set st.values q v)) (get_elem?-set_self st.values q v hq);
  }

  placed-Done :
      (t : RosType) (q : ℕ) (st : ParserState) (taken : Result ℕ)
      → IsCounted st
      → q < length st.values
      → Done buffer q st (taken >>= λ n. ok (leaf t st.buffer_offset, st.buffer_offset + n)) (
          taken >>= λ n. ok (record (store q (primitive_info t st.buffer_offset (some buffer)) st) {
            buffer_offset = st.buffer_offset + n;
          }))
  unfolding Shows
  placed-Done t q st (err e) hc hq = refl
  placed-Done t q st (ok n) hc hq = (
    _,
    refl,
    stored-After q st _ _ (leaf t st.buffer_offset) hc hq (λ vs lo hi same e. (same, e)),
  )

  pub init_primitive-Done :
      (definitions : Assoc BaseMsgDef) (f : FieldDef) (q o : ℕ) (st : ParserState)
      {b : Option Bytes}
      → IsCounted st
      → get_elem? st.values q ≡ some (primitive_info f.ros_type o b)
      → Done buffer q st
          (layout_primitive definitions buffer f st.buffer_offset)
          (init_primitive definitions buffer f q st)
  unfolding init_primitive layout_primitive with_place get_primitive u32_at
  init_primitive-Done definitions f q o st hc e =
      rw e (placed-Done f.ros_type q st _ hc (get_elem?-lt st.values q e))

  pub ranged-Done :
      (t : RosType) (q n o : ℕ) (st : ParserState) (element_size : Result ℕ)
      → IsCounted st
      → q < length st.values
      → Done buffer q st (element_size >>= λ s. ok (packed t o n, o + n * s)) (
          element_size >>= λ s. ok (record (store q (primitive_array_info t o n (some buffer)) st) {
            buffer_offset = o + n * s;
          }))
  unfolding Shows
  ranged-Done t q n o st (err e) hc hq = refl
  ranged-Done t q n o st (ok s) hc hq =
      (_, refl, stored-After q st _ _ (packed t o n) hc hq (λ vs lo hi same e. (same, e)))

  -- One value after the other, each of which gives its layout.
  module _ (p : ℕ) (w v : RosValue) (init : ℕ → ParserState → Result ParserState)
      (layout : ℕ → Result (Layout × ℕ))
      (each : (q : ℕ) (st : ParserState)
        → IsCounted st
        → get_elem? st.values q ≡ some v
        → Done buffer q st (layout st.buffer_offset) (init q st)) where
    pub init_many-DoneAll :
        (n c : ℕ) (st : ParserState)
        → IsCounted st
        → p < c
        → c + n ≤ length st.values
        → ((k : ℕ) → c ≤ k → k < c + n → get_elem? st.values k ≡ some v)
        → get_elem? st.values p ≡ some w
        → DoneAll buffer p c n w st (layout_many layout n st.buffer_offset) (init_many init n c st)
    unfolding layout_many init_many ShowsAll
    init_many-DoneAll zero c st hc hp hl hv hw = (
      st,
      refl,
      record {
        moved = refl;
        counted = hc;
        grown = omega arith;
        many = refl;
        kept = λ k hk ne side. refl;
        parent = hw;
        shows = refl;
      },
    )
    init_many-DoneAll (suc n) c st hc hp hl hv hw =
        DoneAll-cons buffer p c n w st (layout st.buffer_offset) (init c st) (layout_many layout n)
          (init_many init n (suc c)) hp hl (each c st hc (hv c (omega arith) (omega arith)))
          λ t o st1 a.
            subst
              (λ (x : ℕ).
                DoneAll buffer p (suc c) n w st1 (layout_many layout n x)
                  (init_many init n (suc c) st1))
              a.moved
              (init_many-DoneAll n (suc c) st1 a.counted (omega arith) (omega (arith, a.grown))
                (λ k lo hi.
                  a.kept k (omega arith) (λ e. absurd (omega arith))
                  ∙ hv k (omega arith) (omega arith))
                (a.kept p (omega arith) (λ e. absurd (omega arith)) ∙ hw))

  -- The children of the value at p stand behind the values that were there, and what is below them
  -- behind the children.
  module _ (p n : ℕ) (w : RosValue) (st st2 : ParserState) (node : Layouts → Layout)
      (longer : length st2.values ≡ length st.values + n)
      (before : (k : ℕ) → k < length st.values → k ≢ p → Same st.values st2.values k)
      (show : (vs : List RosValue) (hi : ℕ) (ts : Layouts)
        → get_elem? vs p ≡ some w
        → count ts ≡ n
        → length st.values + n ≤ hi
        → ShowsAll buffer vs (length st.values + n) hi (length st.values) ts
        → Shows buffer vs (length st.values) hi p (node ts)) where
    node-After :
        (ts : Layouts) (o : ℕ) (st' : ParserState)
        → AfterAll buffer p (length st.values) n w st2 ts o st'
        → After buffer p st (node ts) o st'
    node-After ts o st' a = record {
      moved = a.moved;
      counted = a.counted;
      grown = omega (arith, a.grown, longer);
      kept = λ k hk ne. a.kept k (omega (arith, longer)) ne (inl hk) ∙ before k hk ne;
      shows =
          show st'.values (length st'.values) ts a.parent a.many (omega (arith, a.grown, longer)) (
            subst
              (λ (l : ℕ). ShowsAll buffer st'.values l (length st'.values) (length st.values) ts)
              longer a.shows);
    }

    pub node-Done :
        (layouts : Result (Layouts × ℕ)) (run : Result ParserState)
        → DoneAll buffer p (length st.values) n w st2 layouts run
        → Done buffer p st (layouts >>= λ (ts, o). ok (node ts, o)) run
    node-Done (err e) run d = d
    node-Done (ok (ts, o)) run (st', e, a) = (st', e, node-After ts o st' a)
