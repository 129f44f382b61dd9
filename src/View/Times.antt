-- ===== src/View/Times.antt =====
-- View::getStartTime and View::getEndTime (lib/view.cc).
use embag.Prelude.{
  ℕ, zero, suc, ◌^◌, ◌-◌, ◌≡◌, refl, sym, ap, ◌∙◌, false, ◌&&◌, Option, none, some, List, [], ◌∷◌,
  arith, ltb, ◌==◌, if◌then◌else◌, inl, inr, ◌⊎◌, All, get_elem?,
}
use embag.Result.{Result, ok, ◌>>=◌, or_err, undefined}
use embag.Time.{Time, before}
use embag.Bag.{Chunk}
use embag.View.{View, BagPointer}

abbrev pub first_chunk : List Chunk → Option Chunk
first_chunk [] = none
first_chunk (c ∷ cs) = some c

abbrev pub last_chunk : List Chunk → Option Chunk
last_chunk [] = none
last_chunk (c ∷ []) = some c
last_chunk (c ∷ d ∷ cs) = last_chunk (d ∷ cs)

-- The body of the loop of getStartTime, and of getEndTime.
unfoldable pub earlier_of : Time → Time → Time
earlier_of bag_start t =
    if ltb bag_start.secs t.secs
    then bag_start
    else (if (bag_start.secs == t.secs) && ltb bag_start.nsecs t.nsecs then bag_start else t)

unfoldable pub later_of : Time → Time → Time
later_of bag_end t =
    if ltb t.secs bag_end.secs
    then bag_end
    else (if (bag_end.secs == t.secs) && ltb t.nsecs bag_end.nsecs then bag_end else t)

-- The loops; front() and back() of an empty vector are undefined.
unfoldable pub earliest_start : List BagPointer → Time → Result Time
earliest_start [] t = ok t
earliest_start (b ∷ bs) t = do
  c ← or_err undefined (first_chunk b.bag.chunks)
  earliest_start bs (earlier_of c.info.start_time t)

unfoldable pub latest_end : List BagPointer → Time → Result Time
latest_end [] t = ok t
latest_end (b ∷ bs) t = do
  c ← or_err undefined (last_chunk b.bag.chunks)
  latest_end bs (later_of c.info.end_time t)

abbrev pub largest_time : Time
largest_time = record { secs = 2 ^ 32 - 1; nsecs = 2 ^ 32 - 1 }

abbrev pub smallest_time : Time
smallest_time = record { secs = 0; nsecs = 0 }

unfoldable pub get_start_time : View → Result Time
get_start_time v = earliest_start v.bags largest_time

unfoldable pub get_end_time : View → Result Time
get_end_time v = latest_end v.bags smallest_time

-- The start times of the first chunks of the bags, and the end times of the last ones.
abbrev pub Starts : List BagPointer → List Time → Type 0
Starts [] [] = Unit
Starts [] (t ∷ ts) = ⊥
Starts (b ∷ bs) [] = ⊥
Starts (b ∷ bs) (t ∷ ts) =
    ((c : Chunk) × (first_chunk b.bag.chunks ≡ some c) × (c.info.start_time ≡ t)) × Starts bs ts

abbrev pub Ends : List BagPointer → List Time → Type 0
Ends [] [] = Unit
Ends [] (t ∷ ts) = ⊥
Ends (b ∷ bs) [] = ⊥
Ends (b ∷ bs) (t ∷ ts) =
    ((c : Chunk) × (last_chunk b.bag.chunks ≡ some c) × (c.info.end_time ≡ t)) × Ends bs ts

abbrev pub IsOneOf : Time → List Time → Type 0
IsOneOf t ts = (i : ℕ) × (get_elem? ts i ≡ some t)

earlier_of_lem :
    (s t : Time)
    → (before s (earlier_of s t) ≡ false)
      × (before t (earlier_of s t) ≡ false)
      × ((earlier_of s t ≡ s) ⊎ (earlier_of s t ≡ t))
unfolding earlier_of before
earlier_of_lem s t = (ground arith, ground arith, ground arith)

later_of_lem :
    (s t : Time)
    → (before (later_of s t) s ≡ false)
      × (before (later_of s t) t ≡ false)
      × ((later_of s t ≡ s) ⊎ (later_of s t ≡ t))
unfolding later_of before
later_of_lem s t = (ground arith, ground arith, ground arith)

before_trans_false : (a b c : Time) → before a b ≡ false → before b c ≡ false → before a c ≡ false
unfolding before
before_trans_false a b c h k = ground arith

back_one : (r s t : Time) (ts : List Time) → (r ≡ s) ⊎ (r ≡ t) → IsOneOf r (s ∷ t ∷ ts)
back_one r s t ts (inl e) = (0, ap some (sym e))
back_one r s t ts (inr e) = (1, ap some (sym e))

-- One of t and the list, from one of a choice of s and t and the list.
choice_back :
    (r u s t : Time) (ts : List Time)
    → (u ≡ s) ⊎ (u ≡ t)
    → IsOneOf r (u ∷ ts)
    → IsOneOf r (t ∷ s ∷ ts)
choice_back r u s t ts (inl e) (zero, g) = (1, ap some (sym e) ∙ g)
choice_back r u s t ts (inr e) (zero, g) = (0, ap some (sym e) ∙ g)
choice_back r u s t ts c (suc i, g) = (suc (suc i), g)

earliest_start_lem :
    (bs : List BagPointer) (t : Time) (ts : List Time)
    → Starts bs ts
    → (r : Time) × (earliest_start bs t ≡ ok r)
      × (before t r ≡ false)
      × All (λ s. before s r ≡ false) ts
      × IsOneOf r (t ∷ ts)
unfolding earliest_start
earliest_start_lem [] t [] h = (t, refl, unfold before in ground arith, tt, (0, refl))
earliest_start_lem [] t (s ∷ ts) h = absurd h
earliest_start_lem (b ∷ bs) t [] h = absurd h
earliest_start_lem (b ∷ bs) t (s ∷ ts) ((c, ec, es), h) =
    let u = earlier_of s t in
    let (hs, ht, one) = earlier_of_lem s t in
    let (r, er, hu, all, i) = earliest_start_lem bs u ts h in
    (
      r,
      rw (ec, es) er,
      before_trans_false t u r ht hu,
      (before_trans_false s u r hs hu, all),
      choice_back r u s t ts one i,
    )

latest_end_lem :
    (bs : List BagPointer) (t : Time) (ts : List Time)
    → Ends bs ts
    → (r : Time) × (latest_end bs t ≡ ok r)
      × (before r t ≡ false)
      × All (λ s. before r s ≡ false) ts
      × IsOneOf r (t ∷ ts)
unfolding latest_end
latest_end_lem [] t [] h = (t, refl, unfold before in ground arith, tt, (0, refl))
latest_end_lem [] t (s ∷ ts) h = absurd h
latest_end_lem (b ∷ bs) t [] h = absurd h
latest_end_lem (b ∷ bs) t (s ∷ ts) ((c, ec, es), h) =
    let u = later_of s t in
    let (hs, ht, one) = later_of_lem s t in
    let (r, er, hu, all, i) = latest_end_lem bs u ts h in
    (
      r,
      rw (ec, es) er,
      before_trans_false r u t hu ht,
      (before_trans_false r u s hu hs, all),
      choice_back r u s t ts one i,
    )

-- Where each bag of a view has a chunk, getStartTime gives a time that no first chunk starts before,
-- and getEndTime one that no last chunk ends after; each is the time of one of these chunks, or the
-- largest, or the smallest time, with which the search begins.
pub time_range :
    (v : View) (starts ends : List Time)
    → Starts v.bags starts
    → Ends v.bags ends
    → ((r : Time) × (get_start_time v ≡ ok r)
        × All (λ s. before s r ≡ false) starts
        × IsOneOf r (largest_time ∷ starts))
      × ((r : Time) × (get_end_time v ≡ ok r)
          × All (λ s. before r s ≡ false) ends
          × IsOneOf r (smallest_time ∷ ends))
unfolding get_start_time get_end_time
time_range v starts ends hs he =
    let (r, er, h0, h, i) = earliest_start_lem v.bags largest_time starts hs in
    let (r', er', h0', h', i') = latest_end_lem v.bags smallest_time ends he in
    ((r, er, h, i), (r', er', h', i'))
