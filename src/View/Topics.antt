-- ===== src/View/Topics.antt =====
-- View::topics (lib/view.h).
use embag.Prelude.{
  ℕ, subst, ◌≡◌, refl, inl, inr, Bool, true, false, ◌||◌, List, [], ◌∷◌, arith, if◌then◌else◌,
  Bool-cases, map,
}
use embag.Bytes.{Bytes, bytes_eq, bytes_eq→eq}
use embag.Assoc.{Assoc, contains, find}
use embag.Bag.{Bag}
use embag.Topics.{topics, topic_in_bag}
use embag.View.{View, BagPointer}

-- A set of texts: emplace and count.
unfoldable pub is_in : Bytes → List Bytes → Bool
is_in t [] = false
is_in t (u ∷ us) = bytes_eq u t || is_in t us

unfoldable pub insert_topics : List Bytes → List Bytes → List Bytes
unfolding is_in
insert_topics [] set = set
insert_topics (t ∷ ts) set = insert_topics ts (if is_in t set then set else t ∷ set)

unfoldable pub topics_loop : List BagPointer → List Bytes → List Bytes
unfolding insert_topics
topics_loop [] set = set
topics_loop (b ∷ bs) set = topics_loop bs (insert_topics (topics b.bag) set)

unfoldable pub view_topics : View → List Bytes
unfolding topics_loop
view_topics v = topics_loop v.bags []

-- Whether one of the bags has a topic.
abbrev pub in_some_bag : Bytes → List BagPointer → Bool
in_some_bag t [] = false
in_some_bag t (b ∷ bs) = topic_in_bag t b.bag || in_some_bag t bs

is_in-insert_topics :
    (t : Bytes) (ts set : List Bytes) → is_in t (insert_topics ts set) ≡ (is_in t set || is_in t ts)
unfolding is_in insert_topics
is_in-insert_topics t [] set = ground arith
is_in-insert_topics t (u ∷ ts) set = elim (Bool-cases (is_in u set)) [
  | inl e ↦
      let here : bytes_eq u t ≡ true → is_in t set ≡ true =
        λ h. subst (λ (k : Bytes). is_in k set ≡ true) (bytes_eq→eq u t h) e in
      rw (e, is_in-insert_topics t ts set) (absorbed (is_in t set) (bytes_eq u t) (is_in t ts) here)
  | inr e ↦
      rw (e, is_in-insert_topics t ts (u ∷ set)) (moved (bytes_eq u t) (is_in t set) (is_in t ts))
]
  where
    absorbed : (a b c : Bool) → (b ≡ true → a ≡ true) → (a || c) ≡ (a || (b || c))
    absorbed true b c h = refl
    absorbed false true c h = let never : false ≡ true = h refl in cc
    absorbed false false c h = refl

    moved : (a b c : Bool) → ((a || b) || c) ≡ (b || (a || c))
    moved true true c = refl
    moved true false c = refl
    moved false b c = refl

is_in-keys : (t : Bytes) (m : Assoc (List ℕ)) → is_in t (map (λ e. e.0) m) ≡ contains t m
unfolding is_in contains find
is_in-keys t [] = refl
is_in-keys t ((k, v) ∷ m) = elim (Bool-cases (bytes_eq k t)) [
  | inl e ↦ rw (e, contains) refl
  | inr e ↦ rw (e, contains) (is_in-keys t m)
]

is_in-topics : (t : Bytes) (b : Bag) → is_in t (topics b) ≡ topic_in_bag t b
unfolding topics topic_in_bag
is_in-topics t b = is_in-keys t b.topic_connection_map

is_in-topics_loop :
    (t : Bytes) (bs : List BagPointer) (set : List Bytes)
    → is_in t (topics_loop bs set) ≡ (is_in t set || in_some_bag t bs)
unfolding topics_loop
is_in-topics_loop t [] set = or_false (is_in t set)
  where
    or_false : (a : Bool) → a ≡ (a || false)
    or_false true = refl
    or_false false = refl
is_in-topics_loop t (b ∷ bs) set =
    rw
      (
        is_in-topics_loop t bs (insert_topics (topics b.bag) set),
        is_in-insert_topics t (topics b.bag) set,
        is_in-topics t b.bag,
      )
      (joined (is_in t set) (topic_in_bag t b.bag) (in_some_bag t bs))
  where
    joined : (a b c : Bool) → ((a || b) || c) ≡ (a || (b || c))
    joined true b c = refl
    joined false b c = refl

-- View::topics lists a topic just where topicInBag finds it in one of the bags of the view.
pub view_topics-in_some_bag :
    (t : Bytes) (v : View) → is_in t (view_topics v) ≡ in_some_bag t v.bags
unfolding view_topics
view_topics-in_some_bag t v = is_in-topics_loop t v.bags []
