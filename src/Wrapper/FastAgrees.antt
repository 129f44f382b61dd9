-- ===== src/Wrapper/FastAgrees.antt =====
-- The fast readHeader of View::iterator (lib/view.cc) against the map-based readFields with
-- getOp and getField (lib/embag.cc, lib/ros_bag_types.h).
use embag.Prelude.{
  ℕ, zero, suc, ◌+◌, ◌-◌, ◌≤◌, ◌≡◌, refl, ap, ◌∙◌, subst, ◌≢◌, false, Option, none, some, List, [],
  ◌∷◌, ◌++◌, arith, drop, length, All, append_assoc, drop-append, length-append,
}
use embag.Bytes.{Bytes, codes, read_u32, encode_le, read_le-encode_le, bytes_eq, IsU32}
use embag.Result.{Result, ok, ◌>>=◌, undefined, or_err}
use embag.Assoc.{find, assign, find-assign}
use embag.Time.{Time}
use embag.Header.{Op, Fields, unset, to_op, deref, read_time, find_byte, read_fields}
use embag.Header.Encode.{
  Entry, text, encode_entry, encode_entries, IsEntry, assign_all, read_fields-encode_entries,
  length-encode_entry, drop_four,
}
use embag.Wrapper.{
  FastHeader, find_equals, value_pointer, use_field, fast_loop, fast_read_header, no_header,
}

-- The fields that a reader of messages looks at, with a value of their size, and any other field
-- whose name begins with another letter; no name holds a NUL.
pub data IsMessageField : Entry → Type 0 where
  op_field : (b : ℕ) (v : Bytes) → IsMessageField (codes "op", b ∷ v)
  conn_field : (n : ℕ) (v : Bytes) → IsU32 n → IsMessageField (codes "conn", encode_le 4 n ++ v)
  time_field :
      (s n : ℕ) (v : Bytes)
      → IsU32 s
      → IsU32 n
      → IsMessageField (codes "time", encode_le 4 s ++ (encode_le 4 n ++ v))
  other_field :
      (c : ℕ) (name v : Bytes)
      → c ≢ b'o'
      → c ≢ b'c'
      → c ≢ b't'
      → find_byte 0 (c ∷ name) ≡ none
      → IsMessageField (c ∷ name, v)

-- What getOp and getField give where the map has the field, with the defaults of header_t where it
-- lacks it.
abbrev pub op_of : Option Bytes → Result Op
op_of none = ok unset
op_of (some v) = do b ← deref (v ++ 0 ∷ []); ok (to_op b)

abbrev pub conn_of : Option Bytes → Result ℕ
conn_of none = ok 0
conn_of (some v) = or_err undefined (read_u32 (v ++ 0 ∷ []))

abbrev pub time_of : Option Bytes → Result Time
time_of none = ok (record { secs = 0; nsecs = 0 })
time_of (some v) = or_err undefined (read_time (v ++ 0 ∷ []))

pub record Agrees (m : Fields) (h : FastHeader) : Type 0 where
  pub same_op : op_of (find (codes "op") m) ≡ ok h.op
  pub same_conn : conn_of (find (codes "conn") m) ≡ ok h.connection_id
  pub same_time : time_of (find (codes "time") m) ≡ ok h.timestamp

-- The header after a field, and after a list of fields.
unfoldable pub after_field : {e : Entry} → IsMessageField e → FastHeader → FastHeader
after_field (op_field b v) h = record h { op = to_op b }
after_field (conn_field n v hn) h = record h { connection_id = n }
after_field (time_field s n v hs hn) h = record h { timestamp = record { secs = s; nsecs = n } }
after_field (other_field c name v ho hc ht hz) h = h

unfoldable pub after_fields : (es : List Entry) → All IsMessageField es → FastHeader → FastHeader
after_fields [] hm h = h
after_fields (e ∷ es) hm h = after_fields es hm.1 (after_field hm.0 h)

find_equals-text :
    (name v : Bytes)
    → find_byte b'=' name ≡ none
    → find_byte 0 name ≡ none
    → find_equals (name ++ (b'=' ∷ v)) ≡ ok (some (b'=' ∷ v))
unfolding find_equals find_byte
find_equals-text [] v he hz = refl
find_equals-text (b ∷ name) v he hz = ground (arith, find_equals-text name v)

read_u32-front : (n : ℕ) (v p : Bytes) → IsU32 n → read_u32 ((encode_le 4 n ++ v) ++ p) ≡ some n
read_u32-front n v p h = rw (append_assoc (encode_le 4 n) v p) (read_le-encode_le 4 n (v ++ p) h)

after_four : (s : ℕ) (v p : Bytes) → v ++ p ≡ drop 4 ((encode_le 4 s ++ v) ++ p)
unfolding encode_le
after_four s v p = refl

read_time-front :
    (s n : ℕ) (v p : Bytes)
    → IsU32 s
    → IsU32 n
    → read_time ((encode_le 4 s ++ (encode_le 4 n ++ v)) ++ p)
      ≡ some (record { secs = s; nsecs = n })
unfolding read_time
read_time-front s n v p hs hn =
    let second : read_u32 (drop 4 ((encode_le 4 s ++ (encode_le 4 n ++ v)) ++ p)) ≡ some n =
      subst (λ (q : Bytes). read_u32 q ≡ some n) (after_four s (encode_le 4 n ++ v) p)
        (read_u32-front n v p hn) in
    rw (read_u32-front s (encode_le 4 n ++ v) p hs, second)

find-other :
    (b c : ℕ) (k name v : Bytes) (m : Fields)
    → c ≢ b
    → find (b ∷ k) (assign (c ∷ name) v m) ≡ find (b ∷ k) m
find-other b c k name v m h =
    let unlike : bytes_eq (c ∷ name) (b ∷ k) ≡ false = unfold bytes_eq in ground arith in
    rw (find-assign (c ∷ name) (b ∷ k) v m, unlike)

-- One field: the fast header after it agrees with the map after it.
step_Agrees :
    (e : Entry) (p : Bytes) (m : Fields) (h : FastHeader)
    → (me : IsMessageField e) → find_byte b'=' e.0 ≡ none
    → Agrees m h
    → (c : ℕ) × (deref (text e ++ p) ≡ ok c)
      × (find_equals (text e ++ p) ≡ ok (some (b'=' ∷ (e.1 ++ p))))
      × (use_field c (some (e.1 ++ p)) h ≡ ok (after_field me h))
      × Agrees (assign e.0 e.1 m) (after_field me h)
unfolding after_field
step_Agrees e p m h (op_field b v) q a = (
  b'o',
  refl,
  unfold find_equals in refl,
  unfold use_field in refl,
  record {
    same_op = rw (find-assign (codes "op") (codes "op") (b ∷ v) m) (unfold bytes_eq in refl);
    same_conn =
        rw (find-assign (codes "op") (codes "conn") (b ∷ v) m) (unfold bytes_eq in a.same_conn);
    same_time =
        rw (find-assign (codes "op") (codes "time") (b ∷ v) m) (unfold bytes_eq in a.same_time);
  },
)
step_Agrees e p m h (conn_field n v hn) q a =
    let value = encode_le 4 n ++ v in
    (
      b'c',
      refl,
      unfold find_equals in refl,
      unfold use_field in (rw (read_u32-front n v p hn)),
      record {
        same_op =
            rw (find-assign (codes "conn") (codes "op") value m) (unfold bytes_eq in a.same_op);
        same_conn =
            rw (find-assign (codes "conn") (codes "conn") value m)
              (unfold bytes_eq in (rw (read_u32-front n v (0 ∷ []) hn)));
        same_time =
            rw (find-assign (codes "conn") (codes "time") value m) (unfold bytes_eq in a.same_time);
      },
    )
step_Agrees e p m h (time_field s n v hs hn) q a =
    let value = encode_le 4 s ++ (encode_le 4 n ++ v) in
    (
      b't',
      refl,
      unfold find_equals in refl,
      unfold use_field in (rw (read_time-front s n v p hs hn)),
      record {
        same_op =
            rw (find-assign (codes "time") (codes "op") value m) (unfold bytes_eq in a.same_op);
        same_conn =
            rw (find-assign (codes "time") (codes "conn") value m) (unfold bytes_eq in a.same_conn);
        same_time =
            rw (find-assign (codes "time") (codes "time") value m)
              (unfold bytes_eq in (rw (read_time-front s n v (0 ∷ []) hs hn)));
      },
    )
step_Agrees e p m h (other_field c name v ho hc ht hz) q a = (
  c,
  refl,
  rw (append_assoc (c ∷ name) (b'=' ∷ v) p) (find_equals-text (c ∷ name) (v ++ p) q hz),
  unfold use_field in ground arith,
  record {
    same_op = rw (find-other b'o' c (codes "p") name v m ho) a.same_op;
    same_conn = rw (find-other b'c' c (codes "onn") name v m hc) a.same_conn;
    same_time = rw (find-other b't' c (codes "ime") name v m ht) a.same_time;
  },
)

fast_loop-step :
    (fuel left n c : ℕ) (p q : Bytes) (h h' : FastHeader) (found : Option Bytes)
    → read_u32 p ≡ some n
    → drop 4 p ≡ q
    → find_equals q ≡ ok found
    → deref q ≡ ok c
    → use_field c (value_pointer found) h ≡ ok h'
    → fast_loop (suc fuel) p (suc left) h ≡ fast_loop fuel (drop n q) (suc left - (4 + n)) h'
unfolding fast_loop
fast_loop-step fuel left n c p q h h' found en eq ef ec eu = rw (en, eq, ef, ec, eu)

fast_loop-entry :
    (fuel left : ℕ) (e : Entry) (p : Bytes) (m : Fields) (h : FastHeader)
    → (me : IsMessageField e) → IsEntry e
    → Agrees m h
    → (fast_loop (suc fuel) (encode_entry e ++ p) (suc left) h
        ≡ fast_loop fuel p (suc left - (4 + length (text e))) (after_field me h))
      × Agrees (assign e.0 e.1 m) (after_field me h)
fast_loop-entry fuel left e p m h me (he, fits) a =
    let (c, hc, hf, hu, a') = step_Agrees e p m h me he a in
    let h' = after_field me h in
    let n = length (text e) in
    let shape : encode_entry e ++ p ≡ encode_le 4 n ++ (text e ++ p) =
      unfold encode_entry in append_assoc (encode_le 4 n) (text e) p in
    let step =
      fast_loop-step fuel left n c (encode_entry e ++ p) (text e ++ p) h h'
        (some (b'=' ∷ (e.1 ++ p))) (rw shape (read_le-encode_le 4 n (text e ++ p) fits))
        (rw shape (drop_four n (text e ++ p))) hf hc hu in
    (step ∙ ap (λ q. fast_loop fuel q (suc left - (4 + n)) h') (drop-append (text e) p), a')

fast_loop-Agrees :
    (es : List Entry) (fuel : ℕ) (p : Bytes) (left : ℕ) (m : Fields) (h : FastHeader)
    → (hm : All IsMessageField es) → All IsEntry es
    → left ≡ length (encode_entries es)
    → left ≤ fuel
    → Agrees m h
    → (fast_loop fuel (encode_entries es ++ p) left h ≡ ok (after_fields es hm h))
      × Agrees (assign_all es m) (after_fields es hm h)
unfolding encode_entries assign_all after_fields
fast_loop-Agrees [] zero p left m h hm he e hf a = (rw e (unfold fast_loop in refl), a)
fast_loop-Agrees [] (suc fuel) p left m h hm he e hf a = (rw e (unfold fast_loop in refl), a)
fast_loop-Agrees (x ∷ es) zero p left m h hm he e hf a =
    absurd
      (omega (arith, length-append (encode_entry x) (encode_entries es), length-encode_entry x))
fast_loop-Agrees (x ∷ es) (suc fuel) p zero m h hm he e hf a =
    absurd
      (omega (arith, length-append (encode_entry x) (encode_entries es), length-encode_entry x))
fast_loop-Agrees (x ∷ es) (suc fuel) p (suc left) m h hm he e hf a =
    let sizes : suc left ≡ 4 + length (text x) + length (encode_entries es) =
      omega (arith, length-append (encode_entry x) (encode_entries es), length-encode_entry x) in
    let (step, a1) = fast_loop-entry fuel left x (encode_entries es ++ p) m h hm.0 he.0 a in
    let (rest, a2) =
      fast_loop-Agrees es fuel p (suc left - (4 + length (text x))) (assign x.0 x.1 m)
        (after_field hm.0 h) hm.1 he.1 (omega arith) (omega arith) a1 in
    (
      ap (λ q. fast_loop (suc fuel) q (suc left) h)
            (append_assoc (encode_entry x) (encode_entries es) p)
          ∙ step
          ∙ rest,
      a2,
    )

-- On the bytes of fields each of which is an op, a conn or a time with a value of its size, or has a
-- name that begins with another letter and holds no NUL, both readers succeed, whatever follows; and
-- the fast header's op, connection id and timestamp are those that the map of readFields gives, with
-- the defaults UNSET, 0 and 0s 0ns where the map lacks the field.
pub fast_read_header-Agrees :
    (es : List Entry) (p : Bytes) (hm : All IsMessageField es)
    → All IsEntry es
    → let len = length (encode_entries es) in
      (read_fields (encode_entries es ++ p) len ≡ ok (assign_all es []))
      × (fast_read_header (encode_entries es ++ p) len ≡ ok (after_fields es hm no_header))
      × Agrees (assign_all es []) (after_fields es hm no_header)
fast_read_header-Agrees es p hm he =
    let len = length (encode_entries es) in
    let (run, a) =
      fast_loop-Agrees es len p len [] no_header hm he refl (omega arith)
        (unfold find in record { same_op = refl; same_conn = refl; same_time = refl }) in
    (read_fields-encode_entries es p he, unfold fast_read_header in run, a)
