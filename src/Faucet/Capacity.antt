-- ===== src/Faucet/Capacity.antt =====
-- The notices and entries of a faucet worker, and the capacity.
use stacks_k8s.Common.{
  ℕ, suc, ◌+◌, ◌≤◌, ◌≡◌, String, Bool, true, false, not, ◌&&◌, ◌||◌, Option, none, some, List, [],
  ◌∷◌, leb, ◌/=◌, string_eq, if◌then◌else◌, length, arith, Bool-cases, inl, inr,
}
use stacks_k8s.Common.Int.{ℤ}
use stacks_k8s.Faucet.{StacksFaucetRequest, deadline}
use stacks_k8s.Faucet.Queue.{
  capacity, FaucetNotice, FaucetRole, CollectionEvent, has_notice, delete_notice, put_notice,
  has_entry, delete_entry, routed, settled_request, note, collection_changed, forget_notice,
  put_entry, forget_entry,
}

-- The slots in use.
abbrev pub held : FaucetRole → ℕ
held r = length r.notices + length r.entries

length-delete_notice :
    (uid : String) (ns : List FaucetNotice) → length (delete_notice uid ns) ≤ length ns
unfolding delete_notice
length-delete_notice uid [] = omega arith
length-delete_notice uid (n ∷ ns) = ground (arith, length-delete_notice uid ns)

delete_notice-has_notice :
    (uid : String) (ns : List FaucetNotice)
    → has_notice uid ns ≡ true
    → suc (length (delete_notice uid ns)) ≤ length ns
unfolding delete_notice has_notice
delete_notice-has_notice uid [] h = cc
delete_notice-has_notice uid (n ∷ ns) h = ground (arith, delete_notice-has_notice uid ns)

length-put_notice :
    (notice : FaucetNotice) (ns : List FaucetNotice)
    → length (put_notice notice ns) ≤ length ns + (if has_notice notice.uid ns then 0 else 1)
unfolding put_notice has_notice
length-put_notice notice [] = omega arith
length-put_notice notice (n ∷ ns) = ground (arith, length-put_notice notice ns)

length-delete_entry : (uid : String) (es : List String) → length (delete_entry uid es) ≤ length es
unfolding delete_entry
length-delete_entry uid [] = omega arith
length-delete_entry uid (e ∷ es) = ground (arith, length-delete_entry uid es)

-- A call of the queue; `settle` is `putEntry`.
pub data Operation : Type 0 where
  change : CollectionEvent → Operation
  drop_notice : String → Operation
  settle : String → Operation
  drop_entry : String → Operation

unfoldable pub step : (String → Option ℤ) → Operation → FaucetRole → FaucetRole
step parse_duration (change event) r = collection_changed parse_duration r event event.request
step parse_duration (drop_notice uid) r = forget_notice uid r
step parse_duration (settle uid) r = put_entry uid r
step parse_duration (drop_entry uid) r = forget_entry uid r

unfoldable pub run : (String → Option ℤ) → List Operation → FaucetRole → FaucetRole
run parse_duration [] r = r
run parse_duration (op ∷ ops) r = run parse_duration ops (step parse_duration op r)

-- Does the call make an entry of a UID that has neither a notice nor an entry?
abbrev pub is_unqueued : Operation → FaucetRole → Bool
is_unqueued (settle uid) r = not (has_notice uid r.notices || has_entry uid r.entries)
is_unqueued op r = false

-- How many of the calls do.
unfoldable pub unqueued : (String → Option ℤ) → List Operation → FaucetRole → ℕ
unqueued parse_duration [] r = 0
unqueued parse_duration (op ∷ ops) r =
    (if is_unqueued op r then 1 else 0) + unqueued parse_duration ops (step parse_duration op r)

-- The notices are within the capacity; the slots in use exceed it by at most `n`.
record Within (n : ℕ) (r : FaucetRole) : Type 0 where
  noticed : length r.notices ≤ capacity
  slots : held r ≤ capacity + n

written : (String → Option ℤ) → CollectionEvent → StacksFaucetRequest → FaucetNotice
written pd event request = record {
  name = event.name;
  uid = event.uid;
  created = request.creation_timestamp;
  expires = elim (deadline pd request) [ none ↦ 0 | some t ↦ t ];
  deleted = event.deleted;
}

note-Within :
    (pd : String → Option ℤ) (r : FaucetRole) (event : CollectionEvent)
    (request : StacksFaucetRequest) (n : ℕ)
    → Within n r
    → Within n (note pd r event request)
unfolding note written
note-Within pd r event request n h = elim (Bool-cases (has_entry event.uid r.entries)) [
  | inl e ↦ rw e h
  | inr e ↦ elim (Bool-cases (settled_request request)) [
    | inl s ↦
        let shorter = length-delete_notice event.uid r.notices in
        rw (e, s)
          (record {
            noticed = omega (arith, h.noticed, shorter);
            slots = omega (arith, h.slots, shorter);
          })
    | inr s ↦ elim (Bool-cases (not (has_notice event.uid r.notices) && leb capacity (held r))) [
      | inl f ↦ rw (e, s, f) (record { noticed = h.noticed; slots = h.slots })
      | inr f ↦
          let put = length-put_notice (written pd event request) r.notices in
          rw (e, s, f)
            (record {
              noticed = ground (arith, f, h.noticed, put);
              slots = ground (arith, f, h.slots, put);
            })
    ]
  ]
]

collection_changed-Within :
    (pd : String → Option ℤ) (r : FaucetRole) (event : CollectionEvent)
    (o : Option StacksFaucetRequest) (n : ℕ)
    → Within n r
    → Within n (collection_changed pd r event o)
unfolding collection_changed
collection_changed-Within pd r event none n h = h
collection_changed-Within pd r event (some request) n h =
    elim (Bool-cases (not event.watched || event.namespace /= r.namespace)) [
      | inl e ↦ rw e h
      | inr e ↦ elim (Bool-cases (not (routed r request.admission))) [
        | inl f ↦ rw (e, f) h
        | inr f ↦ rw (e, f) (note-Within pd r event request n h)
      ]
    ]

put_entry-Within :
    (uid : String) (r : FaucetRole) (n : ℕ)
    → Within n r
    → Within ((if is_unqueued (settle uid) r then 1 else 0) + n) (put_entry uid r)
unfolding put_entry
put_entry-Within uid r n h =
    let shorter = length-delete_notice uid r.notices in
    elim (Bool-cases (has_entry uid r.entries)) [
      | inl e ↦ rw e (record {
        noticed = omega (arith, h.noticed, shorter);
        slots = ground (arith, h.slots, shorter);
      })
      | inr e ↦ elim (Bool-cases (has_notice uid r.notices)) [
        | inl q ↦
            let less = delete_notice-has_notice uid r.notices q in
            rw (e, q)
              (record {
                noticed = omega (arith, h.noticed, shorter);
                slots = omega (arith, h.slots, less);
              })
        | inr q ↦
            rw (e, q)
              (record {
                noticed = omega (arith, h.noticed, shorter);
                slots = omega (arith, h.slots, shorter);
              })
      ]
    ]

step-Within :
    (pd : String → Option ℤ) (op : Operation) (r : FaucetRole) (n : ℕ)
    → Within n r
    → Within ((if is_unqueued op r then 1 else 0) + n) (step pd op r)
unfolding step forget_notice forget_entry
step-Within pd (change event) r n h =
    let kept = collection_changed-Within pd r event event.request n h in
    record { noticed = kept.noticed; slots = omega (arith, kept.slots) }
step-Within pd (drop_notice uid) r n h =
    let shorter = length-delete_notice uid r.notices in
    record { noticed = omega (arith, h.noticed, shorter); slots = omega (arith, h.slots, shorter) }
step-Within pd (settle uid) r n h = put_entry-Within uid r n h
step-Within pd (drop_entry uid) r n h = record {
  noticed = h.noticed;
  slots = omega (arith, h.slots, length-delete_entry uid r.entries);
}

run-Within :
    (pd : String → Option ℤ) (ops : List Operation) (r : FaucetRole) (n : ℕ)
    → Within n r
    → Within (unqueued pd ops r + n) (run pd ops r)
unfolding run unqueued
run-Within pd [] r n h = record { noticed = h.noticed; slots = omega (arith, h.slots) }
run-Within pd (op ∷ ops) r n h =
    let more = run-Within pd ops (step pd op r) _ (step-Within pd op r n h) in
    record { noticed = more.noticed; slots = omega (arith, more.slots) }

-- Whatever is watched, forgotten or settled, and in whatever order, from a worker within its capacity:
-- its notices stay at most 1000, and its notices and active entries together exceed 1000 by at most
-- the number of putEntry calls whose UID at that moment had neither a notice nor an entry.
pub run-held :
    (pd : String → Option ℤ) (ops : List Operation) (r : FaucetRole)
    → held r ≤ capacity
    → (length (run pd ops r).notices ≤ capacity)
      × (length (run pd ops r).notices + length (run pd ops r).entries
          ≤ capacity + unqueued pd ops r)
run-held pd ops r h =
    let within : Within 0 r = record { noticed = omega (arith, h); slots = omega (arith, h) } in
    let after = run-Within pd ops r 0 within in (after.noticed, omega (arith, after.slots))
