-- ===== src/Clarity/Normal.antt =====
-- The part of a value that its type selects, with sorted fields: what is read back of it.
use stacks_k8s.Common.{
  ℕ, suc, ◌≡◌, ◌≢◌, refl, sym, ap, ◌∙◌, true, false, Option, none, [], ◌∷◌, arith, ◌==◌, nat_eq,
  inl, inr, Bool-cases,
}
use stacks_k8s.Common.Int.{ℤ}
use stacks_k8s.Encoding.Hex.{Bytes}
use stacks_k8s.Clarity.{
  Value, value, Items, no_items, item, Fields, no_fields, field, Case, integer_case, buffer_case,
  text_case, constant_case, principal_case, wrapper_case, list_case, tuple_case, no_case, case_of,
  ltb_bytes, valid_name,
}
use stacks_k8s.Clarity.Encode.{count_fields, valid_names, insert_field, sort_fields}

-- "Only fields selected by Type are used."
unfoldable pub keep : Case → ℕ → Option ℤ → Bytes → Bytes → Items → Fields → Value
keep integer_case t i bs x vs fs = value t i [] [] no_items no_fields
keep buffer_case t i bs x vs fs = value t none bs [] no_items no_fields
keep text_case t i bs x vs fs = value t none [] x no_items no_fields
keep constant_case t i bs x vs fs = value t none [] [] no_items no_fields
keep principal_case t i bs x vs fs = value t none [] x no_items no_fields
keep wrapper_case t i bs x vs fs = value t none [] [] vs no_fields
keep list_case t i bs x vs fs = value t none [] [] vs no_fields
keep tuple_case t i bs x vs fs = value t none [] [] no_items fs
keep no_case t i bs x vs fs = value t i bs x vs fs

unfoldable mutual
  unfolding keep sort_fields case_of

  pub normal : Value → Value
  normal (value t i bs x vs fs) =
      keep (case_of t) t i bs x (normal_items vs) (sort_fields (normal_fields fs))

  pub normal_items : Items → Items
  normal_items no_items = no_items
  normal_items (item v vs) = item (normal v) (normal_items vs)

  pub normal_fields : Fields → Fields
  normal_fields no_fields = no_fields
  normal_fields (field k v fs) = field k (normal v) (normal_fields fs)

-- `k` is no key of the map.
abbrev pub IsFresh : Bytes → Fields → Type 0
IsFresh k no_fields = Unit
IsFresh k (field n v fs) = (k ≢ n) × IsFresh k fs

-- The lists of entries stand for maps: no key is in one twice.
abbrev mutual
  pub IsMap : Value → Type 0
  IsMap (value t i bs x vs fs) = IsMapItems vs × IsMapFields fs

  pub IsMapItems : Items → Type 0
  IsMapItems no_items = Unit
  IsMapItems (item v vs) = IsMap v × IsMapItems vs

  pub IsMapFields : Fields → Type 0
  IsMapFields no_fields = Unit
  IsMapFields (field k v fs) = IsFresh k fs × IsMap v × IsMapFields fs

-- The names ascend, from after `previous`.
abbrev pub Ascending : Bytes → Fields → Type 0
Ascending previous no_fields = Unit
Ascending previous (field k v fs) = (ltb_bytes previous k ≡ true) × Ascending k fs

pub normal_fields-insert_field :
    (k : Bytes) (v : Value) (fs : Fields)
    → normal_fields (insert_field k v fs) ≡ insert_field k (normal v) (normal_fields fs)
unfolding normal_fields insert_field
normal_fields-insert_field k v no_fields = refl
normal_fields-insert_field k v (field n w fs) = elim (Bool-cases (ltb_bytes k n)) [
  | inl e ↦ rw e refl
  | inr e ↦ rw e (ap (field n (normal w)) (normal_fields-insert_field k v fs))
]

pub normal_fields-sort_fields :
    (fs : Fields) → normal_fields (sort_fields fs) ≡ sort_fields (normal_fields fs)
unfolding normal_fields sort_fields
normal_fields-sort_fields no_fields = refl
normal_fields-sort_fields (field k v fs) =
    normal_fields-insert_field k v (sort_fields fs)
    ∙ ap (insert_field k (normal v)) (normal_fields-sort_fields fs)

ltb_bytes-total : (a b : Bytes) → ltb_bytes a b ≡ false → a ≢ b → ltb_bytes b a ≡ true
unfolding ltb_bytes
ltb_bytes-total [] [] h n = absurd (n refl)
ltb_bytes-total [] (y ∷ ys) h n = cc
ltb_bytes-total (x ∷ xs) [] h n = refl
ltb_bytes-total (x ∷ xs) (y ∷ ys) h n = elim (Bool-cases (x == y)) [
  | inl e ↦
      let same : x ≡ y = ground (arith, e) in
      let tails : xs ≢ ys = λ q. n (cc (same, q)) in
      let later : ltb_bytes xs ys ≡ false = ground (arith, e, h) in
      ground (arith, e, ltb_bytes-total xs ys later tails)
  | inr e ↦ ground (arith, e, h)
]

IsFresh-insert_field :
    (k n : Bytes) (v : Value) (fs : Fields) → k ≢ n → IsFresh k fs → IsFresh k (insert_field n v fs)
unfolding insert_field
IsFresh-insert_field k n v no_fields d h = (d, tt)
IsFresh-insert_field k n v (field m w fs) d (e, h) = elim (Bool-cases (ltb_bytes n m)) [
  | inl q ↦ rw q (d, (e, h))
  | inr q ↦ rw q (e, IsFresh-insert_field k n v fs d h)
]

IsFresh-sort_fields : (k : Bytes) (fs : Fields) → IsFresh k fs → IsFresh k (sort_fields fs)
unfolding sort_fields
IsFresh-sort_fields k no_fields h = tt
IsFresh-sort_fields k (field n v fs) (d, h) =
    IsFresh-insert_field k n v (sort_fields fs) d (IsFresh-sort_fields k fs h)

Ascending-insert_field :
    (previous k : Bytes) (v : Value) (fs : Fields)
    → ltb_bytes previous k ≡ true
    → IsFresh k fs
    → Ascending previous fs
    → Ascending previous (insert_field k v fs)
unfolding insert_field
Ascending-insert_field previous k v no_fields p h a = (p, tt)
Ascending-insert_field previous k v (field n w fs) p (d, h) (q, a) =
    elim (Bool-cases (ltb_bytes k n)) [
      | inl e ↦ rw e (p, (e, a))
      | inr e ↦ rw e (q, Ascending-insert_field n k v fs (ltb_bytes-total k n e d) h a)
    ]

valid_name-IsAfter : (k : Bytes) → valid_name k ≡ true → ltb_bytes [] k ≡ true
unfolding valid_name ltb_bytes
valid_name-IsAfter [] h = cc
valid_name-IsAfter (c ∷ k) h = refl

-- The sorted names of a map ascend.
pub Ascending-sort_fields :
    (fs : Fields) → valid_names fs ≡ true → IsMapFields fs → Ascending [] (sort_fields fs)
unfolding sort_fields valid_names
Ascending-sort_fields no_fields h m = tt
Ascending-sort_fields (field k v fs) h (fresh, _, m) =
    Ascending-insert_field [] k v (sort_fields fs) (valid_name-IsAfter k (ground (arith, h)))
      (IsFresh-sort_fields k fs fresh) (Ascending-sort_fields fs (ground (arith, h)) m)

IsMapFields-insert_field :
    (k : Bytes) (v : Value) (fs : Fields)
    → IsFresh k fs
    → IsMap v
    → IsMapFields fs
    → IsMapFields (insert_field k v fs)
unfolding insert_field
IsMapFields-insert_field k v no_fields f m h = (tt, m, tt)
IsMapFields-insert_field k v (field n w fs) (d, f) m (fresh, mw, h) =
    elim (Bool-cases (ltb_bytes k n)) [
      | inl e ↦ rw e ((d, f), m, (fresh, mw, h))
      | inr e ↦ rw e (
        IsFresh-insert_field n k v fs (λ q. d (sym q)) fresh,
        mw,
        IsMapFields-insert_field k v fs f m h,
      )
    ]

pub IsMapFields-sort_fields : (fs : Fields) → IsMapFields fs → IsMapFields (sort_fields fs)
unfolding sort_fields
IsMapFields-sort_fields no_fields h = tt
IsMapFields-sort_fields (field k v fs) (f, m, h) =
    IsMapFields-insert_field k v (sort_fields fs) (IsFresh-sort_fields k fs f) m
      (IsMapFields-sort_fields fs h)

count_fields-insert_field :
    (k : Bytes) (v : Value) (fs : Fields)
    → count_fields (insert_field k v fs) ≡ suc (count_fields fs)
unfolding insert_field count_fields
count_fields-insert_field k v no_fields = refl
count_fields-insert_field k v (field n w fs) = elim (Bool-cases (ltb_bytes k n)) [
  | inl e ↦ rw e refl
  | inr e ↦ rw e (ap suc (count_fields-insert_field k v fs))
]

pub count_fields-sort_fields : (fs : Fields) → count_fields (sort_fields fs) ≡ count_fields fs
unfolding sort_fields count_fields
count_fields-sort_fields no_fields = refl
count_fields-sort_fields (field k v fs) =
    count_fields-insert_field k v (sort_fields fs) ∙ ap suc (count_fields-sort_fields fs)

valid_names-insert_field :
    (k : Bytes) (v : Value) (fs : Fields)
    → valid_name k ≡ true
    → valid_names fs ≡ true
    → valid_names (insert_field k v fs) ≡ true
unfolding insert_field valid_names
valid_names-insert_field k v no_fields h t = rw h refl
valid_names-insert_field k v (field n w fs) h t = elim (Bool-cases (ltb_bytes k n)) [
  | inl e ↦ rw (e, h) t
  | inr e ↦ rw e (ground (arith, t, valid_names-insert_field k v fs h))
]

pub valid_names-sort_fields :
    (fs : Fields) → valid_names fs ≡ true → valid_names (sort_fields fs) ≡ true
unfolding sort_fields valid_names
valid_names-sort_fields no_fields h = refl
valid_names-sort_fields (field k v fs) h =
    valid_names-insert_field k v (sort_fields fs) (ground (arith, h))
      (valid_names-sort_fields fs (ground (arith, h)))

-- Fields that ascend are sorted.
pub sort_fields-Ascending :
    (previous : Bytes) (fs : Fields) → Ascending previous fs → sort_fields fs ≡ fs
unfolding sort_fields insert_field
sort_fields-Ascending previous no_fields h = refl
sort_fields-Ascending previous (field k v no_fields) h = refl
sort_fields-Ascending previous (field k v (field n w fs)) (_, (p, h)) =
    ap (insert_field k v) (sort_fields-Ascending k (field n w fs) (p, h)) ∙ rw p refl
