-- ===== src/Nonce/Gates.antt =====
-- Every gate that stands before the one send of an offer.
use stacks_k8s.Common.{
  ℕ, ◌≤◌, ◌≡◌, refl, ap, ◌≢◌, String, true, false, ◌||◌, Option, none, some, arith, Result, ok, err,
  Bool-cases, inl, inr, ltb, ◌==◌, nat_eq, nat_beq_iff,
}
use stacks_k8s.Common.Int.{ℤ, pos, ◌≤ℤ◌, ltb_ℤ}
use stacks_k8s.Encoding.Hex.{Bytes}
use stacks_k8s.Nonce.{
  Transaction, valid, Account, NodeRef, World, Inputs, NonceStream, PendingSubmission, Outcome,
  max_uint64, record_offer, after_submit, send, built, initialize, funded, with_account, complete,
  timed, idle, offer,
}

-- What has been checked when a transaction is sent.
pub record Cleared (digest : Bytes → Bytes) (w : World) (i : Inputs) (s : NonceStream)
    (clock : ℕ → ℕ) (node : NodeRef) (a : Account) (tx : Transaction) : Type 0 where
  pub amount : ℤ
  pub balance : ℤ
  pub locked : ℤ
  pub build : ℕ → Result Transaction
  pub idle_before : s.pending ≡ none
  pub clock_given : i.clock ≡ some clock
  pub backed_off : s.retry_at ≤ clock 0
  pub not_exhausted : s.exhausted ≡ false
  pub counter_free : s.facts.offered ≢ max_uint64
  pub node_given : i.node ≡ some node
  pub amount_given : i.amount ≡ some amount
  pub build_given : i.build ≡ some build
  pub authorized : i.authorize ≡ some none
  pub amount_sign : pos 0 ≤ℤ amount
  pub account_read : w.account node s.address ≡ ok a
  pub balance_read : a.balance ≡ some balance
  pub locked_read : a.locked ≡ some locked
  pub nonce_agrees : a.nonce ≡ (initialize s a.nonce).next
  pub affordable : amount ≤ℤ balance
  pub signed : build a.nonce ≡ ok tx
  pub well_formed : valid digest tx ≡ true

-- The three ways in which an offer ends.
pub data Offered (digest : Bytes → Bytes) (w : World) (i : Inputs) (s : NonceStream) (o : Outcome)
    : Type 0 where
  quiet : o.sent ≡ none → o.stream ≡ s → Offered digest w i s o
  ready :
      (node : NodeRef) (a : Account)
      → s.pending ≡ none
      → s.exhausted ≡ false
      → w.account node s.address ≡ ok a
      → o.sent ≡ none
      → o.stream ≡ initialize s a.nonce
      → Offered digest w i s o
  sent :
      (clock : ℕ → ℕ) (node : NodeRef) (a : Account) (tx : Transaction)
      → Cleared digest w i s clock node a tx
      → o
        ≡ after_submit clock
            (record_offer (initialize s a.nonce) node tx)
            node
            tx
            (w.submit node tx)
      → Offered digest w i s o

module _ (digest : Bytes → Bytes) (w : World) (i : Inputs) (s : NonceStream) where
  -- What is known when the account's answer is looked at.
  record Asked (clock : ℕ → ℕ) (node : NodeRef) (amount : ℤ) (au : Option String)
      (build : ℕ → Result Transaction) : Type 0 where
    idle_before : s.pending ≡ none
    clock_given : i.clock ≡ some clock
    backed_off : s.retry_at ≤ clock 0
    not_exhausted : s.exhausted ≡ false
    counter_free : s.facts.offered ≢ max_uint64
    node_given : i.node ≡ some node
    amount_given : i.amount ≡ some amount
    build_given : i.build ≡ some build
    authorize_given : i.authorize ≡ some au
    amount_sign : pos 0 ≤ℤ amount

  module _ (clock : ℕ → ℕ) (node : NodeRef) (amount : ℤ) (au : Option String)
      (build : ℕ → Result Transaction) (k : Asked clock node amount au build) (a : Account)
      (read : w.account node s.address ≡ ok a) where
    built-Offered :
        (balance locked : ℤ) (r : Result Transaction)
        → a.balance ≡ some balance
        → a.locked ≡ some locked
        → a.nonce ≡ (initialize s a.nonce).next
        → amount ≤ℤ balance
        → build a.nonce ≡ r
        → Offered digest w i s (built digest w clock node au (initialize s a.nonce) r)
    built-Offered balance locked (err e) hb hl hn ha hr =
        unfold built in ready node a k.idle_before k.not_exhausted read refl refl
    built-Offered balance locked (ok tx) hb hl hn ha hr = elim (Bool-cases (valid digest tx)) [
      | inr v ↦ unfold built in ready node a k.idle_before k.not_exhausted read (rw v) (rw v)
      | inl v ↦ unfold built in rw v (sending v au k.authorize_given)
    ]
      where
        sending :
            valid digest tx ≡ true
            → (x : Option String) → i.authorize ≡ some x
            → Offered digest w i s (send w clock node tx (initialize s a.nonce) x)
        sending v (some e) q =
            unfold send in ready node a k.idle_before k.not_exhausted read refl refl
        sending v none q =
            unfold send in
            sent clock node a tx
              (record {
                amount = amount;
                balance = balance;
                locked = locked;
                build = build;
                idle_before = k.idle_before;
                clock_given = k.clock_given;
                backed_off = k.backed_off;
                not_exhausted = k.not_exhausted;
                counter_free = k.counter_free;
                node_given = k.node_given;
                amount_given = k.amount_given;
                build_given = k.build_given;
                authorized = q;
                amount_sign = k.amount_sign;
                account_read = read;
                balance_read = hb;
                locked_read = hl;
                nonce_agrees = hn;
                affordable = ha;
                signed = hr;
                well_formed = v;
              })
              refl

    funded-Offered :
        (b l : Option ℤ)
        → a.balance ≡ b
        → a.locked ≡ l
        → Offered digest w i s (funded digest w clock node amount au build s a b l)
    funded-Offered none l hb hl = unfold funded in quiet refl refl
    funded-Offered (some b) none hb hl = unfold funded in quiet refl refl
    funded-Offered (some b) (some l) hb hl =
        elim (Bool-cases (a.nonce == (initialize s a.nonce).next)) [
          | inr n ↦ unfold funded in ready node a k.idle_before k.not_exhausted read (rw n) (rw n)
          | inl n ↦ elim (Bool-cases (ltb_ℤ b amount)) [
            | inl f ↦
                unfold funded in
                ready node a k.idle_before k.not_exhausted read (rw (n, f)) (rw (n, f))
            | inr f ↦
                let e = (nat_beq_iff a.nonce (initialize s a.nonce).next).0 n in
                unfold funded in
                rw (n, f)
                  (built-Offered b l (build (initialize s a.nonce).next) hb hl e (ground arith)
                    (ap build e))
          ]
        ]

  gated-Outcome :
      (clock : ℕ → ℕ) (node : NodeRef) (amount : ℤ) (au : Option String)
      (build : ℕ → Result Transaction)
      → Asked clock node amount au build
      → (r : Result Account) → w.account node s.address ≡ r
      → Offered digest w i s (with_account digest w clock node amount au build s r)
  gated-Outcome clock node amount au build k (err e) q = unfold with_account in quiet refl refl
  gated-Outcome clock node amount au build k (ok a) q =
      unfold with_account in
      funded-Offered clock node amount au build k a q a.balance a.locked refl refl

  complete-Offered :
      (clock : ℕ → ℕ) (node : Option NodeRef) (amount : Option ℤ) (au : Option (Option String))
      (build : Option (ℕ → Result Transaction))
      → s.pending ≡ none
      → i.clock ≡ some clock
      → s.retry_at ≤ clock 0
      → s.exhausted ≡ false
      → s.facts.offered ≢ max_uint64
      → i.node ≡ node
      → i.amount ≡ amount
      → i.authorize ≡ au
      → i.build ≡ build
      → Offered digest w i s (complete digest w clock s node amount au build)
  complete-Offered clock (some n) (some m) (some au) (some b) p c r x f hn hm ha hb =
      elim (Bool-cases (ltb_ℤ m (pos 0))) [
        | inl e ↦ unfold complete in quiet (rw e) (rw e)
        | inr e ↦
            unfold complete in
            rw e (
              gated-Outcome clock n m au b
                (record {
                  idle_before = p;
                  clock_given = c;
                  backed_off = r;
                  not_exhausted = x;
                  counter_free = f;
                  node_given = hn;
                  amount_given = hm;
                  build_given = hb;
                  authorize_given = ha;
                  amount_sign = ground arith;
                })
                (w.account n s.address) refl)
      ]
  complete-Offered clock _ _ _ _ p c r x f hn hm ha hb = unfold complete in quiet refl refl

  timed-Offered :
      (c : Option (ℕ → ℕ))
      → i.clock ≡ c
      → s.pending ≡ none
      → Offered digest w i s (timed digest w i s c)
  timed-Offered none e p = unfold timed in quiet refl refl
  timed-Offered (some clock) e p = elim (Bool-cases (ltb (clock 0) s.retry_at)) [
    | inl b ↦ unfold timed in quiet (rw b) (rw b)
    | inr b ↦ elim (Bool-cases (s.exhausted || s.facts.offered == max_uint64)) [
      | inl x ↦ unfold timed in quiet (rw (b, x)) (rw (b, x))
      | inr x ↦
          unfold timed in
          rw (b, x)
            (complete-Offered clock i.node i.amount i.authorize i.build p e (ground arith)
              (ground arith) (ground arith) refl refl refl refl)
    ]
  ]

  idle-Offered :
      (o : Option PendingSubmission) → s.pending ≡ o → Offered digest w i s (idle digest w i s o)
  idle-Offered (some p) e = unfold idle in quiet refl refl
  idle-Offered none e = unfold idle in timed-Offered i.clock refl e

-- An offer sends nothing and changes nothing, or sends nothing and at most takes over the account's
-- nonce, or sends one transaction for which every gate was passed.
pub offer_cases :
    (digest : Bytes → Bytes) (w : World) (i : Inputs) (s : NonceStream)
    → Offered digest w i s (offer digest w i s)
offer_cases digest w i s = unfold offer in idle-Offered digest w i s s.pending refl
