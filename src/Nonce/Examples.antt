-- ===== src/Nonce/Examples.antt =====
-- Runs at concrete inputs, and the theorems there.
use stacks_k8s.Common.{
  ℕ, ◌+◌, ◌<◌, ◌≡◌, refl, ◌↔◌, true, none, some, List, [], ◌∷◌, arith, ok, replicate, length, All,
  nat_eq, list_eq,
}
use stacks_k8s.Common.Int.{pos}
use stacks_k8s.Encoding.Hex.{
  Bytes, canonical_hash, hex_digit, from_hex_char, encode_to_string, decode_string, IsLowerHex,
}
use stacks_k8s.Encoding.Hex.Canonical.{canonical_hash_iff}
use stacks_k8s.Nonce.{
  Transaction, Account, Inclusion, accepted, NodeRef, World, Inputs, NonceStream, PendingSubmission,
  TransactionPostcondition, new_stream, offer, observe, settle_observed, valid,
}
use stacks_k8s.Nonce.Gates.{Cleared}
use stacks_k8s.Nonce.Accounting.{IsAccounted, AnswersUint64, new_stream-IsAccounted}
use stacks_k8s.Nonce.Submission.{offer-Cleared, Left}
use stacks_k8s.Nonce.Settlement.{Observed, Attributed, observe_settles, settle_observed_settles}
use stacks_k8s.Nonce.Counters.{execution_counters_advance, run_counters_advance}
use stacks_k8s.Nonce.Runs.{
  Call, observes, offers, settles, run, settlements, run-IsAccounted, settlements_increase,
  IsIncreasing,
}

abbrev zero_digest : Bytes → Bytes
zero_digest raw = replicate 32 0

-- A node whose account stands at nonce 7, and which accepts and includes everything.
abbrev friendly : World
friendly = record {
  account = λ n a.
      ok (record { nonce = 7; balance = some (pos 100); locked = some (pos 0); unlock_height = 0 });
  inclusion = λ n t. ok (record { found = true; success = true; block_id = "b" });
  submit = λ n t. accepted;
}

abbrev transfer : Transaction
transfer = record { bytes = 1 ∷ []; txid = replicate 64 48 }

abbrev inputs : Inputs
inputs = record {
  clock = some (λ k. 10 + k);
  node = some 1;
  amount = some (pos 5);
  authorize = some none;
  build = some (λ n. ok transfer);
}

friendly-AnswersUint64 : AnswersUint64 friendly
friendly-AnswersUint64 = record { account_fits = λ n a x e. fits x e }
  where
    fits :
        (x : Account)
        → ok (record {
          nonce = 7;
          balance = some (pos 100);
          locked = some (pos 0);
          unlock_height = 0;
        })
          ≡ ok x
        → x.nonce < 18_446_744_073_709_551_616
    fits x e = ground arith

abbrev start : NonceStream
start = new_stream "ST1"

sent_first : (offer zero_digest friendly inputs start).sent ≡ some (1, transfer)
unfolding offer new_stream valid encode_to_string hex_digit
sent_first = refl

offer-Cleared_example :
    (clock : ℕ → ℕ) × (a : Account) × Cleared zero_digest friendly inputs start clock 1 a transfer
    × Left friendly start clock 1 a transfer (offer zero_digest friendly inputs start).stream
offer-Cleared_example = offer-Cleared zero_digest friendly inputs start 1 transfer sent_first

abbrev calls : List Call
calls = offers friendly inputs ∷ observes friendly 20 ∷ offers friendly inputs ∷ []

calls-Answers : All (λ c. stacks_k8s.Nonce.Runs.Answers c) calls
calls-Answers = (friendly-AnswersUint64, (tt, (friendly-AnswersUint64, tt)))

run-IsAccounted_example : IsAccounted (run zero_digest start calls)
run-IsAccounted_example =
    run-IsAccounted zero_digest start calls calls-Answers (new_stream-IsAccounted "ST1")

settlements_increase_example : IsIncreasing 0 (settlements zero_digest start calls)
settlements_increase_example =
    settlements_increase zero_digest start calls calls-Answers (new_stream-IsAccounted "ST1")

run_counters_advance_example :
    execution_counters_advance (some start.facts) (some (run zero_digest start calls).facts) ≡ true
run_counters_advance_example =
    run_counters_advance zero_digest start calls calls-Answers (new_stream-IsAccounted "ST1")

settled_seven : settlements zero_digest start calls ≡ 7 ∷ []
unfolding settlements offer observe new_stream valid encode_to_string hex_digit
settled_seven = refl

abbrev submitted : NonceStream
submitted = run zero_digest start (offers friendly inputs ∷ [])

abbrev outstanding : PendingSubmission
outstanding = record { node = 1; transaction = transfer; nonce = 7 }

submitted_pending : submitted.pending ≡ some outstanding
unfolding run offer new_stream valid encode_to_string hex_digit
submitted_pending = refl

submitted-IsAccounted : IsAccounted submitted
submitted-IsAccounted =
    run-IsAccounted zero_digest start (offers friendly inputs ∷ []) (friendly-AnswersUint64, tt)
      (new_stream-IsAccounted "ST1")

observe_settles_example :
    Observed friendly 20 submitted outstanding (observe friendly 20 submitted).stream
observe_settles_example =
    observe_settles friendly 20 submitted outstanding submitted_pending submitted-IsAccounted

abbrev deployed : TransactionPostcondition
deployed = record {
  txid = replicate 64 48;
  kind = "ContractDeployment";
  state_digest = 115 ∷ 104 ∷ 97 ∷ 50 ∷ 53 ∷ 54 ∷ 58 ∷ replicate 64 97;
  stacks_tip = replicate 64 98;
  observed_at = 30;
}

settle_observed_settles_example :
    (((settle_observed (replicate 64 48) 8 deployed submitted).stream.pending ≡ none)
      ↔ Attributed (replicate 64 48) 8 deployed outstanding)
    × ((settle_observed (replicate 64 48) 8 deployed submitted).stream.facts.included
        ≡ submitted.facts.included)
settle_observed_settles_example =
    settle_observed_settles (replicate 64 48) 8 deployed submitted outstanding submitted_pending
      submitted-IsAccounted

abbrev tip : Bytes
tip = replicate 64 97

canonical_hash_iff_example : (canonical_hash tip ≡ true) ↔ ((length tip ≡ 64) × All IsLowerHex tip)
canonical_hash_iff_example = canonical_hash_iff tip

tip_accepted : canonical_hash tip ≡ true
unfolding canonical_hash decode_string encode_to_string from_hex_char hex_digit
tip_accepted = refl
