-- ===== src/Faucet/Queue.antt =====
-- operators/network/internal/stacksoperation/faucet_queue.go: the notices of faucet requests that a
-- worker keeps beside its active entries. Each map is the list of what is in it; of an entry only
-- its UID matters here. `watched` says that the event is of the collection that the worker watches,
-- and `request` is what the converter makes of the object.
use stacks_k8s.Common.{
  ℕ, ◌+◌, String, Bool, true, false, not, ◌&&◌, ◌||◌, Option, none, some, List, [], ◌∷◌, leb, ◌==◌,
  ◌/=◌, string_eq, if◌then◌else◌, length,
}
use stacks_k8s.Common.Int.{ℤ}
use stacks_k8s.Faucet.{
  FaucetAdmission, StacksFaucetRequest, deadline, matching_execution, terminal_execution,
}

abbrev pub capacity : ℕ
capacity = 1000

pub record FaucetNotice : Type 0 where
  pub name : String
  pub uid : String
  pub created : ℕ
  pub expires : ℕ
  pub deleted : Bool

pub record FaucetRole : Type 0 where
  pub namespace : String
  pub participant_uid : String
  pub pod_uid : String
  pub notices : List FaucetNotice
  pub entries : List String
  pub rescan : Bool

pub record CollectionEvent : Type 0 where
  pub watched : Bool
  pub namespace : String
  pub name : String
  pub uid : String
  pub request : Option StacksFaucetRequest
  pub deleted : Bool

unfoldable pub has_notice : String → List FaucetNotice → Bool
has_notice uid [] = false
has_notice uid (n ∷ ns) = n.uid == uid || has_notice uid ns

unfoldable pub delete_notice : String → List FaucetNotice → List FaucetNotice
delete_notice uid [] = []
delete_notice uid (n ∷ ns) =
    let rest = delete_notice uid ns in if n.uid == uid then ns else n ∷ rest

unfoldable pub put_notice : FaucetNotice → List FaucetNotice → List FaucetNotice
put_notice notice [] = notice ∷ []
put_notice notice (n ∷ ns) =
    let rest = put_notice notice ns in if n.uid == notice.uid then notice ∷ ns else n ∷ rest

unfoldable pub has_entry : String → List String → Bool
has_entry uid [] = false
has_entry uid (e ∷ es) = e == uid || has_entry uid es

unfoldable pub delete_entry : String → List String → List String
delete_entry uid [] = []
delete_entry uid (e ∷ es) = let rest = delete_entry uid es in if e == uid then es else e ∷ rest

-- The request is admitted for this worker's Pod.
unfoldable pub routed : FaucetRole → Option FaucetAdmission → Bool
routed r none = false
routed r (some a) =
    a.decision == "Admitted"
    && elim a.faucet [ none ↦ false | some faucet ↦ faucet.uid == r.participant_uid ]
    && elim a.worker [ none ↦ false | some worker ↦ worker.uid == r.pod_uid ]

unfoldable pub settled_request : StacksFaucetRequest → Bool
unfolding matching_execution terminal_execution
settled_request request =
    matching_execution request
    && elim request.execution [ none ↦ false | some e ↦ terminal_execution e ]

unfoldable pub note :
    (String → Option ℤ) → FaucetRole → CollectionEvent → StacksFaucetRequest → FaucetRole
unfolding has_entry settled_request delete_notice has_notice put_notice
note parse_duration r event request =
    if has_entry event.uid r.entries
    then r
    else if settled_request request
    then record r { notices = delete_notice event.uid r.notices }
    else if not (has_notice event.uid r.notices)
        && leb capacity (length r.notices + length r.entries)
    then record r { rescan = true }
    else record r {
      notices =
          put_notice
            (record {
              name = event.name;
              uid = event.uid;
              created = request.creation_timestamp;
              expires = elim (deadline parse_duration request) [ none ↦ 0 | some t ↦ t ];
              deleted = event.deleted;
            })
            r.notices;
    }

unfoldable pub collection_changed :
    (String → Option ℤ) → FaucetRole → CollectionEvent → Option StacksFaucetRequest → FaucetRole
unfolding routed note
collection_changed parse_duration r event none = r
collection_changed parse_duration r event (some request) =
    if not event.watched || event.namespace /= r.namespace
    then r
    else if not (routed r request.admission)
    then r
    else note parse_duration r event request

unfoldable pub forget_notice : String → FaucetRole → FaucetRole
unfolding delete_notice
forget_notice uid r = record r { notices = delete_notice uid r.notices }

unfoldable pub put_entry : String → FaucetRole → FaucetRole
unfolding delete_notice has_entry
put_entry uid r = record r {
  notices = delete_notice uid r.notices;
  entries = if has_entry uid r.entries then r.entries else uid ∷ r.entries;
}

unfoldable pub forget_entry : String → FaucetRole → FaucetRole
unfolding delete_entry
forget_entry uid r = record r { entries = delete_entry uid r.entries }
