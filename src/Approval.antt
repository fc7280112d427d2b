-- ===== src/Approval.antt =====
-- frontend/backend/confirm.py: the approval gate of the operator's frontend. The kernel's store of
-- confirmation requests, with `load_request` and `resolve_confirmation`, is a parameter; the text
-- that `secrets.token_urlsafe` draws is an argument of the call that draws it.
pub mod Gate
use araratsec_agent.Prelude.{
  String, Bool, true, false, Option, none, some, List, [], ◌∷◌, ◌&&◌, ◌||◌, not, ◌==◌,
  if◌then◌else◌,
}
use araratsec_agent.Prelude.Texts.{is_empty}
use araratsec_agent.Prelude.Dict.{Dict, lookup, insert, erase}
use araratsec_agent.Prelude.Result.{Result, ok, raise}

-- The request that a notice shows: the fields of the payload that `load_notice` reads.
pub record Request : Type 0 where
  pub action_type : Option String
  pub params : String
  pub status : Option String

pub record Notice : Type 0 where
  pub id : String
  pub action_type : Option String
  pub params : String
  pub state : String
  pub confirm_token : String

-- `ApprovalError` by its two causes, and what the kernel raises.
pub data Failure : Type 0 where
  bad_decision needs_token : Failure
  kernel_error : String → Failure

-- The kernel's side: its store, and the two calls. `resolve_confirmation` leaves a store behind also
-- where it raises.
pub record Kernel : Type 1 where
  pub Store : Type 0
  pub Status : Type 0
  pub load_request : String → Store → Result String Request
  pub resolve_confirmation : String → Bool → Store → Result String Status × Store

abbrev status_or_pending : Option String → String
status_or_pending none = "pending"
status_or_pending (some s) = s

module _ (kernel : Kernel) where
  open kernel use {Store, Status, load_request, resolve_confirmation}

  -- `_TOKENS`, and the kernel's store.
  pub record GateState : Type 0 where
    pub tokens : Dict String
    pub store : Store

  unfoldable pub issue_token : String → String → GateState → GateState
  issue_token cid token s = record s { tokens = insert cid token s.tokens }

  -- `_valid`
  unfoldable pub is_valid_token : String → Option String → GateState → Bool
  is_valid_token cid token s = elim (lookup cid s.tokens) [
    | none ↦ false
    | some expected ↦ elim token [
      | none ↦ false
      | some t ↦ not (is_empty expected) && not (is_empty t) && expected == t
    ]
  ]

  -- The end of `decide`, behind the kernel's call: the token is dropped if that returned.
  abbrev pub settle :
      String → GateState → Result String Status × Store → Result Failure Status × GateState
  settle cid s (raise e, store') =
      (raise (kernel_error e), record { tokens = s.tokens; store = store' })
  settle cid s (ok status, store') =
      (ok status, record { tokens = erase cid s.tokens; store = store' })

  unfoldable pub resolve : String → Bool → GateState → Result Failure Status × GateState
  resolve cid approve s = settle cid s (resolve_confirmation cid approve s.store)

  unfoldable pub decide :
      String → Option String → String → GateState → Result Failure Status × GateState
  unfolding is_valid_token resolve
  decide cid token decision s =
      if not (decision == "approve" || decision == "reject")
      then (raise bad_decision, s)
      else if decision == "approve" && not (is_valid_token cid token s)
      then (raise needs_token, s)
      else resolve cid (decision == "approve") s

  unfoldable pub load_notice : String → String → GateState → Result Failure Notice × GateState
  unfolding issue_token
  load_notice cid fresh s = elim (load_request cid s.store) [
    | raise e ↦ (raise (kernel_error e), s)
    | ok payload ↦ (
      ok (record {
        id = cid;
        action_type = payload.action_type;
        params = payload.params;
        state = status_or_pending payload.status;
        confirm_token = fresh;
      }),
      issue_token cid fresh s,
    )
  ]

-- A file of the confirmations directory that parses: its stem, its id and the time of its creation
-- if it has them, its payload.
pub record PendingFile : Type 0 where
  pub stem : String
  pub confirmation_id : Option String
  pub created_at : Option String
  pub payload : Request

pub record PendingItem : Type 0 where
  pub id : String
  pub action_type : Option String
  pub params : String
  pub state : String
  pub created_at : Option String

abbrev is_pending : Option String → Bool
is_pending none = false
is_pending (some s) = s == "pending"

abbrev id_or_stem : Option String → String → String
id_or_stem none stem = stem
id_or_stem (some i) stem = i

-- `list_pending`, on the files of the directory in order; a file that does not parse is `none`.
unfoldable pub list_pending : List (Option PendingFile) → List PendingItem
list_pending [] = []
list_pending (none ∷ files) = list_pending files
list_pending (some f ∷ files) =
    if is_pending f.payload.status
    then record {
      id = id_or_stem f.confirmation_id f.stem;
      action_type = f.payload.action_type;
      params = f.payload.params;
      state = "pending";
      created_at = f.created_at;
    }
      ∷ list_pending files
    else list_pending files
