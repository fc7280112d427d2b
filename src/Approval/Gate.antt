-- ===== src/Approval/Gate.antt =====
-- What the gate lets through, over any sequence of calls.
use araratsec_agent.Prelude.{
  not, ◌&&◌, ◌||◌, ◌==◌, Bool-cases, String, Bool, ◌≡◌, ◌≢◌, refl, ◌⊎◌, inl, inr, Option, none,
  some, List, [], ◌∷◌, arith, eq_iff, Option-cases,
}
use araratsec_agent.Prelude.Dict.{lookup, lookup-insert, lookup-erase}
use araratsec_agent.Prelude.Result.{Result, ok, raise}
use araratsec_agent.Approval.{
  Kernel, GateState, Failure, needs_token, kernel_error, is_valid_token, settle, resolve, decide,
  load_notice,
}

-- A call that the frontend makes.
pub data Call : Type 0 where
  fetch : String → String → Call
  answer : String → Option String → String → Call

-- The calls, the latest first, hold a fetch of this id that drew this token.
abbrev pub Fetched : String → String → List Call → Type 0
Fetched cid t [] = ⊥
Fetched cid t (fetch cid' t' ∷ calls) = ((cid' ≡ cid) × (t' ≡ t)) ⊎ Fetched cid t calls
Fetched cid t (answer _ _ _ ∷ calls) = Fetched cid t calls

module _ (kernel : Kernel) where
  open kernel use {Store, Status}

  abbrev pub step : Call → GateState kernel → GateState kernel
  step (fetch cid fresh) s = (load_notice kernel cid fresh s).1
  step (answer cid token decision) s = (decide kernel cid token decision s).1

  -- The state after the calls, the latest first.
  unfoldable pub run : List Call → GateState kernel → GateState kernel
  run [] s = s
  run (c ∷ calls) s = step c (run calls s)

  token-load_notice :
      (cid fresh cid' t : String) (s : GateState kernel)
      → lookup cid (load_notice kernel cid' fresh s).1.tokens ≡ some t
      → ((cid' ≡ cid) × (fresh ≡ t)) ⊎ (lookup cid s.tokens ≡ some t)
  unfolding load_notice
  token-load_notice cid fresh cid' t s h =
      ground (arith, lookup-insert cid' cid fresh s.tokens, eq_iff cid' cid)

  token-decide :
      (cid t cid' : String) (token : Option String) (decision : String) (s : GateState kernel)
      → lookup cid (decide kernel cid' token decision s).1.tokens ≡ some t
      → lookup cid s.tokens ≡ some t
  unfolding decide
  token-decide cid t cid' token decision s h = ground (arith, lookup-erase cid' cid s.tokens)

  token-Fetched :
      (calls : List Call) (store : Store) (cid t : String)
      → lookup cid (run calls (record { tokens = []; store = store })).tokens ≡ some t
      → Fetched cid t calls
  unfolding run lookup
  token-Fetched [] store cid t h = cc
  token-Fetched (fetch cid' fresh ∷ calls) store cid t h = ground (
    arith,
    token-load_notice cid fresh cid' t (run calls (record { tokens = []; store = store })) h,
    token-Fetched calls store cid t,
  )
  token-Fetched (answer cid' token decision ∷ calls) store cid t h =
      token-Fetched calls store cid t (
        token-decide cid t cid' token decision (run calls (record { tokens = []; store = store }))
          h)

  decide-approve :
      (cid : String) (token : Option String) (s : GateState kernel) {status : Status}
      → (decide kernel cid token "approve" s).0 ≡ ok status
      → (t : String) × (token ≡ some t) × (t ≢ "") × (lookup cid s.tokens ≡ some t)
  unfolding decide
  decide-approve cid none s h = ground arith
  decide-approve cid (some t) s h = elim (Option-cases (lookup cid s.tokens)) [
    | inl unknown ↦ ground arith
    | inr (expected, known) ↦
        (t, refl, ground (arith, eq_iff t ""), ground (arith, eq_iff expected t))
  ]

  -- After any calls from an empty token table, an action is approved only with a token that a fetch
  -- of its own notice drew.
  pub approve_needs_fetch :
      (calls : List Call) (store : Store) (cid : String) (token : Option String) (status : Status)
      → (decide kernel cid token "approve" (run calls (record { tokens = []; store = store }))).0
        ≡ ok status
      → (t : String) × (token ≡ some t) × (t ≢ "") × Fetched cid t calls
  approve_needs_fetch calls store cid token status h =
      let (t, e, full, known) = decide-approve cid token _ h in
      (t, e, full, token-Fetched calls store cid t known)

  decide-spends :
      (cid : String) (token : Option String) (decision : String) (s : GateState kernel)
      {status : Status}
      → (decide kernel cid token decision s).0 ≡ ok status
      → lookup cid (decide kernel cid token decision s).1.tokens ≡ none
  unfolding decide
  decide-spends cid token decision s h =
      ground (arith, lookup-erase cid cid s.tokens, eq_iff cid cid)

  approve_without_token :
      (cid : String) (token : Option String) (s : GateState kernel)
      → lookup cid s.tokens ≡ none
      → (decide kernel cid token "approve" s).0 ≡ raise needs_token
  unfolding decide
  approve_without_token cid token s h = ground arith

  -- A token serves once: right behind a decision that went through, no token at all approves the
  -- same action.
  pub decide_once :
      (cid : String) (token token' : Option String) (decision : String) (s : GateState kernel)
      (status : Status)
      → (decide kernel cid token decision s).0 ≡ ok status
      → (decide kernel cid token' "approve" (decide kernel cid token decision s).1).0
        ≡ raise needs_token
  decide_once cid token token' decision s status h =
      approve_without_token cid token' _ (decide-spends cid token decision s h)

  -- The kernel raised, for the reason that the failure gives, and left this store.
  abbrev pub KernelRaised : String → Store → Failure → Store → Type 0
  KernelRaised cid store e store' =
      (approve : Bool) × (why : String) × (e ≡ kernel_error why)
      × (kernel.resolve_confirmation cid approve store ≡ (raise why, store'))

  settle-raise :
      (cid : String) (s : GateState kernel) (e : Failure) (q : Result String Status × Store)
      → (settle kernel cid s q).0 ≡ raise e
      → ((settle kernel cid s q).1.tokens ≡ s.tokens)
        × (why : String) × (e ≡ kernel_error why)
        × (q ≡ (raise why, (settle kernel cid s q).1.store))
  settle-raise cid s e (raise why, store') h = (refl, why, ground arith, refl)
  settle-raise cid s e (ok status, store') h = ground arith

  resolve-raise :
      (cid : String) (approve : Bool) (s : GateState kernel) (e : Failure)
      → (resolve kernel cid approve s).0 ≡ raise e
      → ((resolve kernel cid approve s).1.tokens ≡ s.tokens)
        × KernelRaised cid s.store e (resolve kernel cid approve s).1.store
  unfolding resolve
  resolve-raise cid approve s e h =
      let (kept, why, e', q) =
        settle-raise cid s e (kernel.resolve_confirmation cid approve s.store) h in
      (kept, (approve, why, e', q))

  -- A decision that raises spends no token. It leaves the kernel's store as it was, unless the kernel
  -- itself raised: then the store is what the kernel left.
  pub decide_fails_safe :
      (cid : String) (token : Option String) (decision : String) (s : GateState kernel)
      (e : Failure)
      → (decide kernel cid token decision s).0 ≡ raise e
      → ((decide kernel cid token decision s).1.tokens ≡ s.tokens)
        × (((decide kernel cid token decision s).1.store ≡ s.store)
            ⊎ KernelRaised cid s.store e (decide kernel cid token decision s).1.store)
  unfolding decide
  decide_fails_safe cid token decision s e h =
      elim (Bool-cases (not (decision == "approve" || decision == "reject"))) [
        | inl bad ↦ rw bad (refl, inl refl)
        | inr known ↦
            elim (Bool-cases (decision == "approve" && not (is_valid_token kernel cid token s))) [
              | inl untrusted ↦ rw (known, untrusted) (refl, inl refl)
              | inr trusted ↦
                  (let (kept, raised) =
                      resolve-raise cid (decision == "approve") s e (rw (known, trusted) at h) in
                    rw (known, trusted) (kept, inr raised))
            ]
      ]
