-- ===== src/Actions/Checks.antt =====
-- What an accepted action has passed.
use mathlib.Core.Path.{subst}
use araratsec_agent.Prelude.{
  zero, suc, ◌≤◌, ◌≡◌, ◌≢◌, refl, sym, ◌↔◌, ◌⊎◌, String, Bool, true, false, Option, none, some, not,
  arith, eq_iff, if◌then◌else◌,
}
use araratsec_agent.Prelude.Texts.{strip}
use araratsec_agent.Prelude.Int.{ℤ, pos, negsuc, pos_part}
use araratsec_agent.Prelude.Result.{Result, ok, raise, ◌>>=◌, ok-injective}
use araratsec_agent.Actions.{
  AuditActionType, build_graph, run_slither, run_mythril, analyze_transactions, decompile_bytecode,
  run_discovery, run_check, run_synthesis, skip_target, write_poc, run_tests, deploy_test_contract,
  read_only, action_class, is_reversible, Value, text, number, null, Params, Paths, Rejection,
  BadInt, truthy, over_limit, text_of, is_blank, is_local, no_target, no_reason, no_address,
  too_many_blocks, bad_network, rejected, value_or, target_path, int_value, check_address,
  validate_params,
}

-- An action can be undone exactly if its class is read-only.
pub is_reversible_iff :
    (a : AuditActionType) → (is_reversible a ≡ true) ↔ (action_class a ≡ read_only)
unfolding is_reversible action_class
is_reversible_iff a = ground arith

-- A reason that is a text with something else than spaces, or a number other than zero.
abbrev pub HasReason : Option Value → Type 0
HasReason none = ⊥
HasReason (some null) = ⊥
HasReason (some (text s)) = strip s ≢ ""
HasReason (some (number n)) = n ≢ pos 0

-- An address that is a text with characters, or a number other than zero.
abbrev pub HasAddress : Option Value → Type 0
HasAddress none = ⊥
HasAddress (some null) = ⊥
HasAddress (some (text s)) = s ≢ ""
HasAddress (some (number n)) = n ≢ pos 0

number_iff : (n : ℤ) → (truthy (number n) ≡ true) ↔ (n ≢ pos 0)
unfolding truthy
number_iff (pos zero) = (λ h. ground arith, λ h. absurd (h refl))
number_iff (pos (suc n)) = (λ h e. ground arith, λ h. ground arith)
number_iff (negsuc n) = (λ h e. ground arith, λ h. refl)

HasReason-is_blank : (v : Option Value) → (is_blank v ≡ false) ↔ HasReason v
unfolding is_blank
HasReason-is_blank none = ground arith
HasReason-is_blank (some null) = ground arith
HasReason-is_blank (some (text s)) = ground (arith, eq_iff (strip s) "")
HasReason-is_blank (some (number n)) = ground (arith, number_iff n)

HasAddress-truthy : (v : Option Value) → (truthy (value_or null v) ≡ true) ↔ HasAddress v
unfolding truthy
HasAddress-truthy none = ground arith
HasAddress-truthy (some null) = ground arith
HasAddress-truthy (some (text s)) = ground (arith, eq_iff s "")
HasAddress-truthy (some (number n)) = number_iff n

limit-pos_part : (n : ℤ) → (over_limit n ≡ false) ↔ (pos_part n ≤ 10000)
unfolding over_limit
limit-pos_part (pos n) = ground arith
limit-pos_part (negsuc n) = ground arith

module _ (paths : Paths) where
  open paths use {Root, check_filepath, is_absolute, under, int_of_text}

  -- The file that a target names passes the kernel's check under the scope's root.
  abbrev pub InScope : Root → Option Value → Type 0
  InScope root target =
      (t : String) × (target ≡ some (text t))
      × (t ≢ "")
      × (check_filepath (some (text (target_path paths root t))) (some root) ≡ none)

  abbrev Answer : Type 0
  Answer = Result BadInt (Option Rejection)

  unblocked :
      (b : Bool) (why : Rejection) (r : Answer)
      → (if b then ok (some why) else r) ≡ ok none
      → (b ≡ false) × (r ≡ ok none)
  unblocked true why r h = ground arith
  unblocked false why r h = (refl, h)

  -- The check that `run_check` and `skip_target` end with.
  abbrev checked : Root → String → Result BadInt (Option Rejection)
  checked root t =
      ok (rejected (check_filepath (some (text (target_path paths root t))) (some root)))

  checked_iff :
      (root : Root) (t : String)
      → (checked root t ≡ ok none)
        ↔ (check_filepath (some (text (target_path paths root t))) (some root) ≡ none)
  checked_iff root t = ground arith

  text_of_iff :
      (v : Option Value) (t : String) → (text_of v ≡ some t) ↔ ((v ≡ some (text t)) × (t ≢ ""))
  unfolding text_of
  text_of_iff none t = ground arith
  text_of_iff (some (text s)) t = ground (arith, eq_iff s "")
  text_of_iff (some (number n)) t = ground arith
  text_of_iff (some null) t = ground arith

  checked-run_check :
      (root : Root) (v : Option Value)
      → (elim (text_of v) [ none ↦ ok (some no_target) | some t ↦ checked root t ] ≡ ok none)
        ↔ InScope root v
  checked-run_check root v = (
    forward (text_of v) refl,
    λ h. rw ((text_of_iff v h.0).1 (h.1, h.2)) ((checked_iff root h.0).1 h.3),
  )
    where
      forward :
          (o : Option String)
          → text_of v ≡ o
          → elim o [ none ↦ ok (some no_target) | some t ↦ checked root t ] ≡ ok none
          → InScope root v
      forward none e h = ground arith
      forward (some t) e h =
          let named = (text_of_iff v t).0 e in (t, named.0, named.1, (checked_iff root t).0 h)

  checked-skip_target :
      (root : Root) (v r : Option Value)
      → (elim (text_of v) [
        | none ↦ ok (some no_target)
        | some t ↦ if is_blank r then ok (some no_reason) else checked root t
      ]
          ≡ ok none)
        ↔ (InScope root v × (is_blank r ≡ false))
  checked-skip_target root v r = (
    forward (text_of v) refl,
    λ h. rw ((text_of_iff v h.0.0).1 (h.0.1, h.0.2), h.1) ((checked_iff root h.0.0).1 h.0.3),
  )
    where
      forward :
          (o : Option String)
          → text_of v ≡ o
          → elim o [
            | none ↦ ok (some no_target)
            | some t ↦ if is_blank r then ok (some no_reason) else checked root t
          ]
            ≡ ok none
          → InScope root v × (is_blank r ≡ false)
      forward none e h = ground arith
      forward (some t) e h =
          let named = (text_of_iff v t).0 e in
          let passed = unblocked (is_blank r) no_reason (checked root t) h in
          ((t, named.0, named.1, (checked_iff root t).0 passed.1), passed.0)

  -- What each action requires of its params; the five others require nothing.
  unfoldable pub Acceptable : AuditActionType → Params → Root → Type 0
  Acceptable run_slither p root = check_filepath p.target (some root) ≡ none
  Acceptable run_mythril p root = check_filepath p.target (some root) ≡ none
  Acceptable analyze_transactions p root =
      HasAddress p.address
      × (n : ℤ) × (int_value paths (value_or (number (pos 0)) p.max_blocks) ≡ ok n)
      × (pos_part n ≤ 10000)
  Acceptable run_check p root = InScope root p.target
  Acceptable skip_target p root = InScope root p.target × HasReason p.reason
  Acceptable write_poc p root = check_filepath p.finding_id none ≡ none
  Acceptable deploy_test_contract p root =
      (p.network ≡ some (text "anvil")) ⊎ (p.network ≡ some (text "localhost"))
  Acceptable build_graph p root = Unit
  Acceptable decompile_bytecode p root = Unit
  Acceptable run_discovery p root = Unit
  Acceptable run_synthesis p root = Unit
  Acceptable run_tests p root = Unit

  limit_iff :
      (blocks : Value) (n : ℤ)
      → (◌≡◌ {A = Answer}
          (ok (if over_limit n then some (too_many_blocks blocks) else none))
          (ok none))
        ↔ (over_limit n ≡ false)
  limit_iff blocks n = ground arith

  blocks_iff :
      (b : Bool) (blocks : Value) (r : Result BadInt ℤ)
      → ((if not b
            then ok (some no_address)
            else (r >>= λ n. ok (if over_limit n then some (too_many_blocks blocks) else none)))
          ≡ ok none)
        ↔ ((b ≡ true) × (n : ℤ) × (r ≡ ok n) × (over_limit n ≡ false))
  blocks_iff false blocks r = ground arith
  blocks_iff true blocks (raise e) = ground arith
  blocks_iff true blocks (ok n) = (
    λ h. (refl, n, refl, (limit_iff blocks n).0 h),
    λ h. (limit_iff blocks n).1 (subst (λ m. over_limit m ≡ false) (sym (ok-injective h.2)) h.3),
  )

  address_iff :
      (p : Params)
      → (check_address paths p ≡ ok none) ↔ (
          (truthy (value_or null p.address) ≡ true)
          × (n : ℤ) × (int_value paths (value_or (number (pos 0)) p.max_blocks) ≡ ok n)
          × (over_limit n ≡ false))
  unfolding check_address
  address_iff p =
      blocks_iff (truthy (value_or null p.address)) (value_or (number (pos 0)) p.max_blocks)
        (int_value paths (value_or (number (pos 0)) p.max_blocks))

  required_iff :
      (p : Params)
      → (check_address paths p ≡ ok none) ↔ (
          HasAddress p.address
          × (n : ℤ) × (int_value paths (value_or (number (pos 0)) p.max_blocks) ≡ ok n)
          × (pos_part n ≤ 10000))
  required_iff p = (
    λ h.
        let (a, n, e, l) = (address_iff p).0 h in
        ((HasAddress-truthy p.address).0 a, n, e, (limit-pos_part n).0 l),
    λ h.
        (address_iff p).1
          ((HasAddress-truthy p.address).1 h.0, h.1, h.2, (limit-pos_part h.1).1 h.3),
  )

  reasoned_iff :
      (root : Root) (v r : Option Value)
      → (elim (text_of v) [
        | none ↦ ok (some no_target)
        | some t ↦ if is_blank r then ok (some no_reason) else checked root t
      ]
          ≡ ok none)
        ↔ (InScope root v × HasReason r)
  reasoned_iff root v r = (
    λ h.
        let passed = (checked-skip_target root v r).0 h in
        (passed.0, (HasReason-is_blank r).0 passed.1),
    λ h. (checked-skip_target root v r).1 (h.0, (HasReason-is_blank r).1 h.1),
  )

  network_iff :
      (v : Option Value)
      → (◌≡◌ {A = Result BadInt (Option Rejection)}
          (ok (
            if is_local (value_or (text "") v)
            then none
            else some (bad_network (value_or (text "") v))))
          (ok none))
        ↔ ((v ≡ some (text "anvil")) ⊎ (v ≡ some (text "localhost")))
  unfolding is_local
  network_iff none = ground arith
  network_iff (some (text s)) = ground (arith, eq_iff s "anvil", eq_iff s "localhost")
  network_iff (some (number n)) = ground arith
  network_iff (some null) = ground arith

  -- The params of an action are accepted exactly if they are what the action requires: for a check or
  -- a skip a target whose file passes the kernel's check, for a skip a reason that is not blank too,
  -- for an analyzer a file and for a proof of concept an id that pass that check, for transactions an
  -- address and an integer of at most 10000 blocks, for a deployment a local network, and for the five
  -- others nothing.
  pub validate_params-accepts_iff :
      (a : AuditActionType) (p : Params) (root : Root)
      → (validate_params paths a p root ≡ ok none) ↔ Acceptable a p root
  unfolding validate_params Acceptable
  validate_params-accepts_iff build_graph p root = ground arith
  validate_params-accepts_iff run_slither p root = ground arith
  validate_params-accepts_iff run_mythril p root = ground arith
  validate_params-accepts_iff analyze_transactions p root = required_iff p
  validate_params-accepts_iff decompile_bytecode p root = ground arith
  validate_params-accepts_iff run_discovery p root = ground arith
  validate_params-accepts_iff run_check p root = checked-run_check root p.target
  validate_params-accepts_iff run_synthesis p root = ground arith
  validate_params-accepts_iff skip_target p root = reasoned_iff root p.target p.reason
  validate_params-accepts_iff write_poc p root = ground arith
  validate_params-accepts_iff run_tests p root = ground arith
  validate_params-accepts_iff deploy_test_contract p root = network_iff p.network
