-- ===== src/Sig/Reach/Walks.antt =====
-- The search finds exactly what can be called.
use mathlib.Core.Path.{subst}
use mathlib.Core.Logic.{⊎_elim}
use araratsec_agent.Prelude.{
  ℕ, zero, suc, ◌≤◌, ◌≡◌, refl, sym, ◌∙◌, ◌↔◌, ◌⊎◌, inl, inr, String, true, some, List, [], ◌∷◌,
  ◌++◌, arith, eq_iff, ◌==◌, ◌||◌, Bool-cases, or-true,
}
use araratsec_agent.Prelude.Texts.{contains}
use araratsec_agent.Sig.Reach.{Calls, callees, search_calls, rounds, reachable}
use araratsec_agent.Sig.Reach.Measure.{search_calls-ends}

abbrev pub In : String → List String → Type 0
In x xs = contains x xs ≡ true

-- The functions that a call of `start` may lead to, over one call or more.
pub data Walk (calls : Calls) (start : String) : String → Type 0 where
  direct : {f : String} → In f (callees calls start) → Walk calls start f
  onward : {f g : String} → Walk calls start f → In g (callees calls f) → Walk calls start g

pub contains-append :
    (x : String) (xs ys : List String) → contains x (xs ++ ys) ≡ contains x xs || contains x ys
contains-append x [] ys = refl
contains-append x (y ∷ xs) ys = ground (arith, contains-append x xs ys)

module _ (calls : Calls) (start : String) where
  -- What is on the stack or seen can be called.
  abbrev AreWalks : List String → Type 0
  AreWalks xs = (x : String) → In x xs → Walk calls start x

  -- What can be called in one step is seen or on the stack.
  abbrev IsClosed : List String → List String → Type 0
  IsClosed stack seen =
      ((y : String) → In y (callees calls start) → In y seen ⊎ In y stack)
      × ((x y : String) → In x seen → In y (callees calls x) → In y seen ⊎ In y stack)

  -- The invariant of the loop.
  record Invariant (stack seen : List String) : Type 0 where
    stack_walks : AreWalks stack
    seen_walks : AreWalks seen
    closed : IsClosed stack seen

  Invariant-old :
      (n : String) (stack seen : List String)
      → In n seen
      → Invariant (n ∷ stack) seen
      → Invariant stack seen
  Invariant-old n stack seen old i = record {
    stack_walks = λ x h. i.stack_walks x (ground arith);
    seen_walks = i.seen_walks;
    closed = (
      λ y h. ground (arith, i.closed.0 y h, eq_iff y n),
      λ x y h k. ground (arith, i.closed.1 x y h k, eq_iff y n),
    );
  }

  head-In : (n : String) (xs : List String) → In n (n ∷ xs)
  head-In n xs = ground (arith, eq_iff n n)

  Invariant-new :
      (n : String) (stack seen : List String)
      → Invariant (n ∷ stack) seen
      → Invariant (callees calls n ++ stack) (n ∷ seen)
  Invariant-new n stack seen i = record {
    stack_walks = λ x h.
        elim (or-true (contains x (callees calls n)) (contains x stack)
          (sym (contains-append x (callees calls n) stack) ∙ h)) [
            | inl callee ↦ onward (i.stack_walks n at_top) callee
            | inr below ↦ i.stack_walks x (ground arith)
          ];
    seen_walks = λ x h. elim (Bool-cases (x == n)) [
      | inl same ↦ rw ((eq_iff x n).0 same) (i.stack_walks n at_top)
      | inr other ↦ i.seen_walks x (ground arith)
    ];
    closed = (
      λ y h. moved y (i.closed.0 y h),
      λ x y h k. elim (Bool-cases (x == n)) [
        | inl same ↦ inr (in_callees y (rw (sym ((eq_iff x n).0 same)) k))
        | inr other ↦ moved y (i.closed.1 x y (ground arith) k)
      ],
    );
  }
    where
      at_top : In n (n ∷ stack)
      at_top = head-In n stack

      in_callees : (y : String) → In y (callees calls n) → In y (callees calls n ++ stack)
      in_callees y h = ground (arith, contains-append y (callees calls n) stack)

      moved :
          (y : String)
          → In y seen ⊎ In y (n ∷ stack)
          → In y (n ∷ seen) ⊎ In y (callees calls n ++ stack)
      moved y h = ground (arith, contains-append y (callees calls n) stack)

  search_calls-Walk :
      (fuel : ℕ) (stack seen found : List String)
      → Invariant stack seen
      → search_calls fuel calls stack seen ≡ some found
      → Invariant [] found
  unfolding search_calls
  search_calls-Walk zero [] seen found i h =
      let same : seen ≡ found = cc in subst (Invariant []) same i
  search_calls-Walk zero (n ∷ stack) seen found i h = cc
  search_calls-Walk (suc fuel) [] seen found i h =
      let same : seen ≡ found = cc in subst (Invariant []) same i
  search_calls-Walk (suc fuel) (n ∷ stack) seen found i h = elim (Bool-cases (contains n seen)) [
    | inl old ↦
        search_calls-Walk fuel stack seen found (Invariant-old n stack seen old i) (ground arith)
    | inr new ↦
        search_calls-Walk fuel (callees calls n ++ stack) (n ∷ seen) found
          (Invariant-new n stack seen i) (ground arith)
  ]

  start-Invariant : Invariant (callees calls start) []
  start-Invariant = record {
    stack_walks = λ x h. direct h;
    seen_walks = λ x h. ground arith;
    closed = (λ y h. inr h, λ x y h k. ground arith);
  }

  nothing-In : (x : String) → ¬ (In x [])
  nothing-In x h = ground arith

  walked :
      (found : List String) → Invariant [] found → {f : String} → Walk calls start f → In f found
  walked found i (direct {f = f} h) =
      ⊎_elim (λ k. k) (λ k. absurd (nothing-In f k)) (i.closed.0 f h)
  walked found i (onward {f = f} {g = g} w h) =
      ⊎_elim (λ k. k) (λ k. absurd (nothing-In g k)) (i.closed.1 f g (walked found i w) h)

-- The search ends, and it finds a function exactly if calls lead there from the start.
pub reachable-Walk :
    (calls : Calls) (start : String)
    → (found : List String) × (reachable calls start ≡ some found)
      × ((f : String) → In f found ↔ Walk calls start f)
unfolding reachable
reachable-Walk calls start =
    let stack = callees calls start in
    let (found, ended) =
      search_calls-ends (rounds calls stack []) calls stack [] (enough (rounds calls stack [])) in
    let i =
      search_calls-Walk calls start (rounds calls stack []) stack [] found
        (start-Invariant calls start) ended in
    (found, ended, λ f. (i.seen_walks f, walked calls start found i))
  where
    enough : (n : ℕ) → n ≤ n
    enough n = omega arith
