-- ===== src/Sig/Graph/Closure.antt =====
-- What the propagation along the calls adds to a function.
use mathlib.Core.Path.{subst}
use araratsec_agent.Prelude.{
  ◌≡◌, refl, sym, ◌∙◌, ◌↔◌, ◌⊎◌, inl, inr, String, Bool, true, false, none, some, List, [], ◌∷◌,
  arith, eq_iff, ◌==◌, ◌||◌, ◌&&◌, if◌then◌else◌, Bool-cases, Option-cases, or-true, and-true,
}
use araratsec_agent.Prelude.Texts.{contains}
use araratsec_agent.Prelude.Dict.{Dict, lookup, insert, lookup-insert}
use araratsec_agent.Sig.{FunctionNode}
use araratsec_agent.Sig.Reach.{Calls, reachable}
use araratsec_agent.Sig.Reach.Walks.{In, Walk, direct, onward, contains-append, reachable-Walk}
use araratsec_agent.Sig.Graph.{
  Payload, built, build_sig_from_smartgraphical, add_to, union, absorb_node, absorb, absorb_all,
  found_or_nil, keys,
}

pub data Access : Type 0 where
  reads writes : Access

abbrev pub names_of : Access → FunctionNode → List String
names_of reads f = f.reads
names_of writes f = f.writes

-- Some function of this name accesses `x`.
abbrev pub has : Access → String → String → Dict FunctionNode → Bool
has a x name fs = elim (lookup name fs) [ none ↦ false | some f ↦ contains x (names_of a f) ]

abbrev pub is_function : String → Dict FunctionNode → Bool
is_function name fs = elim (lookup name fs) [ none ↦ false | some f ↦ true ]

contains-add_to :
    (x y : String) (xs : List String) → contains x (add_to y xs) ≡ contains x xs || x == y
contains-add_to x y xs = elim (Bool-cases (contains y xs)) [
  | inl old ↦ ground (arith, eq_iff x y)
  | inr new ↦ ground (arith, contains-append x xs (y ∷ []))
]

contains-union :
    (x : String) (xs ys : List String) → contains x (union xs ys) ≡ contains x xs || contains x ys
unfolding union
contains-union x xs [] = ground arith
contains-union x xs (y ∷ ys) =
    ground (arith, contains-union x (add_to y xs) ys, contains-add_to x y xs)

contains-absorb_node :
    (a : Access) (x : String) (f g : FunctionNode)
    → contains x (names_of a (absorb_node f g))
      ≡ contains x (names_of a f) || contains x (names_of a g)
contains-absorb_node reads x f g = contains-union x f.reads g.reads
contains-absorb_node writes x f g = contains-union x f.writes g.writes

-- One round of the inner loop.
abbrev absorb_one : String → String → Dict FunctionNode → Dict FunctionNode
absorb_one name callee fs = if callee == name then fs else elim (lookup name fs) [
  | none ↦ fs
  | some f ↦ elim (lookup callee fs) [ none ↦ fs | some g ↦ insert name (absorb_node f g) fs ]
]

has-absorb_one :
    (a : Access) (x j name callee : String) (fs : Dict FunctionNode)
    → has a x j (absorb_one name callee fs)
      ≡ has a x j fs || (j == name && (is_function name fs && has a x callee fs))
has-absorb_one a x j name callee fs = elim (Option-cases (lookup name fs)) [
  | inl absent ↦ ground (arith, eq_iff j name, eq_iff callee name)
  | inr (f, there) ↦ elim (Option-cases (lookup callee fs)) [
    | inl absent ↦ ground (arith, eq_iff j name, eq_iff callee name)
    | inr (g, called) ↦ ground (
      arith,
      eq_iff j name,
      eq_iff name j,
      eq_iff callee name,
      lookup-insert name j (absorb_node f g) fs,
      contains-absorb_node a x f g,
    )
  ]
]

is_function-absorb_one :
    (j name callee : String) (fs : Dict FunctionNode)
    → is_function j (absorb_one name callee fs) ≡ is_function j fs
is_function-absorb_one j name callee fs = elim (Option-cases (lookup name fs)) [
  | inl absent ↦ ground (arith, eq_iff callee name)
  | inr (f, there) ↦ elim (Option-cases (lookup callee fs)) [
    | inl absent ↦ ground (arith, eq_iff callee name)
    | inr (g, called) ↦
        ground (arith, eq_iff name j, eq_iff callee name, lookup-insert name j (absorb_node f g) fs)
  ]
]

-- What the inner loop adds comes from a callee on its list.
absorb_sound :
    (a : Access) (x j name : String) (cs : List String) (fs : Dict FunctionNode)
    → has a x j (absorb name cs fs) ≡ true
    → (has a x j fs ≡ true)
      ⊎ ((j ≡ name) × (c : String) × In c cs × (is_function name fs ≡ true) × (has a x c fs ≡ true))
unfolding absorb
absorb_sound a x j name [] fs h = inl h
absorb_sound a x j name (c ∷ cs) fs h = elim (absorb_sound a x j name cs (absorb_one name c fs) h) [
  | inl before ↦ origin j before
  | inr (same, c', listed, known, called) ↦ elim (origin c' called) [
    | inl old ↦ inr (
      same,
      c',
      ground (arith, eq_iff c' c),
      ground (arith, is_function-absorb_one name name c fs),
      old,
    )
    | inr (at_name, c'', listed', known', called') ↦ inr (same, c'', listed', known', called')
  ]
]
  where
    origin :
        (i : String)
        → has a x i (absorb_one name c fs) ≡ true
        → (has a x i fs ≡ true)
          ⊎ ((i ≡ name)
              × (d : String) × In d (c ∷ cs)
              × (is_function name fs ≡ true)
              × (has a x d fs ≡ true))
    origin i k = elim (or-true (has a x i fs) _ (sym (has-absorb_one a x i name c fs) ∙ k)) [
      | inl old ↦ inl old
      | inr new ↦
          let (same, rest) = and-true (i == name) _ new in
          let (known, called) = and-true (is_function name fs) _ rest in
          inr ((eq_iff i name).0 same, c, ground (arith, eq_iff c c), known, called)
    ]

absorb_mono :
    (a : Access) (x j name : String) (cs : List String) (fs : Dict FunctionNode)
    → has a x j fs ≡ true
    → has a x j (absorb name cs fs) ≡ true
unfolding absorb
absorb_mono a x j name [] fs h = h
absorb_mono a x j name (c ∷ cs) fs h =
    absorb_mono a x j name cs (absorb_one name c fs)
      (ground (arith, has-absorb_one a x j name c fs))

absorb_adds :
    (a : Access) (x name c : String) (cs : List String) (fs : Dict FunctionNode)
    → In c cs
    → is_function name fs ≡ true
    → has a x c fs ≡ true
    → has a x name (absorb name cs fs) ≡ true
unfolding absorb
absorb_adds a x name c [] fs listed known called = ground arith
absorb_adds a x name c (d ∷ cs) fs listed known called = elim (Bool-cases (c == d)) [
  | inl same ↦
      absorb_mono a x name name cs (absorb_one name d fs)
        (ground (arith, eq_iff c d, eq_iff name name, has-absorb_one a x name name d fs))
  | inr other ↦
      absorb_adds a x name c cs (absorb_one name d fs) (ground arith)
        (ground (arith, is_function-absorb_one name name d fs))
        (ground (arith, has-absorb_one a x c name d fs))
]

is_function-absorb :
    (j name : String) (cs : List String) (fs : Dict FunctionNode)
    → is_function j (absorb name cs fs) ≡ is_function j fs
unfolding absorb
is_function-absorb j name [] fs = refl
is_function-absorb j name (c ∷ cs) fs =
    is_function-absorb j name cs (absorb_one name c fs) ∙ is_function-absorb_one j name c fs

found-Walk :
    (calls : Calls) (name f : String)
    → In f (found_or_nil (reachable calls name)) ↔ Walk calls name f
found-Walk calls name f =
    let (found, ended, walks) = reachable-Walk calls name in rw ended (walks f)

Walk-Walk : (calls : Calls) {f g h : String} → Walk calls f g → Walk calls g h → Walk calls f h
Walk-Walk calls v (direct e) = onward v e
Walk-Walk calls v (onward w e) = onward (Walk-Walk calls v w) e

module _ (calls : Calls) (a : Access) (x : String) where
  -- The function accesses `x`, or its calls lead to one that does.
  abbrev pub Accesses : Dict FunctionNode → String → Type 0
  Accesses fs f = (has a x f fs ≡ true) ⊎ ((g : String) × Walk calls f g × (has a x g fs ≡ true))

  Accesses-Walk :
      (fs : Dict FunctionNode) (f g : String) → Walk calls f g → Accesses fs g → Accesses fs f
  Accesses-Walk fs f g w (inl own) = inr (g, w, own)
  Accesses-Walk fs f g w (inr (h, v, own)) = inr (h, Walk-Walk calls w v, own)

  absorb_all_sound :
      (names : List String) (start fs : Dict FunctionNode)
      → ((j : String) → has a x j fs ≡ true → Accesses start j)
      → (j : String) → has a x j (absorb_all calls names fs) ≡ true
      → Accesses start j
  unfolding absorb_all
  absorb_all_sound [] start fs i j h = i j h
  absorb_all_sound (name ∷ names) start fs i j h =
      absorb_all_sound names start (absorb name found fs) kept j h
    where
      found : List String
      found = found_or_nil (reachable calls name)

      kept : (k : String) → has a x k (absorb name found fs) ≡ true → Accesses start k
      kept k e = elim (absorb_sound a x k name found fs e) [
        | inl old ↦ i k old
        | inr (same, c, listed, known, called) ↦
            rw same (Accesses-Walk start name c ((found-Walk calls name c).0 listed) (i c called))
      ]

  absorb_all_mono :
      (j : String) (names : List String) (fs : Dict FunctionNode)
      → has a x j fs ≡ true
      → has a x j (absorb_all calls names fs) ≡ true
  unfolding absorb_all
  absorb_all_mono j [] fs h = h
  absorb_all_mono j (name ∷ names) fs h =
      let found = found_or_nil (reachable calls name) in
      absorb_all_mono j names (absorb name found fs) (absorb_mono a x j name found fs h)

  absorb_all_adds :
      (f g : String) (names : List String) (fs : Dict FunctionNode)
      → In f names
      → is_function f fs ≡ true
      → Walk calls f g
      → has a x g fs ≡ true
      → has a x f (absorb_all calls names fs) ≡ true
  unfolding absorb_all
  absorb_all_adds f g [] fs listed known w own = ground arith
  absorb_all_adds f g (name ∷ names) fs listed known w own =
      let found = found_or_nil (reachable calls name) in
      elim (Bool-cases (f == name)) [
        | inl same ↦ absorb_all_mono f names (absorb name found fs) (
            subst (λ n. has a x f (absorb n (found_or_nil (reachable calls n)) fs) ≡ true)
              ((eq_iff f name).0 same)
              (absorb_adds a x f g (found_or_nil (reachable calls f)) fs
                ((found-Walk calls f g).1 w) known own))
        | inr other ↦
            absorb_all_adds f g names (absorb name found fs) (ground arith)
              (is_function-absorb f name found fs ∙ known) w (absorb_mono a x g name found fs own)
      ]

is_function-listed :
    (f : String) (fs : Dict FunctionNode) → is_function f fs ≡ true → In f (keys fs)
unfolding lookup
is_function-listed f [] h = ground arith
is_function-listed f ((name, g) ∷ fs) h =
    ground (arith, eq_iff name f, eq_iff f name, is_function-listed f fs)

absorb_all-Accesses :
    (calls : Calls) (a : Access) (x f : String) (fs : Dict FunctionNode)
    → is_function f fs ≡ true
    → (has a x f (absorb_all calls (keys fs) fs) ≡ true) ↔ Accesses calls a x fs f
absorb_all-Accesses calls a x f fs known =
    (absorb_all_sound calls a x (keys fs) fs fs (λ j h. inl h) f, added)
  where
    added : Accesses calls a x fs f → has a x f (absorb_all calls (keys fs) fs) ≡ true
    added (inl own) = absorb_all_mono calls a x f (keys fs) fs own
    added (inr (g, w, own)) =
        absorb_all_adds calls a x f g (keys fs) fs (is_function-listed f fs known) known w own

-- In the graph that is built, a function of the payload reads, or writes, exactly the names that its
-- own edges give it and those that the edges give to a function that its calls lead to.
pub build_sig-Accesses :
    (payload : Payload) (a : Access) (x f : String)
    → let b = built payload in
      is_function f b.functions ≡ true
      → (has a x f (build_sig_from_smartgraphical payload).functions ≡ true)
        ↔ Accesses b.calls a x b.functions f
unfolding build_sig_from_smartgraphical
build_sig-Accesses payload a x f known =
    let b = built payload in absorb_all-Accesses b.calls a x f b.functions known
