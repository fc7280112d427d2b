-- ===== src/Taxonomy.antt =====
-- audit_agent/proof/scaffold_causes.py and scripts/scaffold_taxonomy.py: the causes of a scaffold
-- failure, their natures, and the offline classifier of run logs. A counter is a dict of numbers; a
-- share is its numerator, beside the one denominator, since the division is in floats.
pub mod Shares
pub mod Causes
use araratsec_agent.Prelude.{
  ℕ, zero, suc, ◌+◌, String, Bool, true, false, Option, none, some, List, [], ◌∷◌, ◌++◌, map, count,
  select, any, length, ltb, eqb, not, ◌&&◌, ◌||◌, last_or, ◌==◌, if◌then◌else◌,
}
use araratsec_agent.Prelude.Texts.{contains, is_empty, is_in}
use araratsec_agent.Prelude.Dict.{Dict, lookup, insert}

abbrev pub synthesis_causes : List String
synthesis_causes =
    "synthesized" ∷ "no_output:model" ∷ "no_output:crash" ∷ "no_build:path" ∷ "no_build:toolchain"
    ∷ "no_build:code" ∷ "no_build:infra" ∷ "repair_exhausted:resolvable"
    ∷ "repair_exhausted:unresolvable" ∷ []

abbrev pub finding_causes : List String
finding_causes =
    "proved" ∷ "base-insufficient" ∷ "lookup_failed" ∷ "model" ∷ "not_triggered"
    ∷ "not_attempted:budget" ∷ "unclassified" ∷ []

-- `classify_build_failure`; `b` is the blob in lower case
unfoldable pub classify_build_failure : String → String
unfolding is_in
classify_build_failure b =
    if (is_in "no compiler versions" b && is_in "available" b) || is_in "no solc version" b
    then "no_build:toolchain"
    else if is_in "not found" b && (is_in "searched:" b || is_in "source" b)
    then "no_build:path"
    else "no_build:code"

pub data Nature : Type 0 where
  harness_infra synth_model model : Nature

-- `_NATURE`
abbrev pub natures : Dict Nature
natures =
    ("no_output:crash", harness_infra)
    ∷ ("no_build:path", harness_infra)
    ∷ ("no_build:toolchain", harness_infra)
    ∷ ("no_build:infra", harness_infra)
    ∷ ("repair_exhausted:resolvable", harness_infra)
    ∷ ("no_output:model", synth_model)
    ∷ ("no_build:code", synth_model)
    ∷ ("repair_exhausted:unresolvable", synth_model)
    ∷ ("base-insufficient", harness_infra)
    ∷ ("lookup_failed", model)
    ∷ ("model", model)
    ∷ []

unfoldable pub cause_nature : String → Option Nature
cause_nature cause = lookup cause natures

unfoldable pub is_ok : String → Bool
is_ok cause = contains cause ("synthesized" ∷ "proved" ∷ [])

unfoldable pub in_denominator : String → Bool
in_denominator cause = not (contains cause ("not_attempted:budget" ∷ []))

-- `_fold_nature`
unfoldable pub fold_nature : String → List String → Option Nature
unfolding is_ok cause_nature
fold_nature finding_cause synth_causes =
    if is_ok finding_cause
    then none
    else (let failed = select (λ c. not (is_ok c)) synth_causes in
        elim failed [ [] ↦ cause_nature finding_cause | c ∷ cs ↦ cause_nature (last_or c cs) ])

-- The fields of a log event that `classify` reads; `none` is a missing key.
pub record Event : Type 0 where
  pub run_id : Option String
  pub model : Option String
  pub terminal : Bool
  pub event : Option String
  pub level : Option String
  pub cause : Option String
  pub finding_id : Option String
  pub finding_class : Option String

abbrev pub legacy_scaffold : List String
legacy_scaffold =
    "scaffold_synthesis_failed" ∷ "scaffold_synthesized" ∷ "scaffold_insufficient"
    ∷ "scaffold_repair" ∷ "scaffold_repair_exhausted" ∷ []

abbrev falsy : Option String → Bool
falsy none = true
falsy (some s) = is_empty s

abbrev is_text : Option String → String → Bool
is_text none t = false
is_text (some s) t = s == t

abbrev member : Option String → List String → Bool
member none ts = false
member (some s) ts = contains s ts

-- `cause if cause in CAUSES else "unclassified"`
abbrev pub closed : Option String → List String → String
closed none causes = "unclassified"
closed (some c) causes = if contains c causes then c else "unclassified"

-- `counter[k] += 1`
unfoldable pub bump : String → Dict ℕ → Dict ℕ
bump k c = insert k (suc (elim (lookup k c) [ none ↦ 0 | some n ↦ n ])) c

-- `counters[m][k] += 1`
unfoldable pub bump_in : String → String → Dict (Dict ℕ) → Dict (Dict ℕ)
unfolding bump
bump_in m k d = insert m (bump k (elim (lookup m d) [ none ↦ [] | some c ↦ c ])) d

-- `(run_id, finding_id)`
abbrev pub Key : Type 0
Key = String × Option String

abbrev same_id : Option String → Option String → Bool
same_id none none = true
same_id (some a) (some b) = a == b
same_id _ _ = false

abbrev pub same_key : Key → Key → Bool
same_key (r, f) (r', f') = r == r' && same_id f f'

-- `finding_terminal[key] = cause`
unfoldable pub set_terminal : Key → String → List (Key × String) → List (Key × String)
set_terminal k v [] = (k, v) ∷ []
set_terminal k v ((j, w) ∷ d) = if same_key j k then (j, v) ∷ d else (j, w) ∷ set_terminal k v d

-- `synth_by_finding[key]`, as the pairs that were appended
unfoldable pub synth_for : Key → List (Key × String) → List String
synth_for k [] = []
synth_for k ((j, c) ∷ d) = if same_key j k then c ∷ synth_for k d else synth_for k d

pub record Tally : Type 0 where
  pub unattributed : ℕ
  pub synthesis_counts : Dict ℕ
  pub finding_counts : Dict ℕ
  pub by_model_synth : Dict (Dict ℕ)
  pub by_model_find : Dict (Dict ℕ)
  pub by_class_find : Dict (Dict ℕ)
  pub synth_by_finding : List (Key × String)
  pub finding_terminal : List (Key × String)

abbrev pub text_of : Option String → String
text_of none = ""
text_of (some s) = s

abbrev add_class : Option String → String → Dict (Dict ℕ) → Dict (Dict ℕ)
add_class cls cause d = if falsy cls then d else bump_in (text_of cls) cause d

-- A terminal event with its attribution.
unfoldable pub count_terminal : Tally → Event → Tally
unfolding bump bump_in set_terminal
count_terminal t e =
    let key : Key = (text_of e.run_id, e.finding_id) in
    if is_text e.level "synthesis_attempt"
    then (let cause = closed e.cause synthesis_causes in
        record t {
          synthesis_counts = bump cause t.synthesis_counts;
          by_model_synth = bump_in (text_of e.model) cause t.by_model_synth;
          synth_by_finding = t.synth_by_finding ++ (key, cause) ∷ [];
        })
    else if is_text e.level "finding_attempt"
    then (let cause = closed e.cause finding_causes in
        record t {
          finding_counts = bump cause t.finding_counts;
          by_model_find = bump_in (text_of e.model) cause t.by_model_find;
          by_class_find = add_class e.finding_class cause t.by_class_find;
          finding_terminal = set_terminal key cause t.finding_terminal;
        })
    else t

-- The body of the loop over the events.
unfoldable pub count_event : Tally → Event → Tally
unfolding count_terminal
count_event t e =
    let bare = falsy e.run_id || falsy e.model in
    if not e.terminal
    then if member e.event legacy_scaffold && bare
      then record t { unattributed = suc t.unattributed }
      else t
    else if bare
    then record t { unattributed = suc t.unattributed }
    else count_terminal t e

unfoldable pub tally_events : List Event → Tally → Tally
unfolding count_event
tally_events [] t = t
tally_events (e ∷ es) t = tally_events es (count_event t e)

pub record NatureCounts : Type 0 where
  pub infra : ℕ
  pub synth : ℕ
  pub own : ℕ

-- `if nat: nature_counts[nat] += 1`
abbrev pub add_nature : Option Nature → NatureCounts → NatureCounts
add_nature none c = c
add_nature (some harness_infra) c = record c { infra = suc c.infra }
add_nature (some synth_model) c = record c { synth = suc c.synth }
add_nature (some model) c = record c { own = suc c.own }

abbrev pub no_counts : NatureCounts
no_counts = record { infra = 0; synth = 0; own = 0 }

-- The loop over `finding_terminal.items()`.
unfoldable pub nature_counts : List (Key × String) → List (Key × String) → NatureCounts
nature_counts synth [] = no_counts
nature_counts synth ((key, cause) ∷ rest) =
    let counts = nature_counts synth rest in
    if not (in_denominator cause)
    then counts
    else add_nature (fold_nature cause (synth_for key synth)) counts

pub record Share : Type 0 where
  pub counts : NatureCounts
  pub denom : ℕ

pub record Classification : Type 0 where
  pub queued : ℕ
  pub attempted : ℕ
  pub truncated : Bool
  pub tally : Tally
  pub nature_share : Option Share

abbrev pub empty_tally : Tally
empty_tally = record {
  unattributed = 0;
  synthesis_counts = [];
  finding_counts = [];
  by_model_synth = [];
  by_model_find = [];
  by_class_find = [];
  synth_by_finding = [];
  finding_terminal = [];
}

-- `attempted or 1`
abbrev pub or_one : ℕ → ℕ
or_one n = if eqb n 0 then 1 else n

unfoldable pub classify : List Event → Bool → Classification
unfolding tally_events nature_counts
classify events allow_truncated =
    let t = tally_events events empty_tally in
    let queued = length t.finding_terminal in
    let attempted = count (λ e. in_denominator e.1) t.finding_terminal in
    let truncated = ltb attempted queued in
    record {
      queued = queued;
      attempted = attempted;
      truncated = truncated;
      tally = t;
      nature_share =
          if truncated && not allow_truncated
          then none
          else some (record {
            counts = nature_counts t.synth_by_finding t.finding_terminal;
            denom = or_one attempted;
          });
    }
