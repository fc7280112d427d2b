-- ===== src/Taxonomy/Shares.antt =====
-- scripts/scaffold_taxonomy.py: the shares of one classification against its denominator.
use araratsec_agent.Prelude.{
  ℕ, suc, ◌+◌, ◌≤◌, ◌≡◌, refl, ◌↔◌, Bool, true, false, Option, none, some, List, [], ◌∷◌, String,
  count, length, any, not, arith, ltb, ◌==◌,
}
use araratsec_agent.Taxonomy.{
  Nature, in_denominator, fold_nature, Event, Key, tally_events, NatureCounts, add_nature,
  nature_counts, synth_for, Share, classify, empty_tally,
}

abbrev pub total : NatureCounts → ℕ
total c = c.infra + (c.synth + c.own)

total-add_nature : (n : Option Nature) (c : NatureCounts) → total (add_nature n c) ≤ suc (total c)
total-add_nature n c = ground arith

abbrev pub attempts : List (Key × String) → ℕ
attempts d = count (λ e. in_denominator e.1) d

pub total-nature_counts :
    (synth d : List (Key × String)) → total (nature_counts synth d) ≤ attempts d
unfolding nature_counts in_denominator
total-nature_counts synth [] = omega arith
total-nature_counts synth ((key, cause) ∷ rest) = ground (
  arith,
  total-add_nature (fold_nature cause (synth_for key synth)) (nature_counts synth rest),
  total-nature_counts synth rest,
)

count-length {ℓ} : {A : Type ℓ} (p : A → Bool) (xs : List A) → count p xs ≤ length xs
count-length p [] = omega arith
count-length p (x ∷ xs) = ground (arith, count-length p xs)

count-any {ℓ} :
    {A : Type ℓ} (p : A → Bool) (xs : List A)
    → ltb (count p xs) (length xs) ≡ any (λ x. not (p x)) xs
count-any p [] = refl
count-any p (x ∷ xs) = ground (arith, count-any p xs, count-length p xs)

withheld-count :
    (d : List (Key × String))
    → ltb (attempts d) (length d) ≡ any (λ e. e.1 == "not_attempted:budget") d
unfolding in_denominator
withheld-count [] = refl
withheld-count ((key, cause) ∷ rest) =
    ground (arith, withheld-count rest, count-length (λ e. in_denominator e.1) rest)

-- A classification publishes shares whose numerators together are at most the denominator.
pub classify-bounded :
    (events : List Event) (allow : Bool) (s : Share)
    → (classify events allow).nature_share ≡ some s
    → total s.counts ≤ s.denom
unfolding classify
classify-bounded events allow s h =
    let t = tally_events events empty_tally in
    let bound = total-nature_counts t.synth_by_finding t.finding_terminal in ground arith

-- Without the override, a classification withholds its shares exactly if the last cause that some
-- finding ended with is the exhausted budget.
pub classify-withheld_iff :
    (events : List Event)
    → ((classify events false).nature_share ≡ none) ↔ (
        any (λ e. e.1 == "not_attempted:budget") (tally_events events empty_tally).finding_terminal
        ≡ true)
unfolding classify in_denominator
classify-withheld_iff events =
    let d = (tally_events events empty_tally).finding_terminal in ground (arith, withheld-count d)
