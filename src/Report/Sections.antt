-- ===== src/Report/Sections.antt =====
-- The two sections of a report, and the counts of its summary.
use mathlib.Core.List.{Perm, perm_middle}
use mathlib.Core.List.Perm
use araratsec_agent.Prelude.{
  ℕ, suc, ◌+◌, ◌≡◌, refl, inl, inr, Bool, true, false, Option, none, some, List, [], ◌∷◌, ◌++◌,
  select, count, String, All, not, arith, ◌==◌, eq_iff, Option-cases, if◌then◌else◌,
}
use araratsec_agent.Prelude.Dict.{Dict, lookup, lookup-insert}
use araratsec_agent.Prelude.Sort.{IsSorted, sort_by-perm, sort_by-IsSorted, str_leb-IsOrder}
use araratsec_agent.Report.{
  Payload, get_or, key_leb, is_visible, is_unverified, main_findings, unverified_findings,
  zero_counts, add_count, count_severities, severity_order,
}

put :
    (b : Bool) (f : Payload) (xs ys zs : List Payload)
    → Perm (xs ++ ys) zs
    → Perm ((if not b then f ∷ xs else xs) ++ (if b then f ∷ ys else ys)) (f ∷ zs)
put true f xs ys zs p = Perm.trans (perm_middle xs ys) (Perm.cons f p)
put false f xs ys zs p = Perm.cons f p

select-Perm :
    (p : Payload → Bool) (fs : List Payload) → Perm (select (λ f. not (p f)) fs ++ select p fs) fs
select-Perm p [] = Perm.refl []
select-Perm p (f ∷ fs) =
    put (p f) f (select (λ g. not (p g)) fs) (select p fs) fs (select-Perm p fs)

-- The two sections of a report together show each finding whose status is not hidden exactly as
-- often as it was given, and nothing else.
sections-Perm :
    (fs : List Payload) → Perm (main_findings fs ++ unverified_findings fs) (select is_visible fs)
unfolding main_findings unverified_findings
sections-Perm fs =
    Perm.trans
      (Perm.append
        (sort_by-perm key_leb (select (λ f. not (is_unverified f)) (select is_visible fs)))
        (sort_by-perm key_leb (select is_unverified (select is_visible fs))))
      (select-Perm is_unverified (select is_visible fs))

key_leb-total : (f g : Payload) → key_leb f g ≡ false → key_leb g f ≡ true
unfolding key_leb
key_leb-total f g h =
    ground (arith, str_leb-IsOrder.total (get_or "" f.finding_id) (get_or "" g.finding_id))

-- Both sections are in the order of the severities, critical first, then of the ids.
pub sections-IsSorted :
    (fs : List Payload)
    → IsSorted key_leb (main_findings fs) × IsSorted key_leb (unverified_findings fs)
unfolding main_findings unverified_findings
sections-IsSorted fs = (
  sort_by-IsSorted key_leb key_leb-total
      (select (λ f. not (is_unverified f)) (select is_visible fs)),
  sort_by-IsSorted key_leb key_leb-total (select is_unverified (select is_visible fs)),
)

abbrev pub has_severity : String → Payload → Bool
has_severity s f = get_or "" f.severity == s

abbrev plus : Option ℕ → ℕ → Option ℕ
plus none n = none
plus (some m) n = some (m + n)

plus-plus :
    (o : Option ℕ) (b : Bool) (n : ℕ)
    → plus (plus o (if b then 1 else 0)) n ≡ plus o (if b then suc n else n)
plus-plus o b n = ground arith

lookup-add_count :
    (s t : String) (counts : Dict ℕ)
    → lookup s (add_count t counts) ≡ plus (lookup s counts) (if t == s then 1 else 0)
unfolding add_count
lookup-add_count s t counts = elim (Option-cases (lookup t counts)) [
  | inl absent ↦ ground (arith, eq_iff t s)
  | inr (n, found) ↦ ground (arith, eq_iff t s, lookup-insert t s (suc n) counts)
]

pub lookup-count_severities :
    (s : String) (fs : List Payload) (counts : Dict ℕ)
    → lookup s (count_severities fs counts) ≡ plus (lookup s counts) (count (has_severity s) fs)
unfolding count_severities
lookup-count_severities s [] counts = ground arith
lookup-count_severities s (f ∷ fs) counts =
    let s' = get_or "" f.severity in
    rw (lookup-count_severities s fs (add_count s' counts), lookup-add_count s s' counts)
      (plus-plus (lookup s counts) (s' == s) (count (has_severity s) fs))

severity_row :
    (fs : List Payload) (s : String)
    → lookup s zero_counts ≡ some 0
    → lookup s (count_severities fs zero_counts) ≡ some (count (has_severity s) fs)
severity_row fs s h = rw (lookup-count_severities s fs zero_counts, h) (ground arith)

-- After the counting loop over any findings, the number of each of the five severities is the
-- number of those findings with it.
pub count_severities-counts :
    (fs : List Payload)
    → All
        (λ s. lookup s (count_severities fs zero_counts) ≡ some (count (has_severity s) fs))
        severity_order
unfolding lookup
count_severities-counts fs =
    let row = severity_row fs in
    (
      row "critical" refl,
      (row "high" refl, (row "medium" refl, (row "low" refl, (row "informational" refl, tt)))),
    )
