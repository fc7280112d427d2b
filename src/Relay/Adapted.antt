-- ===== src/Relay/Adapted.antt =====
-- What the findings of a response come from, and that no raw finding is lost.
use araratsec_agent.Prelude.{
  ℕ, suc, ◌+◌, ◌≡◌, ◌≢◌, refl, sym, ◌∙◌, ◌⊎◌, String, true, false, Option, none, some, List, [],
  ◌∷◌, length, length-append, All, All-append, arith,
}
use mathlib.Core.Path.{subst}
use araratsec_agent.Prelude.Texts.{concat, decimal}
use araratsec_agent.Prelude.Dict.{Dict, lookup, erase, lookup-erase}
use araratsec_agent.Prelude.Result.{Result, ok, raise}
use araratsec_agent.Finding.{Finding}
use araratsec_agent.Relay.{
  RelayFinding, RelayIngestResult, Adapter, stripped, relay_finding, add_raw, add_all, empty_result,
  note_empty, resend, adapt_findings, ingest_response,
}

module _ (adapter : Adapter) where
  open adapter use {Value, text_or_empty, extract_findings, make_finding, sanitize}

  -- A finding that validation made from a dict without a status change or notes, with notes that
  -- the sanitizer made.
  abbrev pub Cleaned : RelayFinding → Type 0
  Cleaned f =
      (raw : Dict Value) × (notes : String) × (make_finding raw ≡ ok f.finding)
      × (lookup "status_change" raw ≡ none)
      × (lookup "notes" raw ≡ none)
      × ((f.notes, f.notes_flags) ≡ sanitize notes)

  unprivileged : (raw : Dict Value) → lookup "status_change" (stripped adapter raw) ≡ none
  unprivileged raw = rw (lookup-erase "status_change" "status_change" (erase "notes" raw)) refl

  noteless : (raw : Dict Value) → lookup "notes" (stripped adapter raw) ≡ none
  noteless raw =
      rw
        (lookup-erase "status_change" "notes" (erase "notes" raw), lookup-erase "notes" "notes" raw)
        refl

  add_all-Cleaned :
      (i : ℕ) (raws : List (Dict Value)) (r : RelayIngestResult)
      → All Cleaned r.findings
      → All Cleaned (add_all adapter i raws r).findings
  unfolding add_all relay_finding
  add_all-Cleaned i [] r h = h
  add_all-Cleaned i (raw ∷ raws) r h =
      add_all-Cleaned (suc i) raws (add_raw adapter i raw (make_finding (stripped adapter raw)) r)
        (added (make_finding (stripped adapter raw)) refl)
    where
      added :
          (m : Result String Finding)
          → make_finding (stripped adapter raw) ≡ m
          → All Cleaned (add_raw adapter i raw m r).findings
      added (raise e) made = h
      added (ok f) made = All-append Cleaned r.findings (relay_finding adapter raw f ∷ []) h (
        (
          stripped adapter raw,
          text_or_empty (lookup "notes" raw),
          made,
          unprivileged raw,
          noteless raw,
          refl,
        ),
        tt,
      )

  add_raw-length :
      (i : ℕ) (raw : Dict Value) (m : Result String Finding) (r : RelayIngestResult)
      → let s = add_raw adapter i raw m r in
        length s.findings + length s.errors ≡ suc (length r.findings + length r.errors)
  add_raw-length i raw (ok f) r =
      omega (arith, length-append r.findings (relay_finding adapter raw f ∷ []))
  add_raw-length i raw (raise e) r =
      omega (arith, length-append r.errors (concat ("finding[" ∷ decimal i ∷ "]: " ∷ e ∷ []) ∷ []))

  add_all-length :
      (i : ℕ) (raws : List (Dict Value)) (r : RelayIngestResult)
      → let s = add_all adapter i raws r in
        length s.findings + length s.errors ≡ length raws + (length r.findings + length r.errors)
  unfolding add_all
  add_all-length i [] r = omega arith
  add_all-length i (raw ∷ raws) r =
      let made = make_finding (stripped adapter raw) in
      ground (
        arith,
        add_raw-length i raw made r,
        add_all-length (suc i) raws (add_raw adapter i raw made r),
      )

  add_raw-needs_resend :
      (i : ℕ) (raw : Dict Value) (m : Result String Finding) (r : RelayIngestResult)
      → (add_raw adapter i raw m r).needs_resend ≡ r.needs_resend
  add_raw-needs_resend i raw (ok f) r = refl
  add_raw-needs_resend i raw (raise e) r = refl

  add_all-needs_resend :
      (i : ℕ) (raws : List (Dict Value)) (r : RelayIngestResult)
      → (add_all adapter i raws r).needs_resend ≡ r.needs_resend
  unfolding add_all
  add_all-needs_resend i [] r = refl
  add_all-needs_resend i (raw ∷ raws) r =
      let made = make_finding (stripped adapter raw) in
      add_all-needs_resend (suc i) raws (add_raw adapter i raw made r)
      ∙ add_raw-needs_resend i raw made r

  -- The result of a response, by the outcome of the extraction.
  abbrev adapted : String → Result String (List (Dict Value)) → RelayIngestResult
  adapted request_id m = elim m [
    | raise e ↦ resend adapter request_id e
    | ok raws ↦ note_empty adapter (add_all adapter 0 raws (empty_result adapter request_id))
  ]

  note_empty-findings : (r : RelayIngestResult) → (note_empty adapter r).findings ≡ r.findings
  note_empty-findings r = ground arith

  adapted-Cleaned :
      (request_id : String) (m : Result String (List (Dict Value)))
      → All Cleaned (adapted request_id m).findings
  adapted-Cleaned request_id (raise e) = tt
  adapted-Cleaned request_id (ok raws) =
      let r = add_all adapter 0 raws (empty_result adapter request_id) in
      rw (note_empty-findings r) (add_all-Cleaned 0 raws (empty_result adapter request_id) tt)

  abbrev Reported : RelayIngestResult → Type 0
  Reported r = ((r.findings ≢ []) ⊎ (r.errors ≢ [])) × (r.needs_resend ≡ true → r.findings ≡ [])

  note_empty-Reported :
      (r : RelayIngestResult) → r.needs_resend ≡ false → Reported (note_empty adapter r)
  note_empty-Reported r h = ground arith

  adapted-Reported :
      (request_id : String) (m : Result String (List (Dict Value)))
      → Reported (adapted request_id m)
  adapted-Reported request_id (raise e) = ground arith
  adapted-Reported request_id (ok raws) =
      note_empty-Reported (add_all adapter 0 raws (empty_result adapter request_id))
        (add_all-needs_resend 0 raws (empty_result adapter request_id))

  -- Whatever the response says, each of its findings was validated from a dict that has no status
  -- change, and its notes are what the sanitizer returned.
  pub ingest_response-Cleaned :
      (request_id : String) (given file : Option String)
      → All Cleaned (ingest_response adapter request_id given file).findings
  unfolding ingest_response adapt_findings
  ingest_response-Cleaned request_id (some t) file = adapted-Cleaned request_id (extract_findings t)
  ingest_response-Cleaned request_id none (some t) = adapted-Cleaned request_id (extract_findings t)
  ingest_response-Cleaned request_id none none = tt

  -- A response is never ingested silently: it gives a finding or an error, and one that is to be
  -- resent gives no finding.
  pub ingest_response-reports :
      (request_id : String) (given file : Option String)
      → let r = ingest_response adapter request_id given file in
        ((r.findings ≢ []) ⊎ (r.errors ≢ [])) × (r.needs_resend ≡ true → r.findings ≡ [])
  unfolding ingest_response adapt_findings
  ingest_response-reports request_id (some t) file =
      adapted-Reported request_id (extract_findings t)
  ingest_response-reports request_id none (some t) =
      adapted-Reported request_id (extract_findings t)
  ingest_response-reports request_id none none = ground arith

  counted :
      (r : RelayIngestResult) (n : ℕ)
      → length r.findings + length r.errors ≡ suc n + (0 + 0)
      → length (note_empty adapter r).findings + length (note_empty adapter r).errors ≡ suc n
  counted r n h = ground arith

  -- If the extraction gives at least one raw finding, each of them gives one finding or one error.
  pub adapt_findings-accounts :
      (text request_id : String) (raw : Dict Value) (raws : List (Dict Value))
      → extract_findings text ≡ ok (raw ∷ raws)
      → let r = adapt_findings adapter text request_id in
        length r.findings + length r.errors ≡ length (raw ∷ raws)
  unfolding adapt_findings
  adapt_findings-accounts text request_id raw raws h =
      subst
        (λ m.
          length (adapted request_id m).findings + length (adapted request_id m).errors
          ≡ suc (length raws))
        (sym h)
        (counted (add_all adapter 0 (raw ∷ raws) (empty_result adapter request_id)) (length raws)
          (add_all-length 0 (raw ∷ raws) (empty_result adapter request_id)))
