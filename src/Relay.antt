-- ===== src/Relay.antt =====
-- audit_agent/relay_ingest.py: from a response's text to findings. The kernel's `extract_findings`
-- and `sanitize`, the validation by pydantic of `Finding(**raw)`, and `str` of a value are
-- parameters.
pub mod Adapted
use araratsec_agent.Prelude.{
  ℕ, suc, String, Bool, true, false, Option, none, some, List, [], ◌∷◌, ◌++◌, length, not, ◌&&◌,
  if◌then◌else◌,
}
use araratsec_agent.Prelude.Texts.{concat, decimal}
use araratsec_agent.Prelude.Dict.{Dict, lookup, erase}
use araratsec_agent.Prelude.Result.{Result, ok, raise}
use araratsec_agent.Finding.{Finding}

pub record RelayFinding : Type 0 where
  pub finding : Finding
  pub notes : String
  pub notes_flags : List String

pub record RelayIngestResult : Type 0 where
  pub request_id : String
  pub findings : List RelayFinding
  pub errors : List String
  pub needs_resend : Bool

abbrev is_nil {ℓ} : {A : Type ℓ} → List A → Bool
is_nil [] = true
is_nil (x ∷ xs) = false

-- `ok`
unfoldable pub is_ok : RelayIngestResult → Bool
is_ok r = not r.needs_resend && not (is_nil r.findings)

-- The code that the adapter calls: a value of a raw finding, its text where it is falsy or not
-- (`str(x or "")`), the extraction, the validation, and the sanitizer.
pub record Adapter : Type 1 where
  pub Value : Type 0
  pub text_or_empty : Option Value → String
  pub extract_findings : String → Result String (List (Dict Value))
  pub make_finding : Dict Value → Result String Finding
  pub sanitize : String → String × List String

module _ (adapter : Adapter) where
  open adapter use {Value, text_or_empty, extract_findings, make_finding, sanitize}

  -- `raw` after both pops
  abbrev pub stripped : Dict Value → Dict Value
  stripped raw = erase "status_change" (erase "notes" raw)

  -- `clean`, and the finding with it
  unfoldable pub relay_finding : Dict Value → Finding → RelayFinding
  relay_finding raw f =
      let clean = sanitize (text_or_empty (lookup "notes" raw)) in
      record { finding = f; notes = clean.0; notes_flags = clean.1 }

  abbrev pub add_raw :
      ℕ → Dict Value → Result String Finding → RelayIngestResult → RelayIngestResult
  add_raw i raw (ok f) r = record r { findings = r.findings ++ relay_finding raw f ∷ [] }
  add_raw i raw (raise e) r = record r {
    errors = r.errors ++ concat ("finding[" ∷ decimal i ∷ "]: " ∷ e ∷ []) ∷ [];
  }

  -- The loop of `adapt_findings`, from an index on.
  unfoldable pub add_all : ℕ → List (Dict Value) → RelayIngestResult → RelayIngestResult
  unfolding relay_finding decimal
  add_all i [] r = r
  add_all i (raw ∷ raws) r = add_all (suc i) raws (add_raw i raw (make_finding (stripped raw)) r)

  abbrev pub empty_result : String → RelayIngestResult
  empty_result request_id = record {
    request_id = request_id;
    findings = [];
    errors = [];
    needs_resend = false;
  }

  abbrev pub note_empty : RelayIngestResult → RelayIngestResult
  note_empty r =
      if is_nil r.findings && is_nil r.errors
      then record r { errors = r.errors ++ "response contained zero findings" ∷ [] }
      else r

  abbrev pub resend : String → String → RelayIngestResult
  resend request_id e = record (empty_result request_id) { errors = e ∷ []; needs_resend = true }

  unfoldable pub adapt_findings : String → String → RelayIngestResult
  unfolding add_all
  adapt_findings raw_text request_id = elim (extract_findings raw_text) [
    | raise e ↦ resend request_id e
    | ok raws ↦ note_empty (add_all 0 raws (empty_result request_id))
  ]

  -- `ingest_response`; the first text is the given one, the second that of the response file
  unfoldable pub ingest_response : String → Option String → Option String → RelayIngestResult
  unfolding adapt_findings
  ingest_response request_id (some response_text) file = adapt_findings response_text request_id
  ingest_response request_id none (some response_text) = adapt_findings response_text request_id
  ingest_response request_id none none = resend request_id "no response file found"
