-- ===== src/Methodology/Service/Imagined.antt =====
-- The snapshot that `_imagine` builds unpacks to the old events and executions with the new ones
-- behind them.
use mathlib.Core.List.{append-nil, append_assoc}
use araratsec_agent.Prelude.{
  ℕ, suc, ◌≡◌, ◌∙◌, refl, false, List, [], ◌∷◌, ◌++◌, map, any, ltb, arith,
}
use araratsec_agent.Prelude.Result.{Result, ok, raise, ◌>>=◌}
use araratsec_agent.Methodology.Models.{
  Fault, StageEvent, AnalyzerExecution, required_fields, analyzer_execution, SnapshotItem,
  MemorySnapshot,
}
use araratsec_agent.Methodology.Service.{
  reject_bad_snapshot, payload_bodies, Unpacked, unpack_payloads, unpack_items, unpack, findings_in,
  findings_of, imagine, imagined_item,
}

-- Validation returns the event that it was given.
pub required_fields-eq : (e : StageEvent) {e' : StageEvent} → required_fields e ≡ ok e' → e' ≡ e
unfolding required_fields
required_fields-eq e h = ground arith

unpack_payloads-executions :
    (xs : List AnalyzerExecution) (es : List StageEvent) (ys : List AnalyzerExecution)
    → unpack_payloads (map analyzer_execution xs) (es, ys) ≡ ok (es, ys ++ xs)
unfolding unpack_payloads
unpack_payloads-executions [] es ys = rw append-nil
unpack_payloads-executions (x ∷ xs) es ys =
    unpack_payloads-executions xs es (ys ++ x ∷ []) ∙ rw append_assoc

-- Two chains that agree on every value of the first call are one.
bind_assoc :
    (r : Result Fault Unpacked) (f h : Unpacked → Result Fault Unpacked)
    {g : Unpacked → Result Fault Unpacked}
    → ((u : Unpacked) → g u ≡ (f u >>= h))
    → (r >>= g) ≡ ((r >>= f) >>= h)
bind_assoc (ok u) f h e = e u
bind_assoc (raise x) f h e = refl

unpack_items-append :
    (is js : List SnapshotItem) (acc : Unpacked)
    → unpack_items (is ++ js) acc ≡ (unpack_items is acc >>= λ acc'. unpack_items js acc')
unfolding unpack_items
unpack_items-append [] js acc = refl
unpack_items-append (i ∷ is) js acc =
    bind_assoc (unpack_payloads (payload_bodies i) acc) _ _ (λ acc'. unpack_items-append is js acc')

-- The committed event and executions stand behind those of the snapshot.
pub unpack-imagine :
    (s : MemorySnapshot) (e : StageEvent) (xs : List AnalyzerExecution) {u : Unpacked}
    → unpack s ≡ ok u
    → required_fields e ≡ ok e
    → unpack (imagine s e xs) ≡ ok (u.0 ++ e ∷ [], u.1 ++ xs)
unfolding unpack imagine
unpack-imagine s e xs {u} h v =
    unpack_items-append s.items _ ([], [])
    ∙ rw h (unfold unpack_items in rw v (rw unpack_payloads-executions))

any_above-append :
    (n : ℕ) (is js : List SnapshotItem)
    → any (λ item. ltb n item.log_sequence) is ≡ false
    → any (λ item. ltb (suc n) item.log_sequence) js ≡ false
    → any (λ item. ltb (suc n) item.log_sequence) (is ++ js) ≡ false
any_above-append n [] js h k = k
any_above-append n (i ∷ is) js h k = ground (arith, any_above-append n is js)

pub reject_bad_snapshot-imagine :
    (s : MemorySnapshot) (e : StageEvent) (xs : List AnalyzerExecution)
    → reject_bad_snapshot s ≡ ok tt
    → reject_bad_snapshot (imagine s e xs) ≡ ok tt
unfolding reject_bad_snapshot imagine
reject_bad_snapshot-imagine s e xs h =
    let item = imagined_item s e xs in
    rw (any_above-append s.as_of_sequence s.items (item ∷ []) (ground arith) (ground arith))

findings_in-append :
    (is js : List SnapshotItem) → findings_in (is ++ js) ≡ findings_in is ++ findings_in js
unfolding findings_in
findings_in-append [] js = refl
findings_in-append (i ∷ is) js = ground (arith, findings_in-append is js)

-- Committing a transition adds no finding.
pub findings_of-imagine :
    (s : MemorySnapshot) (e : StageEvent) (xs : List AnalyzerExecution)
    → findings_of (imagine s e xs) ≡ findings_of s
unfolding findings_of imagine
findings_of-imagine s e xs = findings_in-append s.items _ ∙ rw append-nil
