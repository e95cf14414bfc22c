-- ===== src/Examples/Reports.antt =====
-- The theorems on verification reports and the metric, at concrete records.
use drenyra_engram.Base.{
  ◌≡◌, refl, ◌↔◌, ◌/◌, ◌*◌, Str, str, true, false, Option, none, some, List, [], ◌∷◌, Any, str_eq,
  str_lt, any, if◌then◌else◌, arith,
}
use drenyra_engram.Base.Int.{pos}
use drenyra_engram.Verify.{
  VerificationLayer, VerificationReport, passed, failed, SubjectScope, SupersessionLink, finalize,
  is_failed, VerificationOutcome, outcome_failed, verify_supersession_chain, layer_signature,
  layer_chain_link, layer_evidence_availability,
}
use drenyra_engram.Verify.Outcome.{Group, merged, report_fails_iff}
use drenyra_engram.Verify.Supersession.{Walk, supersession_iff_Walk}
use drenyra_engram.Reconstruct.{
  aggregate_loop, sort_heads, head_step, is_material_decision, record_verdict, note, reason_eq,
  verdict, classify_reconstructibility, receipt_chain_failed, report_layer_failed, is_receipt_layer,
  is_approved, is_fiscal, is_material_level, missing_evidence, reconstructibility_percentage,
  aggregate_reconstructibility,
}
use drenyra_engram.Reconstruct.Percentage.{percentage_exact}
use drenyra_engram.Base.Sorted.{sort_strings}
use drenyra_engram.Memory.{AccountingMemory, scope_equals}
use drenyra_engram.Examples.Data.{lima, entry, approved_entry}

abbrev good : VerificationLayer
good = record { name = layer_signature; status = passed; detail = [] }

abbrev bad : VerificationLayer
bad = record { name = layer_signature; status = failed; detail = str "bad key" }

abbrev groups : List Group
groups = (layer_signature, good ∷ bad ∷ []) ∷ (layer_chain_link, []) ∷ []

abbrev report : VerificationReport
report = record {
  subject_type = str "memory";
  subject_id = str "m1";
  outcome = VerificationOutcome.outcome_passed;
  receipts = [];
  layers = merged groups;
  accounting_correctness = [];
}

report_fails_iff_example :
    ((finalize report).outcome ≡ outcome_failed)
    ↔ Any (λ g. Any (λ l. l.status ≡ failed) g.1) groups
report_fails_iff_example = report_fails_iff report groups refl

abbrev subject : SubjectScope
subject = record { tenant_id = str "org"; company_id = str "acme"; fiscal_period_id = str "202401" }

abbrev links : List SupersessionLink
links =
    (record {
      subject_id = str "m1";
      successor_id = str "m2";
      is_superseded = true;
      scope = subject;
    })
    ∷ (record { subject_id = str "m2"; successor_id = []; is_superseded = false; scope = subject })
    ∷ []

supersession_iff_Walk_example :
    ((verify_supersession_chain links subject).status ≡ passed)
    ↔ ((¬ (links ≡ [])) × Walk subject [] links)
supersession_iff_Walk_example = supersession_iff_Walk links subject

percentage_exact_example : reconstructibility_percentage (pos 2) (pos 3) ≡ some (pos (2 * 100 / 3))
percentage_exact_example = percentage_exact 2 3 (omega arith) (omega arith) (omega arith)

-- Three material decisions: the report of the first is clean, that of the second has a failed layer, and
-- the third has none.
abbrev decision : Str → AccountingMemory
decision id = record approved_entry { identity = record { id = id; topic_key = str "t" } }

abbrev heads : List AccountingMemory
heads = decision (str "m3") ∷ entry ∷ decision (str "m1") ∷ decision (str "m2") ∷ []

abbrev reports : Str → Option VerificationReport
reports id =
    if str_eq id (str "m1")
    then some (record report { layers = good ∷ [] })
    else if str_eq id (str "m2")
    then some (record report {
      layers =
          (record { name = layer_evidence_availability; status = failed; detail = [] }) ∷ good ∷ [];
    })
    else none

lists_second :
    (aggregate_reconstructibility heads reports lima).reasons missing_evidence ≡ str "m2" ∷ []
unfolding aggregate_reconstructibility sort_strings aggregate_loop sort_heads str_lt head_step
    is_material_decision record_verdict note reason_eq verdict classify_reconstructibility
    receipt_chain_failed report_layer_failed any is_receipt_layer scope_equals str_eq is_failed
    is_approved is_fiscal is_material_level
lists_second = refl
