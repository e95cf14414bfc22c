-- ===== src/Examples/Data.antt =====
-- Concrete records that the examples share.
use drenyra_engram.Base.{Str, str, true, none, some, List, [], ◌∷◌}
use drenyra_engram.Base.Int.{pos}
use drenyra_engram.Memory.{
  ScopeKind, Scope, MemoryStatus, FiscalEffect, MaterialityLevel, human, agent, Source,
  AccountingMemory,
}
use drenyra_engram.Auth.{
  AccountingRole, accountant, controller, records_compliance_officer, tax_responsible, standard,
  VerifiedApprovalPrincipal, PrincipalSnapshot,
}
use drenyra_engram.Judgment
use drenyra_engram.Reconciliation
use drenyra_engram.Retention.{RetentionPolicy}

abbrev pub ana : Source
ana = record {
  system = str "cli";
  reference = [];
  actor_id = str "ana";
  actor_kind = human;
  model = [];
  session = [];
}

abbrev pub bot : Source
bot = record ana { actor_id = str "bot"; actor_kind = agent }

abbrev pub lima : Scope
lima = record {
  kind = ScopeKind.company;
  organization_id = str "org";
  company_id = str "acme";
  ruc = str "20100070970";
  period = str "202401";
}

abbrev pub entry : AccountingMemory
entry = record {
  identity = record { id = str "m1"; topic_key = str "t" };
  title = str "entry";
  kind = str "decision";
  scope = lima;
  status = MemoryStatus.pending_review;
  fiscal_effect = FiscalEffect.journal_entry;
  effective_at = str "2024-01-10";
  recorded_at = str "2024-01-11";
  observed_at = [];
  source = bot;
  validity =
      some (record { effective_at = str "2024-01-01"; expires_at = str "2025-01-01"; source = [] });
  evidence_refs = [];
  rule_refs = [];
  materiality = none;
  materiality_level = some MaterialityLevel.material;
  content_hash = [];
  identity_hash = [];
  envelope_hash = [];
  receipt_id = [];
  supersedes_id = [];
  revision = 1;
}

abbrev pub approved_entry : AccountingMemory
approved_entry = record entry { status = MemoryStatus.approved }

abbrev pub principal : Str → List AccountingRole → VerifiedApprovalPrincipal
principal who held = record {
  subject_id = who;
  tenant_id = str "org";
  membership_id = str "m";
  company_scopes = str "acme" ∷ [];
  roles = held;
  authentication_method = str "session";
  assurance_level = standard;
  authenticated_at = str "2024-01-11";
  session_id = str "s";
}

abbrev pub carla : VerifiedApprovalPrincipal
carla = principal (str "carla") (controller ∷ [])

abbrev pub rosa : VerifiedApprovalPrincipal
rosa = principal (str "rosa") (records_compliance_officer ∷ [])

abbrev pub tomas : VerifiedApprovalPrincipal
tomas = principal (str "tomas") (tax_responsible ∷ [])

abbrev pub requester : VerifiedApprovalPrincipal
requester = principal (str "ana") (accountant ∷ [])

abbrev pub snapshot : PrincipalSnapshot
snapshot = record {
  subject_id = str "carla";
  membership_id = str "m";
  roles = controller ∷ [];
  authentication_method = str "session";
  assurance_level = standard;
  authenticated_at = str "2024-01-11";
}

abbrev pub judgment : Judgment.AccountingJudgment
judgment = record {
  id = str "j1";
  tenant_id = str "org";
  company_id = str "acme";
  fiscal_period_id = str "202401";
  from_id = str "m1";
  to_id = str "m2";
  relation = Judgment.Relation.supports;
  status = Judgment.JudgmentStatus.proposed;
  proposer = bot;
  proposal_reason = str "same amount";
  resolution = [];
  adjudicator = none;
  policy_version = [];
  predecessor_id = [];
  supersedes_id = [];
  proposed_at = str "2024-01-11";
  updated_at = str "2024-01-11";
  decided_at = [];
}

abbrev pub policy : RetentionPolicy
policy = record {
  policy_id = [];
  tenant_id = str "org";
  company_id = str "acme";
  ruc = str "20100070970";
  period = str "202401";
  jurisdiction = str "PE";
  legislation = str "tax code";
  authority = str "SUNAT";
  source = str "gazette";
  category = str "invoices";
  min_period = str "202312";
  version = pos 1;
  supersedes_policy_id = [];
  dual_approval_required = true;
  dual_approver_roles = [];
  blocking_hold_kinds = [];
  enabled = true;
  created_at = [];
  created_by = [];
}

abbrev pub newer : RetentionPolicy
newer = record policy { version = pos 2 }

abbrev pub reconciliation : Reconciliation.Reconciliation
reconciliation = record {
  id = str "r1";
  tenant_id = str "org";
  company_id = str "acme";
  fiscal_period_id = str "202401";
  left_memory_id = str "m1";
  right_memory_id = str "m2";
  method = str "amount";
  currency = str "PEN";
  left_amount_cents = pos 100;
  right_amount_cents = pos 90;
  variance_cents = pos 10;
  tolerance_cents = pos 5;
  status = Reconciliation.ReconciliationStatus.proposed;
  proposer = bot;
  proposal_reason = str "same amount";
  resolution = [];
  adjudicator = none;
  policy_version = [];
  predecessor_id = [];
  supersedes_id = [];
  proposed_at = str "2024-01-11";
  decided_at = [];
}
