-- ===== src/Examples/Policies.antt =====
-- The theorems on the authorization policies, at concrete principals.
use drenyra_engram.Base.{◌≡◌, refl, ◌↔◌, str, str_eq, true, none, some}
use drenyra_engram.Memory.{human}
use drenyra_engram.Auth.{senior_accountant, controller}
use drenyra_engram.Authz.Roles.{contains, satisfies}
use drenyra_engram.Authz.Approval
use drenyra_engram.Authz.Approval.Matrix.{Authorized, approval_iff_Authorized}
use drenyra_engram.Authz.Adjudication.{
  authorize_judgment, authorize_reconciliation, Adjudicates, adjudication_iff,
}
use drenyra_engram.Authz.Evidence
use drenyra_engram.Authz.Evidence.{LifecycleAction, LifecycleAuthorizationRequest}
use drenyra_engram.Authz.Evidence.Decides.{Permitted}
use drenyra_engram.Authz.Evidence.Grants.{lifecycle_iff_Permitted, three_subjects}
use drenyra_engram.Examples.Data.{entry, carla, rosa, tomas, requester, judgment, reconciliation}

approval_iff_Authorized_example :
    ((Approval.authorize carla entry).allowed ≡ true) ↔ Authorized carla entry
approval_iff_Authorized_example = approval_iff_Authorized carla entry

-- A controller covers a material journal entry.
approval_grants : (Approval.authorize carla entry).allowed ≡ true
unfolding Approval.authorize str_eq contains satisfies
approval_grants = refl

abbrev first_approval : LifecycleAuthorizationRequest
first_approval = record {
  action = LifecycleAction.approve_purge;
  principal = rosa;
  actor_kind = human;
  tenant_id = str "org";
  company_id = str "acme";
  category = str "invoices";
  dual_approval_required = true;
  requester = some requester;
  first_approver = none;
}

abbrev second_approval : LifecycleAuthorizationRequest
second_approval = record first_approval {
  action = LifecycleAction.second_approve;
  principal = tomas;
  first_approver = some rosa;
}

lifecycle_iff_Permitted_example :
    ((Evidence.authorize second_approval).allowed ≡ true) ↔ Permitted second_approval
lifecycle_iff_Permitted_example = lifecycle_iff_Permitted second_approval

three_subjects_example :
    (¬ (rosa.subject_id ≡ requester.subject_id))
    × (¬ (tomas.subject_id ≡ requester.subject_id))
    × (¬ (tomas.subject_id ≡ rosa.subject_id))
unfolding Evidence.authorize str_eq
three_subjects_example =
    three_subjects first_approval second_approval requester refl refl refl refl (λ e. cc e)
      (λ e. cc e) refl refl

adjudication_iff_example :
    (((authorize_judgment carla judgment).allowed ≡ true)
      ↔ Adjudicates carla judgment.tenant_id judgment.company_id senior_accountant)
    × (((authorize_reconciliation carla reconciliation).allowed ≡ true)
        ↔ Adjudicates carla reconciliation.tenant_id reconciliation.company_id controller)
adjudication_iff_example = adjudication_iff carla judgment reconciliation
