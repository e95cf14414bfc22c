-- ===== src/Authz/Evidence/Grants.antt =====
-- The theorems on the evidence-lifecycle policy (internal/authz/evidence_lifecycle_policy.go).
use drenyra_engram.Base.{
  ◌≡◌, ◌↔◌, inl, inr, str_eq_iff, subst, true, Option, none, some, [], Bool-cases, arith,
}
use drenyra_engram.Auth.{VerifiedApprovalPrincipal}
use drenyra_engram.Authz.Roles.{contains_iff}
use drenyra_engram.Authz.Evidence.{
  LifecycleAction, second_approve, LifecycleAuthorizationRequest, role_denied, authorize,
}
use drenyra_engram.Authz.Evidence.Decides.{
  Permitted, IsOther, SecondApproval, Checks, IsOther-iff, MayPerform-iff, role_denied_iff,
  Standard_iff, authorize-Checks, Checks-authorize, second-SecondApproval,
}

-- The evidence-lifecycle policy allows an action exactly when the frozen matrix grants it: the same
-- tenant, a company of the membership, an active membership, a human actor, no role on the deny-list, a
-- role that may perform the action, assurance standard or strong, a principal other than the requester
-- (if one is named), and for a second approval a category that requires two and a principal other than
-- the first approver (if one is named).
pub lifecycle_iff_Permitted :
    (req : LifecycleAuthorizationRequest) → ((authorize req).allowed ≡ true) ↔ Permitted req
lifecycle_iff_Permitted req = (fwd, bwd)
  where
    fwd : (authorize req).allowed ≡ true → Permitted req
    fwd h =
        unfold Checks in
        let (t, c, k, u, d, r, a, q, s) = authorize-Checks req h in
        record {
          tenant = (str_eq_iff _ _).0 t;
          scoped = (contains_iff _ _).0 c;
          member = k;
          by_human = u;
          not_denied = λ e. cc ((role_denied_iff req.principal.roles).1 e);
          role = (MayPerform-iff req.action _).0 r;
          assured = (Standard_iff _).0 a;
          not_requester = (IsOther-iff _ _).0 q;
          second = (second-SecondApproval req req.action).0 s;
        }

    bwd : Permitted req → (authorize req).allowed ≡ true
    bwd p = Checks-authorize req (
        unfold Checks in
        (
          (str_eq_iff _ _).1 p.tenant,
          (contains_iff _ _).1 p.scoped,
          p.member,
          p.by_human,
          elim (Bool-cases (role_denied req.principal.roles)) [
            | inl e ↦ absurd (p.not_denied ((role_denied_iff _).0 e))
            | inr e ↦ e
          ],
          (MayPerform-iff req.action _).1 p.role,
          (Standard_iff _).1 p.assured,
          (IsOther-iff _ _).1 p.not_requester,
          (second-SecondApproval req req.action).1 p.second,
        ))

other-subject :
    (p q : VerifiedApprovalPrincipal) (o : Option VerifiedApprovalPrincipal)
    → ¬ (p.subject_id ≡ [])
    → o ≡ some q
    → IsOther p o
    → ¬ (p.subject_id ≡ q.subject_id)
other-subject p q none k e h = absurd (ground arith)
other-subject p q (some x) k e (inl h) = absurd (k h)
other-subject p q (some x) k e (inr h) =
    let same : x ≡ q = cc in subst (λ y. ¬ (p.subject_id ≡ y.subject_id)) same h

second-of :
    (req : LifecycleAuthorizationRequest) (a : LifecycleAction)
    → a ≡ second_approve
    → SecondApproval req a
    → IsOther req.principal req.first_approver
second-of req second_approve e s = s.1
second-of req _ e s = absurd (ground arith)

-- Three humans: when a first approval and a second approval of one purge request are both allowed, with
-- the requester and the first approver handed to the policy and the approvers' subject ids not empty,
-- the requester, the first approver and the second approver are three different subjects.
pub three_subjects :
    (first second : LifecycleAuthorizationRequest) (requester : VerifiedApprovalPrincipal)
    → first.requester ≡ some requester
    → second.action ≡ second_approve
    → second.requester ≡ some requester
    → second.first_approver ≡ some first.principal
    → ¬ (first.principal.subject_id ≡ [])
    → ¬ (second.principal.subject_id ≡ [])
    → (authorize first).allowed ≡ true
    → (authorize second).allowed ≡ true
    → (¬ (first.principal.subject_id ≡ requester.subject_id))
      × (¬ (second.principal.subject_id ≡ requester.subject_id))
      × (¬ (second.principal.subject_id ≡ first.principal.subject_id))
three_subjects first second requester fr sa sr sf fe se fh sh =
    let f = (lifecycle_iff_Permitted first).0 fh in
    let s = (lifecycle_iff_Permitted second).0 sh in
    (
      other-subject first.principal requester first.requester fe fr f.not_requester,
      other-subject second.principal requester second.requester se sr s.not_requester,
      other-subject second.principal first.principal second.first_approver se sf
          (second-of second second.action sa s.second),
    )
