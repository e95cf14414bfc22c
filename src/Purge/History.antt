-- ===== src/Purge/History.antt =====
-- What becomes of a request row under the commands of internal/store/purge_store.go.
use drenyra_engram.Base.{
  str_eq, str_eq_iff, true, some, List, [], ◌∷◌, ◌≡◌, refl, sym, ap, subst, ◌∙◌, ◌⊎◌, inl, inr, In,
  Bool-cases, arith,
}
use drenyra_engram.Purge.{
  PurgeRequestStatus, rejected, purge_rejected, EvidencePurgeRequest, EvidenceRetentionState,
  Attempt, done, failed,
}
use drenyra_engram.Purge.Tables.{PurgeStore, Platform}
use drenyra_engram.Purge.Writes.{legal_status_change, replace_request}
use drenyra_engram.Purge.Commands.{Call, execute, after, run}
use drenyra_engram.Purge.Agreement.{IsSound}
use drenyra_engram.Purge.Frames.{same_row}
use drenyra_engram.Purge.Steps.{Step, idle, projecting, opening, moving, Step-IsSound}
use drenyra_engram.Purge.Sound.{execute-Step, run-IsSound}
use drenyra_engram.Purge.Rows.{state_of, Agreed, projected}

-- Statuses joined by changes that the schema's status guard lets through.
pub data Reaches : PurgeRequestStatus → PurgeRequestStatus → Type 0 where
  stay : (a : PurgeRequestStatus) → Reaches a a
  move : (a b c : PurgeRequestStatus) → legal_status_change a b ≡ true → Reaches b c → Reaches a c

-- The row that a row has become: of the same id, object and tenant, its status reached by legal changes.
abbrev pub Successor : EvidencePurgeRequest → List EvidencePurgeRequest → Type 0
Successor r rs =
    (q : EvidencePurgeRequest) × In q rs
    × (q.request_id ≡ r.request_id)
    × (q.object_id ≡ r.object_id)
    × (q.tenant_id ≡ r.tenant_id)
    × Reaches r.status q.status

Reaches-trans : (a b c : PurgeRequestStatus) → Reaches a b → Reaches b c → Reaches a c
Reaches-trans a b c (stay _) k = k
Reaches-trans a b c (move _ d _ l h) k = move a d c l (Reaches-trans d b c h k)

itself : (r : EvidencePurgeRequest) (rs : List EvidencePurgeRequest) → In r rs → Successor r rs
itself r rs m = (r, m, refl, refl, refl, stay r.status)

-- A row survives a replacement, unless it is the one replaced.
in-replace_request :
    (r q : EvidencePurgeRequest) (rs : List EvidencePurgeRequest)
    → In q rs
    → In q (replace_request r rs) ⊎ ((q.request_id ≡ r.request_id) × In r (replace_request r rs))
unfolding replace_request
in-replace_request r q [] m = absurd m
in-replace_request r q (x ∷ xs) (inl m) = elim (Bool-cases (str_eq x.request_id r.request_id)) [
  | inl e ↦ rw e (inr (ap (λ y. y.request_id) (sym m) ∙ (str_eq_iff _ _).0 e, inl refl))
  | inr e ↦ rw e (inl (inl m))
]
in-replace_request r q (x ∷ xs) (inr m) = elim (in-replace_request r q xs m) [
  | inl n ↦ inl (inr n)
  | inr (i, n) ↦ inr (i, inr n)
]

pub Step-Successor :
    (s u : PurgeStore) (r : EvidencePurgeRequest)
    → IsSound s
    → In r s.requests
    → Step s u
    → Successor r u.requests
Step-Successor s u r v m (idle (fr, fs)) = itself r u.requests (subst (In r) (sym fr) m)
Step-Successor s u r v m (projecting _ _ (p, ur, us, po, pl)) =
    itself r u.requests (subst (In r) (sym ur) m)
Step-Successor s u r v m (opening t q n qs tr ts (p, ur, us, po, pl)) =
    itself r u.requests (subst (In r) (sym (ur ∙ tr)) (inr m))
Step-Successor s u r v m (moving t q r0 m0 i o c l tr ts (p, ur, us, po, pl)) =
    elim (in-replace_request q r s.requests m) [
      | inl n ↦ itself r u.requests (subst (In r) (sym (ur ∙ tr)) n)
      | inr (e, n) ↦
          let same : r0 ≡ r = same_row r0 r s.requests v.apart m0 m (sym (e ∙ i)) in
          (
            q,
            subst (In q) (sym (ur ∙ tr)) n,
            sym e,
            o ∙ ap (λ y. y.object_id) same,
            c ∙ ap (λ y. y.tenant_id) same,
            subst (λ y. Reaches y.status q.status) same
                (move r0.status q.status q.status l (stay q.status)),
          )
    ]

after-Successor :
    (s : PurgeStore) (m : Attempt PurgeStore) (r : EvidencePurgeRequest)
    → IsSound s
    → In r s.requests
    → ((t : PurgeStore) → m ≡ done t → Step s t)
    → IsSound (after s m) × Successor r (after s m).requests
unfolding after
after-Successor s (done t) r v m k =
    (Step-IsSound s t v (k t refl), Step-Successor s t r v m (k t refl))
after-Successor s (failed e) r v m k = (v, itself r s.requests m)

-- In a store whose requests have ids and objects of their own and agree with the projection, every
-- request row has, after any sequence of the five commands, a row of the same id, object and
-- tenant, whose status is reached from its own by changes that the status guard of the schema lets through.
pub run-Successor :
    (x : Platform) (s : PurgeStore) (calls : List Call) (r : EvidencePurgeRequest)
    → IsSound s
    → In r s.requests
    → (q : EvidencePurgeRequest) × In q (run x s calls).requests
      × (q.request_id ≡ r.request_id)
      × (q.object_id ≡ r.object_id)
      × (q.tenant_id ≡ r.tenant_id)
      × Reaches r.status q.status
unfolding run
run-Successor x s [] r v m = itself r s.requests m
run-Successor x s ((cmd, principal, fresh) ∷ calls) r v m =
    let (w, (q, n, i, o, c, h)) =
      after-Successor s (execute x s cmd principal fresh) r v m
        (λ t k. execute-Step x principal fresh s t cmd v k) in
    let (q', n', i', o', c', h') =
      run-Successor x (after s (execute x s cmd principal fresh)) calls q w n in
    (q', n', i' ∙ i, o' ∙ o, c' ∙ c, Reaches-trans r.status q.status q'.status h h')

Reaches-rejected : (a b : PurgeRequestStatus) → Reaches a b → a ≡ rejected → b ≡ rejected
Reaches-rejected a b (stay _) e = e
Reaches-rejected a b (move _ d _ l h) e = absurd (unfold legal_status_change in ground (arith, e))

-- A rejection is final: in such a store, a request row that is rejected still has, after any sequence of
-- the five commands, a row of the same id and object that is rejected, and its object is projected to
-- purge_rejected.
pub run_rejected :
    (x : Platform) (s : PurgeStore) (calls : List Call) (r : EvidencePurgeRequest)
    → IsSound s
    → In r s.requests
    → r.status ≡ rejected
    → (q : EvidencePurgeRequest) × In q (run x s calls).requests
      × (q.request_id ≡ r.request_id)
      × (q.object_id ≡ r.object_id)
      × (q.status ≡ rejected)
      × (projected (run x s calls).states r.object_id ≡ some purge_rejected)
run_rejected x s calls r v m e =
    let (q, n, i, o, _, h) = run-Successor x s calls r v m in
    let rej = Reaches-rejected r.status q.status h e in
    let seen =
      agreed_at (run x s calls).states (run x s calls).requests q n
        (run-IsSound x s calls v).agreed in
    (
      q,
      n,
      i,
      o,
      rej,
      subst (λ z. projected (run x s calls).states z ≡ some purge_rejected) o
          (seen ∙ ap some (ap state_of rej ∙ unfold state_of in refl)),
    )
  where
    agreed_at :
        (states : List EvidenceRetentionState) (rs : List EvidencePurgeRequest)
        (q : EvidencePurgeRequest)
        → In q rs
        → Agreed states rs
        → projected states q.object_id ≡ some (state_of q.status)
    agreed_at states [] q m a = absurd m
    agreed_at states (p ∷ ps) q (inl m) a =
        subst (λ z. projected states z.object_id ≡ some (state_of z.status)) m a.0
    agreed_at states (p ∷ ps) q (inr m) a = agreed_at states ps q m a.1
