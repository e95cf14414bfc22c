-- ===== src/Purge/Keys.antt =====
-- How the writes of internal/store/purge_store.go treat the idempotency keys and the objects, and the
-- lookups that a completed command leaves behind.
use drenyra_engram.Base.{
  Str, str_eq, str_eq_iff, str_eq_refl, Bool, true, false, Option, none, some, List, [], ◌∷◌, ◌≡◌,
  refl, sym, ap, ◌∙◌, inl, inr, In, is_empty, Bool-cases, Option-cases, arith,
}
use drenyra_engram.Purge.{
  EvidencePurgeRequest, EvidencePurgeApproval, EvidenceLifecycleEvent, done, ◌>>=◌, ◌>>◌,
}
use drenyra_engram.Purge.Tables.{IdempotencyKey, PurgeReceiptPayload, PurgeStore, first}
use drenyra_engram.Purge.Reads.{
  purge_request_by_id_on, null_string, replay_key, find_key, replay_purge_idempotency_on,
}
use drenyra_engram.Purge.Writes.{
  update_purge_request, insert_purge_request, reserve_key, insert_lifecycle_event_on,
  insert_purge_approval_on, emit_receipt, complete_purge_idempotency_on,
}
use drenyra_engram.Purge.Close.{insert_decision}
use drenyra_engram.Purge.Rows.{Unique}
use drenyra_engram.Purge.Agreement.{IsSound, All-In}
use drenyra_engram.Purge.Steps.{Step, Step-IsSound}
use drenyra_engram.Purge.ClosingSteps.{by_id-In}
use drenyra_engram.Purge.History.{Step-Successor}

-- The keys and the objects are as they were.
abbrev pub Context : PurgeStore → PurgeStore → Type 0
Context s t = (t.keys ≡ s.keys) × (t.objects ≡ s.objects)

pub Context-trans : (s t u : PurgeStore) → Context s t → Context t u → Context s u
Context-trans s t u (a, b) (c, d) = (c ∙ a, d ∙ b)

pub event-Context :
    (s t : PurgeStore) (e : EvidenceLifecycleEvent)
    → insert_lifecycle_event_on s e ≡ done t
    → Context s t
unfolding insert_lifecycle_event_on ◌>>=◌ ◌>>◌
event-Context s t e h = ground arith

pub approval-Context :
    (s t : PurgeStore) (a : EvidencePurgeApproval)
    → insert_purge_approval_on s a ≡ done t
    → Context s t
unfolding insert_purge_approval_on ◌>>=◌ ◌>>◌
approval-Context s t a h = ground arith

pub decision-Context :
    (s t : PurgeStore) (a : Option EvidencePurgeApproval)
    → insert_decision s a ≡ done t
    → Context s t
unfolding insert_decision
decision-Context s t none h = ground arith
decision-Context s t (some a) h = approval-Context s t a h

pub receipt-Context :
    (signs : Option (PurgeReceiptPayload → Bool)) (s t : PurgeStore) (p : PurgeReceiptPayload)
    → emit_receipt signs s p ≡ done t
    → Context s t
unfolding emit_receipt ◌>>=◌ ◌>>◌
receipt-Context none s t p h = ground arith
receipt-Context (some f) s t p h = ground arith

pub update-Context :
    (s t : PurgeStore) (r : EvidencePurgeRequest) → update_purge_request s r ≡ done t → Context s t
unfolding update_purge_request ◌>>=◌ ◌>>◌
update-Context s t r h =
    elim (Option-cases (first (λ q. str_eq q.request_id r.request_id) s.requests)) [
      | inl n ↦ ground arith
      | inr (q, e) ↦ ground arith
    ]

pub insert-Context :
    (s t : PurgeStore) (r : EvidencePurgeRequest) → insert_purge_request s r ≡ done t → Context s t
unfolding insert_purge_request
insert-Context s t r h = ground arith

-- A reservation, before it is completed.
abbrev reserved : Str → Str → Str → Str → Str → IdempotencyKey
reserved tenant id hash actor now = record {
  tenant_id = tenant;
  request_id = id;
  command_hash = hash;
  actor_binding = actor;
  entity_id = none;
  result_json = none;
  created_at = now;
  completed_at = none;
}

pub reserve_key-adds :
    (s a : PurgeStore) (tenant id hash actor now : Str)
    → reserve_key s tenant id hash actor now ≡ done a
    → (a.keys ≡ reserved tenant id hash actor now ∷ s.keys) × (a.objects ≡ s.objects)
unfolding reserve_key
reserve_key-adds s a tenant id hash actor now h = ground arith

-- A completed reservation answers its result to the same fingerprint and principal.
pub completed-answers :
    (s a b : PurgeStore) (tenant id hash actor now entity json : Str)
    → reserve_key s tenant id hash actor now ≡ done a
    → Context a b
    → is_empty entity ≡ false
    → is_empty json ≡ false
    → replay_purge_idempotency_on
        (complete_purge_idempotency_on b tenant id entity json now)
        tenant
        id
        hash
        actor
      ≡ done (some json)
unfolding replay_purge_idempotency_on complete_purge_idempotency_on find_key first replay_key
    null_string ◌>>=◌ ◌>>◌ str_eq
completed-answers s a b tenant id hash actor now entity json h (k, _) e j =
    rw (k ∙ (reserve_key-adds s a tenant id hash actor now h).0) (
      rw (str_eq_refl tenant, str_eq_refl id)
        (rw (str_eq_refl tenant, str_eq_refl id, str_eq_refl hash, str_eq_refl actor, e, j) refl))

found_row :
    (id : Str) (q : EvidencePurgeRequest) (rs : List EvidencePurgeRequest)
    → Unique rs
    → In q rs
    → q.request_id ≡ id
    → first (λ r. str_eq r.request_id id) rs ≡ some q
unfolding first
found_row id q [] u m i = absurd m
found_row id q (x ∷ xs) u (inl m) i =
    rw ((str_eq_iff x.request_id id).1 (ap (λ y. y.request_id) m ∙ i)) (ap some m)
found_row id q (x ∷ xs) u (inr m) i =
    let n : str_eq q.request_id x.request_id ≡ false = (All-In x q xs m u.0).0 in
    elim (Bool-cases (str_eq x.request_id id)) [
      | inl e ↦
          let same : str_eq q.request_id x.request_id ≡ true =
            (str_eq_iff _ _).1 (i ∙ sym ((str_eq_iff _ _).0 e)) in
          absurd (ground arith)
      | inr e ↦ rw e (found_row id q xs u.1 m i)
    ]

-- After a step, a request is still found by its id, with its tenant and object.
pub still_found :
    (s t : PurgeStore) (id : Str) (r : EvidencePurgeRequest)
    → IsSound s
    → Step s t
    → purge_request_by_id_on s id ≡ done r
    → (q : EvidencePurgeRequest) × (purge_request_by_id_on t id ≡ done q)
      × (q.tenant_id ≡ r.tenant_id)
      × (q.object_id ≡ r.object_id)
unfolding purge_request_by_id_on
still_found s t id r v w h =
    let (m, e) = by_id-In s id r h in
    let (q, n, i, o, c, _) = Step-Successor s t r v m w in
    let f = found_row id q t.requests (Step-IsSound s t v w).apart n (i ∙ (str_eq_iff _ _).0 e) in
    (q, rw (f, purge_request_by_id_on) refl, c, o)
