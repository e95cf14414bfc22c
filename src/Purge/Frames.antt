-- ===== src/Purge/Frames.antt =====
-- What each write of internal/store/purge_store.go does to the requests and to the projection.
use drenyra_engram.Base.{
  Str, str_eq, str_eq_iff, Bool, true, false, Option, none, some, List, [], ◌∷◌, ◌≡◌, sym, ap,
  subst, ◌∙◌, inl, inr, In, Bool-cases, Option-cases, arith,
}
use drenyra_engram.Purge.{
  PurgeLifecycleState, EvidencePurgeRequest, EvidencePurgeApproval, EvidenceLifecycleEvent,
  EvidenceRetentionState, done, ◌>>=◌, ◌>>◌,
}
use drenyra_engram.Purge.Tables.{PurgeStore, PurgeReceiptPayload, first}
use drenyra_engram.Purge.Writes.{
  replace_request, update_purge_request, upsert_state, insert_purge_request, reserve_key,
  insert_lifecycle_event_on, insert_purge_approval_on, emit_receipt, legal_status_change,
}
use drenyra_engram.Purge.Rows.{Unique, first-found}
use drenyra_engram.Purge.Agreement.{All-In, clash}

-- The requests and the projection are as they were.
abbrev pub Frame : PurgeStore → PurgeStore → Type 0
Frame s t = (t.requests ≡ s.requests) × (t.states ≡ s.states)

-- The requests are as they were, and one object is projected to a state.
abbrev pub Projects : PurgeStore → PurgeStore → Str → PurgeLifecycleState → Type 0
Projects s t o l =
    (p : EvidenceRetentionState) × (t.requests ≡ s.requests)
    × (t.states ≡ upsert_state p s.states)
    × (p.object_id ≡ o)
    × (p.lifecycle_state ≡ l)

pub Frame-trans : (s t u : PurgeStore) → Frame s t → Frame t u → Frame s u
Frame-trans s t u (a, b) (c, d) = (c ∙ a, d ∙ b)

-- A projection after writes elsewhere.
pub Projects-after :
    (s t u : PurgeStore) (o : Str) (l : PurgeLifecycleState)
    → Frame s t
    → Projects t u o l
    → Projects s u o l
Projects-after s t u o l (fr, fs) (p, ur, us, po, pl) =
    (p, ur ∙ fr, us ∙ ap (upsert_state p) fs, po, pl)

pub reserve_key-Frame :
    (s t : PurgeStore) (tenant id hash actor now : Str)
    → reserve_key s tenant id hash actor now ≡ done t
    → Frame s t
unfolding reserve_key
reserve_key-Frame s t tenant id hash actor now h = ground arith

pub event-Frame :
    (s t : PurgeStore) (e : EvidenceLifecycleEvent)
    → insert_lifecycle_event_on s e ≡ done t
    → Frame s t
unfolding insert_lifecycle_event_on ◌>>=◌ ◌>>◌
event-Frame s t e h = ground arith

pub approval-Frame :
    (s t : PurgeStore) (a : EvidencePurgeApproval)
    → insert_purge_approval_on s a ≡ done t
    → Frame s t
unfolding insert_purge_approval_on ◌>>=◌ ◌>>◌
approval-Frame s t a h = ground arith

pub receipt-Frame :
    (signs : Option (PurgeReceiptPayload → Bool)) (s t : PurgeStore) (p : PurgeReceiptPayload)
    → emit_receipt signs s p ≡ done t
    → Frame s t
unfolding emit_receipt ◌>>=◌ ◌>>◌
receipt-Frame none s t p h = ground arith
receipt-Frame (some f) s t p h = ground arith

pub found-In :
    (r r0 : EvidencePurgeRequest) (rs : List EvidencePurgeRequest)
    → In r0 rs
    → r.request_id ≡ r0.request_id
    → ¬ (first (λ q. str_eq q.request_id r.request_id) rs ≡ none)
unfolding first
found-In r r0 [] m i n = absurd m
found-In r r0 (x ∷ xs) (inl m) i n =
    let e : str_eq x.request_id r.request_id ≡ true =
      (str_eq_iff _ _).1 (ap (λ y. y.request_id) m ∙ sym i) in
    absurd (ground arith)
found-In r r0 (x ∷ xs) (inr m) i n = elim (Bool-cases (str_eq x.request_id r.request_id)) [
  | inl e ↦ absurd (ground arith)
  | inr e ↦ found-In r r0 xs m i (ground arith)
]

-- Two rows of a table with one id are one row.
pub same_row :
    (q r : EvidencePurgeRequest) (rs : List EvidencePurgeRequest)
    → Unique rs
    → In q rs
    → In r rs
    → q.request_id ≡ r.request_id
    → q ≡ r
same_row q r [] u m n i = absurd m
same_row q r (x ∷ xs) u (inl m) (inl n) i = sym m ∙ n
same_row q r (x ∷ xs) u (inl m) (inr n) i =
    let e : str_eq r.request_id q.request_id ≡ true = (str_eq_iff _ _).1 (sym i) in
    let f : str_eq r.request_id q.request_id ≡ false =
      subst (λ y. str_eq r.request_id y.request_id ≡ false) m (All-In x r xs n u.0).0 in
    absurd (ground arith)
same_row q r (x ∷ xs) u (inr m) (inl n) i =
    let e : str_eq q.request_id r.request_id ≡ true = (str_eq_iff _ _).1 i in
    let f : str_eq q.request_id r.request_id ≡ false =
      subst (λ y. str_eq q.request_id y.request_id ≡ false) n (All-In x q xs m u.0).0 in
    absurd (ground arith)
same_row q r (x ∷ xs) u (inr m) (inr n) i = same_row q r xs u.1 m n i

-- The update of a row that is there replaces it, by a legal change of its status.
pub update-replaces :
    (s t : PurgeStore) (r r0 : EvidencePurgeRequest)
    → Unique s.requests
    → In r0 s.requests
    → r.request_id ≡ r0.request_id
    → update_purge_request s r ≡ done t
    → (legal_status_change r0.status r.status ≡ true)
      × (t.requests ≡ replace_request r s.requests)
      × (t.states ≡ s.states)
unfolding update_purge_request ◌>>=◌ ◌>>◌
update-replaces s t r r0 u m i h =
    elim (Option-cases (first (λ q. str_eq q.request_id r.request_id) s.requests)) [
      | inl n ↦ absurd (found-In r r0 s.requests m i n)
      | inr (q, e) ↦
          let (n, o) = first-found (λ q. str_eq q.request_id r.request_id) s.requests q e in
          let same : q ≡ r0 = same_row q r0 s.requests u n m ((str_eq_iff _ _).0 o ∙ i) in
          let legal : legal_status_change q.status r.status ≡ true = ground arith in
          (
            subst (λ z. legal_status_change z.status r.status ≡ true) same legal,
            ground arith,
            ground arith,
          )
    ]

pub insert-adds :
    (s t : PurgeStore) (r : EvidencePurgeRequest)
    → insert_purge_request s r ≡ done t
    → (clash r s.requests ≡ false) × (t.requests ≡ r ∷ s.requests) × (t.states ≡ s.states)
unfolding insert_purge_request clash
insert-adds s t r h = ground arith
