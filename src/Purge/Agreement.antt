-- ===== src/Purge/Agreement.antt =====
-- How the writes of internal/store/purge_store.go keep the projection in agreement with the status of
-- the requests, and the rows of the requests apart.
use drenyra_engram.Base.{
  Str, str_eq, str_eq_iff, Bool, true, false, ◌||◌, some, List, [], ◌∷◌, ◌≡◌, refl, sym, ap, subst,
  ◌∙◌, inl, inr, All, In, any, Bool-cases, arith,
}
use drenyra_engram.Purge.{EvidencePurgeRequest, EvidenceRetentionState}
use drenyra_engram.Purge.Tables.{PurgeStore}
use drenyra_engram.Purge.Writes.{replace_request, upsert_state}
use drenyra_engram.Purge.Rows.{
  projected, projected-here, projected-elsewhere, Apart, Unique, state_of, Agreed,
}

-- The two properties of a store together.
pub record IsSound (s : PurgeStore) : Type 0 where
  pub apart : Unique s.requests
  pub agreed : Agreed s.states s.requests

flip : (s t : Str) → str_eq s t ≡ false → str_eq t s ≡ false
flip s t n = elim (Bool-cases (str_eq t s)) [
  | inl e ↦ absurd (ground (arith, str_eq_iff s t, str_eq_iff t s))
  | inr e ↦ e
]

-- A projection of another object leaves the rows of a list in agreement.
pub Agreed-upsert :
    (p : EvidenceRetentionState) (states : List EvidenceRetentionState)
    (rs : List EvidencePurgeRequest)
    → All (λ q. str_eq q.object_id p.object_id ≡ false) rs
    → Agreed states rs
    → Agreed (upsert_state p states) rs
Agreed-upsert p states [] n a = tt
Agreed-upsert p states (r ∷ rs) n a = (
  projected-elsewhere p states r.object_id (flip _ _ n.0) ∙ a.0,
  Agreed-upsert p states rs n.1 a.1,
)

-- The row that a projection is about, alone with its object.
pub Agreed-here :
    (p : EvidenceRetentionState) (states : List EvidenceRetentionState) (r : EvidencePurgeRequest)
    → p.object_id ≡ r.object_id
    → p.lifecycle_state ≡ state_of r.status
    → projected (upsert_state p states) r.object_id ≡ some (state_of r.status)
Agreed-here p states r o l =
    subst (λ y. projected (upsert_state p states) y ≡ some (state_of r.status)) o
      (projected-here p states ∙ ap some l)

pub others :
    (p : EvidenceRetentionState) (r : EvidencePurgeRequest) (rs : List EvidencePurgeRequest)
    → p.object_id ≡ r.object_id
    → All (Apart r) rs
    → All (λ q. str_eq q.object_id p.object_id ≡ false) rs
others p r [] o a = tt
others p r (q ∷ qs) o a =
    (subst (λ y. str_eq q.object_id y ≡ false) (sym o) a.0.1, others p r qs o a.1)

-- No row of a list has the id: nothing is replaced.
replace_request-none :
    (r r0 : EvidencePurgeRequest) (rs : List EvidencePurgeRequest)
    → r.request_id ≡ r0.request_id
    → All (Apart r0) rs
    → replace_request r rs ≡ rs
unfolding replace_request
replace_request-none r r0 [] i a = refl
replace_request-none r r0 (q ∷ qs) i a =
    let n : str_eq q.request_id r.request_id ≡ false =
      subst (λ y. str_eq q.request_id y ≡ false) (sym i) a.0.0 in
    rw n (ap (λ t. q ∷ t) (replace_request-none r r0 qs i a.1))

pub All-In :
    (x r0 : EvidencePurgeRequest) (xs : List EvidencePurgeRequest)
    → In r0 xs
    → All (Apart x) xs
    → Apart x r0
All-In x r0 [] m a = absurd m
All-In x r0 (y ∷ ys) (inl m) a = subst (Apart x) m a.0
All-In x r0 (y ∷ ys) (inr m) a = All-In x r0 ys m a.1

-- A row that is replaced in place keeps what is apart from it apart.
Apart-replace :
    (r q : EvidencePurgeRequest) (rs : List EvidencePurgeRequest) (r0 : EvidencePurgeRequest)
    → In r0 rs
    → r.request_id ≡ r0.request_id
    → r.object_id ≡ r0.object_id
    → Unique rs
    → All (Apart q) rs
    → All (Apart q) (replace_request r rs)
unfolding replace_request
Apart-replace r q [] r0 m i o u a = tt
Apart-replace r q (x ∷ xs) r0 (inl m) i o u a =
    let i' : x.request_id ≡ r.request_id = ap (λ y. y.request_id) m ∙ sym i in
    let o' : x.object_id ≡ r.object_id = ap (λ y. y.object_id) m ∙ sym o in
    let e : str_eq x.request_id r.request_id ≡ true = (str_eq_iff _ _).1 i' in
    rw e (
      (
        subst (λ y. str_eq y q.request_id ≡ false) i' a.0.0,
        subst (λ y. str_eq y q.object_id ≡ false) o' a.0.1,
      ),
      rw (replace_request-none r x xs (sym i') u.0) a.1,
    )
Apart-replace r q (x ∷ xs) r0 (inr m) i o u a =
    let e : str_eq x.request_id r.request_id ≡ false =
      flip _ _ (subst (λ y. str_eq y x.request_id ≡ false) (sym i) (All-In x r0 xs m u.0).0) in
    rw e (a.0, Apart-replace r q xs r0 m i o u.1 a.1)

-- The row of a replacement differs from every row before the one it replaces.
not_yet :
    (r x r0 : EvidencePurgeRequest) (xs : List EvidencePurgeRequest)
    → In r0 xs
    → r.request_id ≡ r0.request_id
    → All (Apart x) xs
    → str_eq x.request_id r.request_id ≡ false
not_yet r x r0 xs m i a =
    flip _ _ (subst (λ y. str_eq y x.request_id ≡ false) (sym i) (All-In x r0 xs m a).0)

pub Unique-replace :
    (r : EvidencePurgeRequest) (rs : List EvidencePurgeRequest) (r0 : EvidencePurgeRequest)
    → In r0 rs
    → r.request_id ≡ r0.request_id
    → r.object_id ≡ r0.object_id
    → Unique rs
    → Unique (replace_request r rs)
unfolding replace_request
Unique-replace r [] r0 m i o u = tt
Unique-replace r (x ∷ xs) r0 (inl m) i o u =
    let i' : r.request_id ≡ x.request_id = i ∙ sym (ap (λ y. y.request_id) m) in
    let o' : r.object_id ≡ x.object_id = o ∙ sym (ap (λ y. y.object_id) m) in
    rw ((str_eq_iff _ _).1 (sym i')) (
      rw (replace_request-none r x xs i' u.0) (moved r x xs i' o' u.0),
      rw (replace_request-none r x xs i' u.0) u.1,
    )
  where
    moved :
        (r x : EvidencePurgeRequest) (xs : List EvidencePurgeRequest)
        → r.request_id ≡ x.request_id
        → r.object_id ≡ x.object_id
        → All (Apart x) xs
        → All (Apart r) xs
    moved r x [] i o a = tt
    moved r x (y ∷ ys) i o a = (
      (
        subst (λ z. str_eq y.request_id z ≡ false) (sym i) a.0.0,
        subst (λ z. str_eq y.object_id z ≡ false) (sym o) a.0.1,
      ),
      moved r x ys i o a.1,
    )
Unique-replace r (x ∷ xs) r0 (inr m) i o u =
    rw (not_yet r x r0 xs m i u.0)
      (Apart-replace r x xs r0 m i o u.1 u.0, Unique-replace r xs r0 m i o u.1)

-- A row is replaced, and its object projected to the state of the new status.
pub Agreed-replace :
    (p : EvidenceRetentionState) (states : List EvidenceRetentionState) (r : EvidencePurgeRequest)
    (rs : List EvidencePurgeRequest) (r0 : EvidencePurgeRequest)
    → In r0 rs
    → r.request_id ≡ r0.request_id
    → r.object_id ≡ r0.object_id
    → p.object_id ≡ r.object_id
    → p.lifecycle_state ≡ state_of r.status
    → Unique rs
    → Agreed states rs
    → Agreed (upsert_state p states) (replace_request r rs)
unfolding replace_request
Agreed-replace p states r [] r0 m i o po pl u a = tt
Agreed-replace p states r (x ∷ xs) r0 (inl m) i o po pl u a =
    let i' : r.request_id ≡ x.request_id = i ∙ sym (ap (λ y. y.request_id) m) in
    let o' : r.object_id ≡ x.object_id = o ∙ sym (ap (λ y. y.object_id) m) in
    rw ((str_eq_iff _ _).1 (sym i')) (
      Agreed-here p states r po pl,
      rw (replace_request-none r x xs i' u.0)
          (Agreed-upsert p states xs (others p x xs (po ∙ o') u.0) a.1),
    )
Agreed-replace p states r (x ∷ xs) r0 (inr m) i o po pl u a =
    let n : str_eq x.object_id p.object_id ≡ false =
      flip _ _
        (subst (λ y. str_eq y x.object_id ≡ false) (sym (po ∙ o)) (All-In x r0 xs m u.0).1) in
    rw (not_yet r x r0 xs m i u.0) (
      projected-elsewhere p states x.object_id (flip _ _ n) ∙ a.0,
      Agreed-replace p states r xs r0 m i o po pl u.1 a.1,
    )

-- The object of a row is projected to the state of the status it has.
pub Agreed-again :
    (p : EvidenceRetentionState) (states : List EvidenceRetentionState) (r : EvidencePurgeRequest)
    (rs : List EvidencePurgeRequest)
    → In r rs
    → p.object_id ≡ r.object_id
    → p.lifecycle_state ≡ state_of r.status
    → Unique rs
    → Agreed states rs
    → Agreed (upsert_state p states) rs
Agreed-again p states r [] m po pl u a = tt
Agreed-again p states r (x ∷ xs) (inl m) po pl u a =
    let o : p.object_id ≡ x.object_id = po ∙ sym (ap (λ y. y.object_id) m) in
    let l : p.lifecycle_state ≡ state_of x.status = pl ∙ sym (ap (λ y. state_of y.status) m) in
    (Agreed-here p states x o l, Agreed-upsert p states xs (others p x xs o u.0) a.1)
Agreed-again p states r (x ∷ xs) (inr m) po pl u a =
    let n : str_eq p.object_id x.object_id ≡ false =
      subst (λ y. str_eq y x.object_id ≡ false) (sym po) (All-In x r xs m u.0).1 in
    (projected-elsewhere p states x.object_id n ∙ a.0, Agreed-again p states r xs m po pl u.1 a.1)

unfoldable pub clash : EvidencePurgeRequest → List EvidencePurgeRequest → Bool
unfolding any
clash r rs = any (λ q. str_eq q.request_id r.request_id || str_eq q.object_id r.object_id) rs

pub Apart-from :
    (r : EvidencePurgeRequest) (rs : List EvidencePurgeRequest)
    → clash r rs ≡ false
    → All (Apart r) rs
unfolding clash any
Apart-from r [] n = tt
Apart-from r (q ∷ qs) n = ((ground arith, ground arith), Apart-from r qs (ground arith))
