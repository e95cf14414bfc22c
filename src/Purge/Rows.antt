-- ===== src/Purge/Rows.antt =====
-- Lemmas on the tables of the purge pipeline: lookups, upserts, and a request row that is replaced.
use drenyra_engram.Base.{
  Str, str_eq, str_eq_iff, str_eq_refl, Bool, true, false, Option, some, List, [], ◌∷◌, ◌≡◌, refl,
  ap, subst, ◌∙◌, inl, inr, All, In, Bool-cases, arith,
}
use mathlib.Core.Option
use drenyra_engram.Purge.{
  PurgeLifecycleState, stored, purge_requested, purge_approved, purge_rejected, purged,
  PurgeRequestStatus, requested, approved, rejected, executed, EvidencePurgeRequest,
  EvidenceRetentionState, Attempt, done, failed, ◌>>=◌, ◌>>◌,
}
use drenyra_engram.Purge.Tables.{first}
use drenyra_engram.Purge.Writes.{upsert_state}

-- A chain that is done was done at its first part, and the rest of it on that value.
pub >>=-done :
    {A B : Type 0} (now : Attempt A) (next : A → Attempt B) {value : B}
    → (now >>= next) ≡ done value
    → (first_value : A) × (now ≡ done first_value) × (next first_value ≡ done value)
unfolding ◌>>=◌
>>=-done (failed why) next h = cc
>>=-done (done first_value) next h = (first_value, refl, h)

-- A row that a lookup finds is in the table and passes the test.
pub first-found :
    {A : Type 0} (p : A → Bool) (xs : List A) (a : A) → first p xs ≡ some a → In a xs × (p a ≡ true)
unfolding first
first-found p [] a h = cc
first-found p (x ∷ xs) a h = elim (Bool-cases (p x)) [
  | inl e ↦ let same : x ≡ a = ground arith in (inl same, subst (λ y. p y ≡ true) same e)
  | inr e ↦ let (i, q) = first-found p xs a (ground arith) in (inr i, q)
]

-- The projected lifecycle state of an object.
unfoldable pub projected : List EvidenceRetentionState → Str → Option PurgeLifecycleState
projected states object_id =
    Option.map (λ p. p.lifecycle_state) (first (λ p. str_eq p.object_id object_id) states)

pub projected-here :
    (p : EvidenceRetentionState) (ps : List EvidenceRetentionState)
    → projected (upsert_state p ps) p.object_id ≡ some p.lifecycle_state
unfolding projected first upsert_state
projected-here p [] = ground (arith, str_eq_refl p.object_id)
projected-here p (q ∷ qs) = elim (Bool-cases (str_eq q.object_id p.object_id)) [
  | inl e ↦ rw e (ground (arith, str_eq_refl p.object_id))
  | inr e ↦ rw (e, e) (projected-here p qs)
]

pub projected-elsewhere :
    (p : EvidenceRetentionState) (ps : List EvidenceRetentionState) (o : Str)
    → str_eq p.object_id o ≡ false
    → projected (upsert_state p ps) o ≡ projected ps o
unfolding projected first upsert_state
projected-elsewhere p [] o n = rw n refl
projected-elsewhere p (q ∷ qs) o n = elim (Bool-cases (str_eq q.object_id p.object_id)) [
  | inl e ↦
      let same : q.object_id ≡ p.object_id = (str_eq_iff _ _).0 e in
      rw e (rw n (rw (ap (λ y. str_eq y o) same ∙ n) refl))
  | inr e ↦ rw e (elim (Bool-cases (str_eq q.object_id o)) [
    | inl f ↦ rw f refl
    | inr f ↦ rw f (projected-elsewhere p qs o n)
  ])
]

-- Two rows share neither the id nor the object.
abbrev pub Apart : EvidencePurgeRequest → EvidencePurgeRequest → Type 0
Apart r q = (str_eq q.request_id r.request_id ≡ false) × (str_eq q.object_id r.object_id ≡ false)

abbrev pub Unique : List EvidencePurgeRequest → Type 0
Unique [] = Unit
Unique (r ∷ rs) = All (Apart r) rs × Unique rs

-- The state of the projection that a status stands for.
unfoldable pub state_of : PurgeRequestStatus → PurgeLifecycleState
state_of requested = purge_requested
state_of approved = purge_approved
state_of rejected = purge_rejected
state_of executed = purged
state_of _ = stored

-- Each request's object is projected to the state that its status stands for.
abbrev pub Agreed : List EvidenceRetentionState → List EvidencePurgeRequest → Type 0
Agreed states = All (λ r. projected states r.object_id ≡ some (state_of r.status))

pub done-eq : {A : Type 0} (a b : A) → done a ≡ done b → a ≡ b
done-eq a b h = cc

-- The same for a statement with no result.
pub >>-done :
    {B : Type 0} (m : Attempt (Unit {0})) (k : Attempt B) {b : B}
    → (m >> k) ≡ done b
    → (m ≡ done tt) × (k ≡ done b)
unfolding ◌>>=◌ ◌>>◌
>>-done (done tt) k h = (refl, h)
>>-done (failed e) k h = cc
