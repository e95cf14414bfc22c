-- ===== src/Purge/Gates.antt =====
-- What has held when ApprovePurge of internal/store/purge_store.go has recorded an approval.
use drenyra_engram.Base.{
  Str, str_eq_iff, Bool, true, false, Option, none, some, List, [], ◌∷◌, ◌≡◌, refl, sym, ap, subst,
  ◌∙◌, inl, inr, All, map, Bool-cases, arith,
}
use drenyra_engram.Memory.{Scope}
use drenyra_engram.Holds.{EvidenceHold}
use drenyra_engram.Retention.{
  RetentionPolicy, RetentionEligibility, eligible, evaluate_retention_eligibility,
}
use drenyra_engram.Purge.{LifecycleHoldRef, LifecycleSnapshot, PurgeError, done, require}
use drenyra_engram.Purge.Snapshot.{
  insert_hold, sorted_lifecycle_holds, compute_lifecycle_snapshot_hash, assemble_snapshot,
}
use drenyra_engram.Purge.Tables.{PurgeStore, Platform, select}
use drenyra_engram.Purge.Reads.{
  blocks, hold_ref, active_blocking_hold_refs_on, current_purge_snapshot_on,
}
use drenyra_engram.Purge.Blockers.{assert_eligible, found_policy, no_holds, check_blockers}
use drenyra_engram.Purge.Rows.{>>=-done, >>-done, done-eq}

pub require-true : (b : Bool) (e : PurgeError) → require b e ≡ done tt → b ≡ true
require-true true e h = refl
require-true false e h = cc

-- No hold of the store blocks the object.
abbrev pub Free : PurgeStore → Str → List Str → Type 0
Free s object_id kinds = All (λ h. blocks object_id kinds h ≡ false) s.holds

insert_hold-blocks :
    (a : LifecycleHoldRef) (hs : List LifecycleHoldRef) → no_holds (insert_hold a hs) ≡ false
unfolding insert_hold no_holds
insert_hold-blocks a [] = refl
insert_hold-blocks a (h ∷ hs) = ground arith

none_selected :
    (p : EvidenceHold → Bool) (hs : List EvidenceHold)
    → no_holds (sorted_lifecycle_holds (map hold_ref (select p hs))) ≡ true
    → All (λ h. p h ≡ false) hs
unfolding select sorted_lifecycle_holds
none_selected p [] h = tt
none_selected p (a ∷ as') h = elim (Bool-cases (p a)) [
  | inl e ↦
      let f =
        insert_hold-blocks (hold_ref a) (sorted_lifecycle_holds (map hold_ref (select p as'))) in
      absurd (ground (arith, f))
  | inr e ↦ (e, none_selected p as' (ground arith))
]

-- The blockers of an object that a policy lets pass.
pub record IsClear (x : Platform) (s : PurgeStore) (scope : Scope) (object_id expected_hash : Str)
    (p : RetentionPolicy) (current : LifecycleSnapshot) : Type 0 where
  pub due : evaluate_retention_eligibility p scope.period ≡ eligible
  pub read : current_purge_snapshot_on s object_id scope p.blocking_hold_kinds ≡ done current
  pub free : Free s object_id p.blocking_hold_kinds
  pub reviewed : compute_lifecycle_snapshot_hash x.digest current ≡ expected_hash

assert_eligible-eligible : (e : RetentionEligibility) → assert_eligible e ≡ done tt → e ≡ eligible
unfolding assert_eligible
assert_eligible-eligible e h = ground arith

-- The holds of a snapshot are the active blocking ones of the store.
snapshot_holds :
    (s : PurgeStore) (object_id : Str) (scope : Scope) (kinds : List Str)
    (current : LifecycleSnapshot)
    → current_purge_snapshot_on s object_id scope kinds ≡ done current
    → active_blocking_hold_refs_on s object_id kinds ≡ current.blocking_holds
unfolding current_purge_snapshot_on assemble_snapshot
snapshot_holds s object_id scope kinds current h =
    let (v, _, h1) = >>=-done _ _ h in ap (λ z. z.blocking_holds) (done-eq _ _ h1)

pub check_blockers-IsClear :
    (x : Platform) (s : PurgeStore) (scope : Scope) (object_id expected_hash : Str)
    (matched : Option RetentionPolicy) (p : RetentionPolicy) (current : LifecycleSnapshot)
    → check_blockers x s scope object_id expected_hash matched ≡ done (p, current)
    → (matched ≡ some p) × IsClear x s scope object_id expected_hash p current
unfolding check_blockers found_policy active_blocking_hold_refs_on
check_blockers-IsClear x s scope object_id expected_hash none p current h =
    let (_, n, _) = >>=-done _ _ h in absurd (ground arith)
check_blockers-IsClear x s scope object_id expected_hash (some q) p current h =
    let (q', e, h1) = >>=-done _ _ h in
    let (due, h2) = >>-done _ _ h1 in
    let (c, read, h3) = >>=-done _ _ h2 in
    let (free, h4) = >>-done _ _ h3 in
    let (reviewed, h5) = >>-done _ _ h4 in
    let same : q' ≡ p = ap (λ z. z.0) (done-eq _ _ h5) in
    let same' : c ≡ current = ap (λ z. z.1) (done-eq _ _ h5) in
    let clear : IsClear x s scope object_id expected_hash q' c = record {
      due = assert_eligible-eligible _ due;
      read = read;
      free = none_selected (blocks object_id q'.blocking_hold_kinds) s.holds (
          subst (λ z. no_holds z ≡ true) (sym (snapshot_holds s _ scope _ c read))
            (require-true _ _ free));
      reviewed = (str_eq_iff _ _).0 (require-true _ _ reviewed);
    } in
    (
      ap some (done-eq _ _ e ∙ same),
      subst (λ z. IsClear x s scope object_id expected_hash z current) same
          (subst (IsClear x s scope object_id expected_hash q') same' clear),
    )
