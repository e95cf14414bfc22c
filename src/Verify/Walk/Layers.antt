-- ===== src/Verify/Walk/Layers.antt =====
-- The supersession layers of a memory and of a judgment, over the tables of the store.
use drenyra_engram.Base.{
  ℕ, suc, ◌+◌, ◌≤◌, ◌<◌, ◌≡◌, ◌↔◌, refl, subst, ap, inl, inr, Str, str_eq, Bool, false, Option,
  some, List, [], ◌∷◌, length, is_empty, All, In, Option-cases, arith,
}
use mathlib.Core.Option
use drenyra_engram.Purge.Rows.{first-found}
use drenyra_engram.Memory.{AccountingMemory}
use drenyra_engram.Judgment.{AccountingJudgment}
use drenyra_engram.Verify.{
  VerificationLayer, passed, SubjectScope, SupersessionLink, verify_supersession_chain,
}
use drenyra_engram.Verify.Supersession.{supersession_iff_Walk}
use drenyra_engram.Verify.Walk.{
  SupersessionTables, find_by_id, supersedes_row, successor_of, judgment_successor_of, memory_scope,
  judgment_scope, memory_is_superseded, judgment_is_superseded, links_from, memory_links,
  judgment_links, memory_supersession_layer, judgment_supersession_layer,
}
use drenyra_engram.Verify.Walk.Ends.{unseen, unseen-length, links_from_end}
use drenyra_engram.Verify.Walk.Current.{Current, Current-Walk, Walk-Current, links_not_empty}

module _ {A : Type 0} (id_of : A → Str) where
  ids_of : List A → List Str
  ids_of [] = []
  ids_of (x ∷ xs) = id_of x ∷ ids_of xs

  length-ids_of : (xs : List A) → length (ids_of xs) ≡ length xs
  unfolding ids_of
  length-ids_of [] = refl
  length-ids_of (x ∷ xs) = ap suc (length-ids_of xs)

  in-ids_of : (y : A) (xs : List A) → In y xs → In (id_of y) (ids_of xs)
  unfolding ids_of
  in-ids_of y [] i = absurd i
  in-ids_of y (x ∷ xs) (inl e) = inl (ap id_of e)
  in-ids_of y (x ∷ xs) (inr i) = inr (in-ids_of y xs i)

row-at : {A : Type 0} (P : A → Type 0) (y : A) (xs : List A) → All P xs → In y xs → P y
row-at P y [] h i = absurd i
row-at P y (x ∷ xs) h (inl e) = subst P e h.0
row-at P y (x ∷ xs) h (inr i) = row-at P y xs h.1 i

module _ {A : Type 0} (id_of : A → Str) (is_superseded : A → Bool) (scope_of : A → SubjectScope)
    (next : Str → Option A) (rows : List A)
    (from_rows : (x : Str) (y : A) → next x ≡ some y → In y rows)
    (named : All (λ y. is_empty (id_of y) ≡ false) rows) where
  abbrev chain_of : A → List SupersessionLink → VerificationLayer
  chain_of subject ls = verify_supersession_chain ls (scope_of subject)

  -- With fuel for two rounds more than there are rows the layer is answered, and it passes exactly when
  -- the walk comes to a current row.
  layer_iff :
      (fuel : ℕ) (subject : A)
      → length rows + 2 ≤ fuel
      → (l : VerificationLayer) × (Option.map
            (chain_of subject)
            (links_from id_of is_superseded scope_of next fuel [] subject)
          ≡ some l)
        × ((l.status ≡ passed)
            ↔ ((n : ℕ) × Current id_of is_superseded scope_of next (scope_of subject) n subject))
  layer_iff fuel subject enough =
      let ids : List Str = id_of subject ∷ ids_of id_of rows in
      let small : unseen [] ids < fuel =
        (let a = unseen-length [] ids in let b = length-ids_of id_of rows in omega arith) in
      let (ls, e) =
        links_from_end id_of is_superseded scope_of next ids
          (λ x y h. inr (in-ids_of id_of y rows (from_rows x y h))) fuel [] subject (inl refl)
          small in
      let has_id : (x : Str) (y : A) → next x ≡ some y → is_empty (id_of y) ≡ false =
        (λ x y h. row-at (λ y. is_empty (id_of y) ≡ false) y rows named (from_rows x y h)) in
      let judged = supersession_iff_Walk ls (scope_of subject) in
      (
        chain_of subject ls,
        ap (Option.map (chain_of subject)) e,
        (
          (λ p.
              Current-Walk id_of is_superseded scope_of next (scope_of subject) has_id fuel []
                subject ls e (judged.0 p).1),
          (λ (n, c). judged.1 (
            links_not_empty id_of is_superseded scope_of next (scope_of subject) has_id fuel []
                subject ls e,
            Walk-Current id_of is_superseded scope_of next (scope_of subject) has_id fuel n []
                subject ls e tt c,
          )),
        ),
      )

-- So many successors of the memory on there is a current one.
abbrev pub CurrentMemory : SupersessionTables → AccountingMemory → ℕ → Type 0
CurrentMemory t subject n =
    Current (λ m. m.identity.id) memory_is_superseded memory_scope (successor_of t)
      (memory_scope subject) n subject

abbrev CurrentJudgment : SupersessionTables → AccountingJudgment → ℕ → Type 0
CurrentJudgment t subject n =
    Current (λ j. j.id) judgment_is_superseded judgment_scope (judgment_successor_of t)
      (judgment_scope subject) n subject

successor-stored :
    (t : SupersessionTables) (x : Str) (m : AccountingMemory)
    → successor_of t x ≡ some m
    → In m t.observations
unfolding successor_of find_by_id
successor-stored t x m h = elim (Option-cases (supersedes_row t.relations x)) [
  | inl e ↦ absurd (ground arith)
  | inr (r, e) ↦ (first-found (λ m. str_eq m.identity.id r.to_id) t.observations m (ground arith)).0
]

judgment_successor-stored :
    (t : SupersessionTables) (x : Str) (j : AccountingJudgment)
    → judgment_successor_of t x ≡ some j
    → In j t.judgments
unfolding judgment_successor_of
judgment_successor-stored t x j h = elim (Option-cases (supersedes_row t.judgment_relations x)) [
  | inl e ↦ absurd (ground arith)
  | inr (r, e) ↦ (first-found (λ j. str_eq j.id r.to_id) t.judgments j (ground arith)).0
]

-- Where no stored memory has an empty id, the supersession walk of a memory ends after at most two
-- rounds more than there are memories, whatever cycles their relations make, and the layer passes exactly
-- when some number of successors on there is a memory that has no successor and is not superseded, every
-- memory before it is superseded, and all are of the scope of the first.
pub memory_supersession_layer-Current :
    (t : SupersessionTables) (subject : AccountingMemory) (fuel : ℕ)
    → All (λ m. is_empty m.identity.id ≡ false) t.observations
    → length t.observations + 2 ≤ fuel
    → (l : VerificationLayer) × (memory_supersession_layer t fuel subject ≡ some l)
      × ((l.status ≡ passed) ↔ ((n : ℕ) × CurrentMemory t subject n))
unfolding memory_supersession_layer memory_links
memory_supersession_layer-Current t subject fuel named enough =
    layer_iff (λ m. m.identity.id) memory_is_superseded memory_scope (successor_of t) t.observations
      (successor-stored t) named fuel subject enough

-- The same of the walk of a judgment: where no stored judgment has an empty id, two rounds more than
-- there are judgments end it, and the layer passes exactly when some number of successors on there is a
-- judgment that has no successor and is not superseded, every judgment before it is superseded, and all
-- are of the scope of the first.
judgment_supersession_layer-Current :
    (t : SupersessionTables) (subject : AccountingJudgment) (fuel : ℕ)
    → All (λ j. is_empty j.id ≡ false) t.judgments
    → length t.judgments + 2 ≤ fuel
    → (l : VerificationLayer) × (judgment_supersession_layer t fuel subject ≡ some l)
      × ((l.status ≡ passed) ↔ ((n : ℕ) × CurrentJudgment t subject n))
unfolding judgment_supersession_layer judgment_links
judgment_supersession_layer-Current t subject fuel named enough =
    layer_iff (λ j. j.id) judgment_is_superseded judgment_scope (judgment_successor_of t)
      t.judgments (judgment_successor-stored t) named fuel subject enough
