-- ===== src/Verify/Walk.antt =====
-- The walk of the supersession layers of internal/server/verify_service.go along the successor relations
-- of internal/store/store.go.
pub mod Ends
pub mod Current
pub mod Layers
use drenyra_engram.Base.{
  ℕ, zero, suc, ◌+◌, Str, str, str_eq, Bool, true, false, Option, none, some, List, [], ◌∷◌, ◌&&◌,
  length, if◌then◌else◌,
}
use drenyra_engram.Base.Sorted.{member}
use mathlib.Core.Option
use drenyra_engram.Purge.Tables.{first}
use drenyra_engram.Memory.{AccountingMemory, MemoryStatus, status_eq}
use drenyra_engram.Judgment
use drenyra_engram.Judgment.{AccountingJudgment, JudgmentStatus}
use drenyra_engram.Verify.{
  VerificationLayer, SubjectScope, SupersessionLink, verify_supersession_chain, layer_failed,
  layer_supersession_chain,
}

-- A row of `relations` or of `judgment_relations`, in the order of their rowids.
pub record RelationRow : Type 0 where
  pub from_id : Str
  pub to_id : Str
  pub relation : Str

-- The tables that the walks read. `observations` has the rows as `FindByID` answers them, with their
-- evidence and rule links; a row that cannot be read or decrypted is left out, as it answers none.
pub record SupersessionTables : Type 0 where
  pub observations : List AccountingMemory
  pub relations : List RelationRow
  pub judgments : List AccountingJudgment
  pub judgment_relations : List RelationRow

unfoldable pub find_by_id : SupersessionTables → Str → Option AccountingMemory
unfolding first
find_by_id t id = first (λ m. str_eq m.identity.id id) t.observations

-- `... AND relation = 'supersedes' ORDER BY rowid LIMIT 1`
unfoldable supersedes_row : List RelationRow → Str → Option RelationRow
unfolding first
supersedes_row rows id =
    first (λ r. str_eq r.from_id id && str_eq r.relation (str "supersedes")) rows

unfoldable pub successor_of : SupersessionTables → Str → Option AccountingMemory
unfolding supersedes_row
successor_of t memory_id = elim (supersedes_row t.relations memory_id) [
  | none ↦ none
  | some r ↦ find_by_id t r.to_id
]

unfoldable pub judgment_successor_of : SupersessionTables → Str → Option AccountingJudgment
unfolding supersedes_row first
judgment_successor_of t judgment_id = elim (supersedes_row t.judgment_relations judgment_id) [
  | none ↦ none
  | some r ↦ first (λ j. str_eq j.id r.to_id) t.judgments
]

unfoldable pub memory_scope : AccountingMemory → SubjectScope
memory_scope m = record {
  tenant_id = m.scope.organization_id;
  company_id = m.scope.company_id;
  fiscal_period_id = m.scope.period;
}

unfoldable pub judgment_scope : AccountingJudgment → SubjectScope
judgment_scope j = record {
  tenant_id = j.tenant_id;
  company_id = j.company_id;
  fiscal_period_id = j.fiscal_period_id;
}

unfoldable pub memory_is_superseded : AccountingMemory → Bool
memory_is_superseded m = status_eq m.status MemoryStatus.superseded

unfoldable pub judgment_is_superseded : AccountingJudgment → Bool
judgment_is_superseded j = elim j.status [ JudgmentStatus.superseded ↦ true | _ ↦ false ]

-- The loop of both layers over the rows of one kind; `none` is a walk out of fuel.
module _ {A : Type 0} (id_of : A → Str) (is_superseded : A → Bool) (scope_of : A → SubjectScope)
    (next : Str → Option A) where
  unfoldable pub link_of : A → Str → SupersessionLink
  link_of cur successor_id = record {
    subject_id = id_of cur;
    successor_id = successor_id;
    is_superseded = is_superseded cur;
    scope = scope_of cur;
  }

  unfoldable pub links_from : ℕ → List Str → A → Option (List SupersessionLink)
  unfolding link_of
  links_from zero seen cur = none
  links_from (suc fuel) seen cur = elim (next (id_of cur)) [
    | none ↦ some (link_of cur [] ∷ [])
    | some successor ↦
        let rest = links_from fuel (id_of cur ∷ seen) successor in
        if member (id_of cur) seen
        then some (link_of cur (id_of successor) ∷ [])
        else Option.map (λ ls. link_of cur (id_of successor) ∷ ls) rest
  ]

unfoldable pub memory_links :
    SupersessionTables → ℕ → AccountingMemory → Option (List SupersessionLink)
unfolding links_from successor_of memory_scope memory_is_superseded
memory_links t fuel subject =
    links_from (λ m. m.identity.id) memory_is_superseded memory_scope (successor_of t) fuel []
      subject

unfoldable pub judgment_links :
    SupersessionTables → ℕ → AccountingJudgment → Option (List SupersessionLink)
unfolding links_from judgment_successor_of judgment_scope judgment_is_superseded
judgment_links t fuel subject =
    links_from (λ j. j.id) judgment_is_superseded judgment_scope (judgment_successor_of t) fuel []
      subject

-- The layers.
unfoldable pub memory_supersession_layer :
    SupersessionTables → ℕ → AccountingMemory → Option VerificationLayer
unfolding memory_links
memory_supersession_layer t fuel subject =
    Option.map (λ ls. verify_supersession_chain ls (memory_scope subject))
      (memory_links t fuel subject)

unfoldable pub judgment_supersession_layer :
    SupersessionTables → ℕ → AccountingJudgment → Option VerificationLayer
unfolding judgment_links
judgment_supersession_layer t fuel subject =
    Option.map (λ ls. verify_supersession_chain ls (judgment_scope subject))
      (judgment_links t fuel subject)
