-- ===== src/Examples/Walks.antt =====
-- The supersession walk at two memories, the first superseded by the second.
use drenyra_engram.Base.{◌≡◌, refl, ◌↔◌, ℕ, str, str_eq, some, [], ◌∷◌, arith}
use drenyra_engram.Base.Sorted.{member}
use mathlib.Core.Option
use drenyra_engram.Memory.{AccountingMemory, MemoryStatus, status_eq}
use drenyra_engram.Verify.{
  VerificationLayer, passed, failed, verify_supersession_chain, walk_chain, scope_eq,
}
use drenyra_engram.Verify.Walk.{SupersessionTables, find_by_id, memory_supersession_layer}
use drenyra_engram.Verify.Walk.Layers.{CurrentMemory, memory_supersession_layer-Current}
use drenyra_engram.Examples.Data.{entry}

abbrev old : AccountingMemory
old = record entry { status = MemoryStatus.superseded }

abbrev tables : SupersessionTables
tables = record {
  observations =
      old
      ∷ (record entry {
        identity = record { id = str "m2"; topic_key = str "t" };
        status = MemoryStatus.active;
      })
      ∷ [];
  relations = (record { from_id = str "m1"; to_id = str "m2"; relation = str "supersedes" }) ∷ [];
  judgments = [];
  judgment_relations = [];
}

-- The walk comes to the second memory, and the layer passes.
walk_passes : Option.map (λ l. l.status) (memory_supersession_layer tables 4 old) ≡ some passed
unfolding memory_supersession_layer find_by_id verify_supersession_chain walk_chain scope_eq
    status_eq str_eq member
walk_passes = refl

-- Where the second memory is superseded by the first in turn, the walk ends and the layer fails.
abbrev cycle : SupersessionTables
cycle = record tables {
  relations =
      (record { from_id = str "m1"; to_id = str "m2"; relation = str "supersedes" })
      ∷ (record { from_id = str "m2"; to_id = str "m1"; relation = str "supersedes" })
      ∷ [];
}

cycle_fails : Option.map (λ l. l.status) (memory_supersession_layer cycle 4 old) ≡ some failed
unfolding memory_supersession_layer find_by_id verify_supersession_chain walk_chain scope_eq
    status_eq str_eq member
cycle_fails = refl

memory_supersession_layer-Current_example :
    (l : VerificationLayer) × (memory_supersession_layer tables 4 old ≡ some l)
    × ((l.status ≡ passed) ↔ ((n : ℕ) × CurrentMemory tables old n))
memory_supersession_layer-Current_example =
    memory_supersession_layer-Current tables old 4 (refl, (refl, tt)) (omega arith)
