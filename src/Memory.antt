-- ===== src/Memory.antt =====
-- The v2 memory model of internal/core/types.go: the closed enumerations with the value that none of
-- their constants names (`other`), and the stored memory.
use drenyra_engram.Base.{ℕ, Str, str_eq, Bool, true, false, ◌&&◌, Option, List, if◌then◌else◌}
use drenyra_engram.Base.Int.{ℤ}

pub data ScopeKind : Type 0 where
  company institutional : ScopeKind
  other : Str → ScopeKind

pub record Scope : Type 0 where
  pub kind : ScopeKind
  pub organization_id : Str
  pub company_id : Str
  pub ruc : Str
  pub period : Str

pub record Identity : Type 0 where
  pub id : Str
  pub topic_key : Str

pub data MemoryStatus : Type 0 where
  active pending_review approved rejected returned superseded voided : MemoryStatus
  other : Str → MemoryStatus

pub data FiscalEffect : Type 0 where
  none_effect journal_entry declaration closing : FiscalEffect
  adjustment reclassification approval sunat_filing : FiscalEffect
  other : Str → FiscalEffect

pub data MaterialityLevel : Type 0 where
  normal material critical : MaterialityLevel
  other : Str → MaterialityLevel

pub data ActorKind : Type 0 where
  human agent system : ActorKind
  other : Str → ActorKind

pub record Source : Type 0 where
  pub system : Str
  pub reference : Str
  pub actor_id : Str
  pub actor_kind : ActorKind
  pub model : Str
  pub session : Str

pub record Validity : Type 0 where
  pub effective_at : Str
  pub expires_at : Str
  pub source : Str

-- The fields that the modelled operations read or write, and those beside them. `content`,
-- `confidence`, `closeSnapshot`, `policyRule`, `ruleLinks` and `fiscalLinks` are read by none.
pub record AccountingMemory : Type 0 where
  pub identity : Identity
  pub title : Str
  pub kind : Str
  pub scope : Scope
  pub status : MemoryStatus
  pub fiscal_effect : FiscalEffect
  pub effective_at : Str
  pub recorded_at : Str
  pub observed_at : Str
  pub source : Source
  pub validity : Option Validity
  pub evidence_refs : List Str
  pub rule_refs : List Str
  pub materiality : Option ℤ
  pub materiality_level : Option MaterialityLevel
  pub content_hash : Str
  pub identity_hash : Str
  pub envelope_hash : Str
  pub receipt_id : Str
  pub supersedes_id : Str
  pub revision : ℕ

pub record StatusTransitionRecord : Type 0 where
  pub memory_id : Str
  pub from : MemoryStatus
  pub to : MemoryStatus
  pub actor : Str
  pub actor_kind : ActorKind
  pub timestamp : Str

-- `==` on the enumerations that the code compares with a variable.
unfoldable pub status_eq : MemoryStatus → MemoryStatus → Bool
status_eq active active = true
status_eq pending_review pending_review = true
status_eq approved approved = true
status_eq rejected rejected = true
status_eq returned returned = true
status_eq superseded superseded = true
status_eq voided voided = true
status_eq (MemoryStatus.other s) (MemoryStatus.other t) = str_eq s t
status_eq _ _ = false

unfoldable pub is_valid_memory_status : MemoryStatus → Bool
is_valid_memory_status (MemoryStatus.other _) = false
is_valid_memory_status _ = true

unfoldable pub is_valid_materiality_level : MaterialityLevel → Bool
is_valid_materiality_level (MaterialityLevel.other _) = false
is_valid_materiality_level _ = true

unfoldable pub is_valid_fiscal_effect : FiscalEffect → Bool
is_valid_fiscal_effect (FiscalEffect.other _) = false
is_valid_fiscal_effect _ = true

unfoldable pub is_valid_actor_kind : ActorKind → Bool
is_valid_actor_kind (ActorKind.other _) = false
is_valid_actor_kind _ = true

unfoldable pub is_company : ScopeKind → Bool
is_company ScopeKind.company = true
is_company _ = false

unfoldable pub is_institutional : ScopeKind → Bool
is_institutional ScopeKind.institutional = true
is_institutional _ = false

-- Exact scope equality: any two institutional scopes, or company scopes equal in all four parts.
unfoldable pub scope_equals : Scope → Scope → Bool
unfolding is_company is_institutional
scope_equals a b =
    if is_institutional a.kind && is_institutional b.kind
    then true
    else is_company a.kind
      && is_company b.kind
      && str_eq a.organization_id b.organization_id
      && str_eq a.company_id b.company_id
      && str_eq a.ruc b.ruc
      && str_eq a.period b.period
