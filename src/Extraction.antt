-- ===== src/Extraction.antt =====
-- extraction/*.py: what the two extractors share. `Host` is what they take of Python: lower case, the
-- first twenty digits of SHA-256, `str` of a value that is no text, the date that a text `YYYY-MM-DD`
-- spells, in milliseconds since 1970 and if it is one, and `float` in thousandths, where it does not raise.
pub mod Contract
pub mod Llm
pub mod Mock
use memapp.Prelude.{
  ℕ, zero, suc, String, ◌+◌, ◌-◌, ◌*◌, ◌/◌, ◌%◌, ◌≤◌, ◌<◌, ◌≡◌, ◌≢◌, refl, sym, ap, ◌∙◌, ◌↔◌, ◌⊎◌,
  inl, inr, Bool, true, false, not, ◌&&◌, ◌||◌, Option, none, some, List, [], ◌∷◌, ◌++◌, map, Memᴰ,
  arith, ◌==◌, eq_iff, ltb, leb, eqb, if◌then◌else◌, Bool-cases, if_true, if_false, Option-cases,
  and_true, leb→le, ltb→lt, length, is_empty, any, all, keep, first, head?, last?, take, drop, All,
  gather, keep_some, cons_some, contains, unique, distinct, length-append, length-take-le,
  length-keep-le, length-keep-add, All-append, All-keep, keep-All, length-map, map-All,
  is_empty-map, Among, Among-append_left, Among-append_right, All-Among, Among-All, All-weaken,
}
use memapp.Prelude.Order.{sort_by, text_le}
use memapp.Prelude.Texts.{join, ◌<>◌}
use memapp.Prelude.Result.{Result}
use memapp.Enums.{EntityKind, Sensitivity, kind_value, kind_eq}
use memapp.Permissions.{ObjectAcl}
use memapp.Schema.{RawRecord, SourceRef, Citation, Provenance}
use memapp.Connectors.Json.{Json}

pub record Host : Type 0 where
  pub lower : String → String
  pub digest : String → String
  pub str_of : Json → String
  pub parse_date : String → Option ℕ
  pub to_confidence : Json → Result ℕ
  pub nonzero : String → Bool

-- extraction/ids.py
unfoldable pub stable_id : Host → String → List String → String
stable_id host prefix parts = prefix <> "_" <> host.digest (join "\u{1f}" parts)

-- `sorted({…}, key=lambda k: k.value)`
abbrev pub sorted_kinds : List EntityKind → List EntityKind
sorted_kinds kinds = sort_by (λ j k. text_le (kind_value j) (kind_value k)) (unique kind_eq kinds)

abbrev pub source_of : RawRecord → ℕ → SourceRef
source_of r ingested_at_ms = record {
  connector = r.connector;
  external_id = r.external_id;
  url = r.url;
  occurred_at_ms = r.occurred_at_ms;
  ingested_at_ms = ingested_at_ms;
}

-- `_acl` of extraction/mock.py, and the function `acl` of extraction/llm.py
abbrev pub acl_of : String → RawRecord → List EntityKind → ObjectAcl
acl_of owner_id r kinds = record {
  owner_id = owner_id;
  sources = r.connector ∷ [];
  sensitivity = if r.sensitive then Sensitivity.confidential else Sensitivity.personal;
  entity_kinds = kinds;
  occurred_at_ms = r.occurred_at_ms;
  denied_agents = [];
}

abbrev pub event_id_of : Host → String → RawRecord → String
event_id_of host owner_id r = stable_id host "evt" (owner_id ∷ r.connector ∷ r.external_id ∷ [])

-- The one citation of the record itself
abbrev pub cited : String → RawRecord → ℕ → Option String → Citation
cited event_id r ingested_at_ms quote = record {
  event_id = event_id;
  source = source_of r ingested_at_ms;
  quote = quote;
}
