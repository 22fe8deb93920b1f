-- ===== src/Connectors/Registry.antt =====
-- connectors/registry.py and `ConnectorSpec` of connectors/base.py. `identity` is the object's, which
-- Python's `is` compares; `factory` and `mock_factory` are the connectors' own.
pub mod Registering
use memapp.Prelude.{
  ℕ, zero, suc, String, ◌+◌, ◌-◌, ◌*◌, ◌/◌, ◌%◌, ◌≤◌, ◌<◌, ◌≡◌, ◌≢◌, refl, sym, ap, ◌∙◌, ◌↔◌, ◌⊎◌,
  inl, inr, Bool, true, false, not, ◌&&◌, ◌||◌, Option, none, some, List, [], ◌∷◌, ◌++◌, map, Memᴰ,
  arith, ◌==◌, eq_iff, ltb, leb, eqb, if◌then◌else◌, Bool-cases, if_true, if_false, Option-cases,
  and_true, leb→le, ltb→lt, length, is_empty, any, all, keep, first, head?, last?, take, drop, All,
  gather, keep_some, cons_some, contains, unique, distinct, length-append, length-take-le,
  length-keep-le, length-keep-add, All-append, All-keep, keep-All, length-map, map-All,
  is_empty-map,
}
use memapp.Prelude.Dict.{Dict, find, put, has, keys}
use memapp.Prelude.Order.{sorted_set}
use memapp.Prelude.Result.{Result, ok, err, value_error, key_error, ◌>>=◌}
use memapp.Enums.{check_source_id}
use memapp.Connectors.Chunks.{pack_paragraphs}

pub record ConnectorSpec (Settings Connector : Type 0) : Type 0 where
  pub identity : ℕ
  pub source_id : String
  pub display_name : String
  pub factory : Settings → Result Connector
  pub chunker : List ℕ → Result (List (List ℕ))
  pub requires_oauth : Bool
  pub oauth_scopes : List String
  pub mock_factory : Option (Settings → Result Connector)

unfoldable pub default_chunker : List ℕ → Result (List (List ℕ))
default_chunker text = ok (pack_paragraphs 1000 text)

module _ {Settings Connector : Type 0} where
  -- `existing is not None and existing is not spec`
  abbrev pub taken :
      Option (ConnectorSpec Settings Connector) → ConnectorSpec Settings Connector → Bool
  taken none spec = false
  taken (some existing) spec = not (eqb existing.identity spec.identity)

  abbrev pub scopes_without_oauth : ConnectorSpec Settings Connector → Bool
  scopes_without_oauth spec = not (is_empty spec.oauth_scopes) && not spec.requires_oauth

  -- What follows the check of the id
  abbrev pub place :
      ConnectorSpec Settings Connector
      → Dict (ConnectorSpec Settings Connector)
      → Result (Dict (ConnectorSpec Settings Connector))
  place spec specs =
      if scopes_without_oauth spec
      then err value_error
      else if taken (find spec.source_id specs) spec
      then err value_error
      else ok (put spec.source_id spec specs)

  unfoldable pub register :
      ConnectorSpec Settings Connector
      → Dict (ConnectorSpec Settings Connector)
      → Result (Dict (ConnectorSpec Settings Connector))
  register spec specs = do valid ← check_source_id spec.source_id; place spec specs

  -- `UnknownSourceError` is a `LookupError`.
  abbrev pub or_unknown :
      Option (ConnectorSpec Settings Connector) → Result (ConnectorSpec Settings Connector)
  or_unknown none = err key_error
  or_unknown (some spec) = ok spec

  unfoldable pub spec_of :
      String → Dict (ConnectorSpec Settings Connector) → Result (ConnectorSpec Settings Connector)
  spec_of source specs = or_unknown (find source specs)

  abbrev pub build :
      Bool
      → Option (Settings → Result Connector)
      → (Settings → Result Connector)
      → Settings
      → Result Connector
  build use_fixtures none factory settings = factory settings
  build use_fixtures (some mock) factory settings =
      if use_fixtures then mock settings else factory settings

  unfoldable pub connector :
      (use_fixtures : Settings → Bool)
      → String
      → Settings
      → Dict (ConnectorSpec Settings Connector)
      → Result Connector
  unfolding spec_of
  connector use_fixtures source settings specs = do
    spec ← spec_of source specs
    build (use_fixtures settings) spec.mock_factory spec.factory settings

  abbrev pub chunker_or :
      Option (ConnectorSpec Settings Connector) → List ℕ → Result (List (List ℕ))
  chunker_or none = default_chunker
  chunker_or (some spec) = spec.chunker

  unfoldable pub chunker :
      String → Dict (ConnectorSpec Settings Connector) → List ℕ → Result (List (List ℕ))
  chunker source specs = chunker_or (find source specs)

  -- `ids`: the keys of a dict are distinct
  unfoldable pub ids : Dict (ConnectorSpec Settings Connector) → List String
  ids specs = sorted_set (keys specs)
