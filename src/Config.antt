-- ===== src/Config.antt =====
-- config.py. Of the settings' reading from the environment, the splitting of ENABLED_SOURCES is modelled.
pub mod Sources
use memapp.Prelude.{
  ℕ, zero, suc, String, ◌+◌, ◌-◌, ◌*◌, ◌/◌, ◌%◌, ◌≤◌, ◌<◌, ◌≡◌, ◌≢◌, refl, sym, ap, ◌∙◌, ◌↔◌, ◌⊎◌,
  inl, inr, Bool, true, false, not, ◌&&◌, ◌||◌, Option, none, some, List, [], ◌∷◌, ◌++◌, map, Memᴰ,
  arith, ◌==◌, eq_iff, ltb, leb, eqb, if◌then◌else◌, Bool-cases, if_true, if_false, Option-cases,
  and_true, leb→le, ltb→lt, length, is_empty, any, all, keep, first, head?, last?, take, drop, All,
  gather, keep_some, cons_some, contains, unique, distinct, length-append, length-take-le,
  length-keep-le, length-keep-add, All-append, All-keep, keep-All, length-map, map-All,
  is_empty-map, Among, Among-append_left, Among-append_right, All-Among, Among-All, All-weaken,
  append-All, gather-All,
}
use memapp.Prelude.Texts.{strip_text, split_on, is_blank}

pub record Settings : Type 0 where
  pub mode : String
  pub connector_fixtures : String
  pub extractor : String
  pub embedder : String
  pub host : String
  pub port : ℕ
  pub gateway_url : String
  pub neo4j_uri : String
  pub neo4j_user : String
  pub neo4j_password : String
  pub neo4j_database : String
  pub redis_url : String
  pub ingestion_queue : String
  pub embedding_dim : ℕ
  pub enabled_sources : List String
  pub chatgpt_export_dir : Option String
  pub chatgpt_sensitive : Bool
  pub anthropic_api_key : Option String
  pub extraction_model : String
  pub embedding_model : String
  pub walrus_publisher_url : Option String
  pub walrus_aggregator_url : Option String

-- `Settings()` where the environment sets nothing
abbrev pub defaults : Settings
defaults = record {
  mode = "mock";
  connector_fixtures = "auto";
  extractor = "auto";
  embedder = "auto";
  host = "127.0.0.1";
  port = 8090;
  gateway_url = "http://127.0.0.1:8080";
  neo4j_uri = "bolt://127.0.0.1:7688";
  neo4j_user = "neo4j";
  neo4j_password = "memoraidev";
  neo4j_database = "neo4j";
  redis_url = "redis://127.0.0.1:6380/0";
  ingestion_queue = "memorai-ingestion";
  embedding_dim = 256;
  enabled_sources = [];
  chatgpt_export_dir = none;
  chatgpt_sensitive = true;
  anthropic_api_key = none;
  extraction_model = "claude-sonnet-5";
  embedding_model = "voyage-3";
  walrus_publisher_url = none;
  walrus_aggregator_url = none;
}

-- `part.strip()`, if something is left
abbrev pub part_of : String → Option String
part_of part = let s = strip_text part in if is_blank s then none else some s

-- `_split_csv`, on a text
unfoldable pub split_csv : String → List String
split_csv value = keep_some part_of (split_on b',' value)

unfoldable pub is_mock : Settings → Bool
is_mock settings = not (settings.mode == "live")

-- `_resolve`
unfoldable pub resolve_mode : Settings → String → String → String → String
resolve_mode settings override live_value mock_value =
    if not (override == "auto")
    then override
    else if settings.mode == "live"
    then live_value
    else mock_value

unfoldable pub use_fixture_connectors : Settings → Bool
unfolding resolve_mode
use_fixture_connectors settings =
    not (resolve_mode settings settings.connector_fixtures "never" "auto" == "never")

unfoldable pub use_llm_extractor : Settings → Bool
unfolding resolve_mode
use_llm_extractor settings = resolve_mode settings settings.extractor "llm" "mock" == "llm"

unfoldable pub use_real_embedder : Settings → Bool
unfolding resolve_mode
use_real_embedder settings = resolve_mode settings settings.embedder "real" "fake" == "real"

unfoldable pub source_enabled : Settings → String → Bool
source_enabled settings source =
    is_empty settings.enabled_sources || contains settings.enabled_sources source
