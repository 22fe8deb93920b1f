-- ===== src/Graphs/History/Context.antt =====
-- `build_context_graph` and `context_chain` of graphs/history.py.
pub mod Sources
use memapp.Prelude.{
  ℕ, zero, suc, String, ◌+◌, ◌-◌, ◌*◌, ◌/◌, ◌%◌, ◌≤◌, ◌<◌, ◌≡◌, ◌≢◌, refl, sym, ap, ◌∙◌, ◌↔◌, ◌⊎◌,
  inl, inr, Bool, true, false, not, ◌&&◌, ◌||◌, Option, none, some, List, [], ◌∷◌, ◌++◌, map, Memᴰ,
  arith, ◌==◌, eq_iff, ltb, leb, eqb, if◌then◌else◌, Bool-cases, Option-cases, and_true, leb→le,
  ltb→lt, length, is_empty, any, all, keep, first, head?, last?, take, drop, All, gather, keep_some,
  cons_some, contains, unique, distinct, length-append, length-take-le, length-keep-le,
  length-keep-add, All-append, All-keep, keep-All, length-map, map-All, is_empty-map,
}
use memapp.Prelude.Dict.{Dict, find, put_all, values, keys}
use memapp.Prelude.Order.{sort_by, sorted_set, pair_le}
use memapp.Prelude.Texts.{join, spaced, decimal, ◌<>◌}
use memapp.Prelude.Result.{Result, ok, ◌>>=◌}
use memapp.Enums.{status_value}
use memapp.Permissions.{Scope}
use memapp.Schema.{Event, MemoryNode, node_id}
use memapp.Store.{Graph}
use memapp.Store.Reads.{get_many}
use memapp.Store.Walks.{cites_chain}
use memapp.Graphs.Checked.{
  Found, Denial, Checks, found_of, verdict_of, check_permissions, authorize,
}
use memapp.Graphs.History.Views.{Printer, passes}

pub record SourceView : Type 0 where
  pub connector : String
  pub external_id : String
  pub url : Option String
  pub occurred_at_ms : ℕ
  pub ingested_at_ms : ℕ

-- What a view shows of an object besides its id, its hops and its sources
pub data Details : Type 0 where
  event : (summary : String) → SourceView → Details
  claim : (statement status : String) → Details
  entity : (name : String) → Details

pub data NodeView : Type 0 where
  withheld : (id : String) (hops : ℕ) (reason : String) → NodeView
  shown : (id : String) (hops : ℕ) (sources : List String) → Details → NodeView

pub record ContextChain : Type 0 where
  pub object_id : String
  pub answered : Bool
  pub text : String
  pub hops : ℕ
  pub nodes : List NodeView
  pub edges : List (String × String)
  pub sources : List String
  pub denied : List Denial
  pub considered : ℕ

pub record Walk : Type 0 where
  pub candidates : List Found
  pub edges : List (String × String)
  pub hop_of : Dict ℕ

unfoldable pub walk : {V : Type 0} → Graph V → String → String → ℕ → Walk
walk g owner_id seed_id hops =
    let (reached, edges) = cites_chain g owner_id seed_id hops in
    let hop_of : Dict ℕ = (seed_id, 0) ∷ keep (λ p. not (p.0 == seed_id)) reached in
    record {
      candidates = map found_of (get_many g owner_id (keys hop_of));
      edges = edges;
      hop_of = hop_of;
    }

abbrev pub source_view : Event → SourceView
source_view e = record {
  connector = e.source.connector;
  external_id = e.source.external_id;
  url = e.source.url;
  occurred_at_ms = e.source.occurred_at_ms;
  ingested_at_ms = e.source.ingested_at_ms;
}

abbrev pub shown_view : MemoryNode → ℕ → NodeView
shown_view node hops = elim node [
  | MemoryNode.event e ↦
      NodeView.shown e.id hops e.acl.sources (Details.event e.summary (source_view e))
  | MemoryNode.claim c ↦
      NodeView.shown c.id hops c.acl.sources (Details.claim c.statement (status_value c.status))
  | MemoryNode.entity e ↦ NodeView.shown e.id hops e.acl.sources (Details.entity e.name)
]

abbrev pub node_view : MemoryNode → ℕ → Option String → NodeView
node_view node hops none = shown_view node hops
node_view node hops (some reason) = NodeView.withheld (node_id node) hops reason

-- `v.get("sources", [])`
abbrev pub view_sources : NodeView → List String
view_sources (NodeView.withheld i hops reason) = []
view_sources (NodeView.shown i hops sources d) = sources

abbrev pub view_hops : NodeView → ℕ
view_hops (NodeView.withheld i hops reason) = hops
view_hops (NodeView.shown i hops sources d) = hops

-- `view.get("source", {}).get("connector") or ",".join(view["sources"])`
abbrev pub origin : List String → Details → String
origin sources (Details.event summary s) =
    if s.connector == "" then join "," sources else s.connector
origin sources (Details.claim statement status) = join "," sources
origin sources (Details.entity name) = join "," sources

abbrev pub title_of : Details → String
title_of (Details.event summary s) = summary
title_of (Details.claim statement status) = statement
title_of (Details.entity name) = name

abbrev pub view_line : NodeView → String
view_line (NodeView.withheld i hops reason) =
    "- [" <> decimal hops <> " hop] withheld (" <> reason <> ") " <> i
view_line (NodeView.shown i hops sources d) =
    "- [" <> decimal hops <> " hop] " <> origin sources d <> ": " <> title_of d <> " (" <> i <> ")"

unfoldable pub context_text : String → List NodeView → List String → String
context_text seed_id views sources =
    let reach = keep (λ v. ltb 0 (view_hops v)) views in
    if is_empty reach
    then seed_id <> " cites nothing and nothing cites it."
    else join "\n" (
        (seed_id
          <> ": "
          <> decimal (length reach)
          <> " object(s) in the citation chain across "
          <> decimal (length sources)
          <> " source(s) ("
          <> (if join ", " sources == "" then "none visible" else join ", " sources)
          <> ").")
        ∷ map view_line views)

-- `hop_of.get(n.id, 0)`
abbrev pub hops_at : Dict ℕ → String → ℕ
hops_at hop_of i = elim (find i hop_of) [ none ↦ 0 | some n ↦ n ]

abbrev pub hop_le : Dict ℕ → MemoryNode → MemoryNode → Bool
hop_le hop_of a b =
    pair_le (hops_at hop_of (node_id a)) (node_id a) (hops_at hop_of (node_id b)) (node_id b)

abbrev pub view_at : Dict ℕ → Dict (Option String) → MemoryNode → NodeView
view_at hop_of verdicts n =
    node_view n (hops_at hop_of (node_id n)) (verdict_of verdicts (node_id n))

abbrev pub stored : List Found → Dict MemoryNode
stored candidates = put_all (map (λ c. (c.id, c.node)) candidates) []

unfoldable pub assemble : Printer → String → ℕ → Walk → Checks → ContextChain
unfolding context_text
assemble printer seed_id hops w checks =
    let nodes = stored w.candidates in
    if is_empty nodes
    then record {
      object_id = seed_id;
      answered = false;
      text = "No object " <> printer.repr seed_id <> " is present in this memory.";
      hops = hops;
      nodes = [];
      edges = [];
      sources = [];
      denied = [];
      considered = 0;
    }
    else if all (λ p. not (passes (verdict_of checks.verdicts p.0))) nodes
    then record {
      object_id = seed_id;
      answered = false;
      text =
          "Declining to answer: "
          <> decimal (length nodes)
          <> " object(s) form this context chain, but none are within the requesting agent's scope ("
          <> join ", " (map spaced (sorted_set (map (λ d. d.reason) checks.denials)))
          <> ").";
      hops = hops;
      nodes = [];
      edges = [];
      sources = [];
      denied = checks.denials;
      considered = length nodes;
    }
    else let views =
        map (view_at w.hop_of checks.verdicts) (sort_by (hop_le w.hop_of) (values nodes)) in
      let sources = sorted_set (gather view_sources views) in
      record {
        object_id = seed_id;
        answered = true;
        text = context_text seed_id views sources;
        hops = hops;
        nodes = views;
        edges = w.edges;
        sources = sources;
        denied = checks.denials;
        considered = length nodes;
      }

unfoldable pub context_chain :
    {V : Type 0}
    → Printer
    → (String → Result Scope)
    → Graph V
    → ℕ
    → (object_id grant_token : String) → ℕ
    → Result ContextChain
unfolding assemble check_permissions authorize walk
context_chain printer introspect g now_ms object_id grant_token hops = do
  scope ← authorize introspect none (some grant_token)
  let w = walk g scope.owner_id object_id hops
  ok (assemble printer object_id hops w (check_permissions scope now_ms w.candidates))
