-- ===== src/Graphs/Neighbourhood.antt =====
-- graphs/neighbourhood.py: the nodes and edges around some seeds, without the denied ones.
pub mod Verdicts
pub mod Shown
use memapp.Prelude.{
  ℕ, zero, suc, String, ◌+◌, ◌-◌, ◌*◌, ◌/◌, ◌%◌, ◌≤◌, ◌<◌, ◌≡◌, ◌≢◌, refl, sym, ap, ◌∙◌, ◌↔◌, ◌⊎◌,
  inl, inr, Bool, true, false, not, ◌&&◌, ◌||◌, Option, none, some, List, [], ◌∷◌, ◌++◌, map, Memᴰ,
  arith, ◌==◌, eq_iff, ltb, leb, eqb, if◌then◌else◌, Bool-cases, Option-cases, and_true, leb→le,
  ltb→lt, length, is_empty, any, all, keep, first, head?, last?, take, drop, All, gather, keep_some,
  cons_some, contains, unique, distinct, length-append, length-take-le, length-keep-le,
  length-keep-add, All-append, All-keep, keep-All, length-map, map-All, is_empty-map,
}
use Prim.Native.Nat.{compare}
use memapp.Prelude.Dict.{Dict, find, put_all, has, values, keys}
use memapp.Prelude.Order.{sort_by, sorted_set, pair_le}
use memapp.Prelude.Texts.{join, spaced, decimal, ◌<>◌}
use memapp.Prelude.Result.{Result, ok, ◌>>=◌}
use memapp.Enums.{status_value, kind_value}
use memapp.Permissions.{Scope}
use memapp.Schema.{MemoryNode, node_id, node_acl}
use memapp.Store.{Graph, StoredNode, label_of, label_name}
use memapp.Store.Reads.{get_many, edges_among}
use memapp.Store.Walks.{neighbour_ids}
use memapp.Graphs.Checked.{
  Found, Denial, Checks, found_of, verdict_of, check_permissions, authorize,
}
use memapp.Graphs.History.Views.{Printer, passes, has_facet}

pub record NodeView : Type 0 where
  pub id : String
  pub label : String
  pub hops : ℕ
  pub sources : List String
  pub occurred_at_ms : ℕ
  pub status : Option String
  pub is_commitment : Bool
  pub text : String
  pub url : Option String

pub record EdgeView : Type 0 where
  pub from_id : String
  pub rel : String
  pub to_id : String

pub record Neighbourhood : Type 0 where
  pub seed_ids : List String
  pub answered : Bool
  pub text : String
  pub hops : ℕ
  pub nodes : List NodeView
  pub edges : List EdgeView
  pub sources : List String
  pub withheld : ℕ
  pub withheld_reasons : List String
  pub withheld_edges : ℕ
  pub considered : ℕ

-- What the walk leaves in the state
pub record Walk : Type 0 where
  pub candidates : List Found
  pub edges : List (String × String × String)
  pub hop_of : Dict ℕ

unfoldable pub walk : {V : Type 0} → Graph V → String → List String → ℕ → Walk
walk g owner_id seed_ids hops =
    let seeds = distinct seed_ids in
    let present = map (λ s. s.id) (get_many g owner_id seeds) in
    if is_empty present
    then record { candidates = []; edges = []; hop_of = [] }
    else let reached = neighbour_ids g owner_id (sorted_set present) hops in
      let at_seed : Dict ℕ = map (λ i. (i, 0)) (keep (contains present) seeds) in
      let hop_of = at_seed ++ keep (λ p. not (has p.0 at_seed)) reached in
      record {
        candidates = map found_of (get_many g owner_id (keys hop_of));
        edges = edges_among g owner_id (keys hop_of);
        hop_of = hop_of;
      }

-- `hop_of.get(i, 0)`
abbrev pub hops_at : Dict ℕ → String → ℕ
hops_at hop_of i = elim (find i hop_of) [ none ↦ 0 | some n ↦ n ]

abbrev pub node_view : MemoryNode → ℕ → NodeView
node_view node hops = elim node [
  | MemoryNode.event e ↦ record {
    id = e.id;
    label = "Event";
    hops = hops;
    sources = e.acl.sources;
    occurred_at_ms = e.acl.occurred_at_ms;
    status = none;
    is_commitment = false;
    text = e.summary;
    url = e.source.url;
  }
  | MemoryNode.claim c ↦ record {
    id = c.id;
    label = "Claim";
    hops = hops;
    sources = c.acl.sources;
    occurred_at_ms = c.acl.occurred_at_ms;
    status = some (status_value c.status);
    is_commitment = has_facet c.commitment;
    text = c.statement;
    url = none;
  }
  | MemoryNode.entity e ↦ record {
    id = e.id;
    label = "Entity";
    hops = hops;
    sources = e.acl.sources;
    occurred_at_ms = e.acl.occurred_at_ms;
    status = none;
    is_commitment = false;
    text = kind_value e.kind <> ": " <> e.name;
    url = none;
  }
]

abbrev pub stored : List Found → Dict MemoryNode
stored candidates = put_all (map (λ c. (c.id, c.node)) candidates) []

abbrev pub is_shown : Dict (Option String) → String → Bool
is_shown verdicts i = passes (verdict_of verdicts i)

abbrev pub visible : Dict (Option String) → Dict MemoryNode → Dict MemoryNode
visible verdicts walked = keep (λ p. is_shown verdicts p.0) walked

-- The edges with both ends among the visible nodes
abbrev pub within : Dict MemoryNode → String × String × String → Bool
within nodes e = has e.0 nodes && has e.2 nodes

abbrev pub edge_view : String × String × String → EdgeView
edge_view (a, rel, b) = record { from_id = a; rel = rel; to_id = b }

abbrev pub shown_edges : Dict MemoryNode → List (String × String × String) → List EdgeView
shown_edges nodes edges = map edge_view (keep (within nodes) edges)

abbrev pub hop_le : Dict ℕ → MemoryNode → MemoryNode → Bool
hop_le hop_of a b =
    pair_le (hops_at hop_of (node_id a)) (node_id a) (hops_at hop_of (node_id b)) (node_id b)

abbrev pub shown_nodes : Dict ℕ → Dict MemoryNode → List NodeView
shown_nodes hop_of nodes =
    map (λ n. node_view n (hops_at hop_of (node_id n))) (sort_by (hop_le hop_of) (values nodes))

abbrev pub or_none_visible : String → String
or_none_visible s = if s == "" then "none visible" else s

unfoldable pub text_of : List String → List NodeView → List EdgeView → ℕ → List String → String
text_of seeds nodes edges withheld sources =
    decimal (length nodes)
    <> " node(s) and "
    <> decimal (length edges)
    <> " edge(s) around "
    <> join ", " seeds
    <> " across "
    <> decimal (length sources)
    <> " source(s) ("
    <> or_none_visible (join ", " sources)
    <> ")."
    <> (if eqb withheld 0
        then ""
        else " "
          <> decimal withheld
          <> " further object(s) in this neighbourhood are outside the grant and are not shown -- neither they nor their edges are counted above, so this picture is partial.")

unfoldable pub assemble : Printer → List String → ℕ → Walk → Checks → Neighbourhood
unfolding text_of
assemble printer seed_ids hops w checks =
    let seeds = distinct seed_ids in
    let walked = stored w.candidates in
    let reasons = sorted_set (map (λ d. d.reason) checks.denials) in
    let nodes = visible checks.verdicts walked in
    let edges = shown_edges nodes w.edges in
    let withheld_edges = length w.edges - length edges in
    if is_empty walked
    then record {
      seed_ids = seeds;
      answered = false;
      text = "No object among " <> printer.repr (join ", " seeds) <> " is present in this memory.";
      hops = hops;
      nodes = [];
      edges = [];
      sources = [];
      withheld = 0;
      withheld_reasons = [];
      withheld_edges = 0;
      considered = 0;
    }
    else if is_empty nodes
    then record {
      seed_ids = seeds;
      answered = false;
      text =
          "Declining to answer: "
          <> decimal (length walked)
          <> " object(s) are in this neighbourhood, but none are within the requesting agent's scope ("
          <> join ", " (map spaced reasons)
          <> ").";
      hops = hops;
      nodes = [];
      edges = [];
      sources = [];
      withheld = length walked;
      withheld_reasons = reasons;
      withheld_edges = withheld_edges;
      considered = length walked;
    }
    else let views = shown_nodes w.hop_of nodes in
      let sources = sorted_set (gather (λ v. v.sources) views) in
      record {
        seed_ids = seeds;
        answered = true;
        text = text_of seeds views edges (length checks.denials) sources;
        hops = hops;
        nodes = views;
        edges = edges;
        sources = sources;
        withheld = length checks.denials;
        withheld_reasons = reasons;
        withheld_edges = withheld_edges;
        considered = length walked;
      }

unfoldable pub neighbourhood :
    {V : Type 0}
    → Printer
    → (String → Result Scope)
    → Graph V
    → ℕ
    → List String
    → String
    → ℕ
    → Result Neighbourhood
unfolding assemble check_permissions authorize walk
neighbourhood printer introspect g now_ms seed_ids grant_token hops = do
  scope ← authorize introspect none (some grant_token)
  let w = walk g scope.owner_id seed_ids hops
  ok (assemble printer seed_ids hops w (check_permissions scope now_ms w.candidates))
