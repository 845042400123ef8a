-- ===== src/Web/Mapper/Listing.antt =====
-- What the responses of api/web/mappers/dag_mapper.py show of each node, looked up by its id.
use agentic_dag.Prelude.{
  ℕ, ◌≡◌, refl, sym, ap, ◌∙◌, String, true, not, List, [], ◌∷◌, ◌++◌, map, Option, none, some, ◌==◌,
  string_eq, arith, if◌then◌else◌, keep, mem, inl, inr, Bool-cases, Option-cases,
}
use text.Mathlib.TextEquality.{eq_iff}
use agentic_dag.Domain.{NodeSpec, DagSpec, Node, state_value, text_or, last?, is_some}
use agentic_dag.Domain.NodeMethods
use agentic_dag.Store.{find_row, read_node}
use agentic_dag.Store.Nodes.{row_ids}
use agentic_dag.Web.Responses.{NodePreviewResponse}
use agentic_dag.Web.Mapper.{
  last_row, find_node, to_declared_node_response, to_adopted_node_response, is_undeclared,
  to_node_responses, spec_agent_name, get_updated_at,
}

-- The preview of an id in a listing.
abbrev pub preview_at : String → List NodePreviewResponse → Option NodePreviewResponse
preview_at id = find_row (λ (node : NodePreviewResponse). node.id == id)

abbrev adopted_from : Option Node → Option NodePreviewResponse
adopted_from none = none
adopted_from (some row) = some (to_adopted_node_response row)

abbrev composed_of : Option NodeSpec → (last first : Option Node) → Option NodePreviewResponse
composed_of none last first = adopted_from first
composed_of (some node_spec) last first = some (to_declared_node_response node_spec last)

abbrev composed : DagSpec → List Node → String → Option NodePreviewResponse
composed dag_spec rows id =
    composed_of (find_node dag_spec id) (last_row id rows) (read_node id rows)

abbrev declare : List Node → NodeSpec → NodePreviewResponse
declare rows node_spec = to_declared_node_response node_spec (last_row node_spec.id rows)

find_row-append :
    (id : String) (xs ys : List NodePreviewResponse)
    → preview_at id (xs ++ ys)
      ≡ elim (preview_at id xs) [ none ↦ preview_at id ys | some node ↦ some node ]
unfolding find_row
find_row-append id [] ys = refl
find_row-append id (x ∷ xs) ys = ground (arith, find_row-append id xs ys)

find_row-declare :
    (id : String) (rows : List Node) (specs : List NodeSpec)
    → preview_at id (map (declare rows) specs)
      ≡ elim (find_row (λ (node : NodeSpec). node.id == id) specs) [
        | none ↦ none
        | some node_spec ↦ some (to_declared_node_response node_spec (last_row id rows))
      ]
unfolding find_row to_declared_node_response
find_row-declare id rows [] = refl
find_row-declare id rows (node_spec ∷ specs) = elim (Bool-cases (node_spec.id == id)) [
  | inl here ↦ rw here (
      ap (λ at. some (to_declared_node_response node_spec (last_row at rows)))
        ((eq_iff node_spec.id id).0 here))
  | inr other ↦ rw other (find_row-declare id rows specs)
]

is_undeclared-same :
    (dag_spec : DagSpec) (row : Node) (id : String)
    → row.id ≡ id
    → find_node dag_spec id ≡ none
    → is_undeclared dag_spec row ≡ true
is_undeclared-same dag_spec row id same undeclared =
    rw (ap (find_node dag_spec) same ∙ undeclared) refl

-- An undeclared id keeps its rows.
find_row-adopted :
    (dag_spec : DagSpec) (id : String) (rows : List Node)
    → find_node dag_spec id ≡ none
    → preview_at id (map to_adopted_node_response (keep (is_undeclared dag_spec) rows))
      ≡ adopted_from (read_node id rows)
unfolding find_row read_node keep to_adopted_node_response
find_row-adopted dag_spec id [] undeclared = refl
find_row-adopted dag_spec id (row ∷ rows) undeclared = elim (Bool-cases (row.id == id)) [
  | inl here ↦
      let kept = is_undeclared-same dag_spec row id ((eq_iff row.id id).0 here) undeclared in
      rw (kept, here) refl
  | inr other ↦ elim (Bool-cases (is_undeclared dag_spec row)) [
    | inl kept ↦ rw (kept, other) (find_row-adopted dag_spec id rows undeclared)
    | inr dropped ↦ rw (dropped, other) (find_row-adopted dag_spec id rows undeclared)
  ]
]

-- The declared part of a listing.
find_row-declared :
    (dag_spec : DagSpec) (rows : List Node) (id : String)
    → preview_at id (map (declare rows) dag_spec.nodes) ≡ elim (find_node dag_spec id) [
      | none ↦ none
      | some node_spec ↦ some (to_declared_node_response node_spec (last_row id rows))
    ]
unfolding find_node
find_row-declared dag_spec rows id = find_row-declare id rows dag_spec.nodes

preview-composed :
    (dag_spec : DagSpec) (rows : List Node) (id : String)
    → preview_at id (to_node_responses dag_spec rows) ≡ composed dag_spec rows id
unfolding to_node_responses
preview-composed dag_spec rows id =
    find_row-append id (map (declare rows) dag_spec.nodes) _
    ∙ (elim (Option-cases (find_node dag_spec id)) [
      | inl undeclared ↦
          rw (find_row-declared dag_spec rows id, undeclared)
            (find_row-adopted dag_spec id rows undeclared)
      | inr (node_spec, declared) ↦ rw (find_row-declared dag_spec rows id, declared) refl
    ])

-- What a listing should show, from the rows and the declarations alone.

-- The last of the rows of an id.
abbrev pub last_of : String → List Node → Option Node
last_of id rows = last? (keep (λ row. row.id == id) rows)

abbrev state_text : Option Node → String
state_text none = "pending"
state_text (some row) = state_value row.state

abbrev time_of : Option Node → Option ℕ
time_of none = none
time_of (some row) = some row.updated_at

-- A declared node with the row that it has, if any.
abbrev pub declared_preview : NodeSpec → Option Node → NodePreviewResponse
declared_preview node_spec row = record {
  id = node_spec.id;
  title = node_spec.title;
  agent_name = text_or node_spec.name (text_or node_spec.title node_spec.id);
  state = state_text row;
  depends_on = node_spec.depends_on;
  updated_at = time_of row;
}

-- A row that no node declares.
abbrev pub adopted_preview : Node → NodePreviewResponse
adopted_preview row = record {
  id = row.id;
  title = row.title;
  agent_name = text_or row.name (text_or row.title row.id);
  state = state_value row.state;
  depends_on = [];
  updated_at = some row.updated_at;
}

abbrev adopted_of : Option Node → Option NodePreviewResponse
adopted_of none = none
adopted_of (some row) = some (adopted_preview row)

abbrev shown : Option NodeSpec → (last first : Option Node) → Option NodePreviewResponse
shown none last first = adopted_of first
shown (some node_spec) last first = some (declared_preview node_spec last)

abbrev pub listed : DagSpec → List Node → String → Option NodePreviewResponse
listed dag_spec rows id =
    shown (find_row (λ (node : NodeSpec). node.id == id) dag_spec.nodes) (last_of id rows)
      (read_node id rows)

abbrev pub spec_ids : List NodeSpec → List String
spec_ids = map (λ (node : NodeSpec). node.id)

-- The declared ids, then the id of each row that is not declared.
abbrev pub listed_ids : DagSpec → List Node → List String
listed_ids dag_spec rows =
    spec_ids dag_spec.nodes ++ keep (λ id. not (mem (spec_ids dag_spec.nodes) id)) (row_ids rows)

-- The value, else the row.
abbrev or_row : Node → Option Node → Option Node
or_row row none = some row
or_row row (some found) = some found

or_row-some :
    (row found : Node) (value : Option Node) → value ≡ some found → value ≡ or_row row value
or_row-some row found none h = cc
or_row-some row found (some other) h = refl

last?-some : (row : Node) (rows : List Node) → (last : Node) × (last? (row ∷ rows) ≡ some last)
unfolding last?
last?-some row [] = (row, refl)
last?-some row (next ∷ rows) = last?-some next rows

last?-cons : (row : Node) (rows : List Node) → last? (row ∷ rows) ≡ or_row row (last? rows)
unfolding last?
last?-cons row [] = refl
last?-cons row (next ∷ rows) =
    let (last, ends) = last?-some next rows in or_row-some row last (last? (next ∷ rows)) ends

last_row-cons :
    (id : String) (row : Node) (rows : List Node)
    → last_row id (row ∷ rows)
      ≡ (if row.id == id then or_row row (last_row id rows) else last_row id rows)
unfolding last_row
last_row-cons id row rows = elim (Option-cases (last_row id rows)) [
  | inl missing ↦ rw missing (ground arith)
  | inr (found, later) ↦ rw later (ground arith)
]

empty_same : (id : String) → last_row id [] ≡ last_of id []
unfolding last_row keep last?
empty_same id = refl

last_row-last_of : (id : String) (rows : List Node) → last_row id rows ≡ last_of id rows
unfolding keep
last_row-last_of id [] = empty_same id
last_row-last_of id (row ∷ rows) = last_row-cons id row rows ∙ elim (Bool-cases (row.id == id)) [
  | inl here ↦ rw here (
      ap (or_row row) (last_row-last_of id rows)
      ∙ sym (last?-cons row (keep (λ (row : Node). row.id == id) rows)))
  | inr other ↦ rw other (last_row-last_of id rows)
]

composed_of-shown :
    (found : Option NodeSpec) (last first : Option Node)
    → composed_of found last first ≡ shown found last first
unfolding to_declared_node_response to_adopted_node_response spec_agent_name get_updated_at
    state_value NodeMethods.get_agent_name
composed_of-shown none last none = refl
composed_of-shown none last (some first) = refl
composed_of-shown (some node_spec) none first = refl
composed_of-shown (some node_spec) (some last) first = refl

composed-listed :
    (dag_spec : DagSpec) (rows : List Node) (id : String)
    → composed dag_spec rows id ≡ listed dag_spec rows id
unfolding find_node
composed-listed dag_spec rows id =
    let found = find_row (λ (node : NodeSpec). node.id == id) dag_spec.nodes in
    composed_of-shown found (last_row id rows) (read_node id rows)
    ∙ ap (λ last. shown found last (read_node id rows)) (last_row-last_of id rows)

ids-declared :
    (rows : List Node) (specs : List NodeSpec)
    → map (λ (node : NodePreviewResponse). node.id) (map (declare rows) specs) ≡ spec_ids specs
unfolding to_declared_node_response
ids-declared rows [] = refl
ids-declared rows (node_spec ∷ specs) = ap (λ ids. node_spec.id ∷ ids) (ids-declared rows specs)

declared-mem :
    (specs : List NodeSpec) (id : String)
    → is_some (find_row (λ (node : NodeSpec). node.id == id) specs) ≡ mem (spec_ids specs) id
unfolding find_row mem
declared-mem [] id = refl
declared-mem (node_spec ∷ specs) id = ground (arith, declared-mem specs id)

ids-adopted :
    (dag_spec : DagSpec) (rows : List Node)
    → map
        (λ (node : NodePreviewResponse). node.id)
        (map to_adopted_node_response (keep (is_undeclared dag_spec) rows))
      ≡ keep (λ id. not (mem (spec_ids dag_spec.nodes) id)) (row_ids rows)
unfolding keep to_adopted_node_response find_node
ids-adopted dag_spec [] = refl
ids-adopted dag_spec (row ∷ rows) =
    rw (declared-mem dag_spec.nodes row.id)
      (elim (Bool-cases (mem (spec_ids dag_spec.nodes) row.id)) [
        | inl known ↦ rw known (ids-adopted dag_spec rows)
        | inr new ↦ rw new (ap (λ ids. row.id ∷ ids) (ids-adopted dag_spec rows))
      ])

map-append :
    (xs ys : List NodePreviewResponse)
    → map (λ (node : NodePreviewResponse). node.id) (xs ++ ys)
      ≡ map (λ (node : NodePreviewResponse). node.id) xs
        ++ map (λ (node : NodePreviewResponse). node.id) ys
map-append [] ys = refl
map-append (x ∷ xs) ys = ap (λ ids. x.id ∷ ids) (map-append xs ys)

ids-listed :
    (dag_spec : DagSpec) (rows : List Node)
    → map (λ (node : NodePreviewResponse). node.id) (to_node_responses dag_spec rows)
      ≡ listed_ids dag_spec rows
unfolding to_node_responses
ids-listed dag_spec rows =
    map-append (map (declare rows) dag_spec.nodes) _
    ∙ rw (ids-declared rows dag_spec.nodes, ids-adopted dag_spec rows) refl

-- A listing shows the declared ids, in order, and after them the id of each row that no node
-- declares. Under a declared id it shows the first node of that id with the state and the time of
-- the last row of the id, pending where there is none; under any other, the first row that has it.
-- Neither the ids nor the rows need be unique.
pub preview-listed :
    (dag_spec : DagSpec) (rows : List Node) (id : String)
    → let nodes = to_node_responses dag_spec rows in
      (map (λ (node : NodePreviewResponse). node.id) nodes ≡ listed_ids dag_spec rows)
      × (preview_at id nodes ≡ listed dag_spec rows id)
preview-listed dag_spec rows id =
    (ids-listed dag_spec rows, preview-composed dag_spec rows id ∙ composed-listed dag_spec rows id)
