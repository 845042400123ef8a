-- ===== src/Store/Memory/Contract.antt =====
-- domain/persistence/repos/node_repo.py: what both node repositories promise of their writes, on the
-- rows as a function of their ids.
use agentic_dag.Prelude.{
  ◌≡◌, refl, sym, ap, ◌∙◌, String, Bool, true, false, List, [], ◌∷◌, Option, none, some, ◌==◌,
  string_eq, if◌then◌else◌, arith, inl, inr, Bool-cases,
}
use text.Mathlib.TextEquality.{eq_iff}
use agentic_dag.Domain.{Node}
use agentic_dag.Store.{ok, read_node, find_row, update_where}
use agentic_dag.Store.Nodes.{read_node-id}
use agentic_dag.Store.Memory.{set_row, rewrite, rewritten}

abbrev pub View : Type 0
View = String → Option Node

abbrev pub with_row : (Node → Node) → Option Node → Option Node
with_row f none = none
with_row f (some row) = some (f row)

-- The row of one id is changed.
abbrev pub changed : String → (Node → Node) → View → View
changed id f view other = if id == other then with_row f (view other) else view other

pub read-set_row :
    (row : Node) (rows : List Node) (other : String)
    → read_node other (set_row row rows)
      ≡ (if row.id == other then some row else read_node other rows)
unfolding read_node find_row set_row
read-set_row row [] other = refl
read-set_row row (first ∷ rows) other = ground (
  arith,
  read-set_row row rows other,
  eq_iff first.id row.id,
  eq_iff first.id other,
  eq_iff row.id other,
)

chosen-id :
    (f : Node → Node) (row : Node) (rest : Option Node) (other : String)
    → (f row).id ≡ row.id
    → (chosen : Bool)
    → (if (if chosen then f row else row).id == other
        then some (if chosen then f row else row)
        else rest)
      ≡ (if row.id == other then some (if chosen then f row else row) else rest)
chosen-id f row rest other same true = ap (λ key. if key == other then some (f row) else rest) same
chosen-id f row rest other same false = refl

pub read-update_where :
    (id : String) (f : Node → Node) (rows : List Node) (other : String)
    → ((row : Node) → (f row).id ≡ row.id)
    → read_node other (update_where (λ row. row.id == id) f rows)
      ≡ changed id f (λ key. read_node key rows) other
unfolding read_node find_row update_where
read-update_where id f [] other same = ground arith
read-update_where id f (row ∷ rows) other same =
    chosen-id f row (find_row (λ row. row.id == other) (update_where (λ row. row.id == id) f rows))
      other (same row) (row.id == id)
    ∙ ground (
      arith,
      read-update_where id f rows other same,
      eq_iff row.id id,
      eq_iff row.id other,
      eq_iff id other,
    )

-- The rows of several ids are changed.
abbrev pub changed_all : (String → Bool) → (Node → Node) → View → View
changed_all chosen f view other = if chosen other then with_row f (view other) else view other

choose :
    (f : Node → Node) (row : Node) (chosen : Bool)
    → some (if chosen then f row else row) ≡ (if chosen then with_row f (some row) else some row)
choose f row true = refl
choose f row false = refl

pub read-update_ids :
    (chosen : String → Bool) (f : Node → Node) (rows : List Node) (other : String)
    → ((row : Node) → (f row).id ≡ row.id)
    → read_node other (update_where (λ row. chosen row.id) f rows)
      ≡ changed_all chosen f (λ key. read_node key rows) other
unfolding read_node find_row update_where
read-update_ids chosen f [] other same = elim (Bool-cases (chosen other)) [
  | inl t ↦ rw t refl
  | inr e ↦ rw e refl
]
read-update_ids chosen f (row ∷ rows) other same =
    chosen-id f row (find_row (λ row. row.id == other) (update_where (λ row. chosen row.id) f rows))
      other (same row) (chosen row.id)
    ∙ elim (Bool-cases (row.id == other)) [
      | inl here ↦ rw here (
          choose f row (chosen row.id)
          ∙ ap (λ answer. if answer then with_row f (some row) else some row)
              (ap chosen ((eq_iff row.id other).0 here)))
      | inr elsewhere ↦ rw elsewhere (read-update_ids chosen f rows other same)
    ]

rewritten-ok :
    (id : String) (f : Node → Node) (rows after : List Node) (found : Option Node)
    → rewritten found id f rows ≡ ok after
    → (row : Node) × (found ≡ some row) × (set_row (f row) rows ≡ after)
rewritten-ok id f rows after none done = cc
rewritten-ok id f rows after (some row) done = (row, refl, cc)

pub read-rewrite :
    (id : String) (f : Node → Node) (rows after : List Node) (other : String)
    → ((row : Node) → (f row).id ≡ row.id)
    → rewrite id f rows ≡ ok after
    → read_node other after ≡ changed id f (λ key. read_node key rows) other
unfolding rewrite
read-rewrite id f rows after other same done =
    let (row, found, written) = rewritten-ok id f rows after (read_node id rows) done in
    let named = read_node-id id rows row found in
    rw⁻¹ written (
      read-set_row (f row) rows other
      ∙ (ap (λ key. if key == other then some (f row) else read_node other rows) (same row ∙ named)
          ∙ elim (Bool-cases (id == other)) [
            | inl here ↦ rw here (
                ap (with_row f)
                  (sym found ∙ ap (λ key. read_node key rows) ((eq_iff id other).0 here)))
            | inr elsewhere ↦ rw elsewhere refl
          ]))
