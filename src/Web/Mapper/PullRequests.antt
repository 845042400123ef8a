-- ===== src/Web/Mapper/PullRequests.antt =====
-- The numbers and urls of pull requests in the responses of api/web/mappers/dag_mapper.py.
use Prim.Native.Char.{Char}
use Prim.Native.String.{◌++◌}
use Prim.Native.String.append
use text.Mathlib.TextLemmas.{append-nil}
use agentic_dag.Prelude.{
  ℕ, ◌≡◌, refl, sym, ap, ◌∙◌, String, true, false, Option, none, some, ◌==◌, string_eq, nat_eq,
  arith, concat, show_int, has_char, has_char-append, has_char-show_int, inl, inr, Bool-cases,
}
use agentic_dag.Domain.{NodeSpec, WorkTree}
use agentic_dag.World.{World}
use agentic_dag.Web.Mapper.{
  has_slash, is_slash, last_segment, pull_url, get_pr_url, get_pr_number, worktree_pr_url,
  declared_pr,
}

abbrev append_text : String → String → String
append_text a b = a ++ b

last_segment-same : (text : String) → has_slash text ≡ false → last_segment text ≡ text
unfolding last_segment
last_segment-same String.[] clear = refl
last_segment-same (String.◌∷◌ c text) clear = rw clear refl

slashed_left :
    (c : Char) (a b : String)
    → has_slash (String.◌∷◌ c a) ≡ true
    → has_slash (String.◌∷◌ c (append_text a b)) ≡ true
unfolding has_char
slashed_left c a b slash = ground (arith, has_char-append is_slash a b)

slashed_right :
    (c : Char) (a b : String)
    → has_slash b ≡ true
    → has_slash (String.◌∷◌ c (append_text a b)) ≡ true
unfolding has_char
slashed_right c a b slash = ground (arith, has_char-append is_slash a b)

-- The last segment does not depend on what stands before a slash.
last_segment-slash :
    (c : Char) (a : String)
    → has_slash (String.◌∷◌ c a) ≡ true
    → last_segment (String.◌∷◌ c a) ≡ last_segment a
unfolding last_segment
last_segment-slash c a slash = rw slash refl

-- A text up to its last slash leaves what stands behind it.
last_segment-append :
    (a b : String)
    → has_slash a ≡ true
    → last_segment a ≡ ""
    → has_slash b ≡ false
    → last_segment (append_text a b) ≡ b
unfolding last_segment has_char
last_segment-append String.[] b slash ended clear = rw (append.nil b) (last_segment-same b clear)
last_segment-append (String.◌∷◌ c a) b slash ended clear = elim (Bool-cases (has_slash a)) [
  | inl later ↦
      rw (append.cons c a b, slashed_left c a b slash)
        (last_segment-append a b later (sym (last_segment-slash c a slash) ∙ ended) clear)
  | inr only ↦
      rw (append.cons c a b, slashed_left c a b slash)
        (rw
          (
            sym (last_segment-same a only) ∙ (sym (last_segment-slash c a slash) ∙ ended),
            append.nil b,
          )
          (last_segment-same b clear))
]

last_segment-behind :
    (a b : String) → has_slash b ≡ true → last_segment (append_text a b) ≡ last_segment b
unfolding last_segment has_char
last_segment-behind String.[] b slash = rw (append.nil b) refl
last_segment-behind (String.◌∷◌ c a) b slash =
    rw (append.cons c a b, slashed_right c a b slash) (last_segment-behind a b slash)

show_int-clear : (number : ℕ) → has_slash (show_int number) ≡ false
unfolding has_char
show_int-clear number =
    has_char-show_int is_slash number
      (refl, (refl, (refl, (refl, (refl, (refl, (refl, (refl, (refl, (refl, tt))))))))))

abbrev pull_path : String
pull_path = "/pull/"

pull_path-slash : has_slash pull_path ≡ true
unfolding has_char
pull_path-slash = refl

pull_path-ended : last_segment pull_path ≡ ""
unfolding last_segment has_char
pull_path-ended = refl

slashed_path : (text : String) → has_slash (append_text pull_path text) ≡ true
slashed_path text = rw (has_char-append is_slash pull_path text, pull_path-slash) refl

last_segment-pull_url :
    (repo_url : String) (number : ℕ) → last_segment (pull_url repo_url number) ≡ show_int number
unfolding pull_url concat
last_segment-pull_url repo_url number =
    let clear = ap has_slash (append-nil (show_int number)) ∙ show_int-clear number in
    last_segment-behind repo_url _ (slashed_path (show_int number ++ ""))
    ∙ (last_segment-append pull_path _ pull_path-slash pull_path-ended clear
        ∙ append-nil (show_int number))

get_pr_url-built :
    (node_spec : Option NodeSpec) (worktree : WorkTree) (repo_url : String)
    → declared_pr node_spec ≡ ""
    → worktree.pr_url ≡ ""
    → (worktree.pr_number == 0) ≡ false
    → (repo_url == "") ≡ false
    → get_pr_url node_spec (some worktree) repo_url ≡ pull_url repo_url worktree.pr_number
unfolding get_pr_url worktree_pr_url
get_pr_url-built node_spec worktree repo_url undeclared unnamed numbered known =
    rw (undeclared, unnamed, numbered, known) refl

-- The url that is built for a pull request with a recorded number and without a recorded url, where
-- the url of the repository is known, names that number again when a node declares it: the number
-- that is read from the declaration is the one that is shown for the worktree. The text of the number
-- is decimal and reads back as the number.
pub get_pr_number-get_pr_url :
    (world : World) (node_spec declaring : NodeSpec) (worktree : WorkTree) (repo_url : String)
    → node_spec.pr ≡ ""
    → worktree.pr_url ≡ ""
    → (worktree.pr_number == 0) ≡ false
    → (repo_url == "") ≡ false
    → world.is_decimal (show_int worktree.pr_number) ≡ true
    → world.int_of (show_int worktree.pr_number) ≡ some worktree.pr_number
    → let url = get_pr_url (some node_spec) (some worktree) repo_url in
      (get_pr_number world (some (record declaring { pr = url })) none ≡ worktree.pr_number)
      × (get_pr_number world (some node_spec) (some worktree) ≡ worktree.pr_number)
unfolding get_pr_number
get_pr_number-get_pr_url world node_spec declaring worktree repo_url undeclared unnamed numbered
      known decimal digits =
    rw
      (
        get_pr_url-built (some node_spec) worktree repo_url undeclared unnamed numbered known,
        last_segment-pull_url repo_url worktree.pr_number,
        decimal,
        digits,
        numbered,
      )
      (refl, refl)
