-- ===== src/Learning/Lines/RoundTrip.antt =====
-- Lines that are joined by line feeds read back as they were.
use Prim.Native.Char.{Char, code}
use Prim.Native.String.{◌++◌}
use Prim.Native.String.append
use agentic_dag.Prelude.{
  ℕ, ◌≡◌, refl, ap, ◌∙◌, String, true, false, ◌||◌, List, [], ◌∷◌, nat_beq, nat_eq, mem, has_char,
  has_char-append, arith, All, ◌==◌, string_eq, join, inl, inr, Bool-cases,
}
use text.Mathlib.TextEquality.{eq_iff}
use agentic_dag.Learning.Lines.{
  newline, is_line_break, universal_newlines, splitlines, before_newline, is_line, onto,
}

abbrev append_text : String → String → String
append_text a b = a ++ b

abbrev IsClear : String → Type 0
IsClear text = has_char is_line_break text ≡ false

newline-append : (text : String) → append_text newline text ≡ String.◌∷◌ "\n" text
newline-append text = rw (append.cons "\n" "" text, append.nil text) refl

-- The first character of a clear text is no line break, and the rest is clear.
IsClear-cons :
    (c : Char) (text : String)
    → IsClear (String.◌∷◌ c text)
    → (is_line_break (code c) ≡ false) × IsClear text
unfolding has_char
IsClear-cons c text clear = ground arith

no_break : (n : ℕ) → is_line_break n ≡ false → (nat_beq n 13 ≡ false) × (nat_beq n 10 ≡ false)
unfolding mem
no_break n clear = ground arith

universal-append :
    (a b : String)
    → IsClear a
    → universal_newlines (append_text a b) ≡ append_text a (universal_newlines b)
unfolding universal_newlines
universal-append String.[] b clear = rw (append.nil b, append.nil (universal_newlines b)) refl
universal-append (String.◌∷◌ c a) b clear =
    let (whole, rest) = IsClear-cons c a clear in
    let (no_return, _) = no_break (code c) whole in
    rw (append.cons c a b, append.cons c a (universal_newlines b), no_return)
      (ap (String.◌∷◌ c) (universal-append a b rest))

universal-clear : (text : String) → IsClear text → universal_newlines text ≡ text
unfolding universal_newlines
universal-clear String.[] clear = refl
universal-clear (String.◌∷◌ c text) clear =
    let (whole, rest) = IsClear-cons c text clear in
    let (no_return, _) = no_break (code c) whole in
    rw no_return (ap (String.◌∷◌ c) (universal-clear text rest))

universal-newline :
    (text : String)
    → universal_newlines (append_text newline text) ≡ append_text newline (universal_newlines text)
unfolding universal_newlines
universal-newline text = rw (newline-append text, newline-append (universal_newlines text)) refl

before_newline-append :
    (a b : String) → IsClear a → before_newline (append_text a (append_text newline b)) ≡ a
unfolding before_newline
before_newline-append String.[] b clear =
    rw (append.nil (append_text newline b), newline-append b) refl
before_newline-append (String.◌∷◌ c a) b clear =
    let (whole, rest) = IsClear-cons c a clear in
    let (_, no_feed) = no_break (code c) whole in
    rw (append.cons c a (append_text newline b), no_feed)
      (ap (String.◌∷◌ c) (before_newline-append a b rest))

splitlines-append :
    (a b : String)
    → IsClear a
    → splitlines (append_text a (append_text newline b)) ≡ a ∷ splitlines b
unfolding splitlines
splitlines-append String.[] b clear = rw (append.nil (append_text newline b), newline-append b) refl
splitlines-append (String.◌∷◌ c a) b clear =
    let (whole, rest) = IsClear-cons c a clear in
    rw (append.cons c a (append_text newline b), whole) (ap (onto c) (splitlines-append a b rest))

splitlines-line :
    (c : Char) (a : String)
    → IsClear (String.◌∷◌ c a)
    → splitlines (String.◌∷◌ c a) ≡ String.◌∷◌ c a ∷ []
unfolding splitlines
splitlines-line c String.[] clear = let (whole, rest) = IsClear-cons c "" clear in rw whole refl
splitlines-line c (String.◌∷◌ d a) clear =
    let (whole, rest) = IsClear-cons c (String.◌∷◌ d a) clear in
    rw whole (ap (onto c) (splitlines-line d a rest))

pub is_line-IsClear : (text : String) → is_line text ≡ true → IsClear text
unfolding is_line
is_line-IsClear text line = ground arith

splitlines-is_line : (text : String) → is_line text ≡ true → splitlines text ≡ text ∷ []
unfolding is_line
splitlines-is_line String.[] line = cc
splitlines-is_line (String.◌∷◌ c text) line =
    splitlines-line c text (is_line-IsClear (String.◌∷◌ c text) line)

universal_newlines-join :
    (lines : List String)
    → All (λ line. is_line line ≡ true) lines
    → universal_newlines (join newline lines) ≡ join newline lines
unfolding join has_char
universal_newlines-join [] _ = universal-clear "" refl
universal_newlines-join (line ∷ []) (whole, _) = universal-clear line (is_line-IsClear line whole)
universal_newlines-join (line ∷ next ∷ lines) (whole, rest) =
    universal-append line _ (is_line-IsClear line whole)
    ∙ ap (append_text line) (
        universal-newline (join newline (next ∷ lines))
        ∙ ap (append_text newline) (universal_newlines-join (next ∷ lines) rest))

splitlines-join :
    (lines : List String)
    → All (λ line. is_line line ≡ true) lines
    → splitlines (join newline lines) ≡ lines
unfolding join splitlines
splitlines-join [] _ = refl
splitlines-join (line ∷ []) (whole, _) = splitlines-is_line line whole
splitlines-join (line ∷ next ∷ lines) (whole, rest) =
    splitlines-append line (join newline (next ∷ lines)) (is_line-IsClear line whole)
    ∙ ap (λ later. line ∷ later) (splitlines-join (next ∷ lines) rest)

-- The first of several lines may be empty: it is not the last.
module _ (line next : String) (lines : List String) (clear : IsClear line)
    (whole : All (λ line. is_line line ≡ true) (next ∷ lines)) where
  pub universal_newlines-headed :
      universal_newlines (join newline (line ∷ next ∷ lines)) ≡ join newline (line ∷ next ∷ lines)
  unfolding join
  universal_newlines-headed =
      universal-append line _ clear
      ∙ ap (append_text line) (
          universal-newline (join newline (next ∷ lines))
          ∙ ap (append_text newline) (universal_newlines-join (next ∷ lines) whole))

  pub splitlines-headed : splitlines (join newline (line ∷ next ∷ lines)) ≡ line ∷ next ∷ lines
  unfolding join
  splitlines-headed =
      splitlines-append line (join newline (next ∷ lines)) clear
      ∙ ap (λ later. line ∷ later) (splitlines-join (next ∷ lines) whole)

  pub before_newline-headed : before_newline (join newline (line ∷ next ∷ lines)) ≡ line
  unfolding join
  before_newline-headed = before_newline-append line (join newline (next ∷ lines)) clear

not_empty : (text : String) → has_char (λ _. true) text ≡ true → (text == "") ≡ false
unfolding has_char
not_empty text some_there = elim (Bool-cases (text == "")) [
  | inl empty ↦ let gone = ap (has_char (λ _. true)) ((eq_iff text "").0 empty) in cc
  | inr full ↦ full
]

-- A line that starts with a text that is one, and goes on without the end of a line.
pub is_line-append :
    (mark text : String)
    → has_char (λ _. true) mark ≡ true
    → has_char is_line_break mark ≡ false
    → has_char is_line_break text ≡ false
    → is_line (append_text mark text) ≡ true
unfolding is_line
is_line-append mark text starts clear rest =
    let full =
      not_empty (append_text mark text)
        (has_char-append (λ _. true) mark text ∙ ap (λ b. b || has_char (λ _. true) text) starts) in
    rw (full, has_char-append is_line_break mark text, clear, rest) refl
