-- ===== src/Learning/Lines.antt =====
-- Python's reading of a text file by lines, which services/learning/extraction_lock.py uses:
-- `read_text`, `splitlines` and `partition`.
pub mod RoundTrip
use Prim.Native.Char.{Char, code}
use Prim.Native.String.{◌++◌}
use agentic_dag.Prelude.{
  ℕ, String, Bool, true, false, not, List, [], ◌∷◌, if◌then◌else◌, nat_beq, nat_eq, mem, has_char,
  ◌&&◌, ◌==◌, string_eq, ◌≡◌, refl,
}

abbrev pub newline : String
newline = "\n"

-- What `splitlines` ends a line at: the line feed, the vertical tab, the form feed, the carriage
-- return, the file, group and record separators, the next line, the line and the paragraph separator.
abbrev pub is_line_break : ℕ → Bool
is_line_break = mem (10 ∷ 11 ∷ 12 ∷ 13 ∷ 28 ∷ 29 ∷ 30 ∷ 133 ∷ 8232 ∷ 8233 ∷ [])

abbrev starts_line : String → Bool
starts_line String.[] = false
starts_line (String.◌∷◌ c text) = nat_beq (code c) 10

-- What `read_text` gives back of a text that was written: a carriage return, with the line feed that
-- follows it if one does, reads as a line feed.
unfoldable pub universal_newlines : String → String
universal_newlines String.[] = ""
universal_newlines (String.◌∷◌ c text) =
    let rest = universal_newlines text in
    if nat_beq (code c) 13
    then (if starts_line text then rest else String.◌∷◌ "\n" rest)
    else String.◌∷◌ c rest

abbrev onto : Char → List String → List String
onto c [] = String.◌∷◌ c "" ∷ []
onto c (line ∷ lines) = String.◌∷◌ c line ∷ lines

-- `text.splitlines()`, on a text that was read, in which no carriage return is left.
unfoldable pub splitlines : String → List String
unfolding mem
splitlines String.[] = []
splitlines (String.◌∷◌ c text) =
    let rest = splitlines text in if is_line_break (code c) then "" ∷ rest else onto c rest

-- `text.partition("\n")[0]`
unfoldable pub before_newline : String → String
before_newline String.[] = ""
before_newline (String.◌∷◌ c text) =
    let rest = before_newline text in if nat_beq (code c) 10 then "" else String.◌∷◌ c rest

-- A text that is not empty, without the end of a line in it.
unfoldable pub is_line : String → Bool
unfolding has_char mem
is_line text = not (text == "") && not (has_char is_line_break text)

lines_test : splitlines (universal_newlines "7\r\na\n\nb\n") ≡ "7" ∷ "a" ∷ "" ∷ "b" ∷ []
unfolding splitlines universal_newlines
lines_test = refl
