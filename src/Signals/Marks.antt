-- ===== src/Signals/Marks.antt =====
-- The dictionary of watermarks.
use agentic_dag.Prelude.{◌≡◌, refl, String, List, [], ◌∷◌, ◌==◌, string_eq, if◌then◌else◌, arith}
use text.Mathlib.TextEquality.{eq_iff}
use agentic_dag.Signals.{SignalChange, Marks, read, set_mark, advanced, without}

pub read-set_mark :
    (name mark signal : String) (values : Marks)
    → read (set_mark name mark values) signal
      ≡ (if name == signal then mark else read values signal)
unfolding read set_mark
read-set_mark name mark signal [] = ground (arith, eq_iff name signal)
read-set_mark name mark signal ((other, old) ∷ values) = ground (
  arith,
  eq_iff name signal,
  eq_iff other name,
  eq_iff other signal,
  read-set_mark name mark signal values,
)

-- The mark that the last of the changes for `signal` leaves, else `mark`.
unfoldable pub last_mark : List SignalChange → String → String → String
last_mark [] signal mark = mark
last_mark (change ∷ changes) signal mark =
    last_mark changes signal (if change.signal == signal then change.mark else mark)

pub read-advanced :
    (values : Marks) (changes : List SignalChange) (signal : String)
    → read (advanced values changes) signal ≡ last_mark changes signal (read values signal)
unfolding advanced last_mark
read-advanced values [] signal = refl
read-advanced values (change ∷ changes) signal = rw (
  read-advanced (set_mark change.signal change.mark values) changes signal,
  read-set_mark change.signal change.mark signal values,
)

-- Clearing one watermark leaves the others as they are.
pub read-without :
    (values : Marks) (cleared signal : String)
    → read (without values cleared) signal ≡ (if cleared == signal then "" else read values signal)
unfolding read without
read-without [] cleared signal = ground (arith, eq_iff cleared signal)
read-without ((name, mark) ∷ values) cleared signal = ground (
  arith,
  eq_iff cleared signal,
  eq_iff name cleared,
  eq_iff name signal,
  read-without values cleared signal,
)
