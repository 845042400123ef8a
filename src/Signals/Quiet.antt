-- ===== src/Signals/Quiet.antt =====
-- A node is never told the same thing twice: once its watermarks are advanced, the same reading of
-- the pull request holds no news.
use agentic_dag.Prelude.{
  ◌≡◌, refl, ◌∙◌, String, true, false, List, [], ◌∷◌, map, none, some, ◌==◌, string_eq, arith, mem,
  mem-cons, Option-cases, inl, inr,
}
use text.Mathlib.TextEquality.{eq_iff}
use agentic_dag.Domain.{PrDetails}
use agentic_dag.Signals.{
  SignalChange, Marks, read, advanced, PrSignal, comment_signal, check_signal, conflict_signal,
  approval_signal, name, check_signature, detect_comments, detect, detect_all, pr_signals,
}
use agentic_dag.Signals.Marks.{last_mark, read-advanced}
use agentic_dag.Signals.Comments.{comment_signal-quiet}

-- A change is stored under the name of the signal that reported it.
pub detect-signal :
    (signal : PrSignal) (reading : PrDetails) (mark : String) (change : SignalChange)
    → detect signal reading mark ≡ some change
    → change.signal ≡ name signal
unfolding detect detect_comments name
detect-signal (comment_signal account) reading mark change h = ground arith
detect-signal check_signal reading mark change h = ground arith
detect-signal conflict_signal reading mark change h = ground arith
detect-signal approval_signal reading mark change h = ground arith

pub detect-quiet :
    (signal : PrSignal) (reading : PrDetails) (mark : String) (change : SignalChange)
    → detect signal reading mark ≡ some change
    → detect signal reading change.mark ≡ none
unfolding detect
detect-quiet (comment_signal account) reading mark change h =
    comment_signal-quiet account mark reading change h
detect-quiet check_signal reading mark change h =
    ground (arith, eq_iff (check_signature reading.head_sha reading.failures) change.mark)
detect-quiet conflict_signal reading mark change h =
    ground (arith, eq_iff reading.head_sha change.mark)
detect-quiet approval_signal reading mark change h =
    ground (arith, eq_iff reading.head_sha change.mark)

-- No two signals share a name.
abbrev pub AreDistinct : List PrSignal → Type 0
AreDistinct [] = Unit
AreDistinct (signal ∷ signals) =
    (mem (map name signals) (name signal) ≡ false) × AreDistinct signals

module _ (reading : PrDetails) (marks : Marks) where
  last_mark-detect_all :
      (signals : List PrSignal) (key mark : String)
      → mem (map name signals) key ≡ false
      → last_mark (detect_all signals reading marks) key mark ≡ mark
  unfolding last_mark detect_all mem
  last_mark-detect_all [] key mark h = refl
  last_mark-detect_all (signal ∷ signals) key mark h =
      elim (Option-cases (detect signal reading (read marks (name signal)))) [
        | inl nothing ↦ rw nothing (last_mark-detect_all signals key mark (ground arith))
        | inr (change, e) ↦ rw e (
            ground (
              arith,
              last_mark-detect_all signals key mark,
              detect-signal signal reading (read marks (name signal)) change e,
            ))
      ]

  last_mark-change :
      (change : SignalChange) {key : String} (mark : String) (signals : List PrSignal)
      → change.signal ≡ key
      → mem (map name signals) key ≡ false
      → last_mark (change ∷ detect_all signals reading marks) key mark ≡ change.mark
  unfolding last_mark
  last_mark-change change {key} mark signals same distinct =
      rw ((eq_iff change.signal key).1 same, last_mark)
        (last_mark-detect_all signals key change.mark distinct)

  -- The mark that `signal` is left with.
  last_mark-head :
      (signal : PrSignal) (signals : List PrSignal)
      → mem (map name signals) (name signal) ≡ false
      → detect signal reading (
          last_mark
            (detect_all (signal ∷ signals) reading marks)
            (name signal)
            (read marks (name signal)))
        ≡ none
  unfolding detect_all last_mark
  last_mark-head signal signals distinct =
      elim (Option-cases (detect signal reading (read marks (name signal)))) [
        | inl nothing ↦
            rw
              (
                nothing,
                last_mark-detect_all signals (name signal) (read marks (name signal)) distinct,
              )
              nothing
        | inr (change, e) ↦
            rw
              (
                e,
                last_mark-change change (read marks (name signal)) signals
                    (detect-signal signal reading (read marks (name signal)) change e) distinct,
              )
              (detect-quiet signal reading (read marks (name signal)) change e)
      ]

  last_mark-tail :
      (signal : PrSignal) (signals : List PrSignal) (key mark : String)
      → (name signal == key) ≡ false
      → last_mark (detect_all (signal ∷ signals) reading marks) key mark
        ≡ last_mark (detect_all signals reading marks) key mark
  unfolding detect_all last_mark
  last_mark-tail signal signals key mark other =
      elim (Option-cases (detect signal reading (read marks (name signal)))) [
        | inl nothing ↦ rw nothing
        | inr (change, e) ↦ rw e (
            ground (arith, other, detect-signal signal reading (read marks (name signal)) change e))
      ]

  detect_all-nil :
      (signals : List PrSignal) (marks' : Marks)
      → AreDistinct signals
      → ((key : String)
          → mem (map name signals) key ≡ true
          → read marks' key ≡ last_mark (detect_all signals reading marks) key (read marks key))
      → detect_all signals reading marks' ≡ []
  unfolding detect_all mem
  detect_all-nil [] marks' distinct reads = refl
  detect_all-nil (signal ∷ signals) marks' distinct reads =
      let head =
        reads (name signal)
          ((mem-cons (name signal) (name signal) (map name signals)).1 (inl refl)) in
      rw (head, last_mark-head signal signals distinct.0)
        (detect_all-nil signals marks' distinct.1 λ key m.
          reads key ((mem-cons key (name signal) (map name signals)).1 (inr m))
          ∙ last_mark-tail signal signals key (read marks key)
              (ground (arith, eq_iff (name signal) key)))

pub pr_signals-AreDistinct : (agent_account : String) → AreDistinct (pr_signals agent_account)
unfolding pr_signals name mem
pr_signals-AreDistinct agent_account = (refl, (refl, (refl, (refl, tt))))

-- Once the watermarks are advanced past every change that a reading shows, the same reading shows
-- no change: of none of the four signals, whatever the watermarks were.
pub detect_all-advanced :
    (agent_account : String) (reading : PrDetails) (marks : Marks)
    → detect_all
        (pr_signals agent_account)
        reading
        (advanced marks (detect_all (pr_signals agent_account) reading marks))
      ≡ []
detect_all-advanced agent_account reading marks =
    let signals = pr_signals agent_account in
    let changes = detect_all signals reading marks in
    detect_all-nil reading marks signals (advanced marks changes)
      (pr_signals-AreDistinct agent_account) (λ key m. read-advanced marks changes key)
