-- ===== src/Prelude/Text.antt =====
-- Python's operations on texts that the program uses: `join`, `sorted`, `max`, the order by code
-- points, and the decimal digits of a number.
use Prim.Native.Nat.{ℕ, zero, suc, ◌/◌, ◌%◌}
use Prim.Native.Char.{code}
use Prim.Native.String.{String, ◌++◌}
use Prim.Native.String.append
use mathlib.Core.Path.{◌≡◌, refl}
use mathlib.Core.Bool.{Bool, true, false, ◌&&◌, ◌||◌}
use mathlib.Core.List.{List, [], ◌∷◌}
use native.Mathlib.Omega.{arith}
use mathlib.Core.Logic.{inl, inr}
use agentic_dag.Prelude.Tests.{ltb, nat_beq, if◌then◌else◌, Bool-cases}
use agentic_dag.Prelude.Lists.{All}

-- The parts of an f-string, or of a label with its placeholders filled in.
unfoldable pub concat : List String → String
concat [] = ""
concat (text ∷ texts) = text ++ concat texts

-- `separator.join(texts)`
unfoldable pub join : String → List String → String
join separator [] = ""
join separator (text ∷ []) = text
join separator (text ∷ next ∷ texts) = text ++ (separator ++ join separator (next ∷ texts))

abbrev codes : String → List ℕ
codes String.[] = []
codes (String.◌∷◌ c text) = code c ∷ codes text

unfoldable pub codes_lt : List ℕ → List ℕ → Bool
codes_lt [] [] = false
codes_lt [] (_ ∷ _) = true
codes_lt (_ ∷ _) [] = false
codes_lt (x ∷ xs) (y ∷ ys) = ltb x y || (nat_beq x y && codes_lt xs ys)

-- `a < b`
unfoldable pub text_lt : String → String → Bool
unfolding codes_lt
text_lt a b = codes_lt (codes a) (codes b)

-- `max(a, b)`: the first of two equal ones.
unfoldable pub max_text : String → String → String
max_text a b = if text_lt a b then b else a

codes_lt_irrefl : (xs : List ℕ) → codes_lt xs xs ≡ false
unfolding codes_lt
codes_lt_irrefl [] = refl
codes_lt_irrefl (x ∷ xs) = ground (arith, codes_lt_irrefl xs)

codes_lt_asym : (xs ys : List ℕ) → codes_lt xs ys ≡ true → codes_lt ys xs ≡ false
unfolding codes_lt
codes_lt_asym [] [] h = refl
codes_lt_asym [] (_ ∷ _) h = refl
codes_lt_asym (_ ∷ _) [] h = ground arith
codes_lt_asym (x ∷ xs) (y ∷ ys) h = ground (arith, codes_lt_asym xs ys)

-- `not (b < a)` and `not (c < b)` give `not (c < a)`.
codes_le_trans :
    (xs ys zs : List ℕ) → codes_lt ys xs ≡ false → codes_lt zs ys ≡ false → codes_lt zs xs ≡ false
unfolding codes_lt
codes_le_trans [] ys [] h k = refl
codes_le_trans [] ys (_ ∷ _) h k = refl
codes_le_trans (x ∷ xs) [] zs h k = ground arith
codes_le_trans (x ∷ xs) (y ∷ ys) [] h k = ground arith
codes_le_trans (x ∷ xs) (y ∷ ys) (z ∷ zs) h k = ground (arith, codes_le_trans xs ys zs)

pub text_lt_irrefl : (a : String) → text_lt a a ≡ false
unfolding text_lt
text_lt_irrefl a = codes_lt_irrefl (codes a)

pub text_lt_asym : (a b : String) → text_lt a b ≡ true → text_lt b a ≡ false
unfolding text_lt
text_lt_asym a b h = codes_lt_asym (codes a) (codes b) h

pub text_le_trans :
    (a b c : String) → text_lt b a ≡ false → text_lt c b ≡ false → text_lt c a ≡ false
unfolding text_lt
text_le_trans a b c h k = codes_le_trans (codes a) (codes b) (codes c) h k

pub max_text_left : (a b : String) → text_lt (max_text a b) a ≡ false
unfolding max_text
max_text_left a b = ground (arith, text_lt_irrefl a, text_lt_asym a b)

pub max_text_right : (a b : String) → text_lt (max_text a b) b ≡ false
unfolding max_text
max_text_right a b = ground (arith, text_lt_irrefl b)

-- `sorted(texts)`
unfoldable pub insert_text : String → List String → List String
insert_text text [] = text ∷ []
insert_text text (first ∷ texts) =
    if text_lt first text then first ∷ insert_text text texts else text ∷ first ∷ texts

unfoldable pub sorted : List String → List String
unfolding insert_text
sorted [] = []
sorted (text ∷ texts) = insert_text text (sorted texts)

abbrev digit : ℕ → List String → String
digit n [] = ""
digit zero (text ∷ texts) = text
digit (suc n) (text ∷ texts) = digit n texts

abbrev pub digits : List String
digits = "0" ∷ "1" ∷ "2" ∷ "3" ∷ "4" ∷ "5" ∷ "6" ∷ "7" ∷ "8" ∷ "9" ∷ []

show_digits : ℕ → ℕ → String → String
show_digits zero n text = text
show_digits (suc fuel) n text =
    let longer = digit (n % 10) digits ++ text in
    let rest = show_digits fuel (n / 10) longer in if ltb n 10 then longer else rest

-- `str(n)`. A number has at most as many digits as its successor counts.
unfoldable pub show_int : ℕ → String
unfolding show_digits
show_int n = show_digits (suc n) n ""

-- Whether a character whose code passes the test stands in a text.
unfoldable pub has_char : (ℕ → Bool) → String → Bool
has_char p String.[] = false
has_char p (String.◌∷◌ c text) = p (code c) || has_char p text

pub has_char-append :
    (p : ℕ → Bool) (a b : String) → has_char p (a ++ b) ≡ (has_char p a || has_char p b)
unfolding has_char
has_char-append p String.[] b = rw (append.nil b) refl
has_char-append p (String.◌∷◌ c a) b =
    rw (append.cons c a b) (ground (arith, has_char-append p a b))

has_char-digit :
    (p : ℕ → Bool) (m : ℕ) (texts : List String)
    → All (λ text. has_char p text ≡ false) texts
    → has_char p (digit m texts) ≡ false
unfolding has_char
has_char-digit p m [] free = refl
has_char-digit p zero (text ∷ texts) free = free.0
has_char-digit p (suc m) (text ∷ texts) free = has_char-digit p m texts free.1

has_char-longer :
    (p : ℕ → Bool) (m : ℕ) (text : String)
    → All (λ text. has_char p text ≡ false) digits
    → has_char p text ≡ false
    → has_char p (digit m digits ++ text) ≡ false
has_char-longer p m text free clear =
    rw (has_char-append p (digit m digits) text, has_char-digit p m digits free) clear

has_char-show_digits :
    (p : ℕ → Bool) (fuel n : ℕ) (text : String)
    → All (λ text. has_char p text ≡ false) digits
    → has_char p text ≡ false
    → has_char p (show_digits fuel n text) ≡ false
unfolding show_digits
has_char-show_digits p zero n text free clear = clear
has_char-show_digits p (suc fuel) n text free clear = elim (Bool-cases (ltb n 10)) [
  | inl last ↦ rw last (has_char-longer p (n % 10) text free clear)
  | inr more ↦
      rw more
        (has_char-show_digits p fuel (n / 10) _ free (has_char-longer p (n % 10) text free clear))
]

-- The digits of a number hold no character that passes a test that none of the ten digits passes.
pub has_char-show_int :
    (p : ℕ → Bool) (n : ℕ)
    → All (λ text. has_char p text ≡ false) digits
    → has_char p (show_int n) ≡ false
unfolding show_int has_char
has_char-show_int p n free = has_char-show_digits p (suc n) n "" free refl

show_int_test : show_int 1203 ≡ "1203"
unfolding show_int
show_int_test = refl
