-- ===== src/Base/Text.antt =====
-- `std::string::find` of one byte with the `substr` calls that follow it, and `c_str`.
use Prim.Native.Nat.{ℕ}
use Prim.Native.Char.{code}
use Prim.Native.String.{String}
use mathlib.Core.Path.{◌≡◌, refl, ap, ◌∙◌}
use mathlib.Core.Bool.{Bool, true, false, not, ◌&&◌, ◌||◌}
use mathlib.Core.List.{List, [], ◌∷◌, ◌++◌}
use mathlib.Core.Option.{Option, none, some}
use native.Mathlib.Omega.{arith}
use package.asnprefix_map.Base.Tests.{◌==◌, nat_eq, ltb, if◌then◌else◌}
use package.asnprefix_map.Base.Lists.{Bytes}

-- The text before the first `sep`, and the text behind it.
unfoldable pub cut_at : ℕ → Bytes → Option (Bytes × Bytes)
cut_at sep [] = none
cut_at sep (c ∷ cs) =
    let rest = cut_at sep cs in
    if c == sep
    then some ([], cs)
    else elim rest [ none ↦ none | some (before, behind) ↦ some (c ∷ before, behind) ]

-- The byte does not occur in the text.
abbrev pub free_of : ℕ → Bytes → Bool
free_of sep [] = true
free_of sep (c ∷ cs) = not (c == sep) && free_of sep cs

pub cut_at-append :
    (sep : ℕ) (xs ys : Bytes)
    → free_of sep xs ≡ true
    → cut_at sep (xs ++ (sep ∷ ys)) ≡ some (xs, ys)
unfolding cut_at
cut_at-append sep [] ys h = ground arith
cut_at-append sep (x ∷ xs) ys h = ground (arith, cut_at-append sep xs ys)

-- The byte occurs in the text.
unfoldable pub has_byte : ℕ → Bytes → Bool
has_byte b [] = false
has_byte b (c ∷ cs) = c == b || has_byte b cs

-- `operator<` of `std::string`.
unfoldable pub bytes_lt : Bytes → Bytes → Bool
bytes_lt xs [] = false
bytes_lt [] (y ∷ ys) = true
bytes_lt (x ∷ xs) (y ∷ ys) = if x == y then bytes_lt xs ys else ltb x y

-- What a C function reads of the text: it stops at a zero byte.
unfoldable pub c_str : Bytes → Bytes
c_str [] = []
c_str (c ∷ cs) = let rest = c_str cs in if c == 0 then [] else c ∷ rest

pub c_str-id : (text : Bytes) → free_of 0 text ≡ true → c_str text ≡ text
unfolding c_str
c_str-id [] h = refl
c_str-id (c ∷ cs) h = ground (arith, c_str-id cs)

pub cut_at-none : (sep : ℕ) (text : Bytes) → cut_at sep text ≡ none → has_byte sep text ≡ false
unfolding cut_at has_byte
cut_at-none sep [] h = refl
cut_at-none sep (c ∷ cs) h = ground (arith, cut_at-none sep cs)

-- The code points of a literal.
abbrev pub codes : String → Bytes
codes String.[] = []
codes (String.◌∷◌ c s) = code c ∷ codes s

-- The lines that `std::getline` gives of a text, one after the other.
unfoldable pub lines : Bytes → List Bytes
lines [] = []
lines (c ∷ cs) =
    let rest = lines cs in
    if c == 10
    then [] ∷ rest
    else elim rest [ [] ↦ (c ∷ []) ∷ [] | line ∷ later ↦ (c ∷ line) ∷ later ]

pub free_of-append :
    (sep : ℕ) (xs ys : Bytes)
    → free_of sep xs ≡ true
    → free_of sep ys ≡ true
    → free_of sep (xs ++ ys) ≡ true
free_of-append sep [] ys h k = k
free_of-append sep (x ∷ xs) ys h k = ground (arith, free_of-append sep xs ys)

-- A line that holds no newline, in front of others.
pub lines-append :
    (line rest : Bytes) → free_of 10 line ≡ true → lines (line ++ 10 ∷ rest) ≡ line ∷ lines rest
unfolding lines
lines-append [] rest h = refl
lines-append (c ∷ cs) rest h = ground (arith, lines-append cs rest)

-- The parts of a text between the separators; there is one more than there are separators.
unfoldable pub split_on : ℕ → Bytes → List Bytes
split_on sep [] = [] ∷ []
split_on sep (c ∷ cs) =
    let rest = split_on sep cs in
    if c == sep
    then [] ∷ rest
    else elim rest [ [] ↦ (c ∷ []) ∷ [] | part ∷ parts ↦ (c ∷ part) ∷ parts ]

-- The parts, with the separator between any two of them.
unfoldable pub join : ℕ → List Bytes → Bytes
join sep [] = []
join sep (part ∷ parts) = elim parts [ [] ↦ part | next ∷ later ↦ part ++ (sep ∷ join sep parts) ]

pub split_on-append :
    (sep : ℕ) (part rest : Bytes)
    → free_of sep part ≡ true
    → split_on sep (part ++ (sep ∷ rest)) ≡ part ∷ split_on sep rest
unfolding split_on
split_on-append sep [] rest h = ground arith
split_on-append sep (c ∷ cs) rest h =
    let ih = split_on-append sep cs rest (ground arith) in ground (arith, ih)

pub split_on-free :
    (sep : ℕ) (part : Bytes) → free_of sep part ≡ true → split_on sep part ≡ part ∷ []
unfolding split_on
split_on-free sep [] h = refl
split_on-free sep (c ∷ cs) h = ground (arith, split_on-free sep cs)

-- Every part is without the byte.
abbrev pub AreFree : ℕ → List Bytes → Type 0
AreFree b [] = Unit
AreFree b (part ∷ parts) = (free_of b part ≡ true) × AreFree b parts

pub free_of-join :
    (b sep : ℕ) (parts : List Bytes)
    → (sep == b) ≡ false
    → AreFree b parts
    → free_of b (join sep parts) ≡ true
unfolding join
free_of-join b sep [] other h = refl
free_of-join b sep (part ∷ []) other h = h.0
free_of-join b sep (part ∷ next ∷ later) other h =
    let rest = free_of-join b sep (next ∷ later) other h.1 in
    free_of-append b part (sep ∷ join sep (next ∷ later)) h.0 (rw other rest)

-- Parts without the separator are read back from the joined text.
pub split_on-join :
    (sep : ℕ) (part : Bytes) (parts : List Bytes)
    → AreFree sep (part ∷ parts)
    → split_on sep (join sep (part ∷ parts)) ≡ part ∷ parts
unfolding join
split_on-join sep part [] h = split_on-free sep part h.0
split_on-join sep part (next ∷ later) h =
    split_on-append sep part (join sep (next ∷ later)) h.0
    ∙ ap (◌∷◌ part) (split_on-join sep next later h.1)
