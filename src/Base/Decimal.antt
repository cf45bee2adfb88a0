-- ===== src/Base/Decimal.antt =====
-- `std::to_string` of an unsigned number, and `std::stoul`: blanks, a sign, decimal digits, and
-- whatever follows them is left unread.
use Prim.Native.Nat.{ℕ, zero, suc, ◌+◌, ◌-◌, ◌*◌, ◌/◌, ◌%◌, ◌^◌, ◌<◌}
use mathlib.Core.Path.{◌≡◌, refl, ◌∙◌}
use mathlib.Core.Bool.{Bool, true, false, ◌&&◌, ◌||◌}
use mathlib.Core.List.{[], ◌∷◌, ◌++◌}
use native.Mathlib.Omega.{arith}
use package.asnprefix_map.Base.Tests.{ltb, leb, nat_beq, if◌then◌else◌}
use package.asnprefix_map.Base.Lists.{Bytes}
use package.asnprefix_map.Base.Text.{free_of}
use package.asnprefix_map.Base.Errors.{Result, ok, err, invalid_argument, out_of_range}

abbrev pub is_digit : ℕ → Bool
is_digit c = leb b'0' c && leb c b'9'

-- `std::isspace` in the C locale.
abbrev pub is_space : ℕ → Bool
is_space c = nat_beq c 32 || (leb 9 c && leb c 13)

-- The digits of `n` in front of `acc`; one round for each digit.
unfoldable pub print_digits : ℕ → ℕ → Bytes → Bytes
print_digits zero n acc = acc
print_digits (suc fuel) n acc =
    let c = 48 + n % 10 in
    let rest = print_digits fuel (n / 10) (c ∷ acc) in if ltb n 10 then c ∷ acc else rest

unfoldable pub to_string : ℕ → Bytes
to_string n = print_digits (suc n) n []

-- The digits at the front, read into `acc`.
unfoldable pub read_digits : ℕ → Bytes → ℕ
read_digits acc [] = acc
read_digits acc (c ∷ cs) =
    let rest = read_digits (acc * 10 + (c - 48)) cs in if is_digit c then rest else acc

abbrev pub starts_with_digit : Bytes → Bool
starts_with_digit [] = false
starts_with_digit (c ∷ cs) = is_digit c

unfoldable pub skip_spaces : Bytes → Bytes
skip_spaces [] = []
skip_spaces (c ∷ cs) = let rest = skip_spaces cs in if is_space c then rest else c ∷ cs

-- A `-` negates modulo 2^64, as `strtoul` does.
unfoldable pub read_number : Bool → Bytes → Result ℕ
read_number negative text =
    let n = read_digits 0 text in
    if starts_with_digit text
    then (if ltb n (2 ^ 64)
        then ok (if negative then (2 ^ 64 - n) % 2 ^ 64 else n)
        else err out_of_range)
    else err invalid_argument

unfoldable pub read_signed : Bytes → Result ℕ
read_signed [] = err invalid_argument
read_signed (c ∷ cs) =
    if nat_beq c b'-'
    then read_number true cs
    else if nat_beq c b'+'
    then read_number false cs
    else read_number false (c ∷ cs)

unfoldable pub stoul : Bytes → Result ℕ
stoul text = read_signed (skip_spaces text)

stoul_blank : stoul (32 ∷ b'4' ∷ b'2' ∷ b'x' ∷ []) ≡ ok 42
unfolding stoul skip_spaces read_signed read_number read_digits
stoul_blank = refl

-- A text that does not go on with a digit.
abbrev pub StopsAt : Bytes → Type 0
StopsAt text = starts_with_digit text ≡ false

read_digits-digit :
    (a d : ℕ) (rest : Bytes)
    → d < 10
    → read_digits a ((48 + d) ∷ rest) ≡ read_digits (a * 10 + d) rest
unfolding read_digits
read_digits-digit a d rest h =
    let digit : is_digit (48 + d) ≡ true = ground arith in
    let value : 48 + d - 48 ≡ d = omega arith in rw (digit, value)

-- Reading resumes with the value `n` where the digits of `n` end.
read_digits-print :
    (fuel n : ℕ) (rest : Bytes)
    → n < fuel
    → (read_digits 0 (print_digits fuel n rest) ≡ read_digits n rest)
      × (starts_with_digit (print_digits fuel n rest) ≡ true)
unfolding print_digits
read_digits-print zero n rest h = absurd (omega arith)
read_digits-print (suc fuel) n rest h =
    let c = 48 + n % 10 in
    let ih = read_digits-print fuel (n / 10) (c ∷ rest) in
    ground (arith, ih, read_digits-digit 0 (n % 10) rest, read_digits-digit (n / 10) (n % 10) rest)

-- A printed number begins with a digit.
pub to_string-starts : (n : ℕ) → starts_with_digit (to_string n) ≡ true
unfolding to_string
to_string-starts n = (read_digits-print (suc n) n [] (omega arith)).1

print_digits-free :
    (sep fuel n : ℕ) (acc : Bytes)
    → is_digit sep ≡ false
    → free_of sep acc ≡ true
    → free_of sep (print_digits fuel n acc) ≡ true
unfolding print_digits
print_digits-free sep zero n acc h k = k
print_digits-free sep (suc fuel) n acc h k =
    ground (arith, print_digits-free sep fuel (n / 10) ((48 + n % 10) ∷ acc) h)

-- What is no digit does not occur in a printed number.
pub to_string-free : (sep n : ℕ) → is_digit sep ≡ false → free_of sep (to_string n) ≡ true
unfolding to_string
to_string-free sep n h = print_digits-free sep (suc n) n [] h refl

print_digits-append :
    (fuel n : ℕ) (acc rest : Bytes)
    → print_digits fuel n acc ++ rest ≡ print_digits fuel n (acc ++ rest)
unfolding print_digits
print_digits-append zero n acc rest = refl
print_digits-append (suc fuel) n acc rest =
    ground (arith, print_digits-append fuel (n / 10) ((48 + n % 10) ∷ acc) rest)

read_digits-stop : (n : ℕ) (rest : Bytes) → StopsAt rest → read_digits n rest ≡ n
unfolding read_digits
read_digits-stop n [] h = refl
read_digits-stop n (c ∷ rest) h = rw h

stoul-digits :
    (text : Bytes) (n : ℕ)
    → starts_with_digit text ≡ true
    → read_digits 0 text ≡ n
    → n < 2 ^ 64
    → stoul text ≡ ok n
unfolding stoul skip_spaces read_signed read_number
stoul-digits [] n h e small = ground arith
stoul-digits (c ∷ cs) n h e small = ground arith

-- A printed number is read back, whatever text without a leading digit follows it.
pub stoul-to_string :
    (n : ℕ) (rest : Bytes) → n < 2 ^ 64 → StopsAt rest → stoul (to_string n ++ rest) ≡ ok n
unfolding to_string
stoul-to_string n rest small stop =
    let read = read_digits-print (suc n) n rest (omega arith) in
    rw (print_digits-append (suc n) n [] rest)
      (stoul-digits _ n read.1 (read.0 ∙ read_digits-stop n rest stop) small)
