-- ===== src/Common/Strings.antt =====
-- C strings as lists of bytes without the terminator, and the functions of ctype.h, string.h and
-- stdlib.h that the code calls on them. A byte past the end is the terminator.
use Prim.Native.Nat.{ℕ, zero, suc, ◌+◌, ◌-◌, ◌*◌, ◌/◌, ◌%◌, ◌^◌}
use Prim.Native.Char.{code}
use Prim.Native.String.{String}
use mathlib.Core.Bool.{Bool, true, false, ◌&&◌, ◌||◌}
use mathlib.Core.List.{List, [], ◌∷◌}
use mathlib.Core.Option.{Option, none, some}
use estros.Common.Tests.{leb, ltb, ◌==◌, if◌then◌else◌}
use estros.Common.Word.{u64}

-- The bytes of an ASCII text.
abbrev pub codes : String → List ℕ
codes String.[] = []
codes (String.◌∷◌ c s) = code c ∷ codes s

-- `p[i]`, for an index that does not pass the terminator.
abbrev pub char_at : List ℕ → ℕ → ℕ
char_at [] i = 0
char_at (c ∷ cs) zero = c
char_at (c ∷ cs) (suc i) = char_at cs i

unfoldable pub tail_of : List ℕ → List ℕ
tail_of [] = []
tail_of (c ∷ cs) = cs

unfoldable pub isspace : ℕ → Bool
isspace c = c == 32 || (leb 9 c && leb c 13)

unfoldable pub isdigit : ℕ → Bool
isdigit c = leb b'0' c && leb c b'9'

-- `while (isspace(*p)) ++p`.
unfoldable pub skip_space : List ℕ → List ℕ
unfolding isspace
skip_space [] = []
skip_space (c ∷ cs) = if isspace c then skip_space cs else c ∷ cs

-- `strcmp(a, b) == 0`.
unfoldable pub str_eq : List ℕ → List ℕ → Bool
str_eq [] [] = true
str_eq [] (b ∷ bs) = false
str_eq (a ∷ rest) [] = false
str_eq (a ∷ rest) (b ∷ bs) = a == b && str_eq rest bs

-- The bytes before the first that the test accepts, and those from it on: what strpbrk or strchr
-- finds, and the text that is left where a terminator is written there.
unfoldable pub before : (ℕ → Bool) → List ℕ → List ℕ
before test [] = []
before test (c ∷ cs) = let rest = before test cs in if test c then [] else c ∷ rest

unfoldable pub from : (ℕ → Bool) → List ℕ → Option (List ℕ)
from test [] = none
from test (c ∷ cs) = let rest = from test cs in if test c then some (c ∷ cs) else rest

-- The number that the digits at the beginning spell.
unfoldable pub digits_value : List ℕ → (acc : ℕ) → ℕ
unfolding isdigit
digits_value [] acc = acc
digits_value (c ∷ cs) acc =
    let rest = digits_value cs (acc * 10 + (c - b'0')) in if isdigit c then rest else acc

-- The nearest number of the type `long long`, as a pattern of 64 bits.
abbrev positive : ℕ → ℕ
positive value = if ltb value (2 ^ 63) then value else 2 ^ 63 - 1

abbrev negative : ℕ → ℕ
negative value = if ltb value (2 ^ 63) then u64 (2 ^ 64 - value) else 2 ^ 63

unfoldable pub signed_value : List ℕ → ℕ
unfolding digits_value
signed_value [] = 0
signed_value (c ∷ cs) =
    if c == b'-'
    then negative (digits_value cs 0)
    else if c == b'+'
    then positive (digits_value cs 0)
    else positive (digits_value (c ∷ cs) 0)

-- The number that `p` spells, without its sign.
unfoldable pub unsigned_value : List ℕ → ℕ
unfolding digits_value
unsigned_value [] = 0
unsigned_value (c ∷ cs) =
    if c == b'-' || c == b'+' then digits_value cs 0 else digits_value (c ∷ cs) 0

-- Where C defines `atoll(p)`, but for the least number of the type.
unfoldable pub is_in_range : List ℕ → Bool
unfolding unsigned_value skip_space
is_in_range p = ltb (unsigned_value (skip_space p)) (2 ^ 63)

-- `atoll(p)`, as a pattern of 64 bits. Of a number out of range, whose result C does not define, it
-- is what glibc gives, the nearest number in range.
unfoldable pub atoll : List ℕ → ℕ
unfolding signed_value skip_space
atoll p = signed_value (skip_space p)

-- The digits that `%u` and `%x` print.
abbrev pub digit : ℕ → ℕ
digit d = if ltb d 10 then b'0' + d else b'a' + (d - 10)

-- `%u`, in front of a text, for a number of at most `left` digits.
unfoldable pub decimal_text : (left value : ℕ) → (later : List ℕ) → List ℕ
decimal_text zero value later = later
decimal_text (suc left) value later =
    let rest = decimal_text left (value / 10) (digit (value % 10) ∷ later) in
    if ltb value 10 then digit value ∷ later else rest
