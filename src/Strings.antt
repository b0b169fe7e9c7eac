-- ===== src/Strings.antt =====
-- What the program uses of Go's packages strings and strconv, over ASCII bytes.
pub mod Split
pub mod Cut
pub mod Sort
pub mod Decimal
use longhorn_instance_manage.Base.{
  ℕ, ℤ, pos, negsuc, zero, suc, ◌+◌, ◌-◌, ◌*◌, ◌/◌, ◌%◌, ◌^◌, Text, Bool, true, false, ◌&&◌, ◌||◌,
  Option, none, some, List, [], ◌∷◌, ◌++◌, ltb, leb, ◌==◌, if◌then◌else◌, pos_part, neg_part,
}

-- `strings.Split` at a separator of one byte.
abbrev pub put_front : ℕ → List Text → List Text
put_front c [] = (c ∷ []) ∷ []
put_front c (w ∷ ws) = (c ∷ w) ∷ ws

unfoldable pub split : ℕ → Text → List Text
split sep [] = [] ∷ []
split sep (c ∷ s) = let rest = split sep s in if c == sep then [] ∷ rest else put_front c rest

-- `strings.Join`.
unfoldable pub join : Text → List Text → Text
join sep [] = []
join sep (w ∷ []) = w
join sep (w ∷ v ∷ ws) = w ++ (sep ++ join sep (v ∷ ws))

-- `strings.Cut` at a separator of one byte; `none` where it does not occur.
abbrev cut_front : ℕ → Option (Text × Text) → Option (Text × Text)
cut_front c none = none
cut_front c (some (before, after)) = some (c ∷ before, after)

unfoldable pub cut : ℕ → Text → Option (Text × Text)
cut sep [] = none
cut sep (c ∷ s) = let rest = cut sep s in if c == sep then some ([], s) else cut_front c rest

-- `strings.HasPrefix` and `strings.TrimPrefix`, as one: what follows the prefix, if it is there.
unfoldable pub strip_prefix : Text → Text → Option Text
strip_prefix [] s = some s
strip_prefix (p ∷ ps) [] = none
strip_prefix (p ∷ ps) (c ∷ s) = let rest = strip_prefix ps s in if c == p then rest else none

abbrev pub or_text : Text → Option Text → Text
or_text s none = s
or_text s (some rest) = rest

unfoldable pub trim_prefix : Text → Text → Text
unfolding strip_prefix
trim_prefix prefix s = or_text s (strip_prefix prefix s)

-- The order of strings, by their bytes, and `sort.Strings`.
unfoldable pub text_leb : Text → Text → Bool
text_leb [] t = true
text_leb (c ∷ s) [] = false
text_leb (c ∷ s) (d ∷ t) = ltb c d || c == d && text_leb s t

unfoldable pub insert_sorted : Text → List Text → List Text
unfolding text_leb
insert_sorted x [] = x ∷ []
insert_sorted x (y ∷ ys) = if text_leb x y then x ∷ y ∷ ys else y ∷ insert_sorted x ys

unfoldable pub sort_texts : List Text → List Text
unfolding insert_sorted
sort_texts [] = []
sort_texts (x ∷ xs) = insert_sorted x (sort_texts xs)

abbrev is_space : ℕ → Bool
is_space c = c == 32 || leb 9 c && leb c 13

-- `strings.TrimSpace`.
unfoldable pub trim_left : Text → Text
trim_left [] = []
trim_left (c ∷ s) = let rest = trim_left s in if is_space c then rest else c ∷ s

-- What is left of a text behind which `tail` follows, once the spaces at the end are gone.
abbrev keep_right : ℕ → Text → Text
keep_right c [] = if is_space c then [] else c ∷ []
keep_right c (d ∷ s) = c ∷ d ∷ s

unfoldable pub trim_right : Text → Text
trim_right [] = []
trim_right (c ∷ s) = keep_right c (trim_right s)

unfoldable pub trim_space : Text → Text
unfolding trim_left trim_right
trim_space s = trim_right (trim_left s)

abbrev pub is_digit : ℕ → Bool
is_digit c = leb b'0' c && leb c b'9'

unfoldable pub digits_value : ℕ → Text → Option ℕ
digits_value n [] = some n
digits_value n (c ∷ s) =
    let rest = digits_value (n * 10 + (c - b'0')) s in if is_digit c then rest else none

abbrev pub max_int64 : ℕ
max_int64 = 2 ^ 63 - 1

-- An unsigned number of one or more digits.
unfoldable pub parse_digits : Text → Option ℕ
unfolding digits_value
parse_digits [] = none
parse_digits (c ∷ s) = digits_value 0 (c ∷ s)

abbrev positive : Option ℕ → Option ℤ
positive none = none
positive (some n) = if leb n max_int64 then some (pos n) else none

abbrev negate : ℕ → ℤ
negate zero = pos 0
negate (suc n) = negsuc n

abbrev negative : Option ℕ → Option ℤ
negative none = none
negative (some n) = if leb n (max_int64 + 1) then some (negate n) else none

-- `strconv.Atoi`; `none` is a syntax or range error.
unfoldable pub atoi : Text → Option ℤ
unfolding parse_digits
atoi [] = none
atoi (c ∷ s) =
    if c == b'-'
    then negative (parse_digits s)
    else if c == b'+'
    then positive (parse_digits s)
    else positive (parse_digits (c ∷ s))

-- The decimal digits of `n` in front of `out`; each round divides `n` by ten.
unfoldable pub emit : ℕ → ℕ → Text → Text
emit zero n out = out
emit (suc f) n out =
    let rest = emit f (n / 10) ((b'0' + n % 10) ∷ out) in if n == 0 then out else rest

unfoldable pub format : ℕ → Text
unfolding emit
format n = if n == 0 then b'0' ∷ [] else emit n n []

-- `strconv.Itoa`.
unfoldable pub itoa : ℤ → Text
unfolding format
itoa (pos n) = format n
itoa (negsuc n) = b'-' ∷ format (n + 1)
