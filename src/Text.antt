-- ===== src/Text.antt =====
-- The parts of Go's `strings` and `strconv` that the operator reads its settings with: TrimSpace,
-- Cut, CutSuffix and Atoi. A text is the list of its code points, which `codes` gives; a sign or a
-- digit is one byte, so the results are those of Go's byte-wise code.
pub mod Decimal
use Prim.Native.Char.{code}
use mathlib.Core.List.{reverse}
use frp_operator.Prelude.{
  ℕ, zero, suc, ◌+◌, ◌-◌, ◌*◌, ◌^◌, String, ◌≡◌, refl, Bool, ◌||◌, ◌&&◌, Option, none, some, List,
  [], ◌∷◌, leb, ltb, ◌==◌, nat_eq, if◌then◌else◌, false, true,
}
use frp_operator.Prelude.Int.{ℤ, pos, negsuc}

abbrev pub codes : String → List ℕ
codes (String.◌∷◌ ch text) = code ch ∷ codes text
codes String.[] = []

-- `<` on texts: Go compares bytes, which in UTF-8 are ordered as the code points are.
abbrev pub codes_ltb : List ℕ → List ℕ → Bool
codes_ltb cs [] = false
codes_ltb [] (d ∷ ds) = true
codes_ltb (c ∷ cs) (d ∷ ds) = let rest = codes_ltb cs ds in if c == d then rest else ltb c d

abbrev pub text_ltb : String → String → Bool
text_ltb a b = codes_ltb (codes a) (codes b)

-- `unicode.IsSpace`.
pub is_space : ℕ → Bool
is_space c =
    (leb 9 c && leb c 13)
    || c == 32
    || c == 0x85
    || c == 0xA0
    || c == 0x1680
    || (leb 0x2000 c && leb c 0x200a)
    || c == 0x2028
    || c == 0x2029
    || c == 0x202f
    || c == 0x205f
    || c == 0x3000

unfoldable pub trim_left : List ℕ → List ℕ
unfolding is_space
trim_left [] = []
trim_left (c ∷ cs) = if is_space c then trim_left cs else c ∷ cs

-- `strings.TrimSpace`.
unfoldable pub trim_space : List ℕ → List ℕ
unfolding trim_left
trim_space cs = reverse (trim_left (reverse (trim_left cs)))

abbrev prepend : ℕ → Option (List ℕ × List ℕ) → Option (List ℕ × List ℕ)
prepend c none = none
prepend c (some (before, after)) = some (c ∷ before, after)

-- `strings.Cut` at a one-byte separator: the text before and after the first one.
unfoldable pub cut : ℕ → List ℕ → Option (List ℕ × List ℕ)
cut sep [] = none
cut sep (c ∷ cs) = if c == sep then some ([], cs) else prepend c (cut sep cs)

-- `strings.CutSuffix` with a one-byte suffix: the text without it.
unfoldable pub cut_suffix : ℕ → List ℕ → Option (List ℕ)
cut_suffix suffix [] = none
cut_suffix suffix (c ∷ []) = if c == suffix then some [] else none
cut_suffix suffix (c ∷ d ∷ cs) = elim (cut_suffix suffix (d ∷ cs)) [
  | none ↦ none
  | some rest ↦ some (c ∷ rest)
]

abbrev is_digit : ℕ → Bool
is_digit c = leb b'0' c && leb c b'9'

-- The value of a run of decimal digits behind those that gave `acc`.
unfoldable pub digits_value : ℕ → List ℕ → Option ℕ
digits_value acc [] = some acc
digits_value acc (c ∷ cs) =
    let rest = digits_value (acc * 10 + (c - b'0')) cs in if is_digit c then rest else none

unfoldable pub unsigned : List ℕ → Option ℕ
unfolding digits_value
unsigned [] = none
unsigned (c ∷ cs) = digits_value 0 (c ∷ cs)

-- The range of a 64-bit `int`: -2^63 to 2^63 - 1.
abbrev positive : Option ℕ → Option ℤ
positive none = none
positive (some n) = if ltb n (2 ^ 63) then some (pos n) else none

abbrev negative : Option ℕ → Option ℤ
negative none = none
negative (some zero) = some (pos 0)
negative (some (suc n)) = if ltb n (2 ^ 63) then some (negsuc n) else none

-- `strconv.Atoi`; `none` is its error, for a syntax error and for a value out of range.
unfoldable pub atoi : List ℕ → Option ℤ
unfolding unsigned
atoi [] = none
atoi (c ∷ cs) =
    if c == b'-'
    then negative (unsigned cs)
    else if c == b'+'
    then positive (unsigned cs)
    else positive (unsigned (c ∷ cs))

atoi_signed : atoi (codes "-12") ≡ some (negsuc 11)
unfolding atoi
atoi_signed = refl

atoi_range : atoi (codes "9223372036854775808") ≡ none
unfolding atoi
atoi_range = refl

cut_range : cut b'-' (codes "80-90") ≡ some (codes "80", codes "90")
unfolding cut
cut_range = refl

trim_both : trim_space (codes " 80 ") ≡ codes "80"
unfolding trim_space
trim_both = refl
