-- ===== src/Text/Decimal.antt =====
-- `strconv.Itoa` for numbers that are not negative, and that `Atoi` reads it back.
use Prim.Native.Char.{Char, code}
use frp_operator.Prelude.{
  ℕ, zero, suc, ◌+◌, ◌-◌, ◌*◌, ◌/◌, ◌%◌, ◌^◌, ◌<◌, ◌≤◌, String, ◌≡◌, refl, sym, ap, ◌∙◌, inl, inr,
  true, false, ◌&&◌, some, List, [], ◌∷◌, arith, leb, ltb, ◌==◌, nat_eq, Bool-cases, if◌then◌else◌,
}
use frp_operator.Prelude.Int.{pos}
use frp_operator.Text.{codes, digits_value, unsigned, positive, atoi}

abbrev pub digit : ℕ → Char
digit zero = "0"
digit (suc zero) = "1"
digit (suc (suc zero)) = "2"
digit (suc (suc (suc zero))) = "3"
digit (suc (suc (suc (suc zero)))) = "4"
digit (suc (suc (suc (suc (suc zero))))) = "5"
digit (suc (suc (suc (suc (suc (suc zero)))))) = "6"
digit (suc (suc (suc (suc (suc (suc (suc zero))))))) = "7"
digit (suc (suc (suc (suc (suc (suc (suc (suc zero)))))))) = "8"
digit _ = "9"

-- The digits of a number before a text; the fuel is more than the number.
unfoldable pub digits_before : ℕ → ℕ → String → String
digits_before zero n text = text
digits_before (suc fuel) n text =
    let more = digits_before fuel (n / 10) (String.◌∷◌ (digit (n % 10)) text) in
    if ltb n 10 then String.◌∷◌ (digit n) text else more

-- `strconv.Itoa`.
unfoldable pub itoa : ℕ → String
itoa n = digits_before (suc n) n String.[]

code-digit : (k : ℕ) → k < 10 → code (digit k) ≡ b'0' + k
code-digit zero h = refl
code-digit (suc zero) h = refl
code-digit (suc (suc zero)) h = refl
code-digit (suc (suc (suc zero))) h = refl
code-digit (suc (suc (suc (suc zero)))) h = refl
code-digit (suc (suc (suc (suc (suc zero))))) h = refl
code-digit (suc (suc (suc (suc (suc (suc zero)))))) h = refl
code-digit (suc (suc (suc (suc (suc (suc (suc zero))))))) h = refl
code-digit (suc (suc (suc (suc (suc (suc (suc (suc zero)))))))) h = refl
code-digit (suc (suc (suc (suc (suc (suc (suc (suc (suc zero))))))))) h = refl
code-digit (suc (suc (suc (suc (suc (suc (suc (suc (suc (suc k)))))))))) h =
    absurd (omega (arith, h))

digits_value-digit :
    (k acc : ℕ) (cs : List ℕ)
    → k < 10
    → digits_value acc (code (digit k) ∷ cs) ≡ digits_value (acc * 10 + k) cs
unfolding digits_value
digits_value-digit k acc cs h =
    let c = code-digit k h in
    let is : (leb b'0' (code (digit k)) && leb (code (digit k)) b'9') ≡ true =
      ground (arith, c, h) in
    let shift : acc * 10 + (code (digit k) - b'0') ≡ acc * 10 + k = ground (arith, c) in
    rw is (ap (λ (v : ℕ). digits_value v cs) shift)

digits_value-digits_before :
    (fuel n : ℕ) (text : String)
    → n < fuel
    → digits_value 0 (codes (digits_before fuel n text)) ≡ digits_value n (codes text)
unfolding digits_before
digits_value-digits_before zero n text h = absurd (omega (arith, h))
digits_value-digits_before (suc fuel) n text h = elim (Bool-cases (ltb n 10)) [
  | inl short ↦ rw short (
      digits_value-digit n 0 (codes text) (ground (arith, short))
      ∙ ap (λ (v : ℕ). digits_value v (codes text)) (omega arith))
  | inr long ↦
      let big : 10 ≤ n = ground (arith, long) in
      let rest = String.◌∷◌ (digit (n % 10)) text in
      let ih = digits_value-digits_before fuel (n / 10) rest (omega (arith, h, big)) in
      rw long (
        ih
        ∙ digits_value-digit (n % 10) (n / 10) (codes text) (omega arith)
        ∙ ap (λ (v : ℕ). digits_value v (codes text)) (omega arith))
]

digits_none : (n : ℕ) → digits_value n [] ≡ some n
unfolding digits_value
digits_none n = refl

abbrev FirstDigit : List ℕ → Type 0
FirstDigit cs = (k : ℕ) × (rest : List ℕ) × (k < 10) × (cs ≡ (b'0' + k) ∷ rest)

digits_before-FirstDigit :
    (fuel n : ℕ) (text : String) → n < fuel → FirstDigit (codes (digits_before fuel n text))
unfolding digits_before
digits_before-FirstDigit zero n text h = absurd (omega (arith, h))
digits_before-FirstDigit (suc fuel) n text h = elim (Bool-cases (ltb n 10)) [
  | inl short ↦
      let small : n < 10 = ground (arith, short) in
      rw short (n, codes text, small, ap (λ (c : ℕ). c ∷ codes text) (code-digit n small))
  | inr long ↦
      let big : 10 ≤ n = ground (arith, long) in
      rw long (
        digits_before-FirstDigit fuel (n / 10) (String.◌∷◌ (digit (n % 10)) text)
          (omega (arith, h, big)))
]

atoi_of_digits :
    (cs : List ℕ) (n : ℕ)
    → FirstDigit cs
    → digits_value 0 cs ≡ some n
    → n < 2 ^ 63
    → atoi cs ≡ some (pos n)
unfolding atoi unsigned
atoi_of_digits cs n (k, rest, small, e) value range =
    let value' : digits_value 0 ((b'0' + k) ∷ rest) ≡ some n =
      sym (ap (digits_value 0) e) ∙ value in
    let minus : ((b'0' + k) == b'-') ≡ false = ground arith in
    let plus : ((b'0' + k) == b'+') ≡ false = ground arith in
    let fits : ltb n (2 ^ 63) ≡ true = ground (arith, range) in
    ap atoi e ∙ rw (minus, plus) (ap positive value' ∙ rw fits refl)

-- `Atoi` reads back what `Itoa` writes, for every number of an `int` that is not negative.
pub atoi-itoa : (n : ℕ) → n < 2 ^ 63 → atoi (codes (itoa n)) ≡ some (pos n)
unfolding itoa
atoi-itoa n range =
    atoi_of_digits (codes (digits_before (suc n) n String.[])) n
      (digits_before-FirstDigit (suc n) n String.[] (omega arith))
      (digits_value-digits_before (suc n) n String.[] (omega arith) ∙ digits_none n) range

itoa_test : itoa 1203 ≡ "1203"
unfolding itoa digits_before
itoa_test = refl
