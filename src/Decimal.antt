-- ===== src/Decimal.antt =====
-- Decimal numerals: `String(n)` of a natural number and `Number.parseInt(s, 10)`, as the language
-- defines them. No code of the repository is here.
use Prim.Native.Nat.{◌/◌, ◌%◌}
use Prim.Native.Char.{Char, code}
use smolpaws.Base.{
  ℕ, zero, suc, ◌+◌, ◌-◌, ◌*◌, ◌<◌, ◌≡◌, refl, ◌∙◌, String, Bool, true, false, ◌&&◌, Option, none,
  some, arith, ltb, leb, leb→le, &&-left, &&-right, ap, sym, ◌≤◌, ◌=?◌, if◌then◌else◌, Bool-cases,
  inl, inr,
}
use smolpaws.Text.{is_white_space, trim_start}

digit_char : ℕ → Char
digit_char zero = "0"
digit_char (suc zero) = "1"
digit_char (suc (suc zero)) = "2"
digit_char (suc (suc (suc zero))) = "3"
digit_char (suc (suc (suc (suc zero)))) = "4"
digit_char (suc (suc (suc (suc (suc zero))))) = "5"
digit_char (suc (suc (suc (suc (suc (suc zero)))))) = "6"
digit_char (suc (suc (suc (suc (suc (suc (suc zero))))))) = "7"
digit_char (suc (suc (suc (suc (suc (suc (suc (suc zero)))))))) = "8"
digit_char (suc (suc (suc (suc (suc (suc (suc (suc (suc n))))))))) = "9"

-- The digits of a number in front of those given, the fuel one more than the number.
digits_before : ℕ → ℕ → String → String
unfolding digit_char
digits_before zero n acc = acc
digits_before (suc f) n acc =
    let last = String.◌∷◌ (digit_char n) acc in
    let more = digits_before f (n / 10) (String.◌∷◌ (digit_char (n % 10)) acc) in
    if ltb n 10 then last else more

unfoldable pub decimal : ℕ → String
unfolding digits_before
decimal n = digits_before (suc n) n ""

is_digit : Char → Bool
is_digit c = leb 48 (code c) && leb (code c) 57

-- The digits that the text begins with, read onto a value.
read_digits : ℕ → String → ℕ
unfolding is_digit
read_digits v String.[] = v
read_digits v (String.◌∷◌ c s) =
    let rest = read_digits (v * 10 + (code c - 48)) s in if is_digit c then rest else v

starts_with_digit : String → Bool
unfolding is_digit
starts_with_digit String.[] = false
starts_with_digit (String.◌∷◌ c s) = is_digit c

unsigned : String → Option ℕ
unfolding starts_with_digit read_digits
unsigned s = if starts_with_digit s then some (read_digits 0 s) else none

-- The sign, true for a minus, and the number; `none` is NaN.
signed : String → Option (Bool × ℕ)
unfolding unsigned
signed String.[] = none
signed (String.◌∷◌ c s) =
    if code c =? 45
    then elim (unsigned s) [ none ↦ none | some n ↦ some (true, n) ]
    else elim (unsigned (if code c =? 43 then s else String.◌∷◌ c s)) [
      | none ↦ none
      | some n ↦ some (false, n)
    ]

unfoldable pub parse_int : String → Option (Bool × ℕ)
unfolding signed trim_start
parse_int s = signed (trim_start s)

code-digit_char : (d : ℕ) → d < 10 → code (digit_char d) ≡ 48 + d
unfolding digit_char
code-digit_char zero h = refl
code-digit_char (suc zero) h = refl
code-digit_char (suc (suc zero)) h = refl
code-digit_char (suc (suc (suc zero))) h = refl
code-digit_char (suc (suc (suc (suc zero)))) h = refl
code-digit_char (suc (suc (suc (suc (suc zero))))) h = refl
code-digit_char (suc (suc (suc (suc (suc (suc zero)))))) h = refl
code-digit_char (suc (suc (suc (suc (suc (suc (suc zero))))))) h = refl
code-digit_char (suc (suc (suc (suc (suc (suc (suc (suc zero)))))))) h = refl
code-digit_char (suc (suc (suc (suc (suc (suc (suc (suc (suc zero))))))))) h = refl
code-digit_char (suc (suc (suc (suc (suc (suc (suc (suc (suc (suc n)))))))))) h =
    absurd (omega arith)

is_digit-digit_char : (d : ℕ) → d < 10 → is_digit (digit_char d) ≡ true
unfolding is_digit
is_digit-digit_char d h = ground (arith, code-digit_char d h)

-- What is read from the digits of a number, and after them from what follows.
read-digits_before :
    (f n : ℕ) (acc : String) → n < f → read_digits 0 (digits_before f n acc) ≡ read_digits n acc
unfolding digits_before read_digits
read-digits_before zero n acc h = absurd (omega arith)
read-digits_before (suc f) n acc h = elim (Bool-cases (ltb n 10)) [
  | inl small ↦ rw (small, digits_before) (ground (arith, one_digit n acc))
  | inr large ↦
      rw (large, digits_before)
        (read-digits_before f (n / 10) (String.◌∷◌ (digit_char (n % 10)) acc) (ground arith)
          ∙ next_digit (n / 10) (n % 10) n acc (omega arith) (omega arith))
]
  where
    next_digit :
        (v d n : ℕ) (acc : String)
        → d < 10
        → v * 10 + d ≡ n
        → read_digits v (String.◌∷◌ (digit_char d) acc) ≡ read_digits n acc
    next_digit v d n acc h e =
        let value : v * 10 + (code (digit_char d) - 48) ≡ n = omega (arith, code-digit_char d h) in
        rw (is_digit-digit_char d h, read_digits, value) refl

    one_digit :
        (n : ℕ) (acc : String)
        → n < 10
        → read_digits 0 (String.◌∷◌ (digit_char n) acc) ≡ read_digits n acc
    one_digit n acc h = next_digit 0 n n acc h (omega arith)

digits_head :
    (f n : ℕ) (acc : String)
    → n < f
    → (c : Char) × (s : String) × (is_digit c ≡ true) × (digits_before f n acc ≡ String.◌∷◌ c s)
unfolding digits_before
digits_head zero n acc h = absurd (omega arith)
digits_head (suc f) n acc h = elim (Bool-cases (ltb n 10)) [
  | inl small ↦
      (digit_char n, acc, is_digit-digit_char n (ground arith), rw (small, digits_before) refl)
  | inr large ↦
      let (c, s, d, e) =
        digits_head f (n / 10) (String.◌∷◌ (digit_char (n % 10)) acc) (ground arith) in
      (c, s, d, rw (large, digits_before) e)
]

digit_code : (c : Char) → is_digit c ≡ true → (48 ≤ code c) × (code c ≤ 57)
unfolding is_digit
digit_code c h = (leb→le _ _ (&&-left _ _ h), leb→le _ _ (&&-right _ _ h))

digit_is_black : (n : ℕ) → 48 ≤ n → n ≤ 57 → is_white_space n ≡ false
unfolding is_white_space
digit_is_black n l h = ground arith

parse-digit :
    (c : Char) (s : String)
    → is_digit c ≡ true
    → parse_int (String.◌∷◌ c s) ≡ some (false, read_digits 0 (String.◌∷◌ c s))
unfolding trim_start starts_with_digit
parse-digit c s h =
    let (l, u) = digit_code c h in
    let black : is_white_space (code c) ≡ false = digit_is_black (code c) l u in
    let minus : (code c =? 45) ≡ false = ground arith in
    let plus : (code c =? 43) ≡ false = ground arith in
    unfold parse_int signed unsigned in
    rw (black, trim_start, minus, signed, plus, unsigned, h, starts_with_digit) refl

-- A number that was printed is read back.
pub parse_int-decimal : (n : ℕ) → parse_int (decimal n) ≡ some (false, n)
unfolding decimal read_digits
parse_int-decimal n =
    let (c, s, d, e) = digits_head (suc n) n "" (omega arith) in
    let value : read_digits 0 (String.◌∷◌ c s) ≡ n =
      ap (read_digits 0) (sym e) ∙ read-digits_before (suc n) n "" (omega arith) in
    rw e (parse-digit c s d ∙ ap (λ v. some (false, v)) value)
