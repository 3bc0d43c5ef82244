-- ===== src/Varify/Digits.antt =====
-- `code.toString().padStart(6, "0")` of server/varify_server/server.js.
use Prim.Native.Char.{Char, code}
use Prim.Native.String.{count, char_at}
use text.Mathlib.TextLemmas.{length-cons, length-nil}
use qt_chatting.Prelude.{
  ℕ, zero, suc, ◌+◌, ◌-◌, ◌*◌, ◌/◌, ◌%◌, ◌≤◌, ◌<◌, ◌≡◌, refl, ap, ◌∙◌, String, if◌then◌else◌, arith,
  inl, inr, true, ltb, ltb-cases,
}

digit : ℕ → Char
digit = char_at "0123456789"

-- The digits of `n` in front of `rest`.
digits : ℕ → ℕ → String → String
unfolding digit
digits zero n rest = String.◌∷◌ (digit (n % 10)) rest
digits (suc fuel) n rest =
    let more = digits fuel (n / 10) (String.◌∷◌ (digit (n % 10)) rest) in
    if ltb n 10 then String.◌∷◌ (digit n) rest else more

-- toString of a number that is a natural: it has fewer digits than its value counts.
pub to_string : ℕ → String
unfolding digits
to_string n = digits n n String.[]

-- `k` zeros in front of a text.
zeros : ℕ → String → String
zeros zero s = s
zeros (suc k) s = String.◌∷◌ "0" (zeros k s)

pub pad_start : ℕ → String → String
unfolding zeros
pad_start width s = zeros (width - count s) s

unfoldable pub padded : ℕ → String
unfolding pad_start to_string
padded k = pad_start 6 (to_string k)

-- The number that decimal digits stand for, behind the digits of `acc`.
abbrev pub value : ℕ → String → ℕ
value acc String.[] = acc
value acc (String.◌∷◌ c s) = value (10 * acc + (code c - 48)) s

-- '0' to '9'
abbrev pub IsDigit : Char → Type 0
IsDigit c = (48 ≤ code c) × (code c < 58)

abbrev pub AllDigits : String → Type 0
AllDigits String.[] = Unit
AllDigits (String.◌∷◌ c s) = IsDigit c × AllDigits s

padded_42 : padded 42 ≡ "000042"
unfolding padded
padded_42 = refl

value-digit : (n : ℕ) → n < 10 → code (digit n) - 48 ≡ n
unfolding digit
value-digit zero h = refl
value-digit (suc zero) h = refl
value-digit (suc (suc zero)) h = refl
value-digit (suc (suc (suc zero))) h = refl
value-digit (suc (suc (suc (suc zero)))) h = refl
value-digit (suc (suc (suc (suc (suc zero))))) h = refl
value-digit (suc (suc (suc (suc (suc (suc zero)))))) h = refl
value-digit (suc (suc (suc (suc (suc (suc (suc zero))))))) h = refl
value-digit (suc (suc (suc (suc (suc (suc (suc (suc zero)))))))) h = refl
value-digit (suc (suc (suc (suc (suc (suc (suc (suc (suc zero))))))))) h = refl
value-digit (suc (suc (suc (suc (suc (suc (suc (suc (suc (suc n)))))))))) h = absurd (omega arith)

value-cons :
    (acc n : ℕ) (rest : String)
    → n < 10
    → value acc (String.◌∷◌ (digit n) rest) ≡ value (10 * acc + n) rest
value-cons acc n rest h = ap (λ d. value (10 * acc + d) rest) (value-digit n h)

value-digits : (fuel n : ℕ) (rest : String) → n ≤ fuel → value 0 (digits fuel n rest) ≡ value n rest
unfolding digits
value-digits zero n rest h =
    value-cons 0 (n % 10) rest (omega arith) ∙ ap (λ d. value d rest) (omega arith)
value-digits (suc fuel) n rest h = elim (ltb-cases n 10) [
  | inl (small, t) ↦ rw t (value-cons 0 n rest small ∙ ap (λ d. value d rest) (omega arith))
  | inr (large, t) ↦ rw t (
      value-digits fuel (n / 10) (String.◌∷◌ (digit (n % 10)) rest) (omega arith)
      ∙ value-cons (n / 10) (n % 10) rest (omega arith)
      ∙ ap (λ d. value d rest) (omega arith))
]

value-zeros : (k : ℕ) (s : String) → value 0 (zeros k s) ≡ value 0 s
unfolding zeros
value-zeros zero s = refl
value-zeros (suc k) s = value-zeros k s

-- 10 ^ k, for `omega` to read.
abbrev ten_to : ℕ → ℕ
ten_to zero = 1
ten_to (suc k) = 10 * ten_to k

count-digits :
    (fuel n k : ℕ) (rest : String)
    → n ≤ fuel
    → n < ten_to (suc k)
    → count (digits fuel n rest) ≤ suc k + count rest
unfolding digits
count-digits zero n k rest h b = omega (arith, length-cons (digit (n % 10)) rest)
count-digits (suc fuel) n zero rest h b =
    let small : ltb n 10 ≡ true = ground arith in
    rw small (omega (arith, length-cons (digit n) rest))
count-digits (suc fuel) n (suc k) rest h b = elim (ltb-cases n 10) [
  | inl (small, t) ↦ rw t (omega (arith, length-cons (digit n) rest))
  | inr (large, t) ↦
      let more = String.◌∷◌ (digit (n % 10)) rest in
      rw t (
        omega (
          arith,
          length-cons (digit (n % 10)) rest,
          count-digits fuel (n / 10) k more (omega arith) (omega arith),
        ))
]

count-zeros : (k : ℕ) (s : String) → count (zeros k s) ≡ k + count s
unfolding zeros
count-zeros zero s = omega arith
count-zeros (suc k) s = omega (arith, length-cons "0" (zeros k s), count-zeros k s)

-- The text that is mailed stands for the number that was drawn.
pub value-padded : (k : ℕ) → value 0 (padded k) ≡ k
unfolding padded to_string pad_start
value-padded k =
    value-zeros (6 - count (to_string k)) (to_string k) ∙ value-digits k k String.[] (omega arith)

digit-IsDigit : (n : ℕ) → n < 10 → IsDigit (digit n)
unfolding digit
digit-IsDigit zero h = (omega arith, omega arith)
digit-IsDigit (suc zero) h = (omega arith, omega arith)
digit-IsDigit (suc (suc zero)) h = (omega arith, omega arith)
digit-IsDigit (suc (suc (suc zero))) h = (omega arith, omega arith)
digit-IsDigit (suc (suc (suc (suc zero)))) h = (omega arith, omega arith)
digit-IsDigit (suc (suc (suc (suc (suc zero))))) h = (omega arith, omega arith)
digit-IsDigit (suc (suc (suc (suc (suc (suc zero)))))) h = (omega arith, omega arith)
digit-IsDigit (suc (suc (suc (suc (suc (suc (suc zero))))))) h = (omega arith, omega arith)
digit-IsDigit (suc (suc (suc (suc (suc (suc (suc (suc zero)))))))) h = (omega arith, omega arith)
digit-IsDigit (suc (suc (suc (suc (suc (suc (suc (suc (suc zero))))))))) h =
    (omega arith, omega arith)
digit-IsDigit (suc (suc (suc (suc (suc (suc (suc (suc (suc (suc n)))))))))) h = absurd (omega arith)

digits-AllDigits : (fuel n : ℕ) (rest : String) → AllDigits rest → AllDigits (digits fuel n rest)
unfolding digits
digits-AllDigits zero n rest ds = (digit-IsDigit (n % 10) (omega arith), ds)
digits-AllDigits (suc fuel) n rest ds = elim (ltb-cases n 10) [
  | inl (small, t) ↦ rw t (digit-IsDigit n small, ds)
  | inr (large, t) ↦ rw t (
      digits-AllDigits fuel (n / 10) (String.◌∷◌ (digit (n % 10)) rest)
        (digit-IsDigit (n % 10) (omega arith), ds))
]

zeros-AllDigits : (k : ℕ) (s : String) → AllDigits s → AllDigits (zeros k s)
unfolding zeros
zeros-AllDigits zero s ds = ds
zeros-AllDigits (suc k) s ds = ((omega arith, omega arith), zeros-AllDigits k s ds)

-- A code below 1000000 is written as six characters from 0 to 9, and reading them as a decimal
-- number gives the code back.
pub padded-value :
    (k : ℕ) → k < 1000000 → (count (padded k) ≡ 6) × AllDigits (padded k) × (value 0 (padded k) ≡ k)
unfolding padded to_string pad_start
padded-value k small =
    let short = count-digits k k 5 String.[] (omega arith) small in
    (
      omega (arith, short, length-nil, count-zeros (6 - count (to_string k)) (to_string k)),
      zeros-AllDigits (6 - count (to_string k)) (to_string k) (digits-AllDigits k k String.[] tt),
      value-padded k,
    )
