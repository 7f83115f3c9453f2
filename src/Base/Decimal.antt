-- ===== src/Base/Decimal.antt =====
-- Go's `strconv.Itoa`, on numbers from 0 on, and `strconv.Atoi`, of a 64-bit `int`.
use Prim.Native.Nat.{ℕ, zero, suc, ◌+◌, ◌-◌, ◌*◌, ◌/◌, ◌%◌, ◌^◌, ◌≤◌, ◌<◌}
use Prim.Native.Char.{Char, code}
use Prim.Native.String.{String, ◌++◌}
use Prim.Native.String.append
use mathlib.Core.Path.{◌≡◌, refl, sym, ap, ◌∙◌, subst}
use mathlib.Core.Logic.{inl, inr}
use mathlib.Core.Bool.{true, false, ◌&&◌}
use mathlib.Core.Option.{Option, none, some}
use native.Mathlib.Omega.{arith}
use herdr_tabline.Base.Equality.{◌==◌, nat_eq, string_eq, leb, if◌then◌else◌, Bool-cases}
use herdr_tabline.Base.Int.{ℤ, pos, negsuc}
use herdr_tabline.Base.Text.{is_space, trim_left, trim_right, trim_space}

abbrev pub max_int : ℕ
max_int = 2 ^ 63 - 1

digit : ℕ → Char
digit zero = "0"
digit (suc zero) = "1"
digit (suc (suc zero)) = "2"
digit (suc (suc (suc zero))) = "3"
digit (suc (suc (suc (suc zero)))) = "4"
digit (suc (suc (suc (suc (suc zero))))) = "5"
digit (suc (suc (suc (suc (suc (suc zero)))))) = "6"
digit (suc (suc (suc (suc (suc (suc (suc zero))))))) = "7"
digit (suc (suc (suc (suc (suc (suc (suc (suc zero)))))))) = "8"
digit (suc (suc (suc (suc (suc (suc (suc (suc (suc n))))))))) = "9"

-- The digits of a number before those of a text, on fuel: a round divides by ten.
digits : ℕ → ℕ → String → String
digits zero n out = out
digits (suc f) n out =
    let more = digits f (n / 10) (String.◌∷◌ (digit (n % 10)) out) in if n == 0 then out else more

-- `strconv.Itoa(n)`
unfoldable pub itoa : ℕ → String
unfolding digits digit
itoa n = digits n (n / 10) (String.◌∷◌ (digit (n % 10)) "")

-- The number that digits spell behind another.
scan : ℕ → String → Option ℕ
scan n String.[] = some n
scan n (String.◌∷◌ c s) =
    let more = scan (n * 10 + (code c - 48)) s in
    if leb 48 (code c) && leb (code c) 57 then more else none

abbrev bounded : ℕ → Option ℕ → Option ℕ
bounded max none = none
bounded max (some n) = if leb n max then some n else none

abbrev unsigned : ℕ → String → Option ℕ
unsigned max String.[] = none
unsigned max (String.◌∷◌ c s) = bounded max (scan 0 (String.◌∷◌ c s))

abbrev negated : Option ℕ → Option ℤ
negated none = none
negated (some zero) = some (pos 0)
negated (some (suc n)) = some (negsuc n)

abbrev positive : Option ℕ → Option ℤ
positive none = none
positive (some n) = some (pos n)

-- `strconv.Atoi(s)`; `none` is its error.
unfoldable pub atoi : String → Option ℤ
unfolding scan
atoi String.[] = none
atoi (String.◌∷◌ c s) =
    if code c == 45
    then negated (unsigned (max_int + 1) s)
    else if code c == 43
    then positive (unsigned max_int s)
    else positive (unsigned max_int (String.◌∷◌ c s))

digit_code : (d : ℕ) → d < 10 → code (digit d) ≡ 48 + d
unfolding digit
digit_code zero h = refl
digit_code (suc zero) h = refl
digit_code (suc (suc zero)) h = refl
digit_code (suc (suc (suc zero))) h = refl
digit_code (suc (suc (suc (suc zero)))) h = refl
digit_code (suc (suc (suc (suc (suc zero))))) h = refl
digit_code (suc (suc (suc (suc (suc (suc zero)))))) h = refl
digit_code (suc (suc (suc (suc (suc (suc (suc zero))))))) h = refl
digit_code (suc (suc (suc (suc (suc (suc (suc (suc zero)))))))) h = refl
digit_code (suc (suc (suc (suc (suc (suc (suc (suc (suc zero))))))))) h = refl
digit_code (suc (suc (suc (suc (suc (suc (suc (suc (suc (suc n)))))))))) h = absurd (omega arith)

scan_step :
    (c : Char) (d m n : ℕ) (out : String)
    → code c ≡ 48 + d
    → d < 10
    → m * 10 + d ≡ n
    → scan m (String.◌∷◌ c out) ≡ scan n out
unfolding scan
scan_step c d m n out e small same =
    let in_range : (leb 48 (code c) && leb (code c) 57) ≡ true = ground arith in
    let value : m * 10 + (code c - 48) ≡ n = omega (arith, e, same) in rw (in_range, value)

last_digit : (n : ℕ) (out : String) → scan (n / 10) (String.◌∷◌ (digit (n % 10)) out) ≡ scan n out
last_digit n out =
    scan_step (digit (n % 10)) (n % 10) (n / 10) n out (digit_code (n % 10) (omega arith))
      (omega arith) (omega arith)

scan-digits : (f n : ℕ) (out : String) → n ≤ f → scan 0 (digits f n out) ≡ scan n out
unfolding digits scan
scan-digits zero n out h = ap (λ (k : ℕ). scan k out) (omega arith)
scan-digits (suc f) n out h = elim (Bool-cases (n == 0)) [
  | inl e ↦ rw e (ap (λ (k : ℕ). scan k out) (ground arith))
  | inr e ↦
      rw e
        (scan-digits f (n / 10) (String.◌∷◌ (digit (n % 10)) out) (ground arith) ∙ last_digit n out)
]

scan-itoa : (n : ℕ) → scan 0 (itoa n) ≡ some n
unfolding itoa
scan-itoa n = scan-digits n (n / 10) _ (omega arith) ∙ last_digit n "" ∙ unfold scan in refl

-- Every character is a decimal digit.
abbrev IsDigits : String → Type 0
IsDigits String.[] = Unit
IsDigits (String.◌∷◌ c s) = (48 ≤ code c) × (code c ≤ 57) × IsDigits s

digits-IsDigits : (f n : ℕ) (out : String) → IsDigits out → IsDigits (digits f n out)
unfolding digits
digits-IsDigits zero n out h = h
digits-IsDigits (suc f) n out h = elim (Bool-cases (n == 0)) [
  | inl e ↦ rw e h
  | inr e ↦ rw e (
      digits-IsDigits f (n / 10) (String.◌∷◌ (digit (n % 10)) out)
        (omega (arith, digit_code (n % 10)), omega (arith, digit_code (n % 10)), h))
]

itoa-IsDigits : (n : ℕ) → IsDigits (itoa n)
unfolding itoa
itoa-IsDigits n =
    digits-IsDigits n (n / 10) _
      (omega (arith, digit_code (n % 10)), omega (arith, digit_code (n % 10)), tt)

digit_apart : (c : Char) → 48 ≤ code c → code c ≤ 57 → is_space c ≡ false
unfolding is_space nat_eq
digit_apart c low high = ground arith

trim_right_digit :
    (c : Char) (s t : String)
    → is_space c ≡ false
    → trim_right s ≡ t
    → trim_right (String.◌∷◌ c s) ≡ String.◌∷◌ c t
unfolding trim_right
trim_right_digit c s t h e = rw (h, e) refl

trim_right-IsDigits : (s : String) → IsDigits s → trim_right (s ++ "\n") ≡ s
trim_right-IsDigits String.[] h =
    ap trim_right (append.nil "\n") ∙ unfold trim_right is_space string_eq nat_eq in refl
trim_right-IsDigits (String.◌∷◌ c s) (low, high, h) =
    ap trim_right (append.cons c s "\n")
    ∙ trim_right_digit c (s ++ "\n") s (digit_apart c low high) (trim_right-IsDigits s h)

trim_left_digit :
    (c : Char) (s : String) → is_space c ≡ false → trim_left (String.◌∷◌ c s) ≡ String.◌∷◌ c s
unfolding trim_left
trim_left_digit c s h = rw h

-- What `strings.TrimSpace` leaves of a printed number and its newline.
trim_left-IsDigits :
    (s : String) → IsDigits s → trim_right (trim_left (s ++ "\n")) ≡ trim_right (s ++ "\n")
trim_left-IsDigits String.[] h =
    ap (λ (t : String). trim_right (trim_left t)) (append.nil "\n")
    ∙ unfold trim_left trim_right is_space string_eq nat_eq in refl
trim_left-IsDigits (String.◌∷◌ c s) (low, high, h) =
    ap (λ (t : String). trim_right (trim_left t)) (append.cons c s "\n")
    ∙ ap trim_right (trim_left_digit c (s ++ "\n") (digit_apart c low high))
    ∙ ap trim_right (sym (append.cons c s "\n"))

trim_space-IsDigits : (s : String) → IsDigits s → trim_space (s ++ "\n") ≡ s
unfolding trim_space
trim_space-IsDigits s h = trim_left-IsDigits s h ∙ trim_right-IsDigits s h

pub trim_space-itoa : (n : ℕ) → trim_space (itoa n ++ "\n") ≡ itoa n
trim_space-itoa n = trim_space-IsDigits (itoa n) (itoa-IsDigits n)

digits_nonempty :
    (f n : ℕ) (c : Char) (out : String)
    → (d : Char) × (more : String) × (digits f n (String.◌∷◌ c out) ≡ String.◌∷◌ d more)
unfolding digits
digits_nonempty zero n c out = (c, out, refl)
digits_nonempty (suc f) n c out = elim (Bool-cases (n == 0)) [
  | inl e ↦ (c, out, rw e)
  | inr e ↦ rw e (digits_nonempty f (n / 10) (digit (n % 10)) (String.◌∷◌ c out))
]

itoa_nonempty : (n : ℕ) → (d : Char) × (more : String) × (itoa n ≡ String.◌∷◌ d more)
unfolding itoa
itoa_nonempty n = digits_nonempty n (n / 10) (digit (n % 10)) ""

atoi-IsDigits :
    (c : Char) (s : String)
    → IsDigits (String.◌∷◌ c s)
    → atoi (String.◌∷◌ c s) ≡ positive (bounded max_int (scan 0 (String.◌∷◌ c s)))
unfolding atoi nat_eq
atoi-IsDigits c s h =
    let minus : (code c == 45) ≡ false = ground arith in
    let plus : (code c == 43) ≡ false = ground arith in rw (minus, plus) refl

-- What is printed is read back.
pub atoi-itoa : (n : ℕ) → n ≤ max_int → atoi (itoa n) ≡ some (pos n)
atoi-itoa n h =
    let (d, more, e) = itoa_nonempty n in
    let digital : IsDigits (String.◌∷◌ d more) = subst IsDigits e (itoa-IsDigits n) in
    let value : scan 0 (String.◌∷◌ d more) ≡ some n = ap (scan 0) (sym e) ∙ scan-itoa n in
    ap atoi e ∙ atoi-IsDigits d more digital ∙ rw value (ground arith)
