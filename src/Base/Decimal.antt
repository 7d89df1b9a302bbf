-- ===== src/Base/Decimal.antt =====
-- What `printf` prints of an unsigned number, `%u` and the like, and reading it back.
use Prim.Native.Nat.{ℕ, zero, suc, ◌+◌, ◌-◌, ◌*◌, ◌/◌, ◌%◌, ◌^◌, ◌<◌}
use mathlib.Core.Bool.{Bool, true, false, ◌&&◌}
use mathlib.Core.Path.{◌≡◌, refl, ap, ◌∙◌}
use mathlib.Core.List.{List, [], ◌∷◌, ◌++◌, append_assoc}
use native.Mathlib.Omega.{arith}
use mathlib.Core.Logic.{inl, inr}
use soa_p1_grupo_cu.Base.Tests.{ltb, leb, if◌then◌else◌, Bool-cases, ltb→lt}

-- The digits, of which there are at most as many as the fuel.
unfoldable pub digits : ℕ → ℕ → List ℕ
digits zero n = []
digits (suc fuel) n =
    let rest = digits fuel (n / 10) in
    if ltb n 10 then (48 + n) ∷ [] else rest ++ (48 + n % 10) ∷ []

-- 64 bits have at most 20 digits.
unfoldable pub decimal : ℕ → List ℕ
decimal n = digits 20 n

abbrev is_digit : ℕ → Bool
is_digit c = leb 48 c && leb c 57

-- Reads digits as far as they go, behind the number `n`: the number and the rest of the text.
unfoldable pub read_digits : ℕ → List ℕ → ℕ × List ℕ
read_digits n [] = (n, [])
read_digits n (c ∷ cs) =
    let rest = read_digits (n * 10 + (c - 48)) cs in if is_digit c then rest else (n, c ∷ cs)

-- A text that does not go on with a digit.
abbrev pub Ends : List ℕ → Type 0
Ends [] = Unit
Ends (c ∷ cs) = is_digit c ≡ false

read-Ends : (n : ℕ) (s : List ℕ) → Ends s → read_digits n s ≡ (n, s)
unfolding read_digits
read-Ends n [] e = refl
read-Ends n (c ∷ cs) e = rw e refl

read_one :
    (m d n : ℕ) (s : List ℕ)
    → d < 10
    → m * 10 + d ≡ n
    → read_digits m ((48 + d) ∷ s) ≡ read_digits n s
unfolding read_digits
read_one m d n s small e =
    let digit : is_digit (48 + d) ≡ true = ground arith in
    let value : m * 10 + (48 + d - 48) ≡ n = omega arith in
    rw (digit, read_digits) (ap (λ k. read_digits k s) value)

read-digits :
    (fuel n : ℕ) (s : List ℕ) → n < 10 ^ fuel → read_digits 0 (digits fuel n ++ s) ≡ read_digits n s
unfolding digits
read-digits zero n s small =
    let none_left : 0 ≡ n = omega arith in ap (λ k. read_digits k s) none_left
read-digits (suc fuel) n s small = elim (Bool-cases (ltb n 10)) [
  | inl one ↦ rw (one, digits) (read_one 0 n n s (ltb→lt n 10 one) (omega arith))
  | inr more ↦
      rw (more, digits, append_assoc (digits fuel (n / 10)) ((48 + n % 10) ∷ []) s)
        (read-digits fuel (n / 10) ((48 + n % 10) ∷ s) (omega arith)
          ∙ read_one (n / 10) (n % 10) n s (omega arith) (omega arith))
]

-- A number of 64 bits is read back from its print, and the text behind it is left.
pub read-decimal :
    (n : ℕ) (s : List ℕ) → n < 2 ^ 64 → Ends s → read_digits 0 (decimal n ++ s) ≡ (n, s)
unfolding decimal
read-decimal n s small ends = read-digits 20 n s (omega arith) ∙ read-Ends n s ends
