-- ===== src/Base/Decimal.antt =====
-- Numbers in decimal, printed and read back.
use Prim.Native.Nat.{ℕ, zero, suc, ◌+◌, ◌/◌, ◌%◌, ◌≤◌, ◌<◌}
use Prim.Native.Char.{Char, code}
use Prim.Native.String.{String, [], ◌∷◌}
use mathlib.Core.Path.{◌≡◌, refl, ap, ◌∙◌}
use mathlib.Core.Logic.{inl, inr}
use mathlib.Core.Bool.{Bool, true, false, not}
use mathlib.Core.Option.{some}
use native.Mathlib.Omega.{arith}
use wazuh_ocsf_etl.Base.Tests.{eqb, Bool-cases, eqb_iff}
use wazuh_ocsf_etl.Base.Text.{
  is_digit, is_empty, is_whitespace, digit_char, emit, to_decimal, parse_uint, trim,
  trim_start_matches, trim_end_matches, decimal, digits_only, unsigned,
}
use wazuh_ocsf_etl.Base.Chars.{AllChars, passes_under, passes_under_at}

digit_table : passes_under (λ d. eqb (code (digit_char d)) (48 + d)) 10 ≡ true
unfolding passes_under
digit_table = refl

code-digit_char : (d : ℕ) → d < 10 → code (digit_char d) ≡ 48 + d
code-digit_char d h = (eqb_iff _ _).0 (passes_under_at _ 10 d h digit_table)

is_digit-digit_char : (n : ℕ) → is_digit (digit_char (n % 10)) ≡ true
is_digit-digit_char n = ground (arith, code-digit_char (n % 10))

emit_done : (rounds n : ℕ) (out : String) → eqb n 0 ≡ true → emit (suc rounds) n out ≡ out
unfolding emit
emit_done rounds n out e = rw (e, emit)

emit_more :
    (rounds n : ℕ) (out : String)
    → eqb n 0 ≡ false
    → emit (suc rounds) n out ≡ emit rounds (n / 10) (digit_char (n % 10) ∷ out)
unfolding emit
emit_more rounds n out e = rw (e, emit)

emit-AllChars :
    (rounds n : ℕ) (out : String) → AllChars is_digit out → AllChars is_digit (emit rounds n out)
emit-AllChars zero n out h = unfold emit in h
emit-AllChars (suc rounds) n out h = elim (Bool-cases (eqb n 0)) [
  | inl e ↦ rw (emit_done rounds n out e) h
  | inr e ↦
      rw (emit_more rounds n out e) (emit-AllChars rounds (n / 10) _ (is_digit-digit_char n, h))
]

decimal-cons :
    (m n : ℕ) (out : String) → m ≡ n / 10 → decimal (digit_char (n % 10) ∷ out) m ≡ decimal out n
decimal-cons m n out h =
    rw is_digit-digit_char
      (ap (decimal out) (omega (arith, code-digit_char (n % 10) (omega arith))))

decimal-emit :
    (rounds n : ℕ) (out : String) → n ≤ rounds → decimal (emit rounds n out) 0 ≡ decimal out n
decimal-emit zero n out h = unfold emit in ap (decimal out) (omega arith)
decimal-emit (suc rounds) n out h = elim (Bool-cases (eqb n 0)) [
  | inl e ↦ rw (emit_done rounds n out e) (ap (decimal out) (omega (arith, (eqb_iff n 0).0 e)))
  | inr e ↦
      rw (emit_more rounds n out e)
        (decimal-emit rounds (n / 10) _ (ground arith) ∙ decimal-cons (n / 10) n out refl)
]

pub to_decimal-AllChars : (n : ℕ) → AllChars is_digit (to_decimal n)
unfolding to_decimal
to_decimal-AllChars n = elim (Bool-cases (eqb n 0)) [
  | inl e ↦ rw e (refl, tt)
  | inr e ↦ rw e (emit-AllChars n n "" tt)
]

decimal-to_decimal : (n : ℕ) → decimal (to_decimal n) 0 ≡ some n
unfolding to_decimal
decimal-to_decimal n = elim (Bool-cases (eqb n 0)) [
  | inl e ↦ rw e (ap some (omega (arith, (eqb_iff n 0).0 e)))
  | inr e ↦ rw e (decimal-emit n n "" (omega arith))
]

is_empty-emit :
    (rounds n : ℕ) (out : String) → is_empty out ≡ false → is_empty (emit rounds n out) ≡ false
is_empty-emit zero n out h = unfold emit in h
is_empty-emit (suc rounds) n out h = elim (Bool-cases (eqb n 0)) [
  | inl e ↦ rw (emit_done rounds n out e) h
  | inr e ↦ rw (emit_more rounds n out e) (is_empty-emit rounds (n / 10) _ refl)
]

is_empty-to_decimal : (n : ℕ) → is_empty (to_decimal n) ≡ false
unfolding to_decimal
is_empty-to_decimal zero = refl
is_empty-to_decimal (suc n) =
    let e : eqb (suc n) 0 ≡ false = ground arith in
    rw e (rw (emit_more n (suc n) "" e) (is_empty-emit n _ _ refl))

digits_only_of_digits :
    (s : String) → AllChars is_digit s → is_empty s ≡ false → digits_only (unsigned s) ≡ decimal s 0
digits_only_of_digits [] h k = cc
digits_only_of_digits (c ∷ s) h k = ground arith

-- Reading what was printed gives the number back, if the type has room for it.
pub parse_uint-to_decimal : (most n : ℕ) → n ≤ most → parse_uint most (to_decimal n) ≡ some n
unfolding parse_uint
parse_uint-to_decimal most n h =
    rw
      (
        digits_only_of_digits (to_decimal n) (to_decimal-AllChars n) (is_empty-to_decimal n),
        decimal-to_decimal n,
      )
      (ground arith)

trim_start_matches_of_none :
    (p : Char → Bool) (s : String) → AllChars (λ c. not (p c)) s → trim_start_matches p s ≡ s
unfolding trim_start_matches
trim_start_matches_of_none p [] h = refl
trim_start_matches_of_none p (c ∷ s) h = ground arith

trim_end_matches_of_none :
    (p : Char → Bool) (s : String) → AllChars (λ c. not (p c)) s → trim_end_matches p s ≡ s
unfolding trim_end_matches
trim_end_matches_of_none p [] h = refl
trim_end_matches_of_none p (c ∷ s) h = ground (arith, trim_end_matches_of_none p s)

pub AllChars-weaken :
    (p q : Char → Bool) (s : String)
    → ((c : Char) → p c ≡ true → q c ≡ true)
    → AllChars p s
    → AllChars q s
AllChars-weaken p q [] f h = tt
AllChars-weaken p q (c ∷ s) f (k, h) = (f c k, AllChars-weaken p q s f h)

not_whitespace : (c : Char) → is_digit c ≡ true → not (is_whitespace c) ≡ true
unfolding is_whitespace
not_whitespace c h = ground arith

pub trim_of_digits : (s : String) → AllChars is_digit s → trim s ≡ s
unfolding trim
trim_of_digits s h =
    let k = AllChars-weaken is_digit (λ c. not (is_whitespace c)) s not_whitespace h in
    rw (trim_start_matches_of_none is_whitespace s k) (trim_end_matches_of_none is_whitespace s k)
