-- ===== src/Base/Lists.antt =====
-- Lists over the native numbers, and the slice tests of the standard library.
use Prim.Native.Nat.{ℕ, suc, ◌+◌}
use Prim.Native.String.{String}
use mathlib.Core.Path.{◌≡◌, refl}
use text.Mathlib.TextEquality.{eq_iff}
use text.Mathlib.TextPositions.{eq_refl}
use mathlib.Core.Bool.{Bool, true, false, ◌&&◌, ◌||◌}
use mathlib.Core.List.{List, [], ◌∷◌, ◌++◌}
use native.Mathlib.Omega.{arith}
use text.Mathlib.Text.{◌==◌}
use wazuh_ocsf_etl.Base.Tests.{eqb, if◌then◌else◌}

module _ {ℓ} {A : Type ℓ} where
  abbrev pub length : List A → ℕ
  length [] = 0
  length (x ∷ xs) = suc (length xs)

  pub length-append : (xs ys : List A) → length (xs ++ ys) ≡ length xs + length ys
  length-append [] ys = omega arith
  length-append (x ∷ xs) ys = omega (arith, length-append xs ys)

  abbrev pub all : (A → Bool) → List A → Bool
  all p [] = true
  all p (x ∷ xs) = p x && all p xs

  abbrev pub any : (A → Bool) → List A → Bool
  any p [] = false
  any p (x ∷ xs) = p x || any p xs

  abbrev pub is_nil : List A → Bool
  is_nil [] = true
  is_nil (x ∷ xs) = false

  -- `iter().filter(p)`
  abbrev pub keep : (A → Bool) → List A → List A
  keep p [] = []
  keep p (x ∷ xs) = let rest = keep p xs in if p x then x ∷ rest else rest

  -- How many elements pass a test
  abbrev pub count : (A → Bool) → List A → ℕ
  count p [] = 0
  count p (x ∷ xs) = (if p x then 1 else 0) + count p xs

  pub count-append : (p : A → Bool) (xs ys : List A) → count p (xs ++ ys) ≡ count p xs + count p ys
  count-append p [] ys = omega arith
  count-append p (x ∷ xs) ys = omega (arith, count-append p xs ys)

module _ {ℓ κ} {A : Type ℓ} (P : A → Type κ) where
  abbrev pub All : List A → Type κ
  All [] = Unit
  All (x ∷ xs) = P x × All xs

  pub All-append : (xs ys : List A) → All xs → All ys → All (xs ++ ys)
  All-append [] ys _ k = k
  All-append (x ∷ xs) ys (p, h) k = (p, All-append xs ys h k)

module _ {ℓ κ μ} {A : Type ℓ} (P : A → Type κ) (Q : A → Type μ) (f : (x : A) → P x → Q x) where
  pub All-map : (xs : List A) → All P xs → All Q xs
  All-map [] h = tt
  All-map (x ∷ xs) (p, h) = (f x p, All-map xs h)

-- `slice.contains(&s)` on texts and on numbers
unfoldable pub contains : List String → String → Bool
contains [] s = false
contains (x ∷ xs) s = s == x || contains xs s

abbrev pub contains_num : List ℕ → ℕ → Bool
contains_num [] n = false
contains_num (x ∷ xs) n = eqb n x || contains_num xs n

pub contains_more :
    (x : String) (xs : List String) (t : String) → contains xs t ≡ true → contains (x ∷ xs) t ≡ true
unfolding contains
contains_more x xs t h = ground (arith, h)

pub contains_head : (x : String) (xs : List String) → contains (x ∷ xs) x ≡ true
unfolding contains
contains_head x xs = rw eq_refl

pub contains-append :
    (xs ys : List String) (c : String) → contains (xs ++ ys) c ≡ (contains xs c || contains ys c)
unfolding contains
contains-append [] ys c = refl
contains-append (x ∷ xs) ys c = ground (arith, contains-append xs ys c)

pub contains-keep :
    (q : String → Bool) (xs : List String) (c : String)
    → contains (keep q xs) c ≡ (contains xs c && q c)
unfolding contains
contains-keep q [] c = refl
contains-keep q (x ∷ xs) c = ground (arith, contains-keep q xs c, eq_iff c x)

pub keep-eq-nil :
    (q : String → Bool) (xs : List String)
    → ((x : String) → contains xs x ≡ true → q x ≡ false)
    → keep q xs ≡ []
keep-eq-nil q [] h = refl
keep-eq-nil q (x ∷ xs) h =
    rw (h x (contains_head x xs)) (keep-eq-nil q xs (λ y e. h y (contains_more x xs y e)))
