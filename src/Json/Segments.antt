-- ===== src/Json/Segments.antt =====
-- src/util/json.rs: the segments of dotted paths, and walks along them.
use Prim.Native.String
use Prim.Native.String.{[], ◌∷◌}
use text.Mathlib.TextLemmas.{cons-append, nil-append}
use mathlib.Core.Option.{some-injective}
use wazuh_ocsf_etl.Base.{
  String, List, ◌++◌, Bool, false, ◌||◌, Option, none, some, ◌≡◌, refl, ap, ◌∙◌, if◌then◌else◌,
  if-both, is_nil, is_empty, split, push_head, code, eqb, arith, Bool-cases, inl, inr, Char,
}
use mathlib.Core.List.{[], ◌∷◌}
use wazuh_ocsf_etl.Json.{Value, member}
use wazuh_ocsf_etl.Json.Lookup.{walk}
use wazuh_ocsf_etl.Json.Flatten.{join_path}

abbrev pub has_dot : String → Bool
has_dot [] = false
has_dot (c ∷ s) = eqb (code c) b'.' || has_dot s

pub split_segment : (k : String) → has_dot k ≡ false → split b'.' k ≡ k ∷ []
unfolding split
split_segment [] h = refl
split_segment (c ∷ s) h = ground (arith, h, split_segment s)

push_head-append :
    (c : Char) (ws : List String) (k : String)
    → is_nil ws ≡ false
    → push_head c (ws ++ k ∷ []) ≡ push_head c ws ++ k ∷ []
push_head-append c [] k h = cc
push_head-append c (w ∷ ws) k h = refl

split_has_parts : (s : String) → is_nil (split b'.' s) ≡ false
unfolding split
split_has_parts [] = refl
split_has_parts (c ∷ s) =
    if-both (λ (ws : List String). is_nil ws ≡ false) (eqb (code c) b'.') refl
      (pushed (split b'.' s))
  where
    pushed : (ws : List String) → is_nil (push_head c ws) ≡ false
    pushed [] = refl
    pushed (w ∷ ws) = refl

split_dotted :
    (p k : String)
    → has_dot k ≡ false
    → split b'.' (String.◌++◌ p (String.◌++◌ "." k)) ≡ split b'.' p ++ k ∷ []
unfolding split
split_dotted [] k h =
    rw (nil-append, cons-append, nil-append) (ap (λ ws. "" ∷ ws) (split_segment k h))
split_dotted (c ∷ p) k h =
    rw (cons-append c p (String.◌++◌ "." k)) (elim (Bool-cases (eqb (code c) b'.')) [
      | inl dot ↦ simp dot (ap (λ ws. "" ∷ ws) (split_dotted p k h))
      | inr other ↦ simp other (
          ap (push_head c) (split_dotted p k h)
          ∙ push_head-append c (split b'.' p) k (split_has_parts p))
    ])

-- The segments of a path; none at the root
abbrev pub segments : String → List String
segments p = if is_empty p then [] else split b'.' p

segments_of_long : (p : String) → is_empty p ≡ false → segments p ≡ split b'.' p
segments_of_long p h = simp h refl

pub segments-join_path :
    (p k : String)
    → is_empty k ≡ false
    → has_dot k ≡ false
    → (segments (join_path p k) ≡ segments p ++ k ∷ []) × (is_empty (join_path p k) ≡ false)
unfolding join_path
segments-join_path [] k some_text h = (simp some_text (split_segment k h), some_text)
segments-join_path (c ∷ p) k some_text h =
    let dotted = String.◌++◌ (c ∷ p) (String.◌++◌ "." k) in
    let long : is_empty dotted ≡ false = rw (cons-append c p (String.◌++◌ "." k)) refl in
    (segments_of_long dotted long ∙ split_dotted (c ∷ p) k h, long)

pub walk-append :
    (ks : List String) (k : String) (root v : Value)
    → walk ks root ≡ some v
    → walk (ks ++ k ∷ []) root ≡ member v k
unfolding walk
walk-append [] k root v h = last (member root k) ∙ ap (λ r. member r k) (some-injective _ _ h)
  where
    last :
        (o : Option Value) → (elim o as (λ _. Option Value) [ none ↦ none | some u ↦ some u ]) ≡ o
    last none = refl
    last (some u) = refl
walk-append (j ∷ ks) k root v h = through (member root j) (λ u e. walk-append ks k u v e) h
  where
    through :
        (o : Option Value)
        → ((u : Value) → walk ks u ≡ some v → walk (ks ++ k ∷ []) u ≡ member v k)
        → (elim o as (λ _. Option Value) [ none ↦ none | some u ↦ walk ks u ]) ≡ some v
        → (elim o as (λ _. Option Value) [ none ↦ none | some u ↦ walk (ks ++ k ∷ []) u ])
          ≡ member v k
    through none next e = cc
    through (some u) next e = next u e
