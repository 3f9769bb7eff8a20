-- ===== src/Common/Lists.antt =====
-- Lists measured by native numbers, and the list tests of the program: `filter` by a Boolean,
-- `any`, membership of a text.
use Prim.Native.Nat.{ℕ, zero, suc, ◌+◌, ◌≤◌}
use Prim.Native.String.{String}
use mathlib.Core.Path.{ap, sym, ◌∙◌, ◌≡◌, refl}
use mathlib.Core.Logic.{◌⊎◌, inl, inr}
use mathlib.Core.Bool.{true, Bool, false, ◌||◌}
use mathlib.Core.Option.{Option, none, some}
use mathlib.Core.List.Memᴰ
use mathlib.Core.List.{List, Memᴰ, [], ◌∷◌, ◌++◌}
use native.Mathlib.Omega.{arith}
use text.Mathlib.Text.{◌==◌}
use lex_mind.Common.Tests.{Bool-cases, if◌then◌else◌}

module _ {ℓ} {A : Type ℓ} where
  abbrev pub length : List A → ℕ
  length [] = 0
  length (x ∷ xs) = suc (length xs)

  pub length-append : (xs ys : List A) → length (xs ++ ys) ≡ length xs + length ys
  length-append [] ys = omega arith
  length-append (x ∷ xs) ys = omega (arith, length-append xs ys)

  pub List-cases : (l : List A) → (l ≡ []) ⊎ ((x : A) × (r : List A) × (l ≡ x ∷ r))
  List-cases [] = inl refl
  List-cases (x ∷ r) = inr (x, r, refl)

  abbrev pub head? : List A → Option A
  head? [] = none
  head? (x ∷ xs) = some x

  -- a comprehension `[x for x in l if p(x)]`
  unfoldable pub filter : (A → Bool) → List A → List A
  filter p [] = []
  filter p (x ∷ xs) = let rest = filter p xs in if p x then x ∷ rest else rest

  unfoldable pub any : (A → Bool) → List A → Bool
  any p [] = false
  any p (x ∷ xs) = p x || any p xs

  pub length-filter-le : (p : A → Bool) (xs : List A) → length (filter p xs) ≤ length xs
  unfolding filter
  length-filter-le p [] = omega arith
  length-filter-le p (x ∷ xs) = ground (arith, length-filter-le p xs)

-- `x in l` for a list or a set of texts
unfoldable pub contains : List String → String → Bool
contains [] a = false
contains (x ∷ xs) a = x == a || contains xs a

pub contains-append :
    (xs ys : List String) (a : String) → contains (xs ++ ys) a ≡ (contains xs a || contains ys a)
unfolding contains
contains-append [] ys a = refl
contains-append (x ∷ xs) ys a = ground (arith, contains-append xs ys a)

module _ {ℓ} {A : Type ℓ} (p : A → Bool) where
  pub Memᴰ-filter : {a : A} (l : List A) → Memᴰ a (filter p l) → Memᴰ a l × (p a ≡ true)
  unfolding filter
  Memᴰ-filter [] m = absurd (Memᴰ.not-nil m)
  Memᴰ-filter {a} (x ∷ xs) m = elim (Bool-cases (p x)) [
    | inr out ↦ let (n, t) = Memᴰ-filter xs (rw (out, filter) at m) in (Memᴰ.tail n, t)
    | inl taken ↦ elim (Memᴰ.cases_cons (rw (taken, filter) at m)) [
      | inl e ↦ (Memᴰ.head e, ap p e ∙ taken)
      | inr n ↦ let (k, t) = Memᴰ-filter xs n in (Memᴰ.tail k, t)
    ]
  ]

  pub Memᴰ-filter_of : {a : A} (l : List A) → Memᴰ a l → p a ≡ true → Memᴰ a (filter p l)
  unfolding filter
  Memᴰ-filter_of [] m t = absurd (Memᴰ.not-nil m)
  Memᴰ-filter_of {a} (x ∷ xs) (Memᴰ.head e) t = rw (sym (ap p e) ∙ t) (Memᴰ.head e)
  Memᴰ-filter_of {a} (x ∷ xs) (Memᴰ.tail m) t = elim (Bool-cases (p x)) [
    | inl taken ↦ rw taken (Memᴰ.tail (Memᴰ-filter_of xs m t))
    | inr out ↦ rw out (Memᴰ-filter_of xs m t)
  ]

-- `P` of every element, by recursion
abbrev pub All {ℓ κ} : {A : Type ℓ} → (A → Type κ) → List A → Type κ
All P [] = Unit
All P (x ∷ xs) = P x × All P xs

-- `l[i]`, `none` where it raises IndexError
abbrev pub get_elem? {ℓ} : {A : Type ℓ} → List A → ℕ → Option A
get_elem? [] i = none
get_elem? (x ∷ xs) zero = some x
get_elem? (x ∷ xs) (suc i) = get_elem? xs i

pub any-append {ℓ} :
    {A : Type ℓ} (p : A → Bool) (xs ys : List A) → any p (xs ++ ys) ≡ (any p xs || any p ys)
unfolding any
any-append p [] ys = refl
any-append p (x ∷ xs) ys = ground (arith, any-append p xs ys)

pub data IsDistinct : List String → Type 0 where
  none_yet : IsDistinct []
  one_more :
      (l : List String) (x : String)
      → IsDistinct l
      → contains l x ≡ false
      → IsDistinct (l ++ x ∷ [])
