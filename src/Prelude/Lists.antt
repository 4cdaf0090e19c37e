-- ===== src/Prelude/Lists.antt =====
-- Lists measured by native numbers, under the library's names.
use Prim.Native.Nat.{ℕ, zero, suc, ◌+◌, ◌-◌, ◌≤◌}
use mathlib.Core.Path.{◌≡◌, refl, ap}
use mathlib.Core.List.{List, [], ◌∷◌, ◌++◌, map}
use mathlib.Core.Bool.{Bool, true, false, not, ◌||◌}
use native.Mathlib.Omega.{arith}
use rag_agent_chatbot.Prelude.Tests.{if◌then◌else◌}

module _ {ℓ} {A : Type ℓ} where
  abbrev pub length : List A → ℕ
  length [] = 0
  length (x ∷ xs) = suc (length xs)

  abbrev pub take : ℕ → List A → List A
  take zero xs = []
  take (suc n) [] = []
  take (suc n) (x ∷ xs) = x ∷ take n xs

  abbrev pub drop : ℕ → List A → List A
  drop zero xs = xs
  drop (suc n) [] = []
  drop (suc n) (x ∷ xs) = drop n xs

  -- A predicate that holds of every member, by recursion.
  abbrev pub All {κ} : (A → Type κ) → List A → Type κ
  All P [] = Unit
  All P (x ∷ xs) = P x × All P xs

  -- The comprehension `[x for x in xs if test x]`.
  abbrev pub keep_if : (A → Bool) → List A → List A
  keep_if test [] = []
  keep_if test (x ∷ xs) = let rest = keep_if test xs in if test x then x ∷ rest else rest

  abbrev pub any_of : (A → Bool) → List A → Bool
  any_of test [] = false
  any_of test (x ∷ xs) = test x || any_of test xs

module _ {ℓ} {A : Type ℓ} where
  pub length-append : (xs ys : List A) → length (xs ++ ys) ≡ length xs + length ys
  length-append [] ys = omega arith
  length-append (x ∷ xs) ys = omega (arith, length-append xs ys)

  pub take-append-drop : (n : ℕ) (xs : List A) → take n xs ++ drop n xs ≡ xs
  take-append-drop zero xs = refl
  take-append-drop (suc n) [] = refl
  take-append-drop (suc n) (x ∷ xs) = ap (◌∷◌ x) (take-append-drop n xs)

  pub length-take : (n : ℕ) (xs : List A) → n ≤ length xs → length (take n xs) ≡ n
  length-take zero xs h = refl
  length-take (suc n) [] h = absurd (omega arith)
  length-take (suc n) (x ∷ xs) h = ap suc (length-take n xs (omega arith))

  pub length-take-le : (n : ℕ) (xs : List A) → length (take n xs) ≤ n
  length-take-le zero xs = omega arith
  length-take-le (suc n) [] = omega arith
  length-take-le (suc n) (x ∷ xs) = omega (arith, length-take-le n xs)

  pub length-drop : (n : ℕ) (xs : List A) → length (drop n xs) ≡ length xs - n
  length-drop zero xs = omega arith
  length-drop (suc n) [] = omega arith
  length-drop (suc n) (x ∷ xs) = omega (arith, length-drop n xs)

  pub All-keep_if {κ} :
      (P : A → Type κ) (test : A → Bool) (xs : List A)
      → ((x : A) → test x ≡ true → P x)
      → All P (keep_if test xs)
  All-keep_if P test [] h = tt
  All-keep_if P test (x ∷ xs) h = cases (test x) refl (All-keep_if P test xs h)
    where
      cases :
          (b : Bool)
          → test x ≡ b
          → All P (keep_if test xs)
          → All P (if b then x ∷ keep_if test xs else keep_if test xs)
      cases true e rest = (h x e, rest)
      cases false e rest = rest

  pub length-keep_if-le : (test : A → Bool) (xs : List A) → length (keep_if test xs) ≤ length xs
  length-keep_if-le test [] = omega arith
  length-keep_if-le test (x ∷ xs) = ground (arith, length-keep_if-le test xs)

  pub All-imp {κ μ} :
      (P : A → Type κ) (Q : A → Type μ) (xs : List A) → ((x : A) → P x → Q x) → All P xs → All Q xs
  All-imp P Q [] f h = tt
  All-imp P Q (x ∷ xs) f (h, hs) = (f x h, All-imp P Q xs f hs)

  pub All-append {κ} : (P : A → Type κ) (xs ys : List A) → All P xs → All P ys → All P (xs ++ ys)
  All-append P [] ys h k = k
  All-append P (x ∷ xs) ys (h, hs) k = (h, All-append P xs ys hs k)

  -- What holds of the members holds of those that are kept, with the test.
  pub All-kept {κ μ} :
      (P : A → Type κ) (Q : A → Type μ) (test : A → Bool) (xs : List A)
      → ((x : A) → P x → test x ≡ true → Q x)
      → All P xs
      → All Q (keep_if test xs)
  All-kept P Q test [] f h = tt
  All-kept P Q test (x ∷ xs) f (h, hs) = cases (test x) refl (All-kept P Q test xs f hs)
    where
      cases :
          (b : Bool)
          → test x ≡ b
          → All Q (keep_if test xs)
          → All Q (if b then x ∷ keep_if test xs else keep_if test xs)
      cases true e rest = (f x h e, rest)
      cases false e rest = rest

  -- A filter that drops nothing which the other keeps.
  pub keep_if-keep_if :
      (test other : A → Bool) (xs : List A)
      → All (λ x. test x ≡ true → other x ≡ true) xs
      → keep_if test (keep_if other xs) ≡ keep_if test xs
  keep_if-keep_if test other [] h = refl
  keep_if-keep_if test other (x ∷ xs) (h, hs) =
      cases (other x) (test x) refl refl h (keep_if-keep_if test other xs hs)
    where
      cases :
          (a b : Bool)
          → other x ≡ a
          → test x ≡ b
          → (b ≡ true → a ≡ true)
          → keep_if test (keep_if other xs) ≡ keep_if test xs
          → keep_if test (if a then x ∷ keep_if other xs else keep_if other xs)
            ≡ (if b then x ∷ keep_if test xs else keep_if test xs)
      cases true true e f g rest = rw f (ap (◌∷◌ x) rest)
      cases true false e f g rest = rw f rest
      cases false true e f g rest = absurd (cc (g refl))
      cases false false e f g rest = rest

  pub keep_if-append :
      (test : A → Bool) (xs ys : List A)
      → keep_if test (xs ++ ys) ≡ keep_if test xs ++ keep_if test ys
  keep_if-append test [] ys = refl
  keep_if-append test (x ∷ xs) ys = ground (arith, keep_if-append test xs ys)

  pub keep_if_none :
      (test : A → Bool) (xs : List A) → All (λ x. test x ≡ false) xs → keep_if test xs ≡ []
  keep_if_none test [] h = refl
  keep_if_none test (x ∷ xs) (h, hs) = ground (arith, keep_if_none test xs hs)

  pub keep_if_twice :
      (test : A → Bool) (xs : List A) → keep_if test (keep_if test xs) ≡ keep_if test xs
  keep_if_twice test [] = refl
  keep_if_twice test (x ∷ xs) = cases (test x) refl (keep_if_twice test xs)
    where
      cases :
          (b : Bool)
          → test x ≡ b
          → keep_if test (keep_if test xs) ≡ keep_if test xs
          → keep_if test (if b then x ∷ keep_if test xs else keep_if test xs)
            ≡ (if b then x ∷ keep_if test xs else keep_if test xs)
      cases true e h = rw e (ap (◌∷◌ x) h)
      cases false e h = h

  -- Where a filter keeps nothing, its complement keeps all.
  pub keep_if-not :
      (test : A → Bool) (xs : List A) → keep_if test xs ≡ [] → keep_if (λ x. not (test x)) xs ≡ xs
  keep_if-not test [] h = refl
  keep_if-not test (x ∷ xs) h = cases (test x) (keep_if-not test xs) h
    where
      cases :
          (b : Bool)
          → (keep_if test xs ≡ [] → keep_if (λ x. not (test x)) xs ≡ xs)
          → (if b then x ∷ keep_if test xs else keep_if test xs) ≡ []
          → (if not b then x ∷ keep_if (λ x. not (test x)) xs else keep_if (λ x. not (test x)) xs)
            ≡ x ∷ xs
      cases true ih e = absurd (cc)
      cases false ih e = ap (◌∷◌ x) (ih e)

module _ {ℓ μ} {A : Type ℓ} {B : Type μ} where
  pub length-map : (f : A → B) (xs : List A) → length (map f xs) ≡ length xs
  length-map f [] = refl
  length-map f (x ∷ xs) = ap suc (length-map f xs)

  pub All-map {κ} :
      (P : B → Type κ) (f : A → B) (xs : List A) → All (λ x. P (f x)) xs → All P (map f xs)
  All-map P f [] h = tt
  All-map P f (x ∷ xs) (h, hs) = (h, All-map P f xs hs)

  pub map-append : (f : A → B) (xs ys : List A) → map f (xs ++ ys) ≡ map f xs ++ map f ys
  map-append f [] ys = refl
  map-append f (x ∷ xs) ys = ap (◌∷◌ (f x)) (map-append f xs ys)
