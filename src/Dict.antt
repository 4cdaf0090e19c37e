-- ===== src/Dict.antt =====
-- Python's `dict` and `collections.OrderedDict` with string keys: the entries in order, oldest
-- first. An assignment to a present key keeps its place.
use rag_agent_chatbot.Prelude.{
  ◌≤◌, String, ◌≡◌, refl, Bool, true, false, not, ◌||◌, ◌&&◌, Option, none, some, List, [], ◌∷◌,
  ◌++◌, arith, str_eq, eq_iff, if◌then◌else◌, length,
}

module _ {ℓ} {V : Type ℓ} where
  -- `d.get(k)`
  unfoldable pub lookup : String → List (String × V) → Option V
  lookup k [] = none
  lookup k ((j, v) ∷ d) = if str_eq j k then some v else lookup k d

  -- `k in d`
  unfoldable pub has_key : String → List (String × V) → Bool
  has_key k [] = false
  has_key k ((j, v) ∷ d) = str_eq j k || has_key k d

  -- `d.pop(k, None)`
  unfoldable pub without : String → List (String × V) → List (String × V)
  without k [] = []
  without k ((j, v) ∷ d) = let rest = without k d in if str_eq j k then rest else (j, v) ∷ rest

  -- `d[k] = v`
  unfoldable pub assign : String → V → List (String × V) → List (String × V)
  assign k v [] = (k, v) ∷ []
  assign k v ((j, w) ∷ d) =
      let rest = assign k v d in if str_eq j k then (j, v) ∷ d else (j, w) ∷ rest

  -- No key stands twice.
  unfoldable pub distinct : List (String × V) → Bool
  distinct [] = true
  distinct ((j, v) ∷ d) = not (has_key j d) && distinct d

  pub lookup-assign :
      (k j : String) (v : V) (d : List (String × V))
      → lookup j (assign k v d) ≡ (if str_eq k j then some v else lookup j d)
  unfolding lookup assign
  lookup-assign k j v [] = refl
  lookup-assign k j v ((i, w) ∷ d) =
      ground (arith, eq_iff k j, eq_iff i k, eq_iff i j, lookup-assign k j v d)

  pub lookup-without :
      (k j : String) (d : List (String × V))
      → lookup j (without k d) ≡ (if str_eq k j then none else lookup j d)
  unfolding lookup without
  lookup-without k j [] = ground arith
  lookup-without k j ((i, v) ∷ d) =
      ground (arith, lookup-without k j d, eq_iff i k, eq_iff i j, eq_iff k j)

  pub has_key-without :
      (k j : String) (d : List (String × V)) → has_key j d ≡ false → has_key j (without k d) ≡ false
  unfolding has_key without
  has_key-without k j [] h = refl
  has_key-without k j ((i, v) ∷ d) h = ground (arith, has_key-without k j d)

  pub has_key-without_self : (k : String) (d : List (String × V)) → has_key k (without k d) ≡ false
  unfolding has_key without
  has_key-without_self k [] = refl
  has_key-without_self k ((i, v) ∷ d) = ground (arith, has_key-without_self k d)

  pub without-distinct :
      (k : String) (d : List (String × V)) → distinct d ≡ true → distinct (without k d) ≡ true
  unfolding distinct without
  without-distinct k [] h = refl
  without-distinct k ((i, v) ∷ d) h = ground (arith, without-distinct k d, has_key-without k i d)

  pub length-without-le : (k : String) (d : List (String × V)) → length (without k d) ≤ length d
  unfolding without
  length-without-le k [] = omega arith
  length-without-le k ((i, v) ∷ d) = ground (arith, length-without-le k d)

  pub lookup_absent : (k : String) (d : List (String × V)) → has_key k d ≡ false → lookup k d ≡ none
  unfolding lookup has_key
  lookup_absent k [] h = refl
  lookup_absent k ((i, v) ∷ d) h = ground (arith, lookup_absent k d)

  pub without_absent : (k : String) (d : List (String × V)) → has_key k d ≡ false → without k d ≡ d
  unfolding without has_key
  without_absent k [] h = refl
  without_absent k ((i, v) ∷ d) h = ground (arith, without_absent k d)

  pub assign_absent :
      (k : String) (v : V) (d : List (String × V))
      → has_key k d ≡ false
      → assign k v d ≡ d ++ (k, v) ∷ []
  unfolding assign has_key
  assign_absent k v [] h = refl
  assign_absent k v ((i, w) ∷ d) h = ground (arith, assign_absent k v d)
