-- ===== src/Vectors/Outcomes.antt =====
-- What an action of Vectors/State returns, and what it leaves of the collection.
use rag_agent_chatbot.Prelude.{Bool, true, false, Option, none, some, if◌then◌else◌}
use rag_agent_chatbot.Vectors.State.{
  Collection, VectorStore, Action, continue, gets, modify, call, recover, attempt, ◌>>=◌, ◌>>◌,
  next_fault,
}

module _ {A : Type 0} (P : A → Type 0) where
  -- A result that satisfies `P`, or an exception.
  abbrev pub Result : Option A → Type 0
  Result none = Unit
  Result (some a) = P a

  -- A result that satisfies `P`.
  abbrev pub Returned : Option A → Type 0
  Returned none = ⊥
  Returned (some a) = P a

  -- An action that never raises, with what holds of its result.
  abbrev pub Returns : Action A → Type 0
  Returns m = (s : VectorStore) → Returned (m s).1

  abbrev pub Gives : Action A → Type 0
  Gives m = (s : VectorStore) → Result (m s).1

module _ {A : Type 0} (Post : A → Option Collection → Type 0)
    (Fail : Option Collection → Type 0) where
  -- What holds of the collection after an action, with its result or with an exception.
  abbrev pub Settled : VectorStore × Option A → Type 0
  Settled (t, some a) = Post a t.collection
  Settled (t, none) = Fail t.collection

  abbrev pub Meets : (Option Collection → Type 0) → Action A → Type 0
  Meets Pre m = (s : VectorStore) → Pre s.collection → Settled (m s)

module _ {A B : Type 0} where
  pub Gives->>= :
      (P : A → Type 0) (R : B → Type 0) (m : Action A) (f : A → Action B)
      → Gives P m
      → ((a : A) → P a → Gives R (f a))
      → Gives R (m >>= f)
  unfolding ◌>>=◌
  Gives->>= P R m f h k s = go (m s) (h s)
    where
      go : (r : VectorStore × Option A) → Result P r.1 → Result R (continue f r).1
      go (t, some a) p = k a p t
      go (t, none) p = tt

  pub Meets->>= :
      (Pre : Option Collection → Type 0) (Mid : A → Option Collection → Type 0)
      (Post : B → Option Collection → Type 0) (Fail : Option Collection → Type 0) (m : Action A)
      (f : A → Action B)
      → Meets Mid Fail Pre m
      → ((a : A) → Meets Post Fail (Mid a) (f a))
      → Meets Post Fail Pre (m >>= f)
  unfolding ◌>>=◌
  Meets->>= Pre Mid Post Fail m f h k s p = go (m s) (h s p)
    where
      go : (r : VectorStore × Option A) → Settled Mid Fail r → Settled Post Fail (continue f r)
      go (t, some a) q = k a t q
      go (t, none) q = q

  pub Returns->>= :
      (P : A → Type 0) (R : B → Type 0) (m : Action A) (f : A → Action B)
      → Returns P m
      → ((a : A) → P a → Returns R (f a))
      → Returns R (m >>= f)
  unfolding ◌>>=◌
  Returns->>= P R m f h k s = go (m s) (h s)
    where
      go : (r : VectorStore × Option A) → Returned P r.1 → Returned R (continue f r).1
      go (t, some a) p = k a p t
      go (t, none) p = absurd p

module _ {A : Type 0} where
  pub Gives-call :
      (P : A → Type 0) (f : Option Collection → Option Collection × A)
      → ((c : Option Collection) → P (f c).1)
      → Gives P (call f)
  unfolding call
  Gives-call P f h s = go (next_fault s.faults).0
    where
      go :
          (b : Bool)
          → Result P
              (if◌then◌else◌ {A = VectorStore × Option A} b
                (record s { faults = (next_fault s.faults).1 }, none)
                (
                  record s { collection = (f s.collection).0; faults = (next_fault s.faults).1 },
                  some (f s.collection).1,
                )).1
      go true = tt
      go false = h s.collection

  pub Meets-call :
      (Pre : Option Collection → Type 0) (Post : A → Option Collection → Type 0)
      (Fail : Option Collection → Type 0) (f : Option Collection → Option Collection × A)
      → ((c : Option Collection) → Pre c → Post (f c).1 (f c).0 × Fail c)
      → Meets Post Fail Pre (call f)
  unfolding call
  Meets-call Pre Post Fail f h s p = go (next_fault s.faults).0
    where
      go :
          (b : Bool)
          → Settled Post Fail (
              if◌then◌else◌ {A = VectorStore × Option A} b
                (record s { faults = (next_fault s.faults).1 }, none)
                (
                  record s { collection = (f s.collection).0; faults = (next_fault s.faults).1 },
                  some (f s.collection).1,
                ))
      go true = (h s.collection p).1
      go false = (h s.collection p).0

  pub Meets-attempt :
      (Pre : Option Collection → Type 0) (Post : A → Option Collection → Type 0)
      (Fail : Option Collection → Type 0) (m : Action A) (f : VectorStore → VectorStore) (a : A)
      → Meets Post Fail Pre m
      → ((c : Option Collection) → Fail c → Post a c)
      → Meets Post (λ _. ⊥) Pre (attempt m f a)
  unfolding attempt recover
  Meets-attempt Pre Post Fail m f a h k s p = go (m s) (h s p)
    where
      go :
          (r : VectorStore × Option A) → Settled Post Fail r → Settled Post (λ _. ⊥) (recover f a r)
      go (t, some b) q = q
      go (t, none) q = k t.collection q

  -- A `try` returns, whatever its body does.
  pub Returns-attempt :
      (P : A → Type 0) (m : Action A) (f : VectorStore → VectorStore) (a : A)
      → Gives P m
      → P a
      → Returns P (attempt m f a)
  unfolding attempt recover
  Returns-attempt P m f a h p s = go (m s) (h s)
    where
      go : (r : VectorStore × Option A) → Result P r.1 → Returned P (recover f a r).1
      go (t, some b) q = q
      go (t, none) q = p

  pub Returns-if :
      (P : A → Type 0) (b : Bool) (m n : Action A)
      → Returns P m
      → Returns P n
      → Returns P (if b then m else n)
  Returns-if P true m n h k = h
  Returns-if P false m n h k = k

  pub Gives-if :
      (P : A → Type 0) (b : Bool) (m n : Action A)
      → Gives P m
      → Gives P n
      → Gives P (if b then m else n)
  Gives-if P true m n h k = h
  Gives-if P false m n h k = k

  pub Meets-if :
      (Pre : Option Collection → Type 0) (Post : A → Option Collection → Type 0)
      (Fail : Option Collection → Type 0) (b : Bool) (m n : Action A)
      → Meets Post Fail Pre m
      → Meets Post Fail Pre n
      → Meets Post Fail Pre (if b then m else n)
  Meets-if Pre Post Fail true m n h k = h
  Meets-if Pre Post Fail false m n h k = k

  pub Gives-any : (m : Action A) → Gives (λ _. Unit {0}) m
  Gives-any m s = go (m s).1
    where
      go : (r : Option A) → Result (λ _. Unit {0}) r
      go none = tt
      go (some a) = tt

-- A read of the object's fields, and a change of them, leave the collection.
module _ (Pre : Option Collection → Type 0) (Fail : Option Collection → Type 0) where
  pub Meets-gets : {A : Type 0} (f : VectorStore → A) → Meets (λ _. Pre) Fail Pre (gets f)
  unfolding gets
  Meets-gets f s p = p

  pub Meets-modify : (f : VectorStore → VectorStore) → Meets (λ _. Pre) Fail Pre (modify f)
  unfolding modify
  Meets-modify f s p = p

  -- A call that changes nothing.
  pub Meets-look :
      {A : Type 0} (a : A)
      → ((c : Option Collection) → Pre c → Fail c)
      → Meets (λ _. Pre) Fail Pre (call (λ c. (c, a)))
  Meets-look a h = Meets-call Pre (λ _. Pre) Fail (λ c. (c, a)) (λ c p. (p, h c p))

  pub Meets->> :
      {A B : Type 0} (Mid : Option Collection → Type 0) (Post : B → Option Collection → Type 0)
      (m : Action A) (k : Action B)
      → Meets (λ _. Mid) Fail Pre m
      → Meets Post Fail Mid k
      → Meets Post Fail Pre (m >> k)
  unfolding ◌>>◌
  Meets->> Mid Post m k h g = Meets->>= Pre (λ _. Mid) Post Fail m (λ _. k) h (λ _. g)
