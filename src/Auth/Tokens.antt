-- ===== src/Auth/Tokens.antt =====
-- The checks of assets/backend/auth.py: whose token is accepted, and what a fetch may do to the keys.
use rag_agent_chatbot.Prelude.{
  String, ◌≡◌, ◌≢◌, refl, ap, sym, ◌∙◌, Bool, true, false, Option, none, some, str_eq, eq_iff,
  Bool-cases, inl, inr, if◌then◌else◌,
}
use mathlib.Core.Bool.{false≢true}
use rag_agent_chatbot.Http.{Response, returned, http_error}
use rag_agent_chatbot.Auth.{
  Sub, missing, other, text, Decoded, claims, expired, invalid, Provider, Auth, has_keys,
  ensure_keys, pick_key_for_token, final_claims, retry, first_claims, attempt, attempt_or_refresh,
  decode_jwt_token, user_of, get_current_user,
}

module _ (p : Provider) where
  -- A cached key, chosen for the token, verifies it as the subject's.
  abbrev pub Verifies : p.Token → Auth p → Sub → Type 0
  Verifies token s sub =
      (key : p.Key) × (pick_key_for_token p token s ≡ some key)
      × (p.decode_with_key (p.time s.world) token key ≡ claims sub)

  -- A returned subject is verified.
  abbrev pub IsSound : p.Token → Auth p × Response Sub → Type 0
  IsSound token (s, returned sub) = Verifies token s sub
  IsSound token (s, http_error status detail) = Unit

module _ (p : Provider) (token : p.Token) where
  retry-IsSound :
      (s : Auth p) (found : Option p.Key)
      → pick_key_for_token p token s ≡ found
      → IsSound p token (s, retry p token s found)
  unfolding retry final_claims
  retry-IsSound s none e = tt
  retry-IsSound s (some key) e = final (p.decode_with_key (p.time s.world) token key) refl
    where
      final :
          (d : Decoded)
          → p.decode_with_key (p.time s.world) token key ≡ d
          → IsSound p token (s, final_claims p d)
      final (claims sub) f = (key, e, f)
      final expired f = tt
      final invalid f = tt

  attempt-IsSound :
      (s : Auth p) (found : Option p.Key)
      → pick_key_for_token p token s ≡ found
      → IsSound p token (attempt p token s found)
  unfolding attempt first_claims
  attempt-IsSound s none e = tt
  attempt-IsSound s (some key) e = first (p.decode_with_key (p.time s.world) token key) refl
    where
      first :
          (d : Decoded)
          → p.decode_with_key (p.time s.world) token key ≡ d
          → IsSound p token (first_claims p token s d)
      first (claims sub) f = (key, e, f)
      first expired f = tt
      first invalid f = retry-IsSound (ensure_keys p true s) _ refl

  attempt_or_refresh-IsSound :
      (s : Auth p) (found : Option p.Key)
      → pick_key_for_token p token s ≡ found
      → IsSound p token (attempt_or_refresh p token s found)
  unfolding attempt_or_refresh
  attempt_or_refresh-IsSound s (some key) e = attempt-IsSound s (some key) e
  attempt_or_refresh-IsSound s none e = attempt-IsSound (ensure_keys p true s) _ refl

  decode_jwt_token-IsSound : (s : Auth p) → IsSound p token (decode_jwt_token p token s)
  unfolding decode_jwt_token
  decode_jwt_token-IsSound s = cases (has_keys p (ensure_keys p false s).keys_by_kid)
    where
      cases :
          (b : Bool)
          → IsSound p token (
              if b
              then attempt_or_refresh p token
                  (ensure_keys p false s)
                  (pick_key_for_token p token (ensure_keys p false s))
              else (
                ensure_keys p false s,
                http_error 500 "JWT verification not configured — JWKS unavailable",
              ))
      cases true = attempt_or_refresh-IsSound (ensure_keys p false s) _ refl
      cases false = tt

module _ (p : Provider) where
  user_of_returned :
      (response : Response Sub) (user_id : String)
      → user_of p response ≡ returned user_id
      → (response ≡ returned (text user_id)) × (user_id ≢ "")
  unfolding user_of
  user_of_returned (http_error status detail) user_id h = absurd (cc)
  user_of_returned (returned missing) user_id h = absurd (cc)
  user_of_returned (returned other) user_id h = absurd (cc)
  user_of_returned (returned (text sub)) user_id h = elim (Bool-cases (str_eq sub "")) [
    | inl e ↦ absurd (let k = rw e at h in cc)
    | inr e ↦
        let same : sub ≡ user_id = (let k = rw e at h in cc) in
        (
          ap (λ u. returned (text u)) same,
          λ (z : user_id ≡ ""). false≢true (sym e ∙ (eq_iff sub "").1 (same ∙ z)),
        )
  ]

  accepted :
      (token : p.Token) (s s' : Auth p) (response : Response Sub) (user_id : String)
      → IsSound p token (s, response)
      → s ≡ s'
      → user_of p response ≡ returned user_id
      → Verifies p token s' (text user_id) × (user_id ≢ "")
  accepted token s s' response user_id sound same h =
      let (e, filled) = user_of_returned response user_id h in (rw same at (rw e at sound), filled)

  -- `get_current_user` returns a user only for a token that the key chosen from the cache, as it is
  -- after the call, verifies at the time of the call with that user as `sub`; and the user is not
  -- the empty text.
  pub get_current_user-verified :
      (token : p.Token) (s s' : Auth p) (user_id : String)
      → get_current_user p token s ≡ (s', returned user_id)
      → Verifies p token s' (text user_id) × (user_id ≢ "")
  unfolding get_current_user
  get_current_user-verified token s s' user_id h =
      accepted token _ s' _ user_id (decode_jwt_token-IsSound p token s) (ap (λ x. x.0) h)
        (ap (λ x. x.1) h)
