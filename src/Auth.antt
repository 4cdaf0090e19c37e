-- ===== src/Auth.antt =====
-- assets/backend/auth.py: the cache of the auth service's keys, and the check of a token against
-- it. The HTTP client, the construction of RSA keys and PyJWT are parameters; one request runs at a
-- time, so that the wait for `_jwks_lock` is immediate.
pub mod Tokens
pub mod Rotation
pub mod Refresh
use rag_agent_chatbot.Prelude.{
  ℕ, String, ◌-◌, Bool, true, false, not, ◌&&◌, ◌||◌, ◌==◌, Option, none, some, List, [], ◌∷◌,
  str_eq, ltb, length, if◌then◌else◌,
}
use rag_agent_chatbot.Dict
use rag_agent_chatbot.Http.{Response, returned, http_error}

-- An entry of the JWKS: `use` is absent, null, or a text.
pub record Jwk (Material : Type 0) : Type 0 where
  pub kty : Option String
  pub usage : Option (Option String)
  pub kid : Option String
  pub material : Material

-- `payload.get("sub")`: absent, a text, or some other value.
pub data Sub : Type 0 where
  missing other : Sub
  text : String → Sub

-- `jwt.decode`: the claims, or `ExpiredSignatureError`, or another `InvalidTokenError`.
pub data Decoded : Type 0 where
  claims : Sub → Decoded
  expired invalid : Decoded

-- What the module calls: the clock, `GET JWKS_URL` with its JSON (none where it raises), the key of
-- an entry (none where it raises), `jwt.get_unverified_header(token).get("kid")` (none where it
-- raises), and `_decode_with_key`, which reads the clock.
pub record Provider : Type 1 where
  pub World : Type 0
  pub Material : Type 0
  pub Key : Type 0
  pub Token : Type 0
  pub time : World → ℕ
  pub get : World → World × Option (List (Jwk Material))
  pub jwk_to_public_key : Material → Option Key
  pub header_kid : Token → Option (Option String)
  pub decode_with_key : ℕ → Token → Key → Decoded

abbrev jwks_refresh_interval : ℕ
jwks_refresh_interval = 300

-- `x or ""`
abbrev pub or_empty : Option String → String
or_empty none = ""
or_empty (some s) = s

abbrev is_rsa : Option String → Bool
is_rsa none = false
is_rsa (some kty) = str_eq kty "RSA"

abbrev is_for_signing : Option (Option String) → Bool
is_for_signing none = true
is_for_signing (some none) = false
is_for_signing (some (some usage)) = str_eq usage "sig"

module _ (p : Provider) where
  -- `_keys_by_kid` and `_last_fetch`, in the order of the dictionary.
  pub record Auth : Type 0 where
    pub keys_by_kid : List (String × p.Key)
    pub last_fetch : ℕ
    pub world : p.World

  abbrev pub has_keys {ℓ} : {A : Type ℓ} → List A → Bool
  has_keys [] = false
  has_keys (k ∷ ks) = true

  unfoldable pub add_built : String → Option p.Key → List (String × p.Key) → List (String × p.Key)
  add_built kid none cache = cache
  add_built kid (some pub_key) cache = Dict.assign kid pub_key cache

  -- One round of the loop over the entries.
  unfoldable pub add_key : Jwk p.Material → List (String × p.Key) → List (String × p.Key)
  unfolding add_built
  add_key key_data cache =
      if is_rsa key_data.kty && is_for_signing key_data.usage
      then add_built (or_empty key_data.kid) (p.jwk_to_public_key key_data.material) cache
      else cache

  unfoldable pub collect : List (Jwk p.Material) → List (String × p.Key) → List (String × p.Key)
  unfolding add_key
  collect [] cache = cache
  collect (key_data ∷ keys) cache = collect keys (add_key key_data cache)

  -- `if not new_cache: return`, or the keys replaced.
  unfoldable pub replace_keys : p.World → List (String × p.Key) → Auth → Auth
  replace_keys world [] s = record s { world = world }
  replace_keys world (k ∷ ks) s = record {
    keys_by_kid = k ∷ ks;
    last_fetch = p.time world;
    world = world;
  }

  unfoldable pub fetched : p.World × Option (List (Jwk p.Material)) → Auth → Auth
  unfolding replace_keys collect
  fetched (world, none) s = record s { world = world }
  fetched (world, some keys) s = replace_keys world (collect keys []) s

  unfoldable pub fetch_jwks : Auth → Auth
  unfolding fetched
  fetch_jwks s = fetched (p.get s.world) s

  abbrev pub is_fresh : Auth → Bool
  is_fresh s = has_keys s.keys_by_kid && ltb (p.time s.world - s.last_fetch) jwks_refresh_interval

  unfoldable pub ensure_keys : Bool → Auth → Auth
  unfolding fetch_jwks
  ensure_keys force s = if not force && is_fresh s then s else fetch_jwks s

  -- The lookups behind the header, and the only key where there is one.
  unfoldable pub only_key : List (String × p.Key) → Option p.Key
  only_key [] = none
  only_key (e ∷ []) = some e.1
  only_key (e ∷ f ∷ es) = none

  unfoldable pub key_or_only : List (String × p.Key) → Option p.Key → Option p.Key
  unfolding only_key
  key_or_only keys (some k) = some k
  key_or_only keys none = only_key keys

  unfoldable pub key_or_default : List (String × p.Key) → Option p.Key → Option p.Key
  unfolding key_or_only
  key_or_default keys (some k) = some k
  key_or_default keys none = key_or_only keys (Dict.lookup "" keys)

  unfoldable pub pick_by_header : List (String × p.Key) → Option (Option String) → Option p.Key
  unfolding key_or_default
  pick_by_header keys none = none
  pick_by_header keys (some kid) = key_or_default keys (Dict.lookup (or_empty kid) keys)

  unfoldable pub pick_key_for_token : p.Token → Auth → Option p.Key
  unfolding pick_by_header
  pick_key_for_token token s =
      if has_keys s.keys_by_kid then pick_by_header s.keys_by_kid (p.header_kid token) else none

  -- The last attempt: `ExpiredSignatureError` is an `InvalidTokenError` too.
  unfoldable pub final_claims : Decoded → Response Sub
  final_claims (claims sub) = returned sub
  final_claims expired = http_error 401 "Invalid token"
  final_claims invalid = http_error 401 "Invalid token"

  unfoldable pub retry : p.Token → Auth → Option p.Key → Response Sub
  unfolding final_claims
  retry token s none = http_error 401 "Invalid token"
  retry token s (some key) = final_claims (p.decode_with_key (p.time s.world) token key)

  unfoldable pub first_claims : p.Token → Auth → Decoded → Auth × Response Sub
  unfolding retry
  first_claims token s (claims sub) = (s, returned sub)
  first_claims token s expired = (s, http_error 401 "Token expired")
  first_claims token s invalid =
      let s₁ = ensure_keys true s in (s₁, retry token s₁ (pick_key_for_token token s₁))

  unfoldable pub attempt : p.Token → Auth → Option p.Key → Auth × Response Sub
  unfolding first_claims
  attempt token s none = (s, http_error 401 "Invalid token")
  attempt token s (some key) = first_claims token s (p.decode_with_key (p.time s.world) token key)

  -- A token of no cached key: one forced refresh.
  unfoldable pub attempt_or_refresh : p.Token → Auth → Option p.Key → Auth × Response Sub
  unfolding attempt
  attempt_or_refresh token s (some key) = attempt token s (some key)
  attempt_or_refresh token s none =
      let s₁ = ensure_keys true s in attempt token s₁ (pick_key_for_token token s₁)

  unfoldable pub decode_jwt_token : p.Token → Auth → Auth × Response Sub
  unfolding attempt_or_refresh
  decode_jwt_token token s =
      let s₁ = ensure_keys false s in
      if has_keys s₁.keys_by_kid
      then attempt_or_refresh token s₁ (pick_key_for_token token s₁)
      else (s₁, http_error 500 "JWT verification not configured — JWKS unavailable")

  unfoldable pub user_of : Response Sub → Response String
  user_of (http_error status detail) = http_error status detail
  user_of (returned (text sub)) =
      if str_eq sub "" then http_error 401 "Token missing or invalid sub claim" else returned sub
  user_of (returned missing) = http_error 401 "Token missing or invalid sub claim"
  user_of (returned other) = http_error 401 "Token missing or invalid sub claim"

  unfoldable pub get_current_user : p.Token → Auth → Auth × Response String
  unfolding user_of
  get_current_user token s = let (s₁, response) = decode_jwt_token token s in (s₁, user_of response)
