-- ===== src/Anchor/Tokens.antt =====
-- apps/web/lib/anchor/token-store.ts: the SEP-10 tokens, held in memory by account and home domain.
-- Texts are lists of character codes; a key is the account, a NUL and the domain.
pub mod Keyed
pub mod Refinement
mod Tests
use showup.Prelude.{
  ℕ, ◌+◌, ◌-◌, ◌*◌, ◌/◌, String, Bool, true, false, ◌&&◌, Option, none, some, List, [], ◌∷◌, ◌++◌,
  map, ◌==◌, length, is_some, if◌then◌else◌,
}
use showup.Prelude.Int.{ℤ, pos, ◌-ℤ◌, leb_ℤ}
use showup.Prelude.Outcome.{Outcome, returned, thrown, ◌>>=◌}
use showup.Prelude.Text.{codes, pad_end, split_on, starts_with, text_eq}
use showup.Anchor.Errors.{AnchorError, protocol}
use showup.Anchor.Json.{JsNumber, Json, num, str, Fields, get, protocol_error}

-- `StoredToken`.
pub record StoredToken : Type 0 where
  pub token : List ℕ
  pub expires_at : ℤ

-- The module's `Map`, in the order of insertion.
abbrev pub Tokens : Type 0
Tokens = List (List ℕ × StoredToken)

-- `JWT_EXPIRY_SKEW_SECONDS`.
abbrev pub jwt_expiry_skew_seconds : ℕ
jwt_expiry_skew_seconds = 30

-- `TOKEN_KEY_SEPARATOR`.
abbrev pub separator : ℕ
separator = 0

-- `tokenKey`.
unfoldable pub token_key : List ℕ → List ℕ → List ℕ
token_key address home_domain = address ++ separator ∷ home_domain

-- `tokens.get`, `tokens.set` and `tokens.delete`.
unfoldable pub find : List ℕ → Tokens → Option StoredToken
find key [] = none
find key ((k, entry) ∷ tokens) = if text_eq k key then some entry else find key tokens

unfoldable pub put : List ℕ → StoredToken → Tokens → Tokens
put key entry [] = (key, entry) ∷ []
put key entry ((k, old) ∷ tokens) =
    if text_eq k key then (k, entry) ∷ tokens else (k, old) ∷ put key entry tokens

unfoldable pub remove : List ℕ → Tokens → Tokens
remove key [] = []
remove key ((k, entry) ∷ tokens) =
    let rest = remove key tokens in if text_eq k key then rest else (k, entry) ∷ rest

-- What the browser or Node gives: `atob` with the bytes of its binary string, the decoder of UTF-8,
-- Node's `Buffer`, `JSON.parse` (each of which may throw), and the floor of a finite number.
pub record Runtime : Type 0 where
  pub atob : Option (List ℕ → Option (List ℕ))
  pub decode_utf8 : List ℕ → List ℕ
  pub buffer : Option (List ℕ → List ℕ)
  pub parse : List ℕ → Option Json
  pub floor : JsNumber → ℤ

-- `-` becomes `+`, and `_` becomes `/`.
abbrev standard_digit : ℕ → ℕ
standard_digit c = if c == b'-' then b'+' else if c == b'_' then b'/' else c

-- `base64.padEnd(Math.ceil(base64.length / 4) * 4, "=")`.
unfoldable pub padded_base64 : List ℕ → List ℕ
padded_base64 segment = pad_end ((length segment + 3) / 4 * 4) b'=' (map standard_digit segment)

-- `decodeBase64Url`; `none` is a throw, which both of its callers catch.
unfoldable pub decode_base64_url : Runtime → List ℕ → Option (List ℕ)
decode_base64_url r segment = elim r.atob [
  | some atob ↦ elim (atob (padded_base64 segment)) [
    | none ↦ none
    | some bytes ↦ some (r.decode_utf8 bytes)
  ]
  | none ↦ elim r.buffer [ none ↦ none | some buffer ↦ some (buffer (padded_base64 segment)) ]
]

-- The second of three parts.
abbrev pub claims_segment : List (List ℕ) → Option (List ℕ)
claims_segment (header ∷ claims ∷ signature ∷ []) = some claims
claims_segment _ = none

abbrev and_then : {A B : Type 0} → Option A → (A → Option B) → Option B
and_then none f = none
and_then (some a) f = f a

unfoldable pub read_claims : Runtime → List ℕ → Option Json
read_claims r segment = and_then (decode_base64_url r segment) r.parse

-- A property of a claims value; no value but an object has one of these names.
unfoldable pub claim : String → Json → Option Json
claim key (Json.obj fields) = get fields key
claim key _ = none

abbrev expiry_of : Runtime → Option Json → Outcome AnchorError ℤ
expiry_of r (some (num n)) =
    if n.is_finite
    then returned (r.floor n)
    else thrown (protocol_error "The SEP-10 token has no usable `exp` claim.")
expiry_of r _ = thrown (protocol_error "The SEP-10 token has no usable `exp` claim.")

abbrev claims_expiry : Runtime → Option Json → Outcome AnchorError ℤ
claims_expiry r none = thrown (protocol_error "The SEP-10 token's claims could not be read.")
claims_expiry r (some claims) = expiry_of r (claim "exp" claims)

abbrev segment_expiry : Runtime → Option (List ℕ) → Outcome AnchorError ℤ
segment_expiry r none = thrown (protocol_error "The Anchor returned a malformed SEP-10 token.")
segment_expiry r (some segment) = claims_expiry r (read_claims r segment)

-- `readTokenExpiry`.
unfoldable pub read_token_expiry : Runtime → List ℕ → Outcome AnchorError ℤ
read_token_expiry r token = segment_expiry r (claims_segment (split_on b'.' token))

abbrev subject_of : Option Json → Option String
subject_of (some (str s)) = some s
subject_of _ = none

-- `readTokenSubject`. Reading a property of `null` throws, which is caught.
unfoldable pub read_token_subject : Runtime → List ℕ → Option String
read_token_subject r token =
    and_then (and_then (claims_segment (split_on b'.' token)) (read_claims r))
      (λ claims. subject_of (claim "sub" claims))

-- `storeToken`: the entry and the map after it.
unfoldable pub store_token :
    Runtime → List ℕ → List ℕ → List ℕ → Tokens → Outcome AnchorError (StoredToken × Tokens)
store_token r address home_domain token tokens = read_token_expiry r token >>= λ expires_at.
    let entry : StoredToken = record { token = token; expires_at = expires_at } in
    returned (entry, put (token_key address home_domain) entry tokens)

-- `entry.expiresAt - JWT_EXPIRY_SKEW_SECONDS <= nowSeconds`.
abbrev pub is_spent : StoredToken → ℤ → Bool
is_spent entry now = leb_ℤ (entry.expires_at -ℤ pos jwt_expiry_skew_seconds) now

abbrev cached_entry : List ℕ → ℤ → Tokens → Option StoredToken → Option (List ℕ) × Tokens
cached_entry key now tokens none = (none, tokens)
cached_entry key now tokens (some entry) =
    if is_spent entry now then (none, remove key tokens) else (some entry.token, tokens)

-- `getCachedToken`: the token, and the map after it.
unfoldable pub get_cached_token : List ℕ → List ℕ → ℤ → Tokens → Option (List ℕ) × Tokens
get_cached_token address home_domain now tokens =
    cached_entry (token_key address home_domain) now tokens
      (find (token_key address home_domain) tokens)

-- The loop of `clearToken` over the keys of an account.
unfoldable pub remove_prefix : List ℕ → Tokens → Tokens
remove_prefix prefix [] = []
remove_prefix prefix ((k, entry) ∷ tokens) =
    let rest = remove_prefix prefix tokens in
    if starts_with k prefix then rest else (k, entry) ∷ rest

-- `clearToken`.
unfoldable pub clear_token : Option (List ℕ) → Option (List ℕ) → Tokens → Tokens
clear_token none home_domain tokens = []
clear_token (some address) (some home_domain) tokens = remove (token_key address home_domain) tokens
clear_token (some address) none tokens = remove_prefix (address ++ separator ∷ []) tokens

-- `hasValidToken`.
unfoldable pub has_valid_token : List ℕ → List ℕ → ℤ → Tokens → Bool × Tokens
has_valid_token address home_domain now tokens =
    let (token, after) = get_cached_token address home_domain now tokens in (is_some token, after)
