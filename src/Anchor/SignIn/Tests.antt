-- ===== src/Anchor/SignIn/Tests.antt =====
-- A first sign-in, and a call whose session has expired.
use showup.Prelude.{ℕ, String, false, true, none, some, Option, List, [], ◌∷◌, ◌≡◌, refl}
use showup.Prelude.Int.{pos, ◌-ℤ◌}
use showup.Prelude.Outcome.{Outcome, returned, thrown}
use showup.Prelude.Text.{codes, split_on, text_eq, cut_end, trim_string, before, pad_end}
use showup.Anchor.Errors.{new_anchor_error, authentication_required, no_options}
use showup.Anchor.Json.{
  Json, end, field, str, num, get, require_string, require_record, optional_string,
}
use showup.Anchor.Request.{
  Failure, anchor, build_url, set_parameters, anchor_request, read_response, request_of,
  endpoint_label,
}
use showup.Anchor.Calls.Tests.{texts, config}
use showup.Anchor.Tokens.{
  Runtime, decode_base64_url, read_claims, claim, read_token_expiry, token_key, find, store_token,
  get_cached_token, put, clear_token, remove, padded_base64,
}
use showup.Anchor.SignIn.{
  State, ChallengeReader, World, AuthenticateOptions, sign_in, authenticate, with_fresh_token,
  ◌>>=◌, of, validate_challenge, request_challenge, exchange_challenge, call_once, fetch_json,
  ask_wallet, forget, keep_token, cached,
}
use showup.Anchor.SignIn.Steps.{Follows, signatures, calls}
use showup.Anchor.SignIn.Bounds.{with_fresh_token_bounds}

-- Every answer holds a challenge, a token and the claims of one.
abbrev answer : Json
answer = Json.obj (
    field "transaction" (str "XDR") (
      field "token" (str "h.c.s")
        (field "exp" (num (record { text = "1000"; is_finite = true })) end)))

abbrev parser : String → Option Json
parser s = some answer

abbrev reader : ChallengeReader
reader xdr key network domain host =
    returned (record { client_account_id = "GA"; matched_home_domain = domain })

abbrev runtime : Runtime
runtime = record {
  atob = some (λ s. some s);
  decode_utf8 = λ s. s;
  buffer = none;
  parse = λ s. some answer;
  floor = λ n. pos 1000;
}

abbrev world : World
world = record {
  fetch = λ n r. some (record { ok = true; status = 200; text = returned "{...}" });
  wallet = λ n xdr. returned (some "SIGNED");
  clock = λ n. pos 500;
}

abbrev options : AuthenticateOptions
options = record {
  config = config;
  now_seconds = none;
  force_refresh = false;
  client_domain = none;
}

-- Each token is refused.
abbrev refusing : ℕ → List ℕ → Outcome Failure ℕ
refusing n token = thrown (anchor (new_anchor_error authentication_required "expired" no_options))

abbrev accepting : ℕ → List ℕ → Outcome Failure ℕ
accepting n token = returned n

abbrev signed_out : State
signed_out = record { tokens = []; steps = [] }

abbrev signed_in : State
signed_in = record {
  tokens = (codes "GA\0anchor", record { token = codes "h.c.s"; expires_at = pos 1000 }) ∷ [];
  steps = [];
}

with_fresh_token_bounds_example :
    Follows texts reader config "GA" 2 2 signed_out
      (with_fresh_token texts parser reader runtime world refusing "GA" options signed_out).1
with_fresh_token_bounds_example =
    with_fresh_token_bounds texts parser reader runtime world refusing "GA" options signed_out

-- Both bounds are met.
refused_twice :
    let s =
      (with_fresh_token texts parser reader runtime world refusing "GA" options signed_out).1 in
    (signatures s.steps ≡ 2) × (calls s.steps ≡ 2)
unfolding with_fresh_token authenticate sign_in ◌>>=◌ of validate_challenge request_challenge
    exchange_challenge fetch_json ask_wallet forget keep_token cached call_once build_url
    set_parameters anchor_request read_response require_string require_record optional_string get
    split_on text_eq cut_end trim_string read_token_expiry read_claims decode_base64_url claim
    store_token get_cached_token put find token_key new_anchor_error clear_token remove request_of
    before endpoint_label ◌-ℤ◌ padded_base64 pad_end
refused_twice = (refl, refl)
