-- ===== src/Anchor/Request.antt =====
-- apps/web/lib/anchor/http.ts: the address of a request, the request itself, and how its response is
-- read. The network (`fetch` with its timer and abort signal), the browser's `URL` and `JSON.parse` are
-- parameters.
pub mod Reading
mod Tests
use showup.Prelude.{
  ℕ, String, Bool, true, false, ◌&&◌, ◌||◌, not, Option, none, some, List, [], ◌∷◌, ◌==◌, str_eq,
  is_truthy, if◌then◌else◌,
}
use Prim.Native.String.{◌++◌ as str_append}
use showup.Prelude.Outcome.{Outcome, returned, thrown, ◌>>=◌}
use showup.Prelude.Text.{trim_string, cut_end, first_chars, before, begins_with}
use showup.Anchor.Errors.{
  AnchorError, new_anchor_error, unreachable, authentication_required, server_rejected, protocol,
  no_options,
}
use showup.Anchor.Json.{Json, str, Fields, get, as_object}

-- What a call throws: an `AnchorError`, or anything else, such as a `TypeError` or the wallet's error.
pub data Failure : Type 0 where
  anchor : AnchorError → Failure
  other : String → Failure

abbrev pub lift : {A : Type 0} → Outcome AnchorError A → Outcome Failure A
lift (returned a) = returned a
lift (thrown e) = thrown (anchor e)

-- `URL`: `new URL(text)`, which throws on what is no address; `host` and `protocol`; setting a query
-- parameter; and `toString()`.
pub record UrlLibrary (U : Type 0) : Type 0 where
  pub read : String → Option U
  pub host : U → String
  pub protocol : U → String
  pub set_parameter : U → String → String → U
  pub print : U → String

-- The query parameters in order; `none` is `undefined`.
abbrev pub Query : Type 0
Query = List (String × Option String)

abbrev is_slash : ℕ → Bool
is_slash c = c == b'/'

abbrev with_slash : String → String
with_slash path =
    if str_eq path "" then "" else if begins_with b'/' path then path else str_append "/" path

module _ {U : Type 0} (urls : UrlLibrary U) where
  -- The loop over the query: a value that is missing or empty is left out.
  unfoldable pub set_parameters : U → Query → U
  set_parameters url [] = url
  set_parameters url ((key, none) ∷ query) = set_parameters url query
  set_parameters url ((key, some value) ∷ query) =
      set_parameters (if str_eq value "" then url else urls.set_parameter url key value) query

  abbrev printed : Query → Option U → Outcome Failure String
  printed query none = thrown (other "Invalid URL")
  printed query (some url) = returned (urls.print (set_parameters url query))

  -- `buildUrl`.
  unfoldable pub build_url : String → String → Query → Outcome Failure String
  build_url base path query =
      printed query (urls.read (str_append (cut_end is_slash base) (with_slash path)))

-- `endpointLabel`.
unfoldable pub endpoint_label : String → String
endpoint_label url = before b'?' url

pub data Method : Type 0 where
  get_method post_method : Method

-- `AnchorRequestInit`; a body is a JSON value, which is sent as its text.
pub record RequestInit : Type 0 where
  pub method : Method
  pub token : Option String
  pub body : Option Json
  pub expect_json : Bool

-- What goes to `fetch`.
pub record HttpRequest : Type 0 where
  pub url : String
  pub method : Method
  pub headers : List (String × String)
  pub body : Option Json

-- A response, with what `await response.text()` gives: its text, or the error of a body that breaks off.
pub record Response : Type 0 where
  pub ok : Bool
  pub status : ℕ
  pub text : Outcome String String

-- `Authorization`, unless the token is missing or empty.
abbrev authorization : Option String → List (String × String) → List (String × String)
authorization none headers = headers
authorization (some token) headers =
    if str_eq token "" then headers else ("Authorization", str_append "Bearer " token) ∷ headers

abbrev content_type : Option Json → List (String × String)
content_type none = []
content_type (some body) = ("Content-Type", "application/json") ∷ []

-- The request that `anchorRequest` makes.
unfoldable pub request_of : String → RequestInit → HttpRequest
request_of url init = record {
  url = url;
  method = init.method;
  headers = ("Accept", "application/json") ∷ authorization init.token (content_type init.body);
  body = init.body;
}

-- `ParsedErrorBody`.
pub record ParsedErrorBody : Type 0 where
  pub server_message : Option String
  pub server_type : Option String

-- `typeof value === "string" ? value : otherwise`.
abbrev text_or : Option Json → Option String → Option String
text_or (some (str s)) otherwise = some s
text_or _ otherwise = otherwise

abbrev spoken : String → Option Fields → ParsedErrorBody
spoken text none = record { server_message = some (first_chars 500 text); server_type = none }
spoken text (some fields) = record {
  server_message = text_or (get fields "error") (text_or (get fields "message") none);
  server_type = text_or (get fields "type") none;
}

abbrev object_in : Option Json → Option Fields
object_in none = none
object_in (some v) = as_object v

-- `serverType === "authentication_required"`.
abbrev is_session_type : Option String → Bool
is_session_type none = false
is_session_type (some type) = str_eq type "authentication_required"

module _ (parse : String → Option Json) where
  -- `readErrorBody`; `parse` is `JSON.parse`, with `none` where it throws.
  unfoldable pub read_error_body : String → ParsedErrorBody
  read_error_body raw =
      let text = trim_string raw in
      if str_eq text ""
      then record { server_message = none; server_type = none }
      else spoken text (object_in (parse text))

  -- The error of a response that is not ok.
  abbrev pub rejection : String → ℕ → ParsedErrorBody → AnchorError
  rejection label status body =
      let options = record no_options {
        status = some status;
        server_message = body.server_message;
        server_type = body.server_type;
        endpoint = some label;
      } in
      if is_session_type body.server_type
      then new_anchor_error authentication_required "The Anchor session has expired." options
      else new_anchor_error server_rejected "The Anchor rejected this request." options

  abbrev parsed : String → ℕ → Option Json → Outcome AnchorError (Option Json)
  parsed label status (some v) = returned (some v)
  parsed label status none = thrown (
      new_anchor_error protocol "The Anchor returned a response this client could not read."
        (record no_options { status = some status; endpoint = some label }))

  abbrev accepted : String → Bool → ℕ → String → Outcome AnchorError (Option Json)
  accepted label expect_json status text =
      if not expect_json || str_eq (trim_string text) ""
      then returned none
      else parsed label status (parse text)

  -- What is made of a response with this text.
  abbrev pub answered : String → Bool → Response → String → Outcome AnchorError (Option Json)
  answered label expect_json response text =
      if response.ok
      then accepted label expect_json response.status text
      else thrown (rejection label response.status (read_error_body text))

  -- The text is read outside the `try`: its error is thrown as it is.
  abbrev pub with_text :
      String → Bool → Response → Outcome String String → Outcome Failure (Option Json)
  with_text label expect_json response (returned text) =
      lift (answered label expect_json response text)
  with_text label expect_json response (thrown message) = thrown (other message)

  -- How `anchorRequest` reads what `fetch` gave; `none` is a `fetch` that threw.
  unfoldable pub read_response : String → Bool → Option Response → Outcome Failure (Option Json)
  read_response label expect_json none = thrown (
      anchor (
        new_anchor_error unreachable
          "Funding is temporarily unavailable — the Anchor could not be reached."
          (record no_options { endpoint = some label })))
  read_response label expect_json (some response) =
      with_text label expect_json response response.text

  -- `anchorRequest`; `none` is `undefined`.
  unfoldable pub anchor_request :
      (HttpRequest → Option Response) → String → RequestInit → Outcome Failure (Option Json)
  anchor_request fetch url init =
      read_response (endpoint_label url) init.expect_json (fetch (request_of url init))
