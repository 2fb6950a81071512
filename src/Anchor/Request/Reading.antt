-- ===== src/Anchor/Request/Reading.antt =====
-- How a request can end, and what its error tells.
use Prim.Native.Char.{code}
use showup.Prelude.{
  ℕ, ap, ◌∙◌, String, Bool, true, false, not, Option, none, some, ◌≡◌, ◌≢◌, ◌⊎◌, ◌==◌, inl, inr,
  refl, arith, str_eq, eq_iff, all, Bool-cases, Option-cases,
}
use showup.Prelude.Outcome.{Outcome, returned, thrown}
use showup.Prelude.Text.{codes, before, trim_string}
use showup.Anchor.Errors.{
  AnchorError, new_anchor_error, unreachable, authentication_required, server_rejected, protocol,
}
use showup.Anchor.Json.{Json}
use showup.Anchor.Request.{
  Failure, anchor, other, lift, HttpRequest, RequestInit, Response, request_of, endpoint_label,
  read_error_body, answered, with_text, read_response, anchor_request,
}

-- The session of a refused request has expired, in the Anchor's own words.
abbrev pub IsExpired : (String → Option Json) → String → Type 0
IsExpired parse text = (read_error_body parse text).server_type ≡ some "authentication_required"

-- The ways in which a request ends, by the response that `fetch` gave.
pub data Read (parse : String → Option Json) (expect_json : Bool)
    : Option Response → Outcome Failure (Option Json) → Type 0 where
  unreached :
      {e : AnchorError} → e.kind ≡ unreachable → Read parse expect_json none (thrown (anchor e))
  broken_off :
      {r : Response} {message : String}
      → r.text ≡ thrown message
      → Read parse expect_json (some r) (thrown (other message))
  expired :
      {r : Response} {text : String} {e : AnchorError}
      → r.text ≡ returned text
      → r.ok ≡ false
      → IsExpired parse text
      → e.kind ≡ authentication_required
      → Read parse expect_json (some r) (thrown (anchor e))
  rejected :
      {r : Response} {text : String} {e : AnchorError}
      → r.text ≡ returned text
      → r.ok ≡ false
      → ((read_error_body parse text).server_type ≢ some "authentication_required")
      → e.kind ≡ server_rejected
      → e.status ≡ some r.status
      → e.server_message ≡ (read_error_body parse text).server_message
      → Read parse expect_json (some r) (thrown (anchor e))
  unreadable :
      {r : Response} {text : String} {e : AnchorError}
      → r.text ≡ returned text
      → r.ok ≡ true
      → expect_json ≡ true
      → parse text ≡ none
      → e.kind ≡ protocol
      → Read parse expect_json (some r) (thrown (anchor e))
  unread :
      {r : Response} {text : String}
      → r.text ≡ returned text
      → r.ok ≡ true
      → (expect_json ≡ false) ⊎ (trim_string text ≡ "")
      → Read parse expect_json (some r) (returned none)
  value :
      {r : Response} {text : String} {v : Json}
      → r.text ≡ returned text
      → r.ok ≡ true
      → expect_json ≡ true
      → parse text ≡ some v
      → Read parse expect_json (some r) (returned (some v))

before-lacks : (c : ℕ) (s : String) → all (λ d. not (d == c)) (codes (before c s)) ≡ true
unfolding before
before-lacks c String.[] = refl
before-lacks c (String.◌∷◌ d s) = elim (Bool-cases (code d == c)) [
  | inl same ↦ rw same
  | inr differs ↦ rw (differs, differs) (before-lacks c s)
]

not_missing : {o : Option String} {t : String} → o ≡ none → o ≢ some t
not_missing e h = cc

not_same :
    {o : Option String} (type : String)
    → o ≡ some type
    → str_eq type "authentication_required" ≡ false
    → o ≢ some "authentication_required"
not_same type e differs h = ground (arith, eq_iff type "authentication_required")

module _ (parse : String → Option Json) (label : String) where
  read_ok :
      (expect_json : Bool) (r : Response) (text : String)
      → r.text ≡ returned text
      → r.ok ≡ true
      → Read parse expect_json (some r) (lift (answered parse label expect_json r text))
  unfolding new_anchor_error
  read_ok false r text is ok = simp ok (unread is ok (inl refl))
  read_ok true r text is ok = elim (Bool-cases (str_eq (trim_string text) "")) [
    | inl blank ↦ simp (ok, blank) (unread is ok (inr ((eq_iff _ _).0 blank)))
    | inr full ↦ elim (Option-cases (parse text)) [
      | inl e ↦ simp (ok, full, e) (unreadable is ok refl e refl)
      | inr (v, e) ↦ simp (ok, full, e) (value is ok refl e)
    ]
  ]

  read_not_ok :
      (expect_json : Bool) (r : Response) (text : String)
      → r.text ≡ returned text
      → r.ok ≡ false
      → Read parse expect_json (some r) (lift (answered parse label expect_json r text))
  unfolding new_anchor_error
  read_not_ok expect_json r text is refused =
      elim (Option-cases ((read_error_body parse text).server_type)) [
        | inl e ↦ simp (refused, e) (rejected is refused (not_missing e) refl refl refl)
        | inr (type, e) ↦ elim (Bool-cases (str_eq type "authentication_required")) [
          | inl same ↦
              simp (refused, e, same) (expired is refused (e ∙ ap some ((eq_iff _ _).0 same)) refl)
          | inr differs ↦
              simp (refused, e, differs)
                (rejected is refused (not_same type e differs) refl refl refl)
        ]
      ]

  with_text-Read :
      (expect_json : Bool) (r : Response) (text : Outcome String String)
      → r.text ≡ text
      → Read parse expect_json (some r) (with_text parse label expect_json r text)
  with_text-Read expect_json r (thrown message) is = broken_off is
  with_text-Read expect_json r (returned text) is = elim (Bool-cases r.ok) [
    | inl ok ↦ read_ok expect_json r text is ok
    | inr refused ↦ read_not_ok expect_json r text is refused
  ]

  read_response-Read :
      (expect_json : Bool) (r : Option Response)
      → Read parse expect_json r (read_response parse label expect_json r)
  unfolding read_response new_anchor_error
  read_response-Read expect_json none = unreached refl
  read_response-Read expect_json (some r) = with_text-Read expect_json r r.text refl

  error_endpoint :
      (expect_json : Bool) (r : Option Response) (e : AnchorError)
      → read_response parse label expect_json r ≡ thrown (anchor e)
      → e.endpoint ≡ some label
  unfolding read_response new_anchor_error
  error_endpoint expect_json none e h = ground arith
  error_endpoint expect_json (some r) e h = ground arith

-- An `AnchorError` names the endpoint without its query.
abbrev pub IsLabelled : String → Outcome Failure (Option Json) → Type 0
IsLabelled url (returned payload) = Unit
IsLabelled url (thrown (other message)) = Unit
IsLabelled url (thrown (anchor e)) =
    (e.endpoint ≡ some (endpoint_label url))
    × (all (λ c. not (c == b'?')) (codes (endpoint_label url)) ≡ true)

labels :
    (url : String) (result : Outcome Failure (Option Json))
    → ((e : AnchorError) → result ≡ thrown (anchor e) → e.endpoint ≡ some (endpoint_label url))
    → IsLabelled url result
labels url (returned payload) h = tt
labels url (thrown (other message)) h = tt
labels url (thrown (anchor e)) h = (h e refl, unfold endpoint_label in before-lacks b'?' url)

-- A request ends in one of these ways: `fetch` threw and it is unreachable; the text of the response
-- could not be read, and that error is thrown as it is; the response was not ok and its body says that
-- the session expired, or it is rejected with the Anchor's own words; the response was ok and
-- unreadable, not read, or read as it stands. An `AnchorError` names the endpoint without its query.
pub anchor_request-Read :
    (parse : String → Option Json) (fetch : HttpRequest → Option Response) (url : String)
    (init : RequestInit)
    → Read parse init.expect_json
        (fetch (request_of url init))
        (anchor_request parse fetch url init)
      × IsLabelled url (anchor_request parse fetch url init)
unfolding anchor_request
anchor_request-Read parse fetch url init = (
  read_response-Read parse (endpoint_label url) init.expect_json (fetch (request_of url init)),
  labels url _
      (error_endpoint parse (endpoint_label url) init.expect_json (fetch (request_of url init))),
)
