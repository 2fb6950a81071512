-- ===== src/Anchor/Request/Tests.antt =====
-- A poll with a token that the Anchor no longer takes.
use showup.Prelude.{String, none, some, false, true, ◌≡◌, refl}
use showup.Prelude.Outcome.{returned}
use showup.Prelude.Text.{before}
use showup.Anchor.Json.{Json, end, field, str}
use showup.Anchor.Request.{Response, RequestInit, get_method, anchor_request, endpoint_label}
use showup.Anchor.Request.Reading.{Read, IsLabelled, anchor_request-Read}

abbrev refused : Response
refused = record { ok = false; status = 403; text = returned "{...}" }

abbrev body : Json
body = Json.obj (field "type" (str "authentication_required") end)

abbrev poll : RequestInit
poll = record { method = get_method; token = some "t"; body = none; expect_json = true }

abbrev address : String
address = "https://a/transaction?id=7"

anchor_request-Read_example :
    Read
      (λ s. some body)
      true
      (some refused)
      (anchor_request (λ s. some body) (λ r. some refused) address poll)
    × IsLabelled address (anchor_request (λ s. some body) (λ r. some refused) address poll)
anchor_request-Read_example = anchor_request-Read (λ s. some body) (λ r. some refused) address poll

labelled : endpoint_label address ≡ "https://a/transaction"
unfolding endpoint_label before
labelled = refl
