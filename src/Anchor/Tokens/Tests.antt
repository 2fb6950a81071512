-- ===== src/Anchor/Tokens/Tests.antt =====
-- Two accounts at one Anchor; the token of one is cleared.
use showup.Prelude.{true, none, some, List, [], ◌∷◌, ◌≡◌, refl}
use showup.Prelude.Int.{pos, ◌-ℤ◌}
use showup.Prelude.Text.{codes, split_on, text_eq}
use showup.Anchor.Json.{Json, end, field, num, get}
use showup.Anchor.Tokens.{
  Runtime, decode_base64_url, read_claims, claim, read_token_expiry, get_cached_token,
}
use showup.Anchor.Tokens.Refinement.{
  TokenCall, store, look_up, clear, perform_all, get_cached_token-perform_all,
}

-- Every token expires at 1000.
abbrev runtime : Runtime
runtime = record {
  atob = some (λ s. some s);
  decode_utf8 = λ s. s;
  buffer = none;
  parse = λ s. some (Json.obj (field "exp" (num (record { text = "1000"; is_finite = true })) end));
  floor = λ n. pos 1000;
}

abbrev calls : List TokenCall
calls =
    store (codes "GA") (codes "anchor") (codes "h.one.s")
    ∷ store (codes "GB") (codes "anchor") (codes "h.two.s")
    ∷ look_up (codes "GB") (codes "anchor") (pos 200)
    ∷ clear (some (codes "GB")) none
    ∷ store (codes "GA") (codes "anchor") (codes "malformed")
    ∷ []

get_cached_token-perform_all_example :
    (get_cached_token (codes "GA") (codes "anchor") (pos 969) (perform_all runtime calls [])).0
    ≡ some (codes "h.one.s")
unfolding read_token_expiry read_claims decode_base64_url claim get split_on ◌-ℤ◌ text_eq
get_cached_token-perform_all_example =
    get_cached_token-perform_all runtime (codes "GA") (codes "anchor") refl calls (pos 969)
      (refl, (refl, (refl, (refl, (refl, tt)))))
