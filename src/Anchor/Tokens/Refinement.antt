-- ===== src/Anchor/Tokens/Refinement.antt =====
-- The store as its callers see it: a cell of its own for every account and home domain.
use showup.Prelude.{
  ℕ, true, ◌&&◌, Option, none, some, List, [], ◌∷◌, ◌≡◌, refl, arith, ap, ◌∙◌, if◌then◌else◌, inl,
  inr,
}
use showup.Prelude.Int.{ℤ}
use showup.Prelude.Outcome.{Outcome, returned, thrown, Outcome-cases}
use showup.Prelude.Text.{lacks, text_eq, text_eq-eq}
use showup.Anchor.Errors.{AnchorError}
use showup.Anchor.Tokens.{
  StoredToken, Tokens, Runtime, separator, find, read_token_expiry, store_token, is_spent,
  get_cached_token, clear_token,
}
use showup.Anchor.Tokens.Keyed.{view, view-put, view-remove, view-remove_prefix}

-- A call of the module that may change the map.
pub data TokenCall : Type 0 where
  store : List ℕ → List ℕ → List ℕ → TokenCall
  look_up : List ℕ → List ℕ → ℤ → TokenCall
  clear : Option (List ℕ) → Option (List ℕ) → TokenCall

-- A call that throws has changed nothing.
abbrev stored : Tokens → Outcome AnchorError (StoredToken × Tokens) → Tokens
stored tokens (returned (entry, after)) = after
stored tokens (thrown e) = tokens

unfoldable pub perform : Runtime → TokenCall → Tokens → Tokens
perform r (store address domain token) tokens =
    stored tokens (store_token r address domain token tokens)
perform r (look_up address domain now) tokens = (get_cached_token address domain now tokens).1
perform r (clear address domain) tokens = clear_token address domain tokens

unfoldable pub perform_all : Runtime → List TokenCall → Tokens → Tokens
perform_all r [] tokens = tokens
perform_all r (call ∷ calls) tokens = perform_all r calls (perform r call tokens)

-- The cell of one account and domain: empty, or a token with its expiry.
abbrev pub Cell : Type 0
Cell = Option StoredToken

abbrev pub fresh : ℤ → Cell → Cell
fresh now none = none
fresh now (some entry) = if is_spent entry now then none else some entry

abbrev filled : List ℕ → Cell → Outcome AnchorError ℤ → Cell
filled token cell (returned expires_at) = some (record { token = token; expires_at = expires_at })
filled token cell (thrown e) = cell

-- What a call does to the cell of `a` and `d`.
abbrev pub cell_step : Runtime → List ℕ → List ℕ → TokenCall → Cell → Cell
cell_step r a d (store address domain token) cell =
    if text_eq address a && text_eq domain d
    then filled token cell (read_token_expiry r token)
    else cell
cell_step r a d (look_up address domain now) cell =
    if text_eq address a && text_eq domain d then fresh now cell else cell
cell_step r a d (clear none domain) cell = none
cell_step r a d (clear (some address) none) cell = if text_eq address a then none else cell
cell_step r a d (clear (some address) (some domain)) cell =
    if text_eq address a && text_eq domain d then none else cell

abbrev pub cell_steps : Runtime → List ℕ → List ℕ → List TokenCall → Cell → Cell
cell_steps r a d [] cell = cell
cell_steps r a d (call ∷ calls) cell = cell_steps r a d calls (cell_step r a d call cell)

abbrev pub token_of : Cell → Option (List ℕ)
token_of none = none
token_of (some entry) = some entry.token

-- The accounts of a call have no NUL.
abbrev pub IsPlain : TokenCall → Type 0
IsPlain (store address domain token) = lacks separator address ≡ true
IsPlain (look_up address domain now) = lacks separator address ≡ true
IsPlain (clear none domain) = Unit
IsPlain (clear (some address) domain) = lacks separator address ≡ true

abbrev pub ArePlain : List TokenCall → Type 0
ArePlain [] = Unit
ArePlain (call ∷ calls) = IsPlain call × ArePlain calls

module _ (r : Runtime) (a d : List ℕ) (of_a : lacks separator a ≡ true) where
  view-perform :
      (call : TokenCall) (tokens : Tokens)
      → IsPlain call
      → view (perform r call tokens) a d ≡ cell_step r a d call (view tokens a d)
  unfolding perform store_token get_cached_token clear_token
  view-perform (store address domain token) tokens plain =
      elim (Outcome-cases (read_token_expiry r token)) [
        | inl (expires_at, e) ↦ ground (
          arith,
          e,
          view-put address a domain d plain of_a (record { token = token; expires_at = expires_at })
              tokens,
        )
        | inr (failure, e) ↦ ground (arith, e)
      ]
  view-perform (look_up address domain now) tokens plain = ground (
    arith,
    text_eq-eq address a,
    text_eq-eq domain d,
    view-remove address a domain d plain of_a tokens,
  )
  view-perform (clear none domain) tokens plain = unfold find in refl
  view-perform (clear (some address) none) tokens plain =
      view-remove_prefix address a d tokens plain of_a
  view-perform (clear (some address) (some domain)) tokens plain =
      view-remove address a domain d plain of_a tokens

  view-perform_all :
      (calls : List TokenCall) (tokens : Tokens)
      → ArePlain calls
      → view (perform_all r calls tokens) a d ≡ cell_steps r a d calls (view tokens a d)
  unfolding perform_all
  view-perform_all [] tokens plain = refl
  view-perform_all (call ∷ calls) tokens (plain, more) =
      view-perform_all calls (perform r call tokens) more
      ∙ ap (cell_steps r a d calls) (view-perform call tokens plain)

  get_cached_token-view :
      (now : ℤ) (tokens : Tokens)
      → (get_cached_token a d now tokens).0 ≡ token_of (fresh now (view tokens a d))
  unfolding get_cached_token
  get_cached_token-view now tokens = ground arith

  -- After any sequence of calls from the empty store, whose accounts have no NUL, what is cached for an
  -- account and a home domain is what a cell of their own holds: a call for another account or domain
  -- does not touch it, a token is stored under its own expiry, a token that has no readable expiry is
  -- not stored, a look-up drops a token from 30 seconds before its expiry on, and a clearing empties
  -- it when it names the account with this domain or with none, or nothing.
  pub get_cached_token-perform_all :
      (calls : List TokenCall) (now : ℤ)
      → ArePlain calls
      → (get_cached_token a d now (perform_all r calls [])).0
        ≡ token_of (fresh now (cell_steps r a d calls none))
  get_cached_token-perform_all calls now plain =
      get_cached_token-view now (perform_all r calls [])
      ∙ ap (λ cell. token_of (fresh now cell))
          (view-perform_all calls [] plain ∙ ap (cell_steps r a d calls) (unfold find in refl))
