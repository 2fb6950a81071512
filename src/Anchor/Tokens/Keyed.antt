-- ===== src/Anchor/Tokens/Keyed.antt =====
-- The map by account and domain: what is found under one key after a change under another.
use showup.Prelude.{
  ℕ, true, ◌&&◌, Option, none, some, List, [], ◌∷◌, ◌++◌, ◌≡◌, refl, arith, if◌then◌else◌,
}
use showup.Prelude.Text.{
  text_eq, text_eq-eq, text_eq_refl, starts_with, starts_with-delimited, text_eq-delimited, lacks,
}
use showup.Anchor.Tokens.{
  StoredToken, Tokens, separator, token_key, find, put, remove, remove_prefix,
}

pub find-put :
    (key j : List ℕ) (entry : StoredToken) (tokens : Tokens)
    → find j (put key entry tokens) ≡ (if text_eq key j then some entry else find j tokens)
unfolding find put
find-put key j entry [] = refl
find-put key j entry ((k, old) ∷ tokens) = ground (
  arith,
  text_eq-eq k key,
  text_eq-eq k j,
  text_eq-eq key j,
  text_eq_refl j,
  find-put key j entry tokens,
)

pub find-remove :
    (key j : List ℕ) (tokens : Tokens)
    → find j (remove key tokens) ≡ (if text_eq key j then none else find j tokens)
unfolding find remove
find-remove key j [] = ground arith
find-remove key j ((k, old) ∷ tokens) = ground (
  arith,
  text_eq-eq k key,
  text_eq-eq k j,
  text_eq-eq key j,
  text_eq_refl j,
  find-remove key j tokens,
)

pub find-remove_prefix :
    (prefix j : List ℕ) (tokens : Tokens)
    → find j (remove_prefix prefix tokens) ≡ (if starts_with j prefix then none else find j tokens)
unfolding find remove_prefix
find-remove_prefix prefix j [] = ground arith
find-remove_prefix prefix j ((k, old) ∷ tokens) =
    ground (arith, text_eq-eq k j, find-remove_prefix prefix j tokens)

-- What the account and the domain name in the map.
abbrev pub view : Tokens → List ℕ → List ℕ → Option StoredToken
view tokens address home_domain = find (token_key address home_domain) tokens

module _ (a b d e : List ℕ) (of_a : lacks separator a ≡ true)
    (of_b : lacks separator b ≡ true) where
  pub view-put :
      (entry : StoredToken) (tokens : Tokens)
      → view (put (token_key a d) entry tokens) b e
        ≡ (if text_eq a b && text_eq d e then some entry else view tokens b e)
  unfolding token_key
  view-put entry tokens =
      rw (← text_eq-delimited separator a b d e of_a of_b)
        (find-put (token_key a d) (token_key b e) entry tokens)

  pub view-remove :
      (tokens : Tokens)
      → view (remove (token_key a d) tokens) b e
        ≡ (if text_eq a b && text_eq d e then none else view tokens b e)
  unfolding token_key
  view-remove tokens =
      rw (← text_eq-delimited separator a b d e of_a of_b)
        (find-remove (token_key a d) (token_key b e) tokens)

pub view-remove_prefix :
    (a b e : List ℕ) (tokens : Tokens)
    → lacks separator a ≡ true
    → lacks separator b ≡ true
    → view (remove_prefix (a ++ separator ∷ []) tokens) b e
      ≡ (if text_eq a b then none else view tokens b e)
unfolding token_key
view-remove_prefix a b e tokens of_a of_b =
    rw (← starts_with-delimited separator a b e of_a of_b)
      (find-remove_prefix (a ++ separator ∷ []) (token_key b e) tokens)
