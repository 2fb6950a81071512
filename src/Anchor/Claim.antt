-- ===== src/Anchor/Claim.antt =====
-- apps/web/lib/anchor/claim.ts and `isQuoteExpired` of sep38.ts.
use showup.Prelude.{Bool, true, false, is_truthy}
use showup.Prelude.Int.{ℤ, leb_ℤ}
use showup.Anchor.Types.{Quote, DepositStatusCode, pending_trust, completed, DepositStatus}

abbrev needs_claim_at : DepositStatusCode → DepositStatus → Bool
needs_claim_at pending_trust s = true
needs_claim_at completed s = is_truthy s.claimable_balance_id
needs_claim_at _ s = false

-- `needsClaim`.
unfoldable pub needs_claim : DepositStatus → Bool
needs_claim s = needs_claim_at s.status s

-- `isQuoteExpired`.
unfoldable pub is_quote_expired : Quote → ℤ → Bool
is_quote_expired quote now = leb_ℤ quote.expires_at now
