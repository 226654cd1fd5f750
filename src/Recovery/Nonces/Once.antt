-- ===== src/Recovery/Nonces/Once.antt =====
-- A signed request is accepted once: its nonce is kept as long as its timestamp is in the window.
use adg_lang.Common.{
  ℕ, suc, ◌≤◌, ◌≡◌, true, false, List, ◌∷◌, String, any, ◌⊎◌, Result, ok, err, All,
}
use adg_lang.Recovery.Nonces.{
  SignedRequest, Signing, NonceRow, RouteError, expires_at, is_row_of, verify_signed_cpoly_request,
  prune_signed_nonces,
}

-- The table after the requests and the cleanings of the nonces that come later, and the time of the last.
pub data Later (k : Signing) (start : ℕ) (rows : List NonceRow) : ℕ → List NonceRow → Type 0 where
  here : Later k start rows start rows
  verified :
      {t : ℕ} {table : List NonceRow} (now : ℕ) (r : SignedRequest)
      → t ≤ now
      → Later k start rows t table
      → Later k start rows now (verify_signed_cpoly_request k r now table).1
  pruned :
      {t : ℕ} {table : List NonceRow} (now limit : ℕ)
      → t ≤ now
      → Later k start rows t table
      → Later k start rows now (prune_signed_nonces now limit table)

-- All rows of the nonce expire at the time.
abbrev pub ExpiresAt : String → ℕ → List NonceRow → Type 0
ExpiresAt nonce e rows = All (λ r. is_row_of nonce r ≡ true → r.expires_at ≡ e) rows

-- The nonce is kept until the time.
abbrev pub IsKeptUntil : String → ℕ → ℕ → List NonceRow → Type 0
IsKeptUntil nonce e now rows =
    ((any (is_row_of nonce) rows ≡ true) × ExpiresAt nonce e rows) ⊎ (e ≤ now)

-- What a claim makes of the table.
data Claimed (r : NonceRow) (rows : List NonceRow)
    : Result RouteError (Unit {0}) × List NonceRow → Type 0 where
  refused : (x : RouteError) → Claimed r rows (err x, rows)
  claimed :
      any (is_row_of r.nonce) rows ≡ false
      → suc r.created_at ≤ r.expires_at
      → Claimed r rows (ok tt, r ∷ rows)
