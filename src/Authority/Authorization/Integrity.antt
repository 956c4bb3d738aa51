-- ===== src/Authority/Authorization/Integrity.antt =====
-- oat/authority/authorization.py: signing and verifying.
use open_authority_trials_oa.Authority.Authorization.{
  payload, verify_integrity, sign, mac, Hashing, AuthorizationIssuer, Authorization, true,
}
use open_authority_trials_oa.Canonical.Digest.{Hashing}
use open_authority_trials_oa.Prelude.{◌≡◌, true, refl, ◌↔◌, eq_iff}

-- An authorization whose integrity is replaced by the signature of an issuer verifies with another
-- issuer exactly when both compute the same code of its payload; with the same issuer it always
-- verifies.
pub verify_integrity-sign :
    (h : Hashing) (i j : AuthorizationIssuer) (a : Authorization)
    → (verify_integrity h i (sign h i a) ≡ true)
      × ((verify_integrity h j (sign h i a) ≡ true) ↔ (mac h j a ≡ mac h i a))
unfolding verify_integrity sign mac payload
verify_integrity-sign h i j a =
    ((eq_iff (mac h i a) (mac h i a)).1 refl, eq_iff (mac h j a) (mac h i a))
