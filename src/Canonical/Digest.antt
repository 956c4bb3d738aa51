-- ===== src/Canonical/Digest.antt =====
-- `canonical_bytes` of canonical.py and digest.py. The hash functions of Python's library are a
-- parameter: no property needs to know how they compute.
use Prim.Native.String
use open_authority_trials_oa.Prelude.{
  ℕ, ◌+◌, ◌/◌, ◌%◌, String, List, [], ◌∷◌, ◌++◌, ltb, if◌then◌else◌,
}
use open_authority_trials_oa.Canonical.Json.{Json}
use open_authority_trials_oa.Canonical.Text.{dumps}
use open_authority_trials_oa.Canonical.Strip.{strip_noncanonical}

-- `hashlib.sha256(data).hexdigest()` and `hmac.new(key, data, sha256).hexdigest()`
pub record Hashing : Type 0 where
  pub sha256 : List ℕ → String
  pub hmac_sha256 : List ℕ → List ℕ → String

-- The UTF-8 bytes of one code point.
unfoldable pub utf8 : ℕ → List ℕ
utf8 c =
    if ltb c 128
    then c ∷ []
    else if ltb c 2048
    then (192 + c / 64) ∷ (128 + c % 64) ∷ []
    else if ltb c 65536
    then (224 + c / 4096) ∷ (128 + c / 64 % 64) ∷ (128 + c % 64) ∷ []
    else (240 + c / 262144) ∷ (128 + c / 4096 % 64) ∷ (128 + c / 64 % 64) ∷ (128 + c % 64) ∷ []

unfoldable pub encode : List ℕ → List ℕ
unfolding utf8
encode [] = []
encode (c ∷ cs) = utf8 c ++ encode cs

unfoldable pub canonical_bytes : Json → List ℕ
canonical_bytes value = encode (dumps (strip_noncanonical value))

module _ (h : Hashing) where
  unfoldable pub digest_bytes : List ℕ → String
  digest_bytes bytes = String.◌++◌ "sha256:" (h.sha256 bytes)

  unfoldable pub digest_object : Json → String
  unfolding digest_bytes
  digest_object value = digest_bytes (canonical_bytes value)
