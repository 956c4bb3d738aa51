-- ===== src/Evidence/Package.antt =====
-- `verify_package` of oat/evidence/replay.py, and the step of `run_scenario` that seals a package.
pub mod Tampering
use native.Mathlib.Omega.{arith}
use open_authority_trials_oa.Canonical.Json.{Fields, Json, get_field, str, field, obj, end}
use open_authority_trials_oa.Prelude.{Option, String, if◌then◌else◌, Bool, ◌==◌, some, false}
use open_authority_trials_oa.Canonical.Digest.{Hashing, digest_object}

-- `package[key] = value`: in place, or at the end
unfoldable pub set_field : Fields → String → Json → Fields
set_field end k v = field k v end
set_field (field j w fs) k v = if j == k then field j v fs else field j w (set_field fs k v)

-- `{k: v for k, v in package.items() if k != "evidence_digest"}`
unfoldable pub body_of : Fields → Fields
body_of end = end
body_of (field k v fs) = if k == "evidence_digest" then body_of fs else field k v (body_of fs)

-- The texts of the answer are kept as the data that they print.
pub data PackageCheck : Type 0 where
  digest_matches : PackageCheck
  digest_mismatch : Option Json → String → PackageCheck

-- `stored != recomputed` of a looked-up value and a text
abbrev pub is_text : Option Json → String → Bool
is_text (some (str s)) t = s == t
is_text _ t = false

module _ (h : Hashing) where
  unfoldable pub verify_package : Fields → PackageCheck
  verify_package pkg =
      let stored = get_field pkg "evidence_digest" in
      let recomputed = digest_object h (obj (body_of pkg)) in
      if is_text stored recomputed then digest_matches else digest_mismatch stored recomputed

  -- `pkg["evidence_digest"] = digest_object(pkg)`
  unfoldable pub seal : Fields → Fields
  seal pkg = set_field pkg "evidence_digest" (str (digest_object h (obj pkg)))
