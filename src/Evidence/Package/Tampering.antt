-- ===== src/Evidence/Package/Tampering.antt =====
-- oat/evidence/replay.py: sealed packages and their changes.
use native.Mathlib.Omega.{arith}
use open_authority_trials_oa.Canonical.Json.{get_field, Fields, Json, field, end, obj, str}
use open_authority_trials_oa.Evidence.Package.{
  body_of, set_field, verify_package, seal, String, digest_matches, some, false, digest_mismatch,
}
use open_authority_trials_oa.Canonical.Digest.{Hashing, digest_object}
use open_authority_trials_oa.Prelude.{
  String, ◌≡◌, ◌==◌, none, if◌then◌else◌, some, false, eq_iff, ◌↔◌, refl, sym, Bool-cases, ap, ◌∙◌,
  inl, inr,
}

pub get-set :
    (fs : Fields) (k : String) (v : Json) (j : String)
    → get_field (set_field fs k v) j ≡ (if k == j then some v else get_field fs j)
unfolding get_field set_field
get-set end k v j = ground arith
get-set (field i w fs) k v j = ground (arith, get-set fs k v j, eq_iff i k, eq_iff i j, eq_iff k j)

body-set_other :
    (fs : Fields) (k : String) (v : Json)
    → (k == "evidence_digest") ≡ false
    → body_of (set_field fs k v) ≡ set_field (body_of fs) k v
unfolding body_of set_field
body-set_other end k v n = rw n refl
body-set_other (field i w fs) k v n =
    ground (arith, body-set_other fs k v n, eq_iff i k, eq_iff i "evidence_digest")

body-set_digest : (fs : Fields) (v : Json) → body_of (set_field fs "evidence_digest" v) ≡ body_of fs
unfolding body_of set_field
body-set_digest end v = refl
body-set_digest (field i w fs) v = ground (arith, body-set_digest fs v)

body_of-fresh : (fs : Fields) → get_field fs "evidence_digest" ≡ none → body_of fs ≡ fs
unfolding body_of get_field
body_of-fresh end n = refl
body_of-fresh (field i w fs) n = ground (arith, body_of-fresh fs)

verdict_iff :
    (s t : String)
    → ((if s == t then digest_matches else digest_mismatch (some (str s)) t) ≡ digest_matches)
      ↔ (s ≡ t)
verdict_iff s t = elim (Bool-cases (s == t)) [
  | inl y ↦ rw y ((λ _. (eq_iff s t).0 y), (λ _. refl))
  | inr n ↦ rw n ((λ e. ground (arith, e)), (λ e. ground (arith, eq_iff s t, n, e)))
]

module _ (h : Hashing) where
  -- A package that holds the digest `t`.
  verify_package_iff :
      (pkg : Fields) (t : String)
      → get_field pkg "evidence_digest" ≡ some (str t)
      → (verify_package h pkg ≡ digest_matches) ↔ (t ≡ digest_object h (obj (body_of pkg)))
  unfolding verify_package
  verify_package_iff pkg t held = rw held (verdict_iff t (digest_object h (obj (body_of pkg))))

  -- A package that is sealed when it has no evidence digest yet passes verification.
  pub verify_package-seal :
      (pkg : Fields)
      → get_field pkg "evidence_digest" ≡ none
      → verify_package h (seal h pkg) ≡ digest_matches
  unfolding seal
  verify_package-seal pkg fresh =
      let d = digest_object h (obj pkg) in
      (verify_package_iff (set_field pkg "evidence_digest" (str d)) d
          (get-set pkg "evidence_digest" (str d) "evidence_digest")).1
        (sym (
          ap (λ b. digest_object h (obj b))
            (body-set_digest pkg (str d) ∙ body_of-fresh pkg fresh)))

  -- A sealed package in which one other entry is then set to a new value passes verification exactly
  -- when the digest of its new body is the digest that was sealed.
  pub verify_package-edited :
      (pkg : Fields) (k : String) (v : Json)
      → get_field pkg "evidence_digest" ≡ none
      → (k == "evidence_digest") ≡ false
      → (verify_package h (set_field (seal h pkg) k v) ≡ digest_matches)
        ↔ (digest_object h (obj pkg) ≡ digest_object h (obj (set_field pkg k v)))
  unfolding seal
  verify_package-edited pkg k v fresh other =
      let d = digest_object h (obj pkg) in
      let sealed = set_field pkg "evidence_digest" (str d) in
      let held : get_field (set_field sealed k v) "evidence_digest" ≡ some (str d) =
        rw (get-set sealed k v "evidence_digest", other)
          (get-set pkg "evidence_digest" (str d) "evidence_digest") in
      let body : body_of (set_field sealed k v) ≡ set_field pkg k v =
        rw (body-set_other sealed k v other, body-set_digest pkg (str d), body_of-fresh pkg fresh)
          refl in
      rw (sym body) (verify_package_iff (set_field sealed k v) d held)
