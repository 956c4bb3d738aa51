-- ===== src/Canonical/Strip.antt =====
-- `strip_noncanonical` of canonical.py
use open_authority_trials_oa.Prelude.{
  String, ◌≡◌, refl, ap, List, [], ◌∷◌, arith, contains, if◌then◌else◌,
}
use open_authority_trials_oa.Canonical.Json.{
  Json, null, bool, num, str, arr, obj, Items, nil, cons, Fields, end, field,
}

abbrev pub noncanonical_keys : List String
noncanonical_keys = "runtime" ∷ []

unfoldable mutual
  unfolding contains

  pub strip_noncanonical : Json → Json
  strip_noncanonical null = null
  strip_noncanonical (bool b) = bool b
  strip_noncanonical (num n) = num n
  strip_noncanonical (str s) = str s
  strip_noncanonical (arr xs) = arr (strip_items xs)
  strip_noncanonical (obj fs) = obj (strip_fields fs)

  pub strip_items : Items → Items
  strip_items nil = nil
  strip_items (cons x xs) = cons (strip_noncanonical x) (strip_items xs)

  pub strip_fields : Fields → Fields
  strip_fields end = end
  strip_fields (field k v fs) =
      if contains noncanonical_keys k
      then strip_fields fs
      else field k (strip_noncanonical v) (strip_fields fs)

mutual
  unfolding strip_noncanonical

  strip_idem : (j : Json) → strip_noncanonical (strip_noncanonical j) ≡ strip_noncanonical j
  strip_idem null = refl
  strip_idem (bool b) = refl
  strip_idem (num n) = refl
  strip_idem (str s) = refl
  strip_idem (arr xs) = ap arr (strip_items_idem xs)
  strip_idem (obj fs) = ap obj (strip_fields_idem fs)

  strip_items_idem : (xs : Items) → strip_items (strip_items xs) ≡ strip_items xs
  strip_items_idem nil = refl
  strip_items_idem (cons x xs) = cc (strip_idem x, strip_items_idem xs)

  strip_fields_idem : (fs : Fields) → strip_fields (strip_fields fs) ≡ strip_fields fs
  strip_fields_idem end = refl
  strip_fields_idem (field k v fs) = ground (arith, strip_idem v, strip_fields_idem fs)

-- Stripping twice is stripping once.
pub strip_noncanonical_idem :
    (j : Json) → strip_noncanonical (strip_noncanonical j) ≡ strip_noncanonical j
strip_noncanonical_idem j = strip_idem j
