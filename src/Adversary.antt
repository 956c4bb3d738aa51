-- ===== src/Adversary.antt =====
-- oat/adversaries/deterministic.py. The value of a dimension is an integer or a Boolean: what Python
-- makes of a text that is a numeral is not modelled. The generator is run to its end.
pub mod Grid
pub mod Proposals
pub mod SearchSpace
pub mod Search
use open_authority_trials_oa.Prelude.Result.{ok, err, Result, ◌>>=◌}
use open_authority_trials_oa.Prelude.{
  ℕ, List, String, Bool, sort_by, ◌∷◌, if◌then◌else◌, map, [], false, ◌++◌, is_empty, suc, true,
  leb, ltb, ◌||◌, eqb, ◌&&◌,
}
use open_authority_trials_oa.Canonical.Text.{decimal, codes}
use open_authority_trials_oa.Canonical.Json.{Json, num, dict, str, bool, null, arr, obj}
use open_authority_trials_oa.Prelude.Dict.{get_or, Dict, get}
use open_authority_trials_oa.ReferenceBoundary.{Scenario, Variation}
use open_authority_trials_oa.Falsifier.{truthy}
use open_authority_trials_oa.Prelude.Int.{pos, ℤ, ◌+ℤ◌}

abbrev pub default_max_candidates : ℕ
default_max_candidates = 4096

-- the dimensions and their defaults
abbrev pub dimensions : List (String × List Json)
dimensions =
    ("check_tick", num (pos 10) ∷ [])
    ∷ ("revocation_tick", num (pos 20) ∷ [])
    ∷ ("commit_offset", num (pos 1) ∷ [])
    ∷ ("propagation_delay", num (pos 0) ∷ [])
    ∷ ("retry_index", num (pos 0) ∷ [])
    ∷ ("duplicate_request", bool false ∷ [])
    ∷ []

pub data AdversaryError : Type 0 where
  empty_dimension : String → AdversaryError
  no_integer : String → AdversaryError

-- the characters of `repr(v)`
abbrev repr : Json → List ℕ
unfolding decimal
repr null = codes "None"
repr (bool true) = codes "True"
repr (bool false) = codes "False"
repr (num n) = decimal n
repr (str s) = 39 ∷ (codes s ++ 39 ∷ [])
repr (arr xs) = codes "[]"
repr (obj fs) = codes "{}"

-- Python's order of texts, on their characters
unfoldable pub codes_before : List ℕ → List ℕ → Bool
codes_before [] [] = false
codes_before [] (y ∷ ys) = true
codes_before (x ∷ xs) [] = false
codes_before (x ∷ xs) (y ∷ ys) = ltb x y || (eqb x y && codes_before xs ys)

unfoldable pub repr_before : Json → Json → Bool
unfolding repr codes_before
repr_before v w = codes_before (repr v) (repr w)

unfoldable pub axes_from :
    Dict (List Json) → List (String × List Json) → Result AdversaryError (Dict (List Json))
unfolding get_or sort_by
axes_from space [] = ok []
axes_from space ((name, default) ∷ names) =
    let values = get_or space name default in
    let rest = axes_from space names in
    if is_empty values
    then err (empty_dimension name)
    else rest >>= λ axes. ok ((name, sort_by repr_before values) ∷ axes)

unfoldable pub axes_of : Scenario → Result AdversaryError (Dict (List Json))
unfolding axes_from
axes_of s = axes_from s.search_space dimensions

-- `itertools.product`: the last list varies fastest
unfoldable pub prepend_each : List (List Json) → List Json → List (List Json)
prepend_each rests [] = []
prepend_each rests (v ∷ values) =
    map (λ (rest : List Json). v ∷ rest) rests ++ prepend_each rests values

unfoldable pub product : List (List Json) → List (List Json)
unfolding prepend_each
product [] = [] ∷ []
product (values ∷ lists) = prepend_each (product lists) values

-- `sorted(axes)`
abbrev pub axis_names : List String
axis_names =
    "check_tick" ∷ "commit_offset" ∷ "duplicate_request" ∷ "propagation_delay" ∷ "retry_index"
    ∷ "revocation_tick" ∷ []

unfoldable pub axis_lists : Dict (List Json) → List String → List (List Json)
unfolding get_or
axis_lists axes [] = []
axis_lists axes (name ∷ names) = get_or axes name [] ∷ axis_lists axes names

-- `dict(zip(names, combination))`
unfoldable pub point_of : List String → List Json → Dict Json
point_of [] values = []
point_of (name ∷ names) [] = []
point_of (name ∷ names) (v ∷ values) = (name, v) ∷ point_of names values

-- `int(v)`
abbrev pub to_int : String → Json → Result AdversaryError ℤ
to_int name (num n) = ok n
to_int name (bool true) = ok (pos 1)
to_int name (bool false) = ok (pos 0)
to_int name null = err (no_integer name)
to_int name (str s) = err (no_integer name)
to_int name (arr xs) = err (no_integer name)
to_int name (obj fs) = err (no_integer name)

unfoldable pub int_at : Dict Json → String → Result AdversaryError ℤ
unfolding get_or
int_at point name = to_int name (get_or point name null)

unfoldable pub variation_at : Dict Json → Result AdversaryError Variation
unfolding truthy get
variation_at point = int_at point "revocation_tick" >>= λ revocation_tick.
    int_at point "check_tick" >>= λ check_tick. int_at point "commit_offset" >>= λ commit_offset.
    int_at point "propagation_delay" >>= λ propagation_delay.
    int_at point "retry_index" >>= λ retry_index. ok (record {
      check_tick = check_tick;
      revocation_tick = revocation_tick;
      commit_tick = revocation_tick +ℤ commit_offset;
      propagation_delay = propagation_delay;
      retry_index = retry_index;
      duplicate_request = truthy (get point "duplicate_request");
    })

-- The loop of `propose`: it stops after the candidate that reaches the maximum.
unfoldable pub propose_from : ℕ → ℕ → List (List Json) → Result AdversaryError (List Variation)
unfolding variation_at point_of
propose_from max emitted [] = ok []
propose_from max emitted (c ∷ cs) =
    let rest = propose_from max (suc emitted) cs in
    variation_at (point_of axis_names c) >>= λ v.
    if leb max emitted then ok (v ∷ []) else (rest >>= λ vs. ok (v ∷ vs))

unfoldable pub propose : ℕ → Scenario → Result AdversaryError (List Variation)
unfolding axes_of propose_from product axis_lists
propose max s = axes_of s >>= λ axes. propose_from max 1 (product (axis_lists axes axis_names))

unfoldable pub deterministic_identity : ℕ → Json
deterministic_identity max = dict (
    ("id", str "OAT-ADVERSARY-DETERMINISTIC")
    ∷ ("version", str "0.1.0")
    ∷ ("kind", str "local-deterministic")
    ∷ ("strategy", str "ordered-grid-search")
    ∷ ("max_candidates", num (pos max))
    ∷ [])
