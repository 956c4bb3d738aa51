-- ===== src/Qualification/Probes.antt =====
-- oat/qualification/probes.py: the families of routes and the dimensions that a candidate varied. What
-- `str.lower` and `str.strip` make of a text are parameters, and an action's values are the texts that
-- `str` makes of them. Signatures and their rates are left out.
pub mod Varied
use open_authority_trials_oa.Prelude.{
  String, Bool, List, ◌∷◌, [], ◌++◌, any, keep, not, ◌==◌, ◌&&◌, if◌then◌else◌, contains, map,
  false, true,
}
use open_authority_trials_oa.Prelude.Dict.{Dict, get_or, put}
use open_authority_trials_oa.Canonical.Text.{codes}
use open_authority_trials_oa.Consequence.Sink.{add_text}
use open_authority_trials_oa.Paths.{set_of}
use open_authority_trials_oa.Qualification.Candidate.{Probe}
use open_authority_trials_oa.Sequence.Run.{is_prefix}

abbrev pub route_family_patterns : List (String × List String)
route_family_patterns =
    ("conventional_rest", "/v1/" ∷ "/v1" ∷ [])
    ∷ ("administrative_control", "/control" ∷ "/ops" ∷ [])
    ∷ ("legacy_compatibility", "/legacy" ∷ "/compat" ∷ [])
    ∷ ("async_queue_like", "/queue" ∷ "/async" ∷ [])
    ∷ []

unfoldable pub family_from : List (String × List String) → String → String
unfolding any is_prefix
family_from [] lowered = "non_obvious_action_or_noun_free"
family_from ((family, prefixes) ∷ patterns) lowered =
    if any (λ (p : String). is_prefix (codes p) (codes lowered)) prefixes
    then family
    else family_from patterns lowered

unfoldable pub classify_route_family : (String → String) → String → String
unfolding family_from
classify_route_family lower path = family_from route_family_patterns (lower path)

unfoldable pub route_families_probed : (String → String) → List Probe → List String
unfolding classify_route_family set_of
route_families_probed lower probes =
    set_of (map (λ (p : Probe). classify_route_family lower p.path) probes)

-- `str(action.get(dim))`
unfoldable pub text_in : Dict String → String → String
unfolding get_or
text_in action dim = get_or action dim "None"

-- `by_path.setdefault(probe.path, []).append(probe)`, for every probe
unfoldable pub group_by_path : Dict (List Probe) → List Probe → Dict (List Probe)
unfolding get_or put
group_by_path groups [] = groups
group_by_path groups (p ∷ probes) =
    group_by_path (put groups p.path (get_or groups p.path [] ++ p ∷ [])) probes

module _ (strip : String → String) (exposed : List String) where
  abbrev pub same_in : Dict String → Dict String → String → Bool
  unfolding text_in
  same_in a b d = text_in a d == text_in b d

  unfoldable pub differs_only_in : Dict String → Dict String → String → Bool
  unfolding any keep same_in
  differs_only_in a b dim =
      if same_in a b dim
      then false
      else let others = keep (λ d. not (d == dim)) exposed in
        any (λ d. same_in a b d && not (strip (text_in a d) == "")) others
        && not (any (λ d. not (same_in a b d)) others)

  -- the innermost loop, over the exposed dimensions
  unfoldable pub vary_dims : Probe → Probe → List String → List String → List String
  unfolding contains differs_only_in add_text
  vary_dims a b varied [] = varied
  vary_dims a b varied (dim ∷ dims) =
      vary_dims a b
        (if contains varied dim
          then varied
          else if differs_only_in a.action b.action dim
          then add_text dim varied
          else varied)
        dims

  unfoldable pub vary_pairs : Probe → List String → List Probe → List String
  unfolding vary_dims
  vary_pairs a varied [] = varied
  vary_pairs a varied (b ∷ later) = vary_pairs a (vary_dims a b varied exposed) later

  unfoldable pub vary_group : List String → List Probe → List String
  unfolding vary_pairs
  vary_group varied [] = varied
  vary_group varied (a ∷ later) = vary_group (vary_pairs a varied later) later

  unfoldable pub vary_groups : List String → Dict (List Probe) → List String
  unfolding vary_group
  vary_groups varied [] = varied
  vary_groups varied ((path, group) ∷ groups) = vary_groups (vary_group varied group) groups

  unfoldable pub materially_varied_dimensions : List Probe → List String
  unfolding vary_groups group_by_path
  materially_varied_dimensions probes = vary_groups [] (group_by_path [] probes)
