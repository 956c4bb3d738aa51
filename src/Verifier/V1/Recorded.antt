-- ===== src/Verifier/V1/Recorded.antt =====
-- oat/witness.py, `variation_of`: the variation that a witness was produced under.
use open_authority_trials_oa.Prelude.{ℕ, ◌≡◌, refl}
use open_authority_trials_oa.Prelude.Result.{Result, ok, ◌>>=◌}
use open_authority_trials_oa.Canonical.Digest.{Hashing}
use open_authority_trials_oa.Canonical.Json.{Fields, Items, get_field}
use open_authority_trials_oa.ReferenceBoundary.{Scenario, Variation, execute, variation_to_dict}
use open_authority_trials_oa.Falsifier.{truthy}
use open_authority_trials_oa.Verifier.V1.{dict_at, build_witness}
use open_authority_trials_oa.Sequence.Replay.{ReplayError, entry, int_entry}

-- A witness without its trace has no variation either.
unfoldable pub variation_of : Fields → Result ReplayError Variation
unfolding dict_at int_entry entry truthy get_field
variation_of witness =
    let values = dict_at (dict_at witness "trace") "variation" in
    int_entry values "check_tick" >>= λ check_tick.
    int_entry values "revocation_tick" >>= λ revocation_tick.
    int_entry values "commit_tick" >>= λ commit_tick.
    int_entry values "propagation_delay" >>= λ propagation_delay.
    int_entry values "retry_index" >>= λ retry_index.
    entry values "duplicate_request" >>= λ duplicated. ok (record {
      check_tick = check_tick;
      revocation_tick = revocation_tick;
      commit_tick = commit_tick;
      propagation_delay = propagation_delay;
      retry_index = retry_index;
      duplicate_request = truthy (get_field values "duplicate_request");
    })

-- The witness that is built from an execution gives back the variation of the execution.
pub variation_of-build_witness :
    (h : Hashing) (s : Scenario) (v : Variation) (manifest claimed adversary : Fields)
    (transcript : Items) (index : ℕ)
    → variation_of (build_witness h manifest (execute s v) claimed adversary transcript index)
      ≡ ok v
unfolding variation_of build_witness execute variation_to_dict dict_at get_field entry int_entry
    truthy
variation_of-build_witness h s v manifest claimed adversary transcript index = refl
