-- ===== src/HostSink/Interleaving/Race.antt =====
-- oat/integration/host_sink.py: two guarded calls at once.
use native.Mathlib.Omega.{arith}
use mathlib.Core.List.{map-append}
use open_authority_trials_oa.Prelude.Result.{Result, ok}
use open_authority_trials_oa.HostSink.Interleaving.{
  advance_stage, Hashing, Host, Stage, suc, finished, admission, Worker, System, Reach, arriving,
  advance_at, advance_list, approved, advance, next, move, here,
}
use open_authority_trials_oa.Prelude.{
  ℕ, zero, ◌≡◌, refl, true, false, List, ◌∷◌, [], some, ◌++◌, ◌≢◌, any-append_last, ◌∙◌, ◌==◌,
  eq_iff, subst, ap, String, eq_refl,
}
use open_authority_trials_oa.Canonical.Digest.{Hashing}
use open_authority_trials_oa.HostSink.{
  Host, Request, Result, HostError, HostDecision, Authorization, true, idempotency_seen, false,
  List, [], some, ok, ℤ, String,
}
use open_authority_trials_oa.HostSink.Handlers.{host_report, count_use}
use open_authority_trials_oa.HostSink.Tables.{
  HostError, commit_id_seen, idempotency_seen, LedgerRow, fits,
}
use open_authority_trials_oa.Authority.Authorization.{
  Authorization, valid, use_count, AuthorizationIssuer, record_use,
}
use open_authority_trials_oa.HostSink.Refinement.{
  IsAnchored, events_of, host_after, store_commit-new, IsAnchored-after,
}
use open_authority_trials_oa.Prelude.Int.{◌<ℤ◌, ◌+ℤ◌, pos, ℤ, +ℤ_parts}
use open_authority_trials_oa.HostSink.Ledger.{row_of}
use open_authority_trials_oa.Consequence.Sink.Interlock.{use_count-record_use}
use open_authority_trials_oa.HostSink.Interleaving.Alone.{
  run_stages, stages-store_commit, stages-approved,
}

abbrev at_stage : Request → Stage → Worker
at_stage r stage = record { request = r; stage = stage }

module _ (h : Hashing) (s : System) where
  run_first :
      (n : ℕ) (host : Host) (r : Request) (stage : Stage) (ws : List Worker)
      → Reach h s (record { host = host; workers = at_stage r stage ∷ ws })
      → Reach h s (record {
        host = (run_stages n h host r stage).0;
        workers = at_stage r (run_stages n h host r stage).1 ∷ ws;
      })
  unfolding run_stages
  run_first zero host r stage ws p = p
  run_first (suc n) host r stage ws p =
      run_first n _ r _ ws (unfold advance_at advance_list advance in next p (move _ 0))

  run_second :
      (n : ℕ) (host : Host) (r : Request) (stage : Stage) (w : Worker)
      → Reach h s (record { host = host; workers = w ∷ at_stage r stage ∷ [] })
      → Reach h s (record {
        host = (run_stages n h host r stage).0;
        workers = w ∷ at_stage r (run_stages n h host r stage).1 ∷ [];
      })
  unfolding run_stages
  run_second zero host r stage w p = p
  run_second (suc n) host r stage w p =
      run_second n _ r _ w (unfold advance_at advance_list advance in next p (move _ 1))

module _ (h : Hashing) (s : System) (n : ℕ) {host new : Host} {r : Request} {from to : Stage}
    (w : Worker) where
  first_to :
      run_stages n h host r from ≡ (new, to)
      → Reach h s (record { host = host; workers = at_stage r from ∷ w ∷ [] })
      → Reach h s (record { host = new; workers = at_stage r to ∷ w ∷ [] })
  first_to e p =
      subst
        (λ (x : Host × Stage). Reach h s (record { host = x.0; workers = at_stage r x.1 ∷ w ∷ [] }))
        e (run_first h s n host r from (w ∷ []) p)

  second_to :
      run_stages n h host r from ≡ (new, to)
      → Reach h s (record { host = host; workers = w ∷ at_stage r from ∷ [] })
      → Reach h s (record { host = new; workers = w ∷ at_stage r to ∷ [] })
  second_to e p =
      subst
        (λ (x : Host × Stage). Reach h s (record { host = x.0; workers = w ∷ at_stage r x.1 ∷ [] }))
        e (run_second h s n host r from w p)

-- The four stages from the count on, when the keys are new.
stages-stored :
    (h : Hashing) (host : Host) (r : Request) (a : Authorization)
    → IsAnchored host
    → fits r.event.committed_at ≡ true
    → commit_id_seen host.ledger r.event.commit_id ≡ false
    → idempotency_seen host.ledger r.event.idempotency_key ≡ false
    → run_stages 4 h host r (approved a)
      ≡ (host_after (count_use host a) r, finished (ok (admission r)))
unfolding run_stages advance_stage count_use
stages-stored h host r a anchored fit new_id new_key =
    stages-store_commit h (count_use host a) r a
    ∙ ap (λ (p : Host × Result HostError HostDecision). (p.0, finished p.1))
        (store_commit-new (count_use host a) r (admission r) anchored fit new_id new_key)

counted_twice :
    (issuer : AuthorizationIssuer) (id : String)
    → use_count (record_use (record_use issuer id).0 id).0 id
      ≡ use_count issuer id +ℤ pos 1 +ℤ pos 1
counted_twice issuer id =
    use_count-record_use (record_use issuer id).0 id id
    ∙ ground (arith, use_count-record_use issuer id id, eq_refl id)

lt_next : (n : ℤ) → n <ℤ n +ℤ pos 1
lt_next n = omega (arith, +ℤ_parts n (pos 1))

-- What the race leaves.
pub record Raced (host : Host) (a : Authorization) (q r : Request) (t : System) : Type 0 where
  pub rows : events_of t.host.ledger ≡ (events_of host.ledger ++ q.event ∷ []) ++ r.event ∷ []
  pub finished_both :
      t.workers
      ≡ at_stage q (finished (ok (admission q))) ∷ at_stage r (finished (ok (admission r))) ∷ []
  pub exceeded : a.max_uses <ℤ use_count t.host.issuer a.authorization_id

module _ (h : Hashing) (host : Host) (a : Authorization) (q r : Request)
    (anchored : IsAnchored host) (qa : q.auth ≡ some a) (ra : r.auth ≡ some a)
    (qv : valid (host_report h host q) ≡ true) (rv : valid (host_report h host r) ≡ true)
    (qf : fits q.event.committed_at ≡ true) (rf : fits r.event.committed_at ≡ true)
    (qi : commit_id_seen host.ledger q.event.commit_id ≡ false)
    (qk : idempotency_seen host.ledger q.event.idempotency_key ≡ false)
    (ri : commit_id_seen host.ledger r.event.commit_id ≡ false)
    (rk : idempotency_seen host.ledger r.event.idempotency_key ≡ false)
    (ids : q.event.commit_id ≢ r.event.commit_id)
    (keys : q.event.idempotency_key ≢ r.event.idempotency_key) where
  abbrev after_first : Host
  after_first = host_after (count_use host a) q

  ri_after : commit_id_seen after_first.ledger r.event.commit_id ≡ false
  unfolding commit_id_seen count_use
  ri_after =
      any-append_last (λ (x : LedgerRow). x.event.commit_id == r.event.commit_id) host.ledger
        (row_of q)
      ∙ ground (arith, eq_iff q.event.commit_id r.event.commit_id)

  rk_after : idempotency_seen after_first.ledger r.event.idempotency_key ≡ false
  unfolding idempotency_seen count_use
  rk_after =
      any-append_last (λ (x : LedgerRow). x.event.idempotency_key == r.event.idempotency_key)
        host.ledger (row_of q)
      ∙ ground (arith, eq_iff q.event.idempotency_key r.event.idempotency_key)

  abbrev raced : System
  raced = record {
    host = host_after (count_use after_first a) r;
    workers =
        at_stage q (finished (ok (admission q))) ∷ at_stage r (finished (ok (admission r))) ∷ [];
  }

  Reach-raced :
      Reach h
        (record { host = host; workers = at_stage q arriving ∷ at_stage r arriving ∷ [] })
        raced
  unfolding count_use
  Reach-raced =
      let s : System = record {
        host = host;
        workers = at_stage q arriving ∷ at_stage r arriving ∷ [];
      } in
      let one = first_to h s 2 (at_stage r arriving) (stages-approved h host q a qk qv qa) here in
      let two =
        second_to h s 2 (at_stage q (approved a)) (stages-approved h host r a rk rv ra) one in
      let three =
        first_to h s 4 (at_stage r (approved a)) (stages-stored h host q a anchored qf qi qk) two in
      second_to h s 4 (at_stage q (finished (ok (admission q))))
        (stages-stored h after_first r a (IsAnchored-after (count_use host a) q anchored) rf
          ri_after rk_after)
        three

  -- Two calls with new and distinct commit ids and keys, and ticks that fit a column of SQLite, under one authorization with one use left,
  -- each valid for the host before the other is counted, can interleave so that both are admitted:
  -- the ledger gets both commits, and the uses counted exceed the authorization's maximum.
  pub two_calls-Raced :
      a.max_uses ≡ use_count host.issuer a.authorization_id +ℤ pos 1
      → (t : System) × Reach h
          (record {
            host = host;
            workers =
                record { request = q; stage = arriving }
                ∷ record { request = r; stage = arriving }
                ∷ [];
          })
          t
        × Raced host a q r t
  unfolding count_use
  two_calls-Raced one_left = (
    raced,
    Reach-raced,
    record {
      rows =
          map-append _ (host.ledger ++ row_of q ∷ []) (row_of r ∷ [])
          ∙ ap (λ es. es ++ r.event ∷ []) (map-append _ host.ledger (row_of q ∷ []));
      finished_both = refl;
      exceeded =
          rw (counted_twice host.issuer a.authorization_id, one_left)
            (lt_next (use_count host.issuer a.authorization_id +ℤ pos 1));
    },
  )
