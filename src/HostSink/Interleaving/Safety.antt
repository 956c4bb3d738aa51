-- ===== src/HostSink/Interleaving/Safety.antt =====
-- oat/integration/host_sink.py: what every interleaving of guarded calls keeps.
use open_authority_trials_oa.HostSink.Interleaving.{
  System, Worker, arriving, advance_list, advance_at, Reach, advance, accept, next, Step, here, suc,
  move, arrive,
}
use open_authority_trials_oa.HostSink.{Host, [], Hashing, new_host, List, AuthorityStore, ℕ}
use open_authority_trials_oa.HostSink.Ledger.{IsUnique}
use open_authority_trials_oa.Prelude.{All, ◌∷◌, All-map, [], All-append, List, ℕ, zero}
use open_authority_trials_oa.Authority.Authorization.{AuthorizationIssuer}
use open_authority_trials_oa.Consequence.Model.{ProtectedSink}
use open_authority_trials_oa.Canonical.Digest.{Hashing}
use open_authority_trials_oa.Authority.CurrentState.{AuthorityStore}
use open_authority_trials_oa.HostSink.Interleaving.Stages.{StepSound-advance_stage}
use open_authority_trials_oa.HostSink.Interleaving.Placed.{
  IsReceipted, Keeps, Keeps-same, IsPlaced, IsPlaced-Keeps,
}

pub record IsSound (s : System) : Type 0 where
  pub unique : IsUnique s.host.ledger
  pub receipted : IsReceipted s.host
  pub placed : All (λ (w : Worker). IsPlaced s.host w.request w.stage) s.workers

record ListSound (old : Host) (new : Host) (ws : List Worker) : Type 0 where
  unique : IsUnique new.ledger
  receipted : IsReceipted new
  keeps : Keeps old new
  placed : All (λ (w : Worker). IsPlaced new w.request w.stage) ws

All-IsPlaced-Keeps :
    (old new : Host) (ws : List Worker)
    → Keeps old new
    → All (λ (w : Worker). IsPlaced old w.request w.stage) ws
    → All (λ (w : Worker). IsPlaced new w.request w.stage) ws
All-IsPlaced-Keeps old new ws k =
    All-map (λ (w : Worker). IsPlaced-Keeps old new w.request w.stage k) ws

ListSound-advance_list :
    (h : Hashing) (host : Host) (ws : List Worker) (i : ℕ)
    → IsUnique host.ledger
    → IsReceipted host
    → All (λ (w : Worker). IsPlaced host w.request w.stage) ws
    → ListSound host (advance_list h host ws i).0 (advance_list h host ws i).1
unfolding advance_list advance
ListSound-advance_list h host [] i u a p = record {
  unique = u;
  receipted = a;
  keeps = Keeps-same host;
  placed = tt;
}
ListSound-advance_list h host (w ∷ ws) zero u a p =
    let s = StepSound-advance_stage host w.request u a h w.stage p.0 in
    record {
      unique = s.unique;
      receipted = s.receipted;
      keeps = s.keeps;
      placed = (s.placed, All-IsPlaced-Keeps host _ ws s.keeps p.1);
    }
ListSound-advance_list h host (w ∷ ws) (suc i) u a p =
    let s = ListSound-advance_list h host ws i u a p.1 in
    record {
      unique = s.unique;
      receipted = s.receipted;
      keeps = s.keeps;
      placed = (IsPlaced-Keeps host _ w.request w.stage s.keeps p.0, s.placed);
    }

Step-IsSound : {h : Hashing} {s t : System} → Step h s t → IsSound s → IsSound t
unfolding advance_at accept
Step-IsSound {h} (move s i) g =
    let l = ListSound-advance_list h s.host s.workers i g.unique g.receipted g.placed in
    record { unique = l.unique; receipted = l.receipted; placed = l.placed }
Step-IsSound (arrive s r) g = record {
  unique = g.unique;
  receipted = g.receipted;
  placed = All-append _ s.workers (record { request = r; stage = arriving } ∷ []) g.placed (tt, tt);
}

Reach-IsSound : {h : Hashing} {s t : System} → IsSound s → Reach h s t → IsSound t
Reach-IsSound g here = g
Reach-IsSound g (next r st) = Step-IsSound st (Reach-IsSound g r)

unfoldable pub new_system : ProtectedSink → AuthorityStore → AuthorizationIssuer → System
unfolding new_host
new_system sink authority issuer = record { host = new_host sink authority issuer; workers = [] }

-- However the guarded calls of a new host interleave, no two rows of its ledger share a commit id
-- or an idempotency key, each receipt of its observer is, in every field, the receipt of a row of
-- the ledger, each call that is past its insertion and has not failed has its row in the ledger,
-- and each decided call is refused, or admitted with its row and its receipt.
pub new_system-IsSound :
    (h : Hashing) (sink : ProtectedSink) (authority : AuthorityStore) (issuer : AuthorizationIssuer)
    (t : System)
    → Reach h (new_system sink authority issuer) t
    → IsSound t
unfolding new_system
new_system-IsSound h sink authority issuer t =
    Reach-IsSound (record { unique = tt; receipted = tt; placed = tt })
