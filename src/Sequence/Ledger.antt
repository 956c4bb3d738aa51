-- ===== src/Sequence/Ledger.antt =====
-- tools/oat_consequence_sequence_runner_004.py: the authorization ledger over any calls.
use native.Mathlib.Omega.{arith}
use mathlib.Core.List.{append_assoc}
use open_authority_trials_oa.Prelude.{
  String, List, Bool, ◌≡◌, ◌∷◌, inl, inr, ◌++◌, none, false, All-append, Bool-cases, [], All, ◌⊎◌,
  ◌==◌, some, true, str_eq→≡, refl, ap, subst, ◌∙◌, sym,
}
use open_authority_trials_oa.Sequence.{
  AuthorizationLedger, note, consume, LedgerEvent, Result, GateError, new_ledger,
}
use open_authority_trials_oa.Prelude.Result.{Result, ok, err}

-- A call of the ledger. A `consume` that raises leaves the ledger as it is.
pub data LedgerCall : Type 0 where
  note_call consume_call : String → String → LedgerCall

abbrev pub settle : AuthorizationLedger → Result GateError AuthorizationLedger → AuthorizationLedger
settle l (ok m) = m
settle l (err _) = l

unfoldable pub call_ledger : LedgerCall → AuthorizationLedger → AuthorizationLedger
call_ledger (note_call event stage) l = note event stage l
call_ledger (consume_call event stage) l = settle l (consume event stage l)

unfoldable pub call_all : List LedgerCall → AuthorizationLedger → AuthorizationLedger
call_all [] l = l
call_all (c ∷ cs) l = call_all cs (call_ledger c l)

abbrev pub Flagged : Bool → LedgerEvent → Type 0
Flagged b e = e.consumed ≡ b

-- An authorization that was consumed: by one event, in S3, with the events before it marked as
-- unconsumed and the events after it as consumed.
pub record ConsumedOnce (l : AuthorizationLedger) : Type 0 where
  pub before : List LedgerEvent
  pub by : LedgerEvent
  pub after : List LedgerEvent
  pub history : l.events ≡ before ++ by ∷ after
  pub unmarked : All (Flagged false) before
  pub in_s3 : by.stage ≡ "S3"
  pub recorded : l.consumed_at_event ≡ some by.event
  pub marked : All (Flagged true) (by ∷ after)

pub record Unconsumed (l : AuthorizationLedger) : Type 0 where
  pub nothing_recorded : l.consumed_at_event ≡ none
  pub unmarked : All (Flagged false) l.events

-- The ledger's flag says which of the two it is.
abbrev pub IsAccounted : AuthorizationLedger → Type 0
IsAccounted l = ((l.consumed ≡ false) × Unconsumed l) ⊎ ((l.consumed ≡ true) × ConsumedOnce l)

abbrev marked_event : String → String → AuthorizationLedger → LedgerEvent
marked_event event stage l = record { event = event; stage = stage; consumed = l.consumed }

note-IsAccounted :
    (event stage : String) (l : AuthorizationLedger)
    → IsAccounted l
    → IsAccounted (note event stage l)
unfolding note
note-IsAccounted event stage l (inl (f, u)) = inl (
  f,
  record {
    nothing_recorded = u.nothing_recorded;
    unmarked = All-append (Flagged false) l.events _ u.unmarked (f, tt);
  },
)
note-IsAccounted event stage l (inr (t, c)) = inr (
  t,
  record {
    before = c.before;
    by = c.by;
    after = c.after ++ record { event = event; stage = stage; consumed = l.consumed } ∷ [];
    history =
        ap (λ es. es ++ marked_event event stage l ∷ []) c.history
        ∙ append_assoc c.before (c.by ∷ c.after) (marked_event event stage l ∷ []);
    unmarked = c.unmarked;
    in_s3 = c.in_s3;
    recorded = c.recorded;
    marked = All-append (Flagged true) (c.by ∷ c.after) _ c.marked (t, tt);
  },
)

consume-consumed :
    (event stage : String) (l : AuthorizationLedger)
    → l.consumed ≡ true
    → settle l (consume event stage l) ≡ l
unfolding consume
consume-consumed event stage l t = ground (arith, t)

consume-outside :
    (event stage : String) (l : AuthorizationLedger)
    → (stage == "S3") ≡ false
    → settle l (consume event stage l) ≡ l
unfolding consume
consume-outside event stage l n = ground (arith, n)

consume-fresh :
    (event stage : String) (l : AuthorizationLedger)
    → (stage == "S3") ≡ true
    → l.consumed ≡ false
    → settle l (consume event stage l) ≡ record l {
      consumed = true;
      consumed_at_event = some event;
      events = l.events ++ record { event = event; stage = stage; consumed = true } ∷ [];
    }
unfolding consume
consume-fresh event stage l s f = ground (arith, s, f)

consume-IsAccounted :
    (event stage : String) (l : AuthorizationLedger)
    → IsAccounted l
    → IsAccounted (settle l (consume event stage l))
consume-IsAccounted event stage l (inr (t, c)) =
    subst IsAccounted (sym (consume-consumed event stage l t)) (inr (t, c))
consume-IsAccounted event stage l (inl (f, u)) = elim (Bool-cases (stage == "S3")) [
  | inl s ↦ subst IsAccounted (sym (consume-fresh event stage l s f)) (
      inr (
        refl,
        record {
          before = l.events;
          by = record { event = event; stage = stage; consumed = true };
          after = [];
          history = refl;
          unmarked = u.unmarked;
          in_s3 = str_eq→≡ stage "S3" s;
          recorded = refl;
          marked = (refl, tt);
        },
      ))
  | inr n ↦ subst IsAccounted (sym (consume-outside event stage l n)) (inl (f, u))
]

call_all-kept :
    (cs : List LedgerCall) (l : AuthorizationLedger) → IsAccounted l → IsAccounted (call_all cs l)
unfolding call_all call_ledger
call_all-kept [] l w = w
call_all-kept (note_call event stage ∷ cs) l w =
    call_all-kept cs (note event stage l) (note-IsAccounted event stage l w)
call_all-kept (consume_call event stage ∷ cs) l w =
    call_all-kept cs (settle l (consume event stage l)) (consume-IsAccounted event stage l w)

-- Whatever the calls of a new ledger are, in any stages: either its flag is unset and no event is
-- marked as consumed, or exactly one event consumed the authorization, in S3, the ledger records
-- it, and the events are marked from it on and not before it.
pub call_all-new_ledger-IsAccounted :
    (id : String) (cs : List LedgerCall) → IsAccounted (call_all cs (new_ledger id))
unfolding new_ledger
call_all-new_ledger-IsAccounted id cs =
    call_all-kept cs (new_ledger id) (inl (refl, record { nothing_recorded = refl; unmarked = tt }))
