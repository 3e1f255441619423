-- ===== src/System/Once.antt =====
-- The workflow of internal/workflow/filing.go with the provider of internal/authority/server.go: how
-- many operations come of it.
use mathlib.Core.List.{Memᴰ}
use dbos_conformance.Common.{
  ◌≤◌, String, ℤ, none, some, List, [], ◌∷◌, ◌≡◌, sym, ap, subst, length, length-map, map, lookup,
  All,
}
use dbos_conformance.Domain.{FilingInput}
use dbos_conformance.Authority.Ledger.{
  Submission, Timing, Server, Persist, new_server, new_persistent_server,
}
use dbos_conformance.Authority.Submit.{SubmitRequest}
use dbos_conformance.Authority.Completion.{
  Stage, sleeping, delivering, finishing, ended, Task, Meets,
}
use dbos_conformance.Authority.Events.{Event, submits, advances, restarts, happen}
use dbos_conformance.Authority.Keeps.{Kept, Keeps, MayAdvance}
use dbos_conformance.Authority.Keeps.Events.{AlwaysPermits, happen-Keeps}
use dbos_conformance.Workflow.Steps as Steps
use dbos_conformance.Workflow.Steps.{Answers, Action}
use dbos_conformance.Workflow.Outcome.{Config, operation_of}
use dbos_conformance.Workflow.Filing.{filing_workflow}
use dbos_conformance.Workflow.Canonical.{Canonical}
use dbos_conformance.Workflow.Acts.{workflow_acts_canonically}
use dbos_conformance.Common.Keys.{
  Distinct, KeysIn, insert-Distinct, insert-KeysIn, known-KeysIn, length-KeysIn,
}

-- The provider's event is the submission of an execution of the workflow of one of the filings, in
-- whatever configuration and whatever its steps returned, or the provider's own.
pub data Comes (inputs : List FilingInput) : Event → Type 0 where
  called :
      (cfg : Config) (ans : Answers) (input : FilingInput) (p : Persist) (now : ℤ)
      (req : SubmitRequest)
      → Memᴰ input inputs
      → Memᴰ (Steps.submits req) (filing_workflow cfg ans input).actions
      → Comes inputs (submits p now (some req))
  advanced : (m : Meets) (t : Task) → Comes inputs (advances m t)
  restarted : (timing : Timing) → Comes inputs (restarts timing)

abbrev pub operations_of : List FilingInput → List String
operations_of inputs = map operation_of inputs

pub Mem-All :
    {A : Type 0} (P : A → Type 0) (a : A) (items : List A) → Memᴰ a items → All P items → P a
Mem-All P a [] at all = elim at [ ]
Mem-All P a (b ∷ items) (Memᴰ.head e) (p, all) = subst P (sym e) p
Mem-All P a (b ∷ items) (Memᴰ.tail at) (p, all) = Mem-All P a items at all

Mem-operations_of :
    (input : FilingInput) (inputs : List FilingInput)
    → Memᴰ input inputs
    → Memᴰ (operation_of input) (operations_of inputs)
Mem-operations_of input [] at = elim at [ ]
Mem-operations_of input (other ∷ inputs) (Memᴰ.head e) = Memᴰ.head (ap operation_of e)
Mem-operations_of input (other ∷ inputs) (Memᴰ.tail at) =
    Memᴰ.tail (Mem-operations_of input inputs at)

-- The ledger has each operation once, and only operations of the filings.
abbrev of_filings : List FilingInput → Kept
of_filings inputs = record {
  Holds = λ subs. Distinct subs × KeysIn (operations_of inputs) subs;
  Allowed = λ id sub. Memᴰ id (operations_of inputs);
  empty = (tt, tt);
  put = λ id sub subs at (distinct, within). (
    insert-Distinct id sub subs distinct,
    insert-KeysIn (operations_of inputs) id sub subs at within,
  );
  known = λ id sub subs there (distinct, within).
      known-KeysIn (operations_of inputs) id sub subs there within;
  repeats = λ id sub at. at;
  completes = λ id sub processing at. at;
  marks = λ id sub at. at;
}

known-MayAdvance :
    (inputs : List FilingInput) (id : String) (stage : Stage) (s : Server)
    → Keeps (of_filings inputs) s
    → MayAdvance (of_filings inputs) id stage s
known-MayAdvance inputs id sleeping s keeps = tt
known-MayAdvance inputs id (delivering url cbs attempt delivered) s keeps = tt
known-MayAdvance inputs id finishing s ((distinct, within), row) =
    λ sub there. known-KeysIn (operations_of inputs) id sub s.subs there within
known-MayAdvance inputs id ended s keeps = tt

Comes-AlwaysPermits :
    (inputs : List FilingInput) (e : Event) → Comes inputs e → AlwaysPermits (of_filings inputs) e
unfolding Canonical
Comes-AlwaysPermits inputs _ (called cfg ans input p now req at acted) = λ s keeps.
    let (id, filing) =
      Mem-All (Canonical input) (Steps.submits req) _ acted
        (workflow_acts_canonically cfg ans input) in
    let known =
      subst (λ k. Memᴰ k (operations_of inputs)) (sym id) (Mem-operations_of input inputs at) in
    (known, known)
Comes-AlwaysPermits inputs _ (advanced m t) =
    λ s keeps. known-MayAdvance inputs t.id t.stage s keeps
Comes-AlwaysPermits inputs _ (restarted timing) = λ s keeps. tt

All-AlwaysPermits :
    (inputs : List FilingInput) (es : List Event)
    → All (Comes inputs) es
    → All (AlwaysPermits (of_filings inputs)) es
All-AlwaysPermits inputs [] come = tt
All-AlwaysPermits inputs (e ∷ es) (first, rest) =
    (Comes-AlwaysPermits inputs e first, All-AlwaysPermits inputs es rest)

-- The provider keeps the ledger so from the start.
kept_so :
    (timing : Timing) (inputs : List FilingInput) (es : List Event)
    → All (Comes inputs) es
    → Keeps (of_filings inputs) (happen es (new_persistent_server timing none))
unfolding new_persistent_server new_server
kept_so timing inputs es come =
    happen-Keeps (of_filings inputs) es (new_persistent_server timing none)
      (All-AlwaysPermits inputs es come) ((tt, tt), tt)

-- However often the workflows of some filings are executed, whatever their steps return, in whatever
-- order and at whatever times their submissions arrive at a provider that starts on an empty database,
-- with goroutine steps and restarts of the provider in between and whatever becomes of its writes: the
-- provider never has more operations on record than there are filings.
pub no_duplicate_operations :
    (timing : Timing) (inputs : List FilingInput) (es : List Event)
    → All (Comes inputs) es
    → length (happen es (new_persistent_server timing none)).subs ≤ length inputs
no_duplicate_operations timing inputs es come =
    let ((distinct, within), row) = kept_so timing inputs es come in
    let few =
      length-KeysIn (happen es (new_persistent_server timing none)).subs (operations_of inputs)
        distinct within in
    rw (length-map operation_of inputs) at few

-- After any executions of the workflows of some filings, whose submissions arrive in any order at a
-- provider that starts on an empty database, with its goroutine steps and restarts in between and
-- whatever becomes of its writes, every operation on record is the canonical one of one of the filings.
pub only_filed_operations :
    (timing : Timing) (inputs : List FilingInput) (es : List Event) (id : String) (sub : Submission)
    → All (Comes inputs) es
    → lookup id (happen es (new_persistent_server timing none)).subs ≡ some sub
    → Memᴰ id (operations_of inputs)
only_filed_operations timing inputs es id sub come there =
    let ((distinct, within), row) = kept_so timing inputs es come in
    known-KeysIn (operations_of inputs) id sub (happen es (new_persistent_server timing none)).subs
      there within
