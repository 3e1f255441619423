-- ===== src/Authority/Durability.antt =====
-- What outlives any calls, goroutine steps and restarts of internal/authority/server.go.
use dbos_conformance.Common.{none, some, List, [], ◌∷◌, ◌≡◌, refl, sym, ◌∙◌, ap, subst, length}
use dbos_conformance.Authority.Ledger.{
  Server, Timing, restore, new_server, new_persistent_server, unless_nil,
}
use dbos_conformance.Authority.Events.{Event, submits, advances, restarts, happens, happen}
use dbos_conformance.Authority.Grows.{Grows, Grows-refl, Grows-trans}
use dbos_conformance.Authority.Sound.{IsSound, RowKeeps, no_row, row_of}
use dbos_conformance.Authority.Carries.{Carried, same_server, handle_submit-Carried}
use dbos_conformance.Authority.Goroutine.{advance-Carried}

restart-Carried :
    (timing : Timing) (s : Server) → IsSound s → Carried s (happens (restarts timing) s)
unfolding happens
restart-Carried timing s sound = elim sound.row [
  | no_row e h ↦
      unfold new_persistent_server new_server in
      rw (e, happens)
        record { sound = record { row = no_row refl (Grows-refl []); counted = refl }; grown = h }
  | row_of state kept e f n h ↦
      unfold new_persistent_server new_server restore in
      let same : unless_nil state.submissions [] ≡ kept = ap (λ m. unless_nil m []) f in
      rw (e, happens)
        record {
          sound = record {
            row =
                subst (λ m. RowKeeps m (some (some state))) (sym same)
                  (row_of state kept refl f n (Grows-refl kept));
            counted = n ∙ ap length (sym same);
          };
          grown = subst (λ m. Grows s.subs m) (sym same) h;
        }
]

pub happens-Carried : (e : Event) (s : Server) → IsSound s → Carried s (happens e s)
unfolding happens
happens-Carried (submits p now req) s sound = handle_submit-Carried p now req s sound
happens-Carried (advances m t) s sound = advance-Carried m t.id t.stage s sound
happens-Carried (restarts timing) s sound = restart-Carried timing s sound

pub happen-Carried : (es : List Event) (s : Server) → IsSound s → Carried s (happen es s)
unfolding happen
happen-Carried [] s sound = same_server s sound
happen-Carried (e ∷ es) s sound =
    let first = happens-Carried e s sound in
    let rest = happen-Carried es (happens e s) first.sound in
    record {
      sound = rest.sound;
      grown =
          Grows-trans s.subs (happens e s).subs (happen es (happens e s)).subs first.grown
            rest.grown;
    }

-- A provider that starts on an empty database is sound.
pub start-IsSound : (timing : Timing) → IsSound (new_persistent_server timing none)
unfolding new_persistent_server new_server
start-IsSound timing = record { row = no_row refl (Grows-refl []); counted = refl }
