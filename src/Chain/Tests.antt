-- ===== src/Chain/Tests.antt =====
-- A chain that runs the style based handler twice.
use mergebot.Prelude.{◌≡◌, refl, false, some, [], ◌∷◌}
use mergebot.Bytes.{codes}
use mergebot.Handlers.{State, resolve_conflict_files, style_check}
use mergebot.Handlers.Files.{FilesOpen}
use mergebot.Handlers.Samples.{disk, before, behind, behind_lem, again_lem}
use mergebot.Handlers.Conserve.{total, style-Conserves}
use mergebot.Chain.{Handler, handle}
use mergebot.Chain.Stops.{Stops}
use mergebot.Chain.Run.{handle-total}

abbrev style_handler : Handler
style_handler = record { skip = false; run = resolve_conflict_files disk style_check }

abbrev stopped : State
stopped = record behind { running = false }

style_twice : handle (style_handler ∷ style_handler ∷ []) before ≡ some stopped
unfolding handle
style_twice = rw (behind_lem, again_lem) refl

handle-total_example :
    Stops (style_handler ∷ style_handler ∷ []) before stopped
    × (FilesOpen stopped.files
        × (total disk (codes "a.cpp") 2 stopped ≡ total disk (codes "a.cpp") 2 before))
handle-total_example =
    handle-total disk style_handler (style_handler ∷ []) before stopped (codes "a.cpp") 2
      (style-Conserves disk (λ p. refl), (style-Conserves disk (λ p. refl), tt))
      ((refl, (refl, tt)), tt) style_twice
