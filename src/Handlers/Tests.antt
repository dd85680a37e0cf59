-- ===== src/Handlers/Tests.antt =====
-- The style based handler on a file of two blocks, of which it resolves the second.
use mergebot.Prelude.{◌≡◌, refl}
use mergebot.Bytes.{codes}
use mergebot.Handlers.{style_check}
use mergebot.Handlers.Files.{FilesOpen}
use mergebot.Handlers.Conserve.{total, style_check-KeepsIndex, resolve_conflict_files-total}
use mergebot.Handlers.Samples.{disk, before, behind, behind_lem}

resolve_conflict_files-total_example :
    FilesOpen behind.files
    × (total disk (codes "a.cpp") 2 behind ≡ total disk (codes "a.cpp") 2 before)
resolve_conflict_files-total_example =
    resolve_conflict_files-total disk style_check before behind (codes "a.cpp") 2 (λ p. refl)
      style_check-KeepsIndex ((refl, (refl, tt)), tt) behind_lem
