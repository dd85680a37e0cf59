-- ===== src/Sources/Tests.antt =====
-- Sources to analyse, of small changes and small files.
use mergebot.Prelude.{
  ◌+◌, ◌^◌, ◌≡◌, ◌<◌, refl, true, false, ◌&&◌, ◌||◌, some, List, [], ◌∷◌, ◌++◌, arith,
}
use mergebot.Bytes.{Bytes, codes}
use mergebot.Semantic.{seen_in}
use mergebot.Sources.{
  Deltas, collect_analysis_sources, enter_file, exit_file, on_events, Lookup, relative_source,
}
use mergebot.Sources.Direct.{
  Includes, nothing, entered, skipped, events, direct, height, at, on_events-direct,
}
use mergebot.Sources.Lists.{changed, renamed_from, collect_analysis_sources_lem}
use mergebot.Sources.Relative.{relative_source-ours}

-- Our side renamed a.cc; their side changed b.cc.
abbrev our_deltas : Deltas
our_deltas = (codes "a.cc", codes "old.cc") ∷ []

abbrev their_deltas : Deltas
their_deltas = (codes "b.cc", codes "b.cc") ∷ []

abbrev two_conflicts : List Bytes
two_conflicts = codes "a.cc" ∷ codes "b.cc" ∷ []

collected : collect_analysis_sources our_deltas their_deltas two_conflicts ≡ record {
  our_sources = codes "a.cc" ∷ [];
  base_sources = codes "b.cc" ∷ codes "old.cc" ∷ [];
  their_sources = codes "b.cc" ∷ [];
}
unfolding collect_analysis_sources
collected = refl

collect_analysis_sources_lem_example :
    (seen_in
        (codes "b.cc")
        (collect_analysis_sources our_deltas their_deltas two_conflicts).our_sources
      ≡ (seen_in (codes "b.cc") two_conflicts && changed (codes "b.cc") our_deltas))
    × (seen_in
          (codes "b.cc")
          (collect_analysis_sources our_deltas their_deltas two_conflicts).their_sources
        ≡ (seen_in (codes "b.cc") two_conflicts && changed (codes "b.cc") their_deltas))
    × (seen_in
          (codes "b.cc")
          (collect_analysis_sources our_deltas their_deltas two_conflicts).base_sources
        ≡ (renamed_from (codes "b.cc") our_deltas two_conflicts
            || renamed_from (codes "b.cc") their_deltas two_conflicts))
collect_analysis_sources_lem_example =
    collect_analysis_sources_lem our_deltas their_deltas two_conflicts (codes "b.cc")

-- A file that includes "a.h", which includes "b.h", then <vector>, then "c.h", which is guarded.
abbrev main_includes : Includes
main_includes =
    entered false (some (codes "a.h")) (skipped false (some (codes "b.h")) nothing)
      (entered true (some (codes "vector")) nothing (skipped false (some (codes "c.h")) nothing))

main_height : 1 + height main_includes < 2 ^ 32
unfolding height
main_height = ground arith

abbrev main_run : Lookup
main_run = on_events (enter_file ∷ events main_includes ++ exit_file ∷ []) (at 0 [])

main_files : main_run ≡ at 0 (codes "c.h" ∷ codes "a.h" ∷ [])
unfolding on_events events
main_files = refl

on_events-direct_example :
    (main_run.depth ≡ 0)
    × ((z : Bytes) → seen_in z main_run.direct_includes ≡ seen_in z (direct main_includes))
on_events-direct_example = on_events-direct main_includes main_height

relative_source-ours_example :
    relative_source (codes "ours/" ++ codes "lib/a.h") ≡ some (codes "lib/a.h")
relative_source-ours_example = relative_source-ours (codes "lib/a.h") refl refl

-- A directory of the project that is named as a side is lost, and so is the start of a name.
loses_directory : relative_source (codes "ours/base/a.h") ≡ some (codes "a.h")
unfolding relative_source
loses_directory = refl

loses_start : relative_source (codes "ours/baseline/a.h") ≡ some (codes "ine/a.h")
unfolding relative_source
loses_start = refl
