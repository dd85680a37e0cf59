-- ===== src/Sources.antt =====
-- The sources to analyse: SourceCollectorV2 (src/core/semantic/SourceCollectorV2.cpp). Sets are lists
-- without repetition; the order in which the code lists a set is left open. What git lists as changed
-- is a parameter, a table from new paths to old ones.
use mergebot.Prelude.{
  ℕ, zero, suc, ◌+◌, ◌-◌, ◌%◌, ◌^◌, Bool, true, false, ◌&&◌, ◌||◌, not, Option, none, some, List,
  [], ◌∷◌, ◌++◌, ◌==◌, if◌then◌else◌, ltb, length, drop,
}
pub mod Direct
pub mod Lists
pub mod Relative
mod Tests
use mergebot.Bytes.{Bytes, codes, bytes_eq, starts_with}
use mergebot.Semantic.{seen_in}

abbrev pub Deltas : Type 0
Deltas = List (Bytes × Bytes)

unfoldable pub old_path : Bytes → Deltas → Option Bytes
old_path x [] = none
old_path x ((new, old) ∷ deltas) =
    let rest = old_path x deltas in if bytes_eq x new then some old else rest

-- `insert` of a set.
unfoldable pub insert_path : Bytes → List Bytes → List Bytes
unfolding seen_in
insert_path x set = if seen_in x set then set else x ∷ set

pub record SourceSets : Type 0 where
  pub our_sources : List Bytes
  pub base_sources : List Bytes
  pub their_sources : List Bytes

abbrev pub add_ours : Bytes → Option Bytes → SourceSets → SourceSets
add_ours conflict none sets = sets
add_ours conflict (some old) sets = record sets {
  our_sources = insert_path conflict sets.our_sources;
  base_sources = insert_path old sets.base_sources;
}

abbrev pub add_theirs : Bytes → Option Bytes → SourceSets → SourceSets
add_theirs conflict none sets = sets
add_theirs conflict (some old) sets = record sets {
  their_sources = insert_path conflict sets.their_sources;
  base_sources = insert_path old sets.base_sources;
}

-- The loop over the conflicts of `collectAnalysisSourcesV2`.
unfoldable pub collect_from : Deltas → Deltas → List Bytes → SourceSets → SourceSets
unfolding old_path insert_path
collect_from our their [] sets = sets
collect_from our their (c ∷ cs) sets =
    collect_from our their cs (add_theirs c (old_path c their) (add_ours c (old_path c our) sets))

unfoldable pub collect_analysis_sources : Deltas → Deltas → List Bytes → SourceSets
unfolding collect_from
collect_analysis_sources our their conflicts =
    collect_from our their conflicts
      (record { our_sources = []; base_sources = []; their_sources = [] })

-- What the preprocessor reports to `IncludeLookupCallback`: an inclusion with the real path of its
-- file, if there is one.
pub data Event : Type 0 where
  enter_file : Event
  exit_file : Event
  inclusion : Bool → Option Bytes → Event

-- `Depth` is a number of 32 bits.
pub record Lookup : Type 0 where
  pub depth : ℕ
  pub direct_includes : List Bytes

abbrev pub add_include : Option Bytes → List Bytes → List Bytes
add_include none files = files
add_include (some f) files = insert_path f files

-- `LexedFileChanged` and `InclusionDirective`.
unfoldable pub on_event : Event → Lookup → Lookup
unfolding insert_path
on_event enter_file s = record s { depth = (s.depth + 1) % 2 ^ 32 }
on_event exit_file s = record s { depth = (s.depth + (2 ^ 32 - 1)) % 2 ^ 32 }
on_event (inclusion angled file) s =
    if angled || not (s.depth == 1)
    then s
    else record s { direct_includes = add_include file s.direct_includes }

unfoldable pub on_events : List Event → Lookup → Lookup
unfolding on_event
on_events [] s = s
on_events (e ∷ es) s = on_events es (on_event e s)

-- `substr` behind a name that stands in front, which throws where nothing follows it.
unfoldable pub behind_side : Bytes → Bytes → Option Bytes
behind_side side path =
    if starts_with path side
    then (if ltb (length path) (length side + 1) then none else some (drop (length side + 1) path))
    else some path

abbrev pub without_dot : Bytes → Bytes
without_dot path =
    if starts_with path (codes "./") || starts_with path (codes ".\\") then drop 2 path else path

-- The path of an included file from its path below the directory of the scenario.
unfoldable pub relative_source : Bytes → Option Bytes
unfolding behind_side
relative_source path = elim (behind_side (codes "ours") (without_dot path)) [
  | none ↦ none
  | some p ↦ elim (behind_side (codes "base") p) [
    | none ↦ none
    | some q ↦ behind_side (codes "theirs") q
  ]
]
