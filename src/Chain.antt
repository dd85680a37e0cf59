-- ===== src/Chain.antt =====
-- The chain of handlers: include/mergebot/core/handler/SAHandler.h and
-- include/mergebot/core/HandlerChain.h. What is only logged is left out.
use mergebot.Prelude.{
  ℕ, ◌+◌, ◌-◌, Bool, false, ◌&&◌, not, Option, none, some, List, [], ◌∷◌, ◌==◌, if◌then◌else◌,
  length,
}
use mergebot.Bytes.{is_empty}
use mergebot.Conflict.{ConflictFile}
pub mod Stops
pub mod Run
mod Tests
use mergebot.Handlers.{State}

-- A handler of the chain: whether it is skipped, and what it does.
pub record Handler : Type 0 where
  pub skip : Bool
  pub run : State → Option State

abbrev pub has_next : List Handler → Bool
has_next hs = not (is_empty hs)

-- `SAHandler::handle` of the first handler, the others being its successors.
pub handle : List Handler → State → Option State
handle [] s = some s
handle (h ∷ hs) s =
    let next : State → Option State = handle hs in
    if h.skip && has_next hs
    then some s
    else if not h.skip
    then elim (h.run s) [
      | none ↦ none
      | some t ↦
          if is_empty t.files
          then some t
          else if has_next hs
          then next t
          else some (record t { running = false })
    ]
    else some s

-- `HandlerChain::countConflictBlocks`.
pub count_conflict_blocks : List ConflictFile → ℕ
count_conflict_blocks [] = 0
count_conflict_blocks (f ∷ fs) = length f.conflict_blocks + count_conflict_blocks fs

-- `HandlerChain::handle`, with the two numbers that `writeResolveRatio` writes.
pub handle_chain : List Handler → State → Option (State × (ℕ × ℕ))
unfolding count_conflict_blocks handle
handle_chain hs s =
    let count = count_conflict_blocks s.files in
    elim (if count == 0 then some s else handle hs s) [
      | none ↦ none
      | some t ↦ some (t, (count, count - count_conflict_blocks t.files))
    ]
