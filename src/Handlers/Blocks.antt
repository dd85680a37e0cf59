-- ===== src/Handlers/Blocks.antt =====
-- The loop over the blocks of a file, seen as a relation.
use mergebot.Prelude.{
  ℕ, ◌+◌, ◌≡◌, refl, Bool, true, false, ◌||◌, Option, none, some, List, [], ◌∷◌, arith,
}
use mergebot.Conflict.{ConflictBlock, ConflictFile}
use mergebot.Results.{BlockResolutionResult}
use mergebot.Handlers.{
  Check, Verdict, fault, unresolved, resolved, note_block, resolve_blocks, our_code, their_code,
  ever_resolved, all_resolved,
}
use mergebot.Prelude.{subst, some-injective}
use mergebot.Handlers.Count.{open_count, result_count, AllOpen, KeepsIndex}

-- The blocks before, the blocks after, and the results.
pub data Outcome
    : List ConflictBlock → List ConflictBlock → List BlockResolutionResult → Type 0 where
  done : Outcome [] [] []
  kept :
      (b : ConflictBlock) {bs bs' : List ConflictBlock} {rs : List BlockResolutionResult}
      → Outcome bs bs' rs
      → Outcome (b ∷ bs) (b ∷ bs') rs
  closed :
      (b : ConflictBlock) (r : BlockResolutionResult) {bs bs' : List ConflictBlock}
      {rs : List BlockResolutionResult}
      → r.index ≡ b.index
      → Outcome bs bs' rs
      → Outcome (b ∷ bs) (record b { resolved = true } ∷ bs') (r ∷ rs)

abbrev Pieces : Type 0
Pieces = List ConflictBlock × List BlockResolutionResult

note-Outcome :
    (b : ConflictBlock) (v : Verdict) (rest : Option Pieces) (bs : List ConflictBlock) (p : Pieces)
    → ((r : BlockResolutionResult) → v ≡ resolved r → r.index ≡ b.index)
    → ((q : Pieces) → rest ≡ some q → Outcome bs q.0 q.1)
    → note_block b v rest ≡ some p
    → Outcome (b ∷ bs) p.0 p.1
unfolding note_block
note-Outcome b fault rest bs p k ih e = absurd cc
note-Outcome b unresolved none bs p k ih e = absurd cc
note-Outcome b unresolved (some q) bs p k ih e =
    subst (λ (x : Pieces). Outcome (b ∷ bs) x.0 x.1) (some-injective _ _ e) (kept b (ih q refl))
note-Outcome b (resolved r) none bs p k ih e = absurd cc
note-Outcome b (resolved r) (some q) bs p k ih e =
    subst (λ (x : Pieces). Outcome (b ∷ bs) x.0 x.1) (some-injective _ _ e)
      (closed b r (k r refl) (ih q refl))

-- Every run of the loop that reads no buffer out of bounds is such an outcome.
pub resolve_blocks-Outcome :
    (check : Check) (with_base : Bool) (cf : ConflictFile) (bs : List ConflictBlock) (p : Pieces)
    → KeepsIndex check
    → resolve_blocks check with_base cf bs ≡ some p
    → Outcome bs p.0 p.1
unfolding resolve_blocks
resolve_blocks-Outcome check with_base cf [] p k e =
    subst (λ (x : Pieces). Outcome [] x.0 x.1) (some-injective _ _ e) done
resolve_blocks-Outcome check with_base cf (b ∷ bs) p k e =
    note-Outcome b (check cf (our_code with_base b) (their_code b) b.index)
      (resolve_blocks check with_base cf bs) bs p
      (λ r h. k cf (our_code with_base b) (their_code b) b.index r h)
      (λ q h. resolve_blocks-Outcome check with_base cf bs q k h) e

-- What a loop over blocks leaves and what it resolves add up.
pub Outcome-count :
    (i : ℕ) {bs bs' : List ConflictBlock} {rs : List BlockResolutionResult}
    → Outcome bs bs' rs
    → AllOpen bs
    → open_count i bs' + result_count i rs ≡ open_count i bs
unfolding open_count result_count
Outcome-count i done o = omega arith
Outcome-count i (kept b h) (ob, o) = omega (arith, Outcome-count i h o)
Outcome-count i (closed b r e h) (ob, o) = rw (ob, e) (omega (arith, Outcome-count i h o))

open_tail : (r rest : Bool) → r ≡ false → (r || rest) ≡ false → rest ≡ false
open_tail r rest h e = ground (arith)

-- Without a resolved block nothing has changed, and there is no result.
pub Outcome-none :
    {bs bs' : List ConflictBlock} {rs : List BlockResolutionResult}
    → ever_resolved bs' ≡ false
    → Outcome bs bs' rs
    → AllOpen bs
    → AllOpen bs' × (rs ≡ [])
unfolding ever_resolved
Outcome-none e done o = (tt, refl)
Outcome-none e (kept b {bs' = bs'} h) (ob, o) =
    let (o', q) = Outcome-none (open_tail b.resolved (ever_resolved bs') ob e) h o in ((ob, o'), q)
Outcome-none e (closed b r x h) (ob, o) = absurd cc

-- A file all of whose blocks are resolved has no block left.
pub all_resolved-count :
    (i : ℕ) (bs : List ConflictBlock) → all_resolved bs ≡ true → open_count i bs ≡ 0
unfolding all_resolved open_count
all_resolved-count i [] h = refl
all_resolved-count i (b ∷ bs) h = ground (arith, all_resolved-count i bs)
