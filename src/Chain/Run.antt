-- ===== src/Chain/Run.antt =====
-- What a chain of handlers keeps, and where it stops.
use mergebot.Prelude.{
  ℕ, ◌≡◌, refl, false, some, List, [], ◌∷◌, ◌∙◌, sym, Bool-cases, inl, inr, Option-cases, subst,
  some-injective, All,
}
use mergebot.Bytes.{Bytes, is_empty}
use mergebot.Results.{Disk}
use mergebot.Handlers.{State}
use mergebot.Handlers.Files.{FilesOpen}
use mergebot.Handlers.Conserve.{total, Keeps, Conserves}
use mergebot.Chain.{Handler, handle}
use mergebot.Chain.Stops.{
  handle_run_none, handle_solved, handle_next, handle_last, handle_nil, handle_skip, Stops,
  chain-Later,
}

Keeps-refl : (disk : Disk) (s : State) → FilesOpen s.files → Keeps disk s s
Keeps-refl disk s o = record { still_open = o; total_same = λ name i. refl }

Keeps-trans : (disk : Disk) (s t u : State) → Keeps disk s t → Keeps disk t u → Keeps disk s u
Keeps-trans disk s t u a b = record {
  still_open = b.still_open;
  total_same = λ name i. b.total_same name i ∙ a.total_same name i;
}

-- The files and the store do not depend on the sign.
sign_off :
    (disk : Disk) (s t : State) → Keeps disk s t → Keeps disk s (record t { running = false })
sign_off disk s t k = record { still_open = k.still_open; total_same = k.total_same }

tail-Keeps :
    (disk : Disk) (h : Handler) (hs : List Handler) (s u t : State)
    → h.skip ≡ false
    → h.run s ≡ some u
    → is_empty u.files ≡ false
    → Keeps disk s u
    → ((x : State) → FilesOpen x.files → handle hs x ≡ some t → Keeps disk x t)
    → handle (h ∷ hs) s ≡ some t
    → Keeps disk s t
tail-Keeps disk h [] s u t k r z first later e =
    subst (λ x. Keeps disk s x) (some-injective _ _ (sym (handle_last h s u k r z) ∙ e))
      (sign_off disk s u first)
tail-Keeps disk h (n ∷ hs) s u t k r z first later e =
    Keeps-trans disk s u t first (later u first.still_open (sym (handle_next h n hs s u k r z) ∙ e))

chain-Keeps :
    (disk : Disk) (hs : List Handler)
    → All (λ h. Conserves disk h.run) hs
    → (s t : State) → FilesOpen s.files
    → handle hs s ≡ some t
    → Keeps disk s t
chain-Keeps disk [] w s t o e =
    subst (λ x. Keeps disk s x) (some-injective _ _ (sym (handle_nil s) ∙ e)) (Keeps-refl disk s o)
chain-Keeps disk (h ∷ hs) (wh, w) s t o e = elim (Bool-cases h.skip) [
  | inl k ↦
      subst (λ x. Keeps disk s x) (some-injective _ _ (sym (handle_skip h hs s k) ∙ e))
        (Keeps-refl disk s o)
  | inr k ↦ elim (Option-cases (h.run s)) [
    | inl n ↦ let f = handle_run_none h hs s k n in absurd cc
    | inr (u, r) ↦
        let first = wh.keeps s u o r in
        elim (Bool-cases (is_empty u.files)) [
          | inl z ↦
              subst (λ x. Keeps disk s x)
                (some-injective _ _ (sym (handle_solved h hs s u k r z) ∙ e)) first
          | inr z ↦
              tail-Keeps disk h hs s u t k r z first (λ x p q. chain-Keeps disk hs w x t p q) e
        ]
  ]
]

-- For a chain of at least one handler, each of which keeps blocks and results, and conflict files
-- with open blocks only: if the chain gives a state, some of its first handlers ran, each on the state
-- that the one before it left and none of them leaving no conflict file, and then the next one was
-- skipped or left no conflict file, or no handler was left and the sign was taken away. Wherever it
-- stopped, the blocks are open, and for every file of results and every index the blocks that wait
-- and the results that are recorded are together as many as before.
pub handle-total :
    (disk : Disk) (h : Handler) (hs : List Handler) (s t : State) (name : Bytes) (i : ℕ)
    → All (λ g. Conserves disk g.run) (h ∷ hs)
    → FilesOpen s.files
    → handle (h ∷ hs) s ≡ some t
    → Stops (h ∷ hs) s t × (FilesOpen t.files × (total disk name i t ≡ total disk name i s))
handle-total disk h hs s t name i w o e =
    let k = chain-Keeps disk (h ∷ hs) w s t o e in
    (chain-Later (h ∷ hs) s t e, (k.still_open, k.total_same name i))
