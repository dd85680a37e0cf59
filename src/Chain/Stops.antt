-- ===== src/Chain/Stops.antt =====
-- Where a chain of handlers stops: SAHandler::handle of include/mergebot/core/handler/SAHandler.h.
use mergebot.Prelude.{
  ◌≡◌, refl, true, false, none, some, List, [], ◌∷◌, ◌++◌, ◌∙◌, ap, sym, Bool-cases, inl, inr,
  Option-cases, subst, some-injective,
}
use mergebot.Bytes.{is_empty}
use mergebot.Handlers.{State}
use mergebot.Chain.{Handler, handle}

pub handle_run_none :
    (h : Handler) (hs : List Handler) (s : State)
    → h.skip ≡ false
    → h.run s ≡ none
    → handle (h ∷ hs) s ≡ none
unfolding handle
handle_run_none h hs s k e = rw (k, e) refl

pub handle_solved :
    (h : Handler) (hs : List Handler) (s t : State)
    → h.skip ≡ false
    → h.run s ≡ some t
    → is_empty t.files ≡ true
    → handle (h ∷ hs) s ≡ some t
unfolding handle
handle_solved h hs s t k e z = rw (k, e, z) refl

pub handle_next :
    (h n : Handler) (hs : List Handler) (s t : State)
    → h.skip ≡ false
    → h.run s ≡ some t
    → is_empty t.files ≡ false
    → handle (h ∷ n ∷ hs) s ≡ handle (n ∷ hs) t
unfolding handle
handle_next h n hs s t k e z = rw (k, e, z) refl

pub handle_last :
    (h : Handler) (s t : State)
    → h.skip ≡ false
    → h.run s ≡ some t
    → is_empty t.files ≡ false
    → handle (h ∷ []) s ≡ some (record t { running = false })
unfolding handle
handle_last h s t k e z = rw (k, e, z) refl

pub handle_nil : (s : State) → handle [] s ≡ some s
unfolding handle
handle_nil s = refl

pub handle_skip :
    (h : Handler) (hs : List Handler) (s : State) → h.skip ≡ true → handle (h ∷ hs) s ≡ some s
unfolding handle
handle_skip h [] s k = rw k refl
handle_skip h (n ∷ hs) s k = rw k refl

-- The handlers run one after another, each on the state that the one before it left, and each leaves
-- conflict files.
pub data Passed : List Handler → State → State → Type 0 where
  start : {s : State} → Passed [] s s
  step :
      (h : Handler) {hs : List Handler} {s t u : State}
      → h.skip ≡ false
      → h.run s ≡ some t
      → is_empty t.files ≡ false
      → Passed hs t u
      → Passed (h ∷ hs) s u

-- Why a chain ends at a state: its next handler is skipped, its next handler leaves no conflict
-- file, or there is no handler left, which takes the sign away.
pub data Stopped : List Handler → State → State → Type 0 where
  skipped : {h : Handler} {hs : List Handler} {s : State} → h.skip ≡ true → Stopped (h ∷ hs) s s
  solved :
      {h : Handler} {hs : List Handler} {s t : State}
      → h.skip ≡ false
      → h.run s ≡ some t
      → is_empty t.files ≡ true
      → Stopped (h ∷ hs) s t
  exhausted : {s : State} → Stopped [] s (record s { running = false })

-- A chain runs some of its first handlers, and then stops.
abbrev pub Stops : List Handler → State → State → Type 0
Stops hs s t =
    (pre : List Handler) × ((post : List Handler) × ((u : State) × ((hs ≡ pre ++ post)
          × (Passed pre s u × Stopped post u t))))

-- One more handler in front.
step-Stops :
    (h : Handler) (hs : List Handler) (s u t : State)
    → h.skip ≡ false
    → h.run s ≡ some u
    → is_empty u.files ≡ false
    → Stops hs u t
    → Stops (h ∷ hs) s t
step-Stops h hs s u t k r z (pre, (post, (v, (e, (p, q))))) =
    (h ∷ pre, (post, (v, (ap (λ l. h ∷ l) e, (step h k r z p, q)))))

-- What is to be shown of the handlers behind one, if there are any.
abbrev pub Later : List Handler → State → State → Type 0
Later [] u t = Unit
Later (n ∷ hs) u t = handle (n ∷ hs) u ≡ some t → Stops (n ∷ hs) u t

-- Behind a handler that leaves conflict files.
tail-Stops :
    (h : Handler) (hs : List Handler) (s u t : State)
    → h.skip ≡ false
    → h.run s ≡ some u
    → is_empty u.files ≡ false
    → Later hs u t
    → handle (h ∷ hs) s ≡ some t
    → Stops (h ∷ hs) s t
tail-Stops h [] s u t k r z later e = step-Stops h [] s u t k r z (
  [],
  (
    [],
    (
      u,
      (
        refl,
        (
          start,
          subst (λ x. Stopped [] u x) (some-injective _ _ (sym (handle_last h s u k r z) ∙ e))
              exhausted,
        ),
      ),
    ),
  ),
)
tail-Stops h (n ∷ hs) s u t k r z later e =
    step-Stops h (n ∷ hs) s u t k r z (later (sym (handle_next h n hs s u k r z) ∙ e))

front-Stops :
    (h : Handler) (hs : List Handler) (s t : State)
    → ((u : State) → Later hs u t)
    → handle (h ∷ hs) s ≡ some t
    → Stops (h ∷ hs) s t
front-Stops h hs s t later e = elim (Bool-cases h.skip) [
  | inl k ↦ (
    [],
    (
      h ∷ hs,
      (
        s,
        (
          refl,
          (
            start,
            subst (λ x. Stopped (h ∷ hs) s x) (some-injective _ _ (sym (handle_skip h hs s k) ∙ e))
                (skipped k),
          ),
        ),
      ),
    ),
  )
  | inr k ↦ elim (Option-cases (h.run s)) [
    | inl n ↦ let f = handle_run_none h hs s k n in absurd cc
    | inr (u, r) ↦ elim (Bool-cases (is_empty u.files)) [
      | inl z ↦ (
        [],
        (
          h ∷ hs,
          (
            s,
            (
              refl,
              (
                start,
                subst (λ x. Stopped (h ∷ hs) s x)
                    (some-injective _ _ (sym (handle_solved h hs s u k r z) ∙ e)) (solved k r z),
              ),
            ),
          ),
        ),
      )
      | inr z ↦ tail-Stops h hs s u t k r z (later u) e
    ]
  ]
]

pub chain-Later : (hs : List Handler) (u t : State) → Later hs u t
chain-Later [] u t = tt
chain-Later (n ∷ hs) u t = front-Stops n hs u t (λ v. chain-Later hs v t)
