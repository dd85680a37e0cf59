-- ===== src/Sources/Direct.antt =====
-- The includes that the callback collects are those of the main file.
use mergebot.Prelude.{
  ℕ, suc, ◌+◌, ◌^◌, ◌≡◌, ◌<◌, ◌≤◌, refl, ap, ◌∙◌, sym, Bool, true, false, ◌||◌, Option, none, some,
  List, [], ◌∷◌, ◌++◌, ◌==◌, if◌then◌else◌, arith, Bool-cases, inl, inr, leb, subst,
}
use mergebot.Bytes.{Bytes, bytes_eq, bytes_eq_sound}
use mergebot.Semantic.{seen_in}
use mergebot.Sources.{
  Event, enter_file, exit_file, inclusion, Lookup, insert_path, on_event, on_events,
}

-- The inclusions of a file in order. A file that is entered has inclusions of its own; one that is
-- guarded or missing is not entered.
pub data Includes : Type 0 where
  nothing : Includes
  entered : Bool → Option Bytes → Includes → Includes → Includes
  skipped : Bool → Option Bytes → Includes → Includes

-- What the preprocessor reports of them, depth first.
unfoldable pub events : Includes → List Event
events nothing = []
events (entered angled file inner rest) =
    inclusion angled file ∷ enter_file ∷ events inner ++ exit_file ∷ events rest
events (skipped angled file rest) = inclusion angled file ∷ events rest

abbrev pub quoted : Bool → Option Bytes → List Bytes
quoted true file = []
quoted false none = []
quoted false (some f) = f ∷ []

-- The files that the quoted inclusions of the file itself name.
unfoldable pub direct : Includes → List Bytes
direct nothing = []
direct (entered angled file inner rest) = quoted angled file ++ direct rest
direct (skipped angled file rest) = quoted angled file ++ direct rest

-- How deep files are entered.
unfoldable pub height : Includes → ℕ
height nothing = 0
height (entered angled file inner rest) =
    if leb (suc (height inner)) (height rest) then height rest else suc (height inner)
height (skipped angled file rest) = height rest

pub seen_in-insert_path :
    (z x : Bytes) (set : List Bytes)
    → seen_in z (insert_path x set) ≡ (seen_in z set || bytes_eq z x)
unfolding insert_path seen_in
seen_in-insert_path z x set = elim (Bool-cases (seen_in x set)) [
  | inr e ↦ rw (e, insert_path) (ground arith)
  | inl e ↦ elim (Bool-cases (bytes_eq z x)) [
    | inr f ↦ rw (e, f, insert_path) (ground arith)
    | inl f ↦
        let same = bytes_eq_sound z x f in
        let there : seen_in z set ≡ true = subst (λ y. seen_in y set ≡ true) (sym same) e in
        rw (e, f, there, insert_path) refl
  ]
]

on_events-append :
    (es fs : List Event) (s : Lookup) → on_events (es ++ fs) s ≡ on_events fs (on_events es s)
unfolding on_events
on_events-append [] fs s = refl
on_events-append (e ∷ es) fs s = on_events-append es fs (on_event e s)

abbrev pub at : ℕ → List Bytes → Lookup
at d files = record { depth = d; direct_includes = files }

enter_lem :
    (d : ℕ) (files : List Bytes)
    → d + 1 < 2 ^ 32
    → on_event enter_file (at d files) ≡ at (d + 1) files
unfolding on_event
enter_lem d files h = ap (λ k. at k files) (omega arith)

exit_lem :
    (d : ℕ) (files : List Bytes)
    → d + 1 < 2 ^ 32
    → on_event exit_file (at (d + 1) files) ≡ at d files
unfolding on_event
exit_lem d files h = ap (λ k. at k files) (omega arith)

-- A file whose own inclusions leave the state leads back to where it was entered.
there_and_back :
    (es fs : List Event) (d : ℕ) (files : List Bytes)
    → d + 1 < 2 ^ 32
    → on_events es (at (d + 1) files) ≡ at (d + 1) files
    → on_events (enter_file ∷ es ++ exit_file ∷ fs) (at d files) ≡ on_events fs (at d files)
unfolding on_events
there_and_back es fs d files h e =
    ap (on_events (es ++ exit_file ∷ fs)) (enter_lem d files h)
    ∙ (on_events-append es (exit_file ∷ fs) (at (d + 1) files)
        ∙ (ap (on_events (exit_file ∷ fs)) e ∙ ap (on_events fs) (exit_lem d files h)))

inclusion_deep :
    (a : Bool) (f : Option Bytes) (d : ℕ) (files : List Bytes)
    → 2 ≤ d
    → on_event (inclusion a f) (at d files) ≡ at d files
unfolding on_event
inclusion_deep true f d files l = refl
inclusion_deep false f d files l = let e : (d == 1) ≡ false = ground arith in rw (e, on_event) refl

height_inner :
    (a : Bool) (f : Option Bytes) (inner rest : Includes)
    → (suc (height inner) ≤ height (entered a f inner rest))
      × (height rest ≤ height (entered a f inner rest))
unfolding height
height_inner a f inner rest = (ground arith, ground arith)

-- Inside an included file nothing is collected.
on_events-deep :
    (t : Includes) (d : ℕ) (files : List Bytes)
    → 2 ≤ d
    → d + height t < 2 ^ 32
    → on_events (events t) (at d files) ≡ at d files
unfolding on_events events height
on_events-deep nothing d files l h = refl
on_events-deep (entered a f inner rest) d files l h =
    let (deeper, later) = height_inner a f inner rest in
    ap (on_events (enter_file ∷ events inner ++ exit_file ∷ events rest))
      (inclusion_deep a f d files l)
    ∙ (there_and_back (events inner) (events rest) d files (omega arith)
          (on_events-deep inner (d + 1) files (omega arith) (omega arith))
        ∙ on_events-deep rest d files l (omega arith))
on_events-deep (skipped a f rest) d files l h =
    ap (on_events (events rest)) (inclusion_deep a f d files l) ∙ on_events-deep rest d files l h

abbrev insert_all : List Bytes → List Bytes → List Bytes
insert_all [] files = files
insert_all (x ∷ xs) files = insert_all xs (insert_path x files)

seen_in-insert_all :
    (z : Bytes) (xs files : List Bytes)
    → seen_in z (insert_all xs files) ≡ (seen_in z files || seen_in z xs)
unfolding seen_in
seen_in-insert_all z [] files = ground arith
seen_in-insert_all z (x ∷ xs) files =
    let later = seen_in-insert_all z xs (insert_path x files) in
    let first = seen_in-insert_path z x files in ground arith

insert_all-append :
    (xs ys files : List Bytes) → insert_all (xs ++ ys) files ≡ insert_all ys (insert_all xs files)
insert_all-append [] ys files = refl
insert_all-append (x ∷ xs) ys files = insert_all-append xs ys (insert_path x files)

inclusion_direct :
    (a : Bool) (f : Option Bytes) (files : List Bytes)
    → on_event (inclusion a f) (at 1 files) ≡ at 1 (insert_all (quoted a f) files)
unfolding on_event
inclusion_direct true f files = refl
inclusion_direct false none files = refl
inclusion_direct false (some f) files = refl

on_events_main :
    (t : Includes) (files : List Bytes)
    → 1 + height t < 2 ^ 32
    → on_events (events t) (at 1 files) ≡ at 1 (insert_all (direct t) files)
unfolding on_events events direct height
on_events_main nothing files h = refl
on_events_main (entered a f inner rest) files h =
    let (deeper, later) = height_inner a f inner rest in
    let more = insert_all (quoted a f) files in
    ap (on_events (enter_file ∷ events inner ++ exit_file ∷ events rest))
      (inclusion_direct a f files)
    ∙ (there_and_back (events inner) (events rest) 1 more (omega arith)
          (on_events-deep inner 2 more (omega arith) (omega arith))
        ∙ (on_events_main rest more (omega arith)
            ∙ ap (at 1) (sym (insert_all-append (quoted a f) (direct rest) files))))
on_events_main (skipped a f rest) files h =
    let more = insert_all (quoted a f) files in
    ap (on_events (events rest)) (inclusion_direct a f files)
    ∙ (on_events_main rest more h
        ∙ ap (at 1) (sym (insert_all-append (quoted a f) (direct rest) files)))

-- Of a main file whose inclusions the preprocessor goes through depth first, and which are less than
-- 2^32 - 1 deep, exactly the files are collected that its own quoted inclusions name, and the depth
-- is 0 again.
pub on_events-direct :
    (t : Includes)
    → 1 + height t < 2 ^ 32
    → ((on_events (enter_file ∷ events t ++ exit_file ∷ []) (at 0 [])).depth ≡ 0)
      × ((z : Bytes)
          → seen_in z
              (on_events (enter_file ∷ events t ++ exit_file ∷ []) (at 0 [])).direct_includes
            ≡ seen_in z (direct t))
unfolding on_events seen_in
on_events-direct t h =
    let run : on_events (enter_file ∷ events t ++ exit_file ∷ []) (at 0 [])
        ≡ at 0 (insert_all (direct t) []) =
      ap (on_events (events t ++ exit_file ∷ [])) (enter_lem 0 [] (omega arith))
      ∙ (on_events-append (events t) (exit_file ∷ []) (at 1 [])
          ∙ (ap (on_events (exit_file ∷ [])) (on_events_main t [] h)
              ∙ exit_lem 0 (insert_all (direct t) []) (omega arith))) in
    (
      ap (λ s. s.depth) run,
      λ z. ap (λ s. seen_in z s.direct_includes) run ∙ seen_in-insert_all z (direct t) [],
    )
