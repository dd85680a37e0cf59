-- ===== src/Text.antt =====
-- The checks of src/core/handler/TextBasedHandler.cpp. The text of the file that `git merge-file`
-- wrote, the parser and the environment variable are parameters.
use mergebot.Prelude.{
  ℕ, zero, suc, ◌+◌, ◌-◌, Bool, true, false, ◌&&◌, ◌||◌, not, Option, none, some, List, [], ◌∷◌,
  ◌++◌, ltb, leb, ◌==◌, if◌then◌else◌, length, take, drop, map,
}
pub mod Checks
pub mod Sub
pub mod Parts
mod Tests
use mergebot.Bytes.{Bytes, codes, bytes_eq, find, contains, is_empty, ends_with}
use mergebot.Bytes.Lines.{newline}
use mergebot.Conflict.{
  ConflictFile, ours, base, theirs, end, enum_name, extract_code_from_conflict_range,
}
use mergebot.StringOps.Deflate.{remove_comments_and_spaces}
use mergebot.StringOps.Macro.{do_macro_expansion}
use mergebot.StringOps.Split.{string_split, string_join}
use mergebot.Results.{BlockResolutionResult}
use mergebot.Handlers.{Verdict, fault, unresolved, resolved, Check}
use mergebot.Graph.{merge_vectors}

-- What `extractConflictBlock` gives: a text, empty where there is no such block, or a read behind
-- the end of the buffer, which it makes where a begin mark has no end mark behind it.
pub data Extracted : Type 0 where
  text : Bytes → Extracted
  overrun : Extracted

pub extract_from : ℕ → ℕ → Bytes → Extracted
extract_from zero index rest = text []
extract_from (suc fuel) index rest = elim (find rest (enum_name ours)) [
  | none ↦ text []
  | some n ↦
      let it = drop n rest in
      let body = drop 7 it in
      elim (find body (enum_name end)) [
        | none ↦ overrun
        | some m ↦ elim (index == 1) [
          | true ↦ text (take (7 + (m + 7)) it)
          | false ↦ extract_from fuel (index - 1) (drop (m + 7) body)
        ]
      ]
]

-- Each round goes on behind the marks of a block. The index of a block is 1 or more.
pub extract_conflict_block : ℕ → Bytes → Extracted
unfolding extract_from
extract_conflict_block index buffer = extract_from (suc (length buffer)) index buffer

pub ends_in : Bytes → List Bytes → Bool
ends_in filename [] = false
ends_in filename (e ∷ es) = ends_with filename e || ends_in filename es

pub is_cpp_source : Bytes → Bool
unfolding ends_in
is_cpp_source filename = ends_in filename (
    codes ".cc"
    ∷ codes ".cpp"
    ∷ codes ".cxx"
    ∷ codes ".cx"
    ∷ codes ".c++"
    ∷ codes ".C"
    ∷ codes ".c++"
    ∷ codes ".c"
    ∷ [])

pub is_cpp_header : Bytes → Bool
unfolding ends_in
is_cpp_header filename = ends_in filename (codes ".hpp" ∷ codes ".h" ∷ [])

-- Whether the second sequence is a part of the first.
pub is_sub_sequence : List Bytes → List Bytes → Bool
is_sub_sequence xs [] = true
is_sub_sequence [] (y ∷ ys) = false
is_sub_sequence (x ∷ xs) (y ∷ ys) =
    if bytes_eq x y then is_sub_sequence xs ys else is_sub_sequence xs (y ∷ ys)

-- A child of the root of a parse tree: its symbol, its text, and whether it is named.
pub record SyntaxNode : Type 0 where
  pub symbol : Bytes
  pub text : Bytes
  pub named : Bool

-- What the handler relies on: the file in the directory `conflicts`, if it can be read; the children
-- of the root of the parsed code; the value of MERGEBOT_DELETION_INFAVOR.
pub record Env : Type 0 where
  pub conflicts : Bytes → Option Bytes
  pub children : Bytes → List SyntaxNode
  pub deletion_infavor : Option Bytes

abbrev pub is_comment : SyntaxNode → Bool
is_comment n = bytes_eq n.symbol (codes "comment")

abbrev pub with_comment : SyntaxNode → Bytes → Bytes
with_comment c code = c.text ++ newline ∷ code

abbrev pub push : Bytes → Option (List Bytes) → Option (List Bytes)
push x none = none
push x (some xs) = some (x ∷ xs)

-- `Decl`: with the comment that is the sibling before, if there is one.
pub declaration_text : Option SyntaxNode → SyntaxNode → Bytes
declaration_text none n = n.text
declaration_text (some p) n = if is_comment p then with_comment p n.text else n.text

-- The loop of `parseDeclarations`, `prev` being the sibling before.
pub declarations : Option SyntaxNode → List SyntaxNode → Option (List Bytes)
unfolding declaration_text
declarations prev [] = some []
declarations prev (n ∷ ns) =
    if not n.named
    then declarations (some n) ns
    else if is_comment n
    then declarations (some n) ns
    else if not (contains n.symbol (codes "declaration"))
    then none
    else push (declaration_text prev n) (declarations (some n) ns)

pub parse_declarations : Env → Bytes → Option (List Bytes)
unfolding declarations
parse_declarations env code = if is_empty code then none else declarations none (env.children code)

-- `Definition`, the siblings before being given the nearest first: each comment replaces the text
-- that the nearer one gave.
pub definition_text : List SyntaxNode → Bytes → Bytes → Bytes
definition_text [] own definition = definition
definition_text (p ∷ before) own definition =
    if is_comment p then definition_text before own (with_comment p own) else definition

abbrev pub is_definition : SyntaxNode → Bool
is_definition n = contains n.symbol (codes "definition")

-- The loop of `parseDefinitions`, with `EverDefinition`.
pub definitions : Bool → List SyntaxNode → List SyntaxNode → Option (Bool × List Bytes)
unfolding definition_text
definitions ever before [] = some (ever, [])
definitions ever before (n ∷ ns) =
    if not n.named
    then definitions ever (n ∷ before) ns
    else if is_comment n
    then definitions ever (n ∷ before) ns
    else if not (is_definition n) && not (contains n.symbol (codes "declaration"))
    then none
    else elim (definitions (ever || is_definition n) (n ∷ before) ns) [
      | none ↦ none
      | some (e, ds) ↦ some (e, definition_text before n.text n.text ∷ ds)
    ]

pub parse_definitions : Env → Bytes → Option (List Bytes)
unfolding definitions
parse_definitions env code =
    if is_empty code then none else elim (definitions false [] (env.children code)) [
      | none ↦ none
      | some (e, ds) ↦ if e then some ds else none
    ]

pub inclusions : List SyntaxNode → Option (List Bytes)
inclusions [] = some []
inclusions (n ∷ ns) =
    if not n.named
    then inclusions ns
    else if not (bytes_eq n.symbol (codes "preproc_include"))
    then none
    else push n.text (inclusions ns)

pub parse_inclusions : Env → Bytes → Option (List Bytes)
unfolding inclusions
parse_inclusions env code = if is_empty code then none else inclusions (env.children code)
