-- ===== src/Text/Parts.antt =====
-- What the text based handler reads out of a text that is made of definitions and declarations.
use mergebot.Prelude.{
  ◌≡◌, refl, Bool, true, false, ◌&&◌, ◌||◌, not, Option, none, some, List, [], ◌∷◌, ◌++◌, map, All,
  if◌then◌else◌, ap, ◌∙◌,
}
use mergebot.Bytes.{Bytes, codes, contains, is_empty}
use mergebot.Text.{
  SyntaxNode, Env, is_comment, with_comment, definition_text, is_definition, definitions,
  parse_definitions,
}

-- A definition or declaration among the children of a root: tokens in front of it, such as a
-- semicolon, comments directly in front of it, and the node.
pub record Item : Type 0 where
  pub tokens : List SyntaxNode
  pub comments : List SyntaxNode
  pub node : SyntaxNode

abbrev pub children_of : List Item → List SyntaxNode
children_of [] = []
children_of (i ∷ is) = i.tokens ++ (i.comments ++ i.node ∷ children_of is)

abbrev pub IsItem : Item → Type 0
IsItem i =
    All (λ n. (n.named ≡ false) × (is_comment n ≡ false)) i.tokens
    × All (λ n. is_comment n ≡ true) i.comments
    × (i.node.named ≡ true)
    × (is_comment i.node ≡ false)
    × ((is_definition i.node || contains i.node.symbol (codes "declaration")) ≡ true)

-- The text of the node, under the first of its comments.
abbrev pub top : List SyntaxNode → Bytes → Bytes → Bytes
top [] own text = text
top (c ∷ cs) own text = with_comment c own

abbrev pub item_text : Item → Bytes
item_text i = top i.comments i.node.text i.node.text

abbrev pub any_definition : List Item → Bool
any_definition [] = false
any_definition (i ∷ is) = is_definition i.node || any_definition is

-- The list is empty or begins with another node than a comment.
abbrev pub NoComment : List SyntaxNode → Type 0
NoComment [] = Unit
NoComment (p ∷ ps) = is_comment p ≡ false

abbrev pub rev_onto : List SyntaxNode → List SyntaxNode → List SyntaxNode
rev_onto [] before = before
rev_onto (n ∷ ns) before = rev_onto ns (n ∷ before)

-- A node that is not named is passed over; so is a comment, named or not; another is taken.
unnamed {ℓ} : {A : Type ℓ} (a : Bool) (x y : A) → a ≡ false → (if not a then x else y) ≡ x
unnamed a x y h = rw h refl

passed {ℓ} :
    {A : Type ℓ} (a c : Bool) (x y : A) → c ≡ true → (if not a then x else if c then x else y) ≡ x
passed false c x y h = refl
passed true c x y h = rw h refl

taken {ℓ} :
    {A : Type ℓ} (a c d e : Bool) (x y z : A)
    → a ≡ true
    → c ≡ false
    → (d || e) ≡ true
    → (if not a then x else if c then x else if not d && not e then y else z) ≡ z
taken a c true e x y z h k l = rw (h, k) refl
taken a c false e x y z h k l = rw (h, k, l) refl

definition_text-rev_onto :
    (cs before : List SyntaxNode) (own text : Bytes)
    → All (λ n. is_comment n ≡ true) cs
    → definition_text (rev_onto cs before) own text ≡ definition_text before own (top cs own text)
unfolding definition_text
definition_text-rev_onto [] before own text w = refl
definition_text-rev_onto (c ∷ cs) before own text (h, w) =
    definition_text-rev_onto cs (c ∷ before) own text w ∙ rw h refl

definition_text_alone :
    (before : List SyntaxNode) (own text : Bytes)
    → NoComment before
    → definition_text before own text ≡ text
unfolding definition_text
definition_text_alone [] own text w = refl
definition_text_alone (p ∷ before) own text w = rw w refl

definitions_tokens :
    (ever : Bool) (ts before rest : List SyntaxNode)
    → All (λ n. (n.named ≡ false) × (is_comment n ≡ false)) ts
    → definitions ever before (ts ++ rest) ≡ definitions ever (rev_onto ts before) rest
unfolding definitions
definitions_tokens ever [] before rest w = refl
definitions_tokens ever (t ∷ ts) before rest ((n, _), w) =
    unnamed t.named _ _ n ∙ definitions_tokens ever ts (t ∷ before) rest w

NoComment-rev_onto :
    (ts before : List SyntaxNode)
    → All (λ n. (n.named ≡ false) × (is_comment n ≡ false)) ts
    → NoComment before
    → NoComment (rev_onto ts before)
NoComment-rev_onto [] before w h = h
NoComment-rev_onto (t ∷ ts) before ((_, c), w) h = NoComment-rev_onto ts (t ∷ before) w c

definitions_comments :
    (ever : Bool) (cs before rest : List SyntaxNode)
    → All (λ n. is_comment n ≡ true) cs
    → definitions ever before (cs ++ rest) ≡ definitions ever (rev_onto cs before) rest
unfolding definitions
definitions_comments ever [] before rest w = refl
definitions_comments ever (c ∷ cs) before rest (h, w) =
    passed c.named (is_comment c) _ _ h ∙ definitions_comments ever cs (c ∷ before) rest w

-- The text in front of what the loop gives for the nodes behind.
abbrev listed : Bytes → Option (Bool × List Bytes) → Option (Bool × List Bytes)
listed t none = none
listed t (some (e, ds)) = some (e, t ∷ ds)

definitions_node :
    (ever e : Bool) (before : List SyntaxNode) (n : SyntaxNode) (rest : List SyntaxNode)
    (ds : List Bytes)
    → n.named ≡ true
    → is_comment n ≡ false
    → (is_definition n || contains n.symbol (codes "declaration")) ≡ true
    → definitions (ever || is_definition n) (n ∷ before) rest ≡ some (e, ds)
    → definitions ever before (n ∷ rest) ≡ some (e, definition_text before n.text n.text ∷ ds)
unfolding definitions
definitions_node ever e before n rest ds a c d r =
    taken n.named (is_comment n) (is_definition n) (contains n.symbol (codes "declaration")) _ _ _ a
      c d
    ∙ ap (listed (definition_text before n.text n.text)) r

or_assoc : (a b c : Bool) → (a || b) || c ≡ a || (b || c)
or_assoc true b c = refl
or_assoc false b c = refl

or_false : (a : Bool) → a || false ≡ a
or_false true = refl
or_false false = refl

definitions-children_of :
    (ever : Bool) (before : List SyntaxNode) (is : List Item)
    → All IsItem is
    → NoComment before
    → definitions ever before (children_of is) ≡ some (ever || any_definition is, map item_text is)
unfolding definitions
definitions-children_of ever before [] w h = rw (or_false ever) refl
definitions-children_of ever before (i ∷ is) ((ts, cs, a, c, d), w) h =
    let front = rev_onto i.tokens before in
    let near = rev_onto i.comments front in
    let rest = children_of is in
    let text : definition_text near i.node.text i.node.text ≡ item_text i =
      definition_text-rev_onto i.comments front i.node.text i.node.text cs
      ∙ definition_text_alone front i.node.text (item_text i)
          (NoComment-rev_onto i.tokens before ts h) in
    definitions_tokens ever i.tokens before (i.comments ++ i.node ∷ rest) ts
    ∙ definitions_comments ever i.comments front (i.node ∷ rest) cs
    ∙ definitions_node ever _ near i.node rest _ a c d
        (definitions-children_of (ever || is_definition i.node) (i.node ∷ near) is w c)
    ∙ ap (λ t. some ((ever || is_definition i.node) || any_definition is, t ∷ map item_text is))
        text
    ∙ ap (λ e. some (e, item_text i ∷ map item_text is))
        (or_assoc ever (is_definition i.node) (any_definition is))

-- A text that is not empty, and is parsed into definitions and declarations, each with tokens and then
-- comments in front of it, is listed if one of them is a definition: each one's text in order, under
-- the first of the comments directly in front of it, if there are any, the others being lost. If
-- none of them is a definition, there is no list.
pub parse_definitions-children_of :
    (env : Env) (code : Bytes) (is : List Item)
    → is_empty code ≡ false
    → env.children code ≡ children_of is
    → All IsItem is
    → parse_definitions env code ≡ (if any_definition is then some (map item_text is) else none)
unfolding parse_definitions
parse_definitions-children_of env code is n e w =
    rw (n, e, definitions-children_of false [] is w tt) refl
