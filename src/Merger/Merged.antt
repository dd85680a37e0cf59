-- ===== src/Merger/Merged.antt =====
-- The children that a merge gives, in whichever order.
use mergebot.Prelude.{ℕ, ◌≡◌, ◌==◌, List}
use mergebot.Nodes.Defs.{Heap}
use mergebot.Matching.{TwoWayMatching}
use mergebot.Semantic.{OrderInfavour, in_ours, in_theirs}
use mergebot.Merger.{Setting}
use mergebot.Merger.Children.{Merge}
use mergebot.Merger.News.{any, is_news}
use mergebot.Merger.Order.{Insertions}
use mergebot.Merger.Follows.{Follows}

-- The matching and the node of the side whose order is kept, and the matching of the other.
abbrev pub choose {ℓ} : {A : Type ℓ} → OrderInfavour → A → A → A
choose in_ours x y = x
choose in_theirs x y = y

abbrev pub own_matching : Setting → TwoWayMatching
own_matching s = choose s.order_in_favour s.our_matching s.their_matching

abbrev pub other_matching : Setting → TwoWayMatching
other_matching s = choose s.order_in_favour s.their_matching s.our_matching

-- The children `cs` of a node become `r`: those of its side that are kept, and the news of the other
-- side at their places.
abbrev pub Merged :
    (s : Setting)
    → Merge s
    → TwoWayMatching
    → TwoWayMatching
    → Heap
    → List ℕ
    → ℕ
    → Heap
    → List ℕ
    → Type 0
Merged s merge own other h cs b h' r =
    (ks : List ℕ) × ((ns : List ℕ) × (Follows s merge own.one_one_matching h h cs h' ks
        × (((p : ℕ) → any (λ q. q == p) ns ≡ is_news s own other h' b p)
            × Insertions s h' ns ks r)))
