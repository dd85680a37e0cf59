-- ===== src/Nodes/Tests.antt =====
-- Names and hashes of small nodes.
use mergebot.Prelude.{◌≡◌, refl, some, [], ◌∷◌, ◌==◌, if◌then◌else◌}
use mergebot.Bytes.{codes}
use mergebot.Nodes.{get_nearest_neighbor_names, nearest_names, hash_signature}
use mergebot.Nodes.Defs.{func_def, textual, Heap}
use mergebot.Nodes.Names.{rfind, get_unqualified_name, get_full_qualified_name}
use mergebot.Nodes.Samples.{sample_hash, sample_node, sample_func}

full_name : get_full_qualified_name (codes "a::b") (codes "x::f") func_def ≡ codes "a::b::f"
unfolding get_full_qualified_name get_unqualified_name rfind
full_name = refl

full_name_global : get_full_qualified_name [] (codes "x::f") func_def ≡ codes "x::f"
unfolding get_full_qualified_name get_unqualified_name rfind
full_name_global = refl

full_name_textual : get_full_qualified_name (codes "a::") (codes "f") textual ≡ codes "a::"
unfolding get_full_qualified_name get_unqualified_name rfind
full_name_textual = refl

-- Four functions under one parent.
abbrev family : Heap
family p =
    if p == 0
    then record (sample_node 0 (codes "ns") sample_func) { children = 1 ∷ 2 ∷ 3 ∷ [] }
    else if p == 1
    then record (sample_node 1 (codes "f") sample_func) { parent = some 0 }
    else if p == 2
    then record (sample_node 2 (codes "g") sample_func) { parent = some 0 }
    else record (sample_node 3 (codes "h") sample_func) { parent = some 0 }

neighbours_inside :
    get_nearest_neighbor_names sample_hash family (family 2) ≡ codes "f" ∷ codes "h" ∷ []
unfolding get_nearest_neighbor_names nearest_names hash_signature
neighbours_inside = refl

neighbours_first : get_nearest_neighbor_names sample_hash family (family 1) ≡ [] ∷ codes "g" ∷ []
unfolding get_nearest_neighbor_names nearest_names hash_signature
neighbours_first = refl
