-- ===== src/Cluster/Inserting.antt =====
-- insertNode of cluster/ShardRouter.cpp.
use yolo_server.Prelude.{
  ◌≡◌, ◌↔◌, refl, true, false, Text, List, [], ◌∷◌, ◌++◌, arith, Bool-cases, inl, inr, text_eq,
  text_eq_iff, text_eq_refl, ◌||◌, append-nil, some, ◌≢◌, ℕ, subst,
}
use yolo_server.Cluster.Router.{NodeInfo, has_id, insert_node, pick_node}
use yolo_server.Cluster.Moving.{pick_node-remove}

-- No two nodes of the list have the same id.
abbrev pub IsDistinct : List NodeInfo → Type 0
IsDistinct [] = Unit
IsDistinct (n ∷ ns) = (has_id n.id ns ≡ false) × IsDistinct ns

has_id-append :
    (id : Text) (ns : List NodeInfo) (n : NodeInfo)
    → has_id id (ns ++ n ∷ []) ≡ (has_id id ns || text_eq n.id id)
unfolding has_id
has_id-append id [] n = ground arith
has_id-append id (m ∷ ns) n = ground (arith, has_id-append id ns n)

append-IsDistinct :
    (ns : List NodeInfo) (n : NodeInfo)
    → IsDistinct ns
    → has_id n.id ns ≡ false
    → IsDistinct (ns ++ n ∷ [])
unfolding has_id
append-IsDistinct [] n d fresh = (refl, tt)
append-IsDistinct (m ∷ ns) n d fresh = (apart, append-IsDistinct ns n d.1 (ground (arith, fresh)))
  where
    apart : has_id m.id (ns ++ n ∷ []) ≡ false
    apart =
        ground
          (arith, has_id-append m.id ns n, d.0, fresh, text_eq_iff m.id n.id, text_eq_iff n.id m.id)

-- InsertNode keeps the ids of the list distinct, and afterwards the node's id and every earlier id
-- are in the list; it returns true exactly if the id was not there before.
pub insert_node_lem :
    (ns : List NodeInfo) (n : NodeInfo)
    → IsDistinct ns
    → let r = insert_node ns n in
      IsDistinct r.1
      × (has_id n.id r.1 ≡ true)
      × ((id : Text) → has_id id ns ≡ true → has_id id r.1 ≡ true)
      × ((r.0 ≡ true) ↔ (has_id n.id ns ≡ false))
unfolding insert_node
insert_node_lem ns n d = elim (Bool-cases (has_id n.id ns)) [
  | inl there ↦ rw there (d, there, λ id h. h, ground arith)
  | inr fresh ↦ rw fresh (
    append-IsDistinct ns n d fresh,
    ground (arith, has_id-append n.id ns n, text_eq_refl n.id),
    λ id h. ground (arith, has_id-append id ns n),
    ground arith,
  )
]

-- InsertNode moves a key to the new node or leaves it where it is.
pub pick_node-insert_node :
    (hash : Text → ℕ) (key : Text) (ns : List NodeInfo) (n m : NodeInfo)
    → pick_node hash (insert_node ns n).1 key ≡ some m
    → m ≢ n
    → pick_node hash ns key ≡ some m
unfolding insert_node
pick_node-insert_node hash key ns n m e other = elim (Bool-cases (has_id n.id ns)) [
  | inl there ↦ rw there at e
  | inr fresh ↦
      subst (λ xs. pick_node hash xs key ≡ some m) (append-nil ns)
        (pick_node-remove hash key ns [] n m (rw fresh at e) other)
]
