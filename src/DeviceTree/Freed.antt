-- ===== src/DeviceTree/Freed.antt =====
-- What `free_device_tree_node` of source/dev/device_tree.c gives back.
use raspberry_pi_os.Base.{ℕ, arith, List, [], ◌∷◌, ◌++◌}
use raspberry_pi_os.Alloc.Heap.{Heap, free}
use raspberry_pi_os.Alloc.Heap.Balance.{
  uses-append, GivesBack, GivesBack-nothing, GivesBack-then, Holds, Holds-rest, Holds-head,
  free_lem, free-then,
}
use raspberry_pi_os.DeviceTree.{DtProperty, DtNode, null_node, dt_node}
use raspberry_pi_os.DeviceTree.Load.{free_properties, free_children, free_device_tree_node}

abbrev pub property_memory : List DtProperty → List ℕ
property_memory [] = []
property_memory (p ∷ rest) = p.key_ptr ∷ p.value_ptr ∷ p.ptr ∷ property_memory rest

-- The names and the properties of a node, of those beside it and of those below them, and none of the
-- structures of the nodes.
abbrev pub texts_of : DtNode → List ℕ
texts_of null_node = []
texts_of (dt_node ptr name_ptr name properties children next) =
    texts_of children ++ (property_memory properties ++ (name_ptr ∷ texts_of next))

-- The same of one node and what is below it.
abbrev pub node_texts : DtNode → List ℕ
node_texts null_node = []
node_texts (dt_node ptr name_ptr name properties children next) =
    texts_of children ++ (property_memory properties ++ (name_ptr ∷ []))

free_properties_lem :
    (ps : List DtProperty) (h : Heap)
    → Holds h (property_memory ps)
    → GivesBack (property_memory ps) h (free_properties ps h)
unfolding free_properties
free_properties_lem [] h all = GivesBack-nothing h
free_properties_lem (p ∷ rest) h all =
    free-then p.key_ptr (p.value_ptr ∷ p.ptr ∷ property_memory rest) h _ all (λ all1.
      free-then p.value_ptr (p.ptr ∷ property_memory rest) _ _ all1 (λ all2.
        free-then p.ptr (property_memory rest) _ _ all2 (λ all3. free_properties_lem rest _ all3)))

-- What is held in two parts is given back in two steps.
in_two :
    (xs ys : List ℕ) (h k l : Heap)
    → Holds h (xs ++ ys)
    → (Holds h xs → GivesBack xs h k)
    → (Holds k ys → GivesBack ys k l)
    → GivesBack (xs ++ ys) h l
in_two xs ys h k l all first second =
    let one = first (λ a. omega (arith, all a, uses-append a xs ys)) in
    GivesBack-then xs ys h k l one (second (Holds-rest xs ys h k all one))

free_children_lem :
    (node : DtNode) (h : Heap)
    → Holds h (texts_of node)
    → GivesBack (texts_of node) h (free_children node h)
unfolding free_children
free_children_lem null_node h all = GivesBack-nothing h
free_children_lem (dt_node ptr name_ptr name properties children next) h all =
    let k = free_children children h in
    let l = free_properties properties k in
    in_two (texts_of children) (property_memory properties ++ (name_ptr ∷ texts_of next)) h k _ all
      (free_children_lem children h)
      (λ all1.
        in_two (property_memory properties) (name_ptr ∷ texts_of next) k l _ all1
          (free_properties_lem properties k)
          (λ all2.
            free-then name_ptr (texts_of next) l _ all2 (free_children_lem next (free name_ptr l))))

-- Freeing a node of which everything is live gives back its name, its properties and those of all
-- nodes below it, each exactly once, and nothing else: the structures of the nodes stay live. No call
-- of `free` gets an address that is not live.
pub free_device_tree_node_lem :
    (node : DtNode) (h : Heap)
    → Holds h (node_texts node)
    → GivesBack (node_texts node) h (free_device_tree_node node h)
unfolding free_device_tree_node
free_device_tree_node_lem null_node h all = GivesBack-nothing h
free_device_tree_node_lem (dt_node ptr name_ptr name properties children next) h all =
    let k = free_children children h in
    let l = free_properties properties k in
    in_two (texts_of children) (property_memory properties ++ (name_ptr ∷ [])) h k _ all
      (free_children_lem children h)
      (λ all1.
        in_two (property_memory properties) (name_ptr ∷ []) k l _ all1
          (free_properties_lem properties k)
          (λ all2. free_lem name_ptr l (Holds-head name_ptr [] l all2)))
