-- ===== src/DeviceTree/Tests.antt =====
-- A small device tree, and the theorems at it.
use raspberry_pi_os.Base.{ℕ, ◌≡◌, refl, arith, List, [], ◌∷◌, ◌++◌}
use raspberry_pi_os.Alloc.Heap.{Heap, grant, kmalloc}
use raspberry_pi_os.Alloc.Heap.Balance.{GivesBack}
use raspberry_pi_os.Text.Number.{c_string}
use raspberry_pi_os.DeviceTree.{
  DtNode, null_node, dt_node, zero_node, parse_ended, load_device_tree_node,
}
use raspberry_pi_os.DeviceTree.Load.{free_device_tree_node}
use raspberry_pi_os.DeviceTree.Format.{
  DtItems, no_items, property_item, nop_item, child_item, be32, zeros, item_bytes,
}
use raspberry_pi_os.DeviceTree.Roundtrip.{load_device_tree_node_lem}
use raspberry_pi_os.DeviceTree.Freed.{free_device_tree_node_lem}
use raspberry_pi_os.DeviceTree.Ending.{EndsFrom, load_device_tree_node-EndsFrom}

-- A property of two bytes, an empty token, and a child without a name that holds nothing.
abbrev items : DtItems
items = property_item 0 (7 ∷ 8 ∷ []) (nop_item (child_item [] no_items no_items))

-- The node `a` with these items, and behind it the text `k`.
abbrev bytes : List ℕ
bytes = be32 1 ((97 ∷ []) ++ zeros 3 (item_bytes items (107 ∷ 0 ∷ [])))

abbrev heap : Heap
heap = record {
  grants = 0x200 ∷ 0x300 ∷ 0x400 ∷ 0x500 ∷ 0x600 ∷ 0x700 ∷ [];
  live = [];
  bad_frees = [];
}

abbrev loaded_node : DtNode
loaded_node =
    dt_node 0x100 0x200 (97 ∷ [])
      (record {
        ptr = 0x300;
        key_ptr = 0x500;
        key = 107 ∷ [];
        value_ptr = 0x400;
        value = 7 ∷ 8 ∷ [];
        length = 2;
      }
        ∷ [])
      (dt_node 0x600 0x700 [] [] null_node null_node) null_node

load_device_tree_node_lem_example :
    load_device_tree_node 20 bytes 0 44 (zero_node 0x100) 44 heap
    ≡ parse_ended 40 loaded_node (record {
      grants = [];
      live = 0x700 ∷ 0x600 ∷ 0x500 ∷ 0x400 ∷ 0x300 ∷ 0x200 ∷ [];
      bad_frees = [];
    })
unfolding kmalloc grant c_string
load_device_tree_node_lem_example =
    load_device_tree_node_lem bytes 0 44 44 20 (97 ∷ []) items (107 ∷ 0 ∷ []) 0x100 heap refl
      (omega arith, omega arith) (omega arith, omega arith, (omega arith, omega arith, omega arith))
      (omega arith) (omega arith) (omega arith)

-- Bytes of which none is a token that the parser knows.
load_device_tree_node-EndsFrom_example :
    EndsFrom 0 (load_device_tree_node 5 (1 ∷ 2 ∷ 3 ∷ []) 0 20 (zero_node 0x100) 64 heap)
load_device_tree_node-EndsFrom_example =
    load_device_tree_node-EndsFrom (1 ∷ 2 ∷ 3 ∷ []) 0 20 64 5 (zero_node 0x100) heap (omega arith)
      (omega arith)

abbrev full_heap : Heap
full_heap = record {
  grants = [];
  live = 0x100 ∷ 0x200 ∷ 0x300 ∷ 0x400 ∷ 0x500 ∷ 0x600 ∷ 0x700 ∷ [];
  bad_frees = [];
}

free_device_tree_node_lem_example :
    GivesBack
      (0x700 ∷ 0x500 ∷ 0x400 ∷ 0x300 ∷ 0x200 ∷ [])
      full_heap
      (free_device_tree_node loaded_node full_heap)
free_device_tree_node_lem_example =
    free_device_tree_node_lem loaded_node full_heap (λ a. omega arith)
