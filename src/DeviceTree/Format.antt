-- ===== src/DeviceTree/Format.antt =====
-- The bytes that the format gives the nodes of a device tree, and how source/dev/device_tree.c reads
-- them back.
use raspberry_pi_os.Base.{
  ℕ, zero, suc, ◌+◌, ◌-◌, ◌*◌, ◌/◌, ◌%◌, ◌≤◌, ◌<◌, ◌≡◌, ◌≢◌, arith, List, [], ◌∷◌, ◌++◌, length,
  drop,
}
use raspberry_pi_os.Text.Number.{c_string}
use raspberry_pi_os.Alloc.Heap.Balance.{given, kmalloc-given}
use raspberry_pi_os.Alloc.Heap.{Heap, kmalloc}
use raspberry_pi_os.DeviceTree.{DtProperty, DtNode, null_node, dt_node}

-- What a node holds behind its name, in the order of the file.
pub data DtItems : Type 0 where
  no_items : DtItems
  property_item : (name_off : ℕ) (value : List ℕ) (rest : DtItems) → DtItems
  nop_item : (rest : DtItems) → DtItems
  child_item : (name : List ℕ) (inside rest : DtItems) → DtItems

abbrev pub be32 : ℕ → List ℕ → List ℕ
be32 v rest = v / 16777216 % 256 ∷ v / 65536 % 256 ∷ v / 256 % 256 ∷ v % 256 ∷ rest

abbrev pub zeros : ℕ → List ℕ → List ℕ
zeros zero rest = rest
zeros (suc n) rest = 0 ∷ zeros n rest

-- The bytes of a value, and of a name with its zero, up to the next token.
abbrev pub value_room : ℕ → ℕ
value_room n = 4 * ((n + 3) / 4)

abbrev pub name_room : ℕ → ℕ
name_room n = 4 * ((n + 4) / 4)

abbrev pub item_bytes : DtItems → List ℕ → List ℕ
item_bytes no_items rest = be32 2 rest
item_bytes (property_item name_off value items) rest = be32 3 (
    be32 (length value) (
      be32 name_off
        (value ++ zeros (value_room (length value) - length value) (item_bytes items rest))))
item_bytes (nop_item items) rest = be32 4 (item_bytes items rest)
item_bytes (child_item name inside items) rest = be32 1 (
    name
    ++ zeros (name_room (length name) - length name) (item_bytes inside (item_bytes items rest)))

abbrev pub item_size : DtItems → ℕ
item_size no_items = 4
item_size (property_item name_off value items) = 12 + value_room (length value) + item_size items
item_size (nop_item items) = 4 + item_size items
item_size (child_item name inside items) =
    4 + name_room (length name) + item_size inside + item_size items

abbrev pub AllNonzero : List ℕ → Type 0
AllNonzero [] = 0 ≤ 0
AllNonzero (c ∷ s) = (c ≢ 0) × AllNonzero s

-- Lengths and offsets fit 32 bits, and a name holds no zero.
abbrev pub AreWellFormed : DtItems → Type 0
AreWellFormed no_items = 0 ≤ 0
AreWellFormed (property_item name_off value items) =
    (name_off < 4294967296) × (length value < 4294967292) × AreWellFormed items
AreWellFormed (nop_item items) = AreWellFormed items
AreWellFormed (child_item name inside items) =
    AllNonzero name × AreWellFormed inside × AreWellFormed items

-- How many structures and texts the items take memory for.
abbrev pub allocs : DtItems → ℕ
allocs no_items = 0
allocs (property_item name_off value items) = 3 + allocs items
allocs (nop_item items) = allocs items
allocs (child_item name inside items) = 2 + allocs inside + allocs items

-- The properties and the children that a node has behind its items, from those that it had before: every
-- item stands in front of the earlier ones.
abbrev pub loaded :
    List ℕ
    → (prop_strings : ℕ) → DtItems
    → List DtProperty
    → DtNode
    → Heap
    → List DtProperty × DtNode × Heap
loaded dtb prop_strings no_items ps cs h = (ps, cs, h)
loaded dtb prop_strings (property_item name_off value items) ps cs h =
    let (ptr, h1) = kmalloc h in
    let (value_ptr, h2) = kmalloc h1 in
    let (key_ptr, h3) = kmalloc h2 in
    let property : DtProperty = record {
      ptr = ptr;
      key_ptr = key_ptr;
      key = c_string (drop (prop_strings + name_off) dtb);
      value_ptr = value_ptr;
      value = value;
      length = length value;
    } in
    loaded dtb prop_strings items (property ∷ ps) cs h3
loaded dtb prop_strings (nop_item items) ps cs h = loaded dtb prop_strings items ps cs h
loaded dtb prop_strings (child_item name inside items) ps cs h =
    let (ptr, h1) = kmalloc h in
    let (name_ptr, h2) = kmalloc h1 in
    let child = loaded dtb prop_strings inside [] null_node h2 in
    loaded dtb prop_strings items ps (dt_node ptr name_ptr name child.0 child.1 cs) child.2

pub loaded-given :
    (dtb : List ℕ) (prop_strings : ℕ) (items : DtItems) (ps : List DtProperty) (cs : DtNode)
    (h : Heap)
    → allocs items ≤ given h.grants
    → given (loaded dtb prop_strings items ps cs h).2.grants + allocs items ≡ given h.grants
loaded-given dtb strings no_items ps cs h enough = omega arith
loaded-given dtb strings (property_item name_off value items) ps cs h enough =
    let h1 = (kmalloc h).1 in
    let h2 = (kmalloc h1).1 in
    let g1 = kmalloc-given h (omega arith) in
    let g2 = kmalloc-given h1 (omega (arith, g1.1)) in
    let g3 = kmalloc-given h2 (omega (arith, g1.1, g2.1)) in
    omega (
      arith,
      g1.1,
      g2.1,
      g3.1,
      loaded-given dtb strings items (_ ∷ ps) cs (kmalloc h2).1 (omega (arith, g1.1, g2.1, g3.1)),
    )
loaded-given dtb strings (nop_item items) ps cs h enough =
    loaded-given dtb strings items ps cs h enough
loaded-given dtb strings (child_item name inside items) ps cs h enough =
    let h1 = (kmalloc h).1 in
    let h2 = (kmalloc h1).1 in
    let g1 = kmalloc-given h (omega arith) in
    let g2 = kmalloc-given h1 (omega (arith, g1.1)) in
    let child = loaded dtb strings inside [] null_node h2 in
    let g3 = loaded-given dtb strings inside [] null_node h2 (omega (arith, g1.1, g2.1)) in
    let whole = dt_node (kmalloc h).0 (kmalloc h1).0 name child.0 child.1 cs in
    omega (
      arith,
      g1.1,
      g2.1,
      g3,
      loaded-given dtb strings items ps whole child.2 (omega (arith, g1.1, g2.1, g3)),
    )
