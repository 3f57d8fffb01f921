-- ===== src/DeviceTree.antt =====
-- source/dev/device_tree.c and include/kernel/device_tree.h: how the flattened device tree is read. The
-- tree in memory is its bytes, behind whose end 0 is read; a pointer into it is the distance from its
-- start. `print` is left out, with the functions that only print.
pub mod Load
pub mod Format
mod Reading
mod Nodes
pub mod Roundtrip
pub mod Freed
pub mod Ending
mod Tests
use raspberry_pi_os.Base.{
  ℕ, zero, suc, ◌+◌, ◌-◌, ◌*◌, ◌/◌, ◌%◌, ◌^◌, Bool, true, false, ◌&&◌, not, Option, none, some,
  List, [], ◌∷◌, drop, ltb, ◌==◌, if◌then◌else◌,
}
use raspberry_pi_os.Text.Number.{c_string}
use raspberry_pi_os.Text.Strings.{strlen}
use raspberry_pi_os.Fs.Bytes.{u8_at}
use raspberry_pi_os.Alloc.Heap.{Heap, kmalloc, free}

-- A word of the tree, the highest byte first, as `__builtin_bswap32` gives it.
abbrev pub be32_at : List ℕ → ℕ → ℕ
be32_at bytes i =
    16777216 * u8_at bytes i
    + 65536 * u8_at bytes (i + 1)
    + 256 * u8_at bytes (i + 2)
    + u8_at bytes (i + 3)

abbrev pub be64_at : List ℕ → ℕ → ℕ
be64_at bytes i = 4294967296 * be32_at bytes i + be32_at bytes (i + 4)

-- `memcpy` of bytes from some place on.
abbrev pub bytes_at : List ℕ → (i count : ℕ) → List ℕ
bytes_at bytes i zero = []
bytes_at bytes i (suc count) = u8_at bytes i ∷ bytes_at bytes (i + 1) count

pub record DtHeader : Type 0 where
  pub magic : ℕ
  pub total_size : ℕ
  pub off_dt_struct : ℕ
  pub off_dt_strings : ℕ
  pub off_mem_rsvmap : ℕ
  pub version : ℕ
  pub last_comp_version : ℕ
  pub boot_cpuid_phys : ℕ
  pub size_dt_strings : ℕ
  pub size_dt_struct : ℕ

-- `ptr` is the address of the structure, `key_ptr` and `value_ptr` those of the copies.
pub record DtProperty : Type 0 where
  pub ptr : ℕ
  pub key_ptr : ℕ
  pub key : List ℕ
  pub value_ptr : ℕ
  pub value : List ℕ
  pub length : ℕ

-- A node with its name, its properties, its first child and the next node beside it.
pub data DtNode : Type 0 where
  null_node : DtNode
  dt_node :
      (ptr name_ptr : ℕ) (name : List ℕ) (properties : List DtProperty) (children next : DtNode)
      → DtNode

pub record DtAddrReservation : Type 0 where
  pub ptr : ℕ
  pub address : ℕ
  pub size : ℕ

pub record DeviceTree : Type 0 where
  pub ptr : ℕ
  pub header : DtHeader
  pub reservations : List DtAddrReservation
  pub root_node : DtNode

-- A new structure, which `kmalloc` sets to zero.
abbrev pub zero_node : (ptr : ℕ) → DtNode
zero_node ptr = dt_node ptr 0 [] [] null_node null_node

abbrev pub set_name : (name_ptr : ℕ) → List ℕ → DtNode → DtNode
set_name p s null_node = null_node
set_name p s (dt_node ptr name_ptr name properties children next) =
    dt_node ptr p s properties children next

abbrev pub add_property : DtProperty → DtNode → DtNode
add_property p null_node = null_node
add_property p (dt_node ptr name_ptr name properties children next) =
    dt_node ptr name_ptr name (p ∷ properties) children next

abbrev pub children_of : DtNode → DtNode
children_of null_node = null_node
children_of (dt_node ptr name_ptr name properties children next) = children

abbrev pub set_next : DtNode → DtNode → DtNode
set_next after null_node = null_node
set_next after (dt_node ptr name_ptr name properties children next) =
    dt_node ptr name_ptr name properties children after

abbrev pub set_first_child : DtNode → DtNode → DtNode
set_first_child child null_node = null_node
set_first_child child (dt_node ptr name_ptr name properties children next) =
    dt_node ptr name_ptr name properties child next

abbrev pub add_child : (new_node node : DtNode) → DtNode
add_child new_node node = set_first_child (set_next (children_of node) new_node) node

-- What the parser of a node returns: where the token that ends the node stands, or 0; the node is
-- there in both cases, as far as it has been filled.
pub data Parsed : Type 0 where
  parse_ended : (tokens : ℕ) → DtNode → Heap → Parsed
  parse_failed : DtNode → Heap → Parsed
  parse_out_of_fuel : Parsed

-- A property, when there is memory for it.
unfoldable pub load_property :
    List ℕ
    → (prop_strings property_length property_name_off value_tokens : ℕ) → Heap
    → Option DtProperty × Heap
load_property dtb prop_strings property_length property_name_off value_tokens h =
    let (ptr, h1) = kmalloc h in
    let (value_ptr, h2) = kmalloc h1 in
    let (key_ptr, h3) = kmalloc h2 in
    let property : DtProperty = record {
      ptr = ptr;
      key_ptr = key_ptr;
      key = c_string (drop (prop_strings + property_name_off) dtb);
      value_ptr = value_ptr;
      value = bytes_at dtb value_tokens property_length;
      length = property_length;
    } in
    if ptr == 0
    then (none, h1)
    else if value_ptr == 0
    then (none, free ptr h2)
    else if key_ptr == 0
    then (none, free ptr (free value_ptr h3))
    else (some property, h3)

-- The name at the start of a node, and then the loop over its tokens.
unfoldable pub enter_node :
    (loop : ℕ → DtNode → Heap → Parsed) → List ℕ → (node_tokens : ℕ) → DtNode → Heap → Parsed
enter_node loop dtb node_tokens node h =
    let name = drop (node_tokens + 4) dtb in
    let (name_ptr, h1) = kmalloc h in
    if be32_at dtb node_tokens == 9
    then parse_ended node_tokens node h
    else if name_ptr == 0
    then parse_failed (set_name 0 [] node) h1
    else loop (node_tokens + 4 + 4 * ((strlen name + 4) / 4))
        (set_name name_ptr (c_string name) node) h1

unfoldable pub after_child : (loop : ℕ → DtNode → Heap → Parsed) → DtNode → Parsed → Parsed
after_child loop node (parse_ended tokens new_node h) =
    loop (tokens + 4) (add_child new_node node) h
after_child loop node (parse_failed new_node h) = parse_failed node h
after_child loop node parse_out_of_fuel = parse_out_of_fuel

unfoldable pub after_property :
    (loop : ℕ → DtNode → Heap → Parsed)
    → (next_tokens : ℕ) → DtNode
    → Option DtProperty × Heap
    → Parsed
after_property loop next_tokens node (none, h) = parse_failed node h
after_property loop next_tokens node (some p, h) = loop next_tokens (add_property p node) h

-- The loop over the tokens of a node, which are 1 for a child, 2 for the end, 3 for a property.
unfoldable pub node_loop :
    (fuel : ℕ) → List ℕ → (node_tokens_end prop_strings node_tokens : ℕ) → DtNode → Heap → Parsed
node_loop zero dtb node_tokens_end prop_strings node_tokens node h = parse_out_of_fuel
node_loop (suc fuel) dtb node_tokens_end prop_strings node_tokens node h =
    let loop = node_loop fuel dtb node_tokens_end prop_strings in
    let tok = be32_at dtb node_tokens in
    let (new_node, h1) = kmalloc h in
    let child = enter_node loop dtb node_tokens (zero_node new_node) h1 in
    let property_length = be32_at dtb (node_tokens + 4) in
    let property =
      load_property dtb prop_strings property_length (be32_at dtb (node_tokens + 8))
        (node_tokens + 12) h in
    let after_value = node_tokens + 8 + 4 * ((property_length + 3) % 2 ^ 32 / 4) + 4 in
    if not (ltb node_tokens node_tokens_end)
    then parse_failed node h
    else if tok == 1
    then if new_node == 0 then parse_failed node h1 else after_child loop node child
    else if tok == 2
    then parse_ended node_tokens node h
    else if tok == 3
    then after_property loop after_value node property
    else loop (node_tokens + 4) node h

unfoldable pub load_device_tree_node :
    (fuel : ℕ)
    → List ℕ
    → (node_tokens node_tokens_end : ℕ) → DtNode
    → (prop_strings : ℕ) → Heap
    → Parsed
load_device_tree_node fuel dtb node_tokens node_tokens_end node prop_strings h =
    enter_node (node_loop fuel dtb node_tokens_end prop_strings) dtb node_tokens node h
