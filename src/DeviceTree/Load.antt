-- ===== src/DeviceTree/Load.antt =====
-- `free_device_tree` and `load_device_tree` of source/dev/device_tree.c.
use raspberry_pi_os.Base.{
  ℕ, zero, suc, ◌+◌, ◌*◌, ◌/◌, Bool, true, false, ◌&&◌, not, Option, none, some, List, [], ◌∷◌, ltb,
  ◌==◌, if◌then◌else◌,
}
use raspberry_pi_os.Alloc.Heap.{Heap, kmalloc, free}
use raspberry_pi_os.DeviceTree.{
  be32_at, be64_at, DtHeader, DtProperty, DtNode, null_node, dt_node, DtAddrReservation, DeviceTree,
  zero_node, Parsed, parse_ended, parse_failed, parse_out_of_fuel, load_device_tree_node,
}

unfoldable pub free_properties : List DtProperty → Heap → Heap
free_properties [] h = h
free_properties (p ∷ rest) h =
    free_properties rest (free p.ptr (free p.value_ptr (free p.key_ptr h)))

-- The nodes from this one on to the last beside it, each with what is below it; the structures of the
-- nodes are not freed.
unfoldable pub free_children : DtNode → Heap → Heap
unfolding free_properties
free_children null_node h = h
free_children (dt_node ptr name_ptr name properties children next) h =
    free_children next (free name_ptr (free_properties properties (free_children children h)))

unfoldable pub free_device_tree_node : DtNode → Heap → Heap
free_device_tree_node null_node h = h
free_device_tree_node (dt_node ptr name_ptr name properties children next) h =
    free name_ptr (free_properties properties (free_children children h))

unfoldable pub free_reservations : List DtAddrReservation → Heap → Heap
free_reservations [] h = h
free_reservations (r ∷ rest) h = free_reservations rest (free r.ptr h)

unfoldable pub free_device_tree : DeviceTree → Heap → Heap
free_device_tree dt h =
    free dt.ptr (free_device_tree_node dt.root_node (free_reservations dt.reservations h))

unfoldable pub read_header : List ℕ → DtHeader
read_header dtb = record {
  magic = be32_at dtb 0;
  total_size = be32_at dtb 4;
  off_dt_struct = be32_at dtb 8;
  off_dt_strings = be32_at dtb 12;
  off_mem_rsvmap = be32_at dtb 16;
  version = be32_at dtb 20;
  last_comp_version = be32_at dtb 24;
  boot_cpuid_phys = be32_at dtb 28;
  size_dt_strings = be32_at dtb 32;
  size_dt_struct = be32_at dtb 36;
}

abbrev add_reservation : (ptr address size : ℕ) → DeviceTree → DeviceTree
add_reservation ptr address size dt = record dt {
  reservations = record { ptr = ptr; address = address; size = size } ∷ dt.reservations;
}

-- The loop over the reservations, with the number that is left up to the limit of 4096; `none` is a
-- failed allocation.
unfoldable pub reservation_loop :
    (left : ℕ) → List ℕ → (rsvmap : ℕ) → DeviceTree → Heap → Bool × DeviceTree × Heap
reservation_loop zero dtb rsvmap dt h = (true, dt, h)
reservation_loop (suc left) dtb rsvmap dt h =
    let address = be64_at dtb rsvmap in
    let size = be64_at dtb (rsvmap + 8) in
    let (new_rsv, h1) = kmalloc h in
    let later =
      reservation_loop left dtb (rsvmap + 16) (add_reservation new_rsv address size dt) h1 in
    if (address == 0) && (size == 0)
    then (true, dt, h)
    else if new_rsv == 0
    then (false, dt, h1)
    else later

-- The tree, or that there is none.
unfoldable pub after_root : DeviceTree → Parsed → Option (Option DeviceTree × Heap)
after_root dt parse_out_of_fuel = none
after_root dt (parse_failed root h) =
    some (none, free_device_tree (record dt { root_node = root }) h)
after_root dt (parse_ended tokens root h) = some (some (record dt { root_node = root }), h)

unfoldable pub load_root :
    (fuel : ℕ) → List ℕ → Bool × DeviceTree × Heap → Option (Option DeviceTree × Heap)
load_root fuel dtb (loaded, dt, h) =
    let dt_token = dt.header.off_dt_struct in
    let dt_token_end = dt_token + 4 * (dt.header.size_dt_struct / 4) in
    let (root, h1) = kmalloc h in
    let node =
      load_device_tree_node fuel dtb dt_token dt_token_end (zero_node root) dt.header.off_dt_strings
        h1 in
    if not loaded
    then some (none, free_device_tree dt h)
    else if root == 0
    then some (none, free_device_tree dt h1)
    else after_root dt node

-- `none` is a run out of fuel.
unfoldable pub load_device_tree : (fuel : ℕ) → List ℕ → Heap → Option (Option DeviceTree × Heap)
load_device_tree fuel dtb h =
    let (ptr, h1) = kmalloc h in
    let header = read_header dtb in
    let dt : DeviceTree = record {
      ptr = ptr;
      header = header;
      reservations = [];
      root_node = null_node;
    } in
    if ptr == 0
    then some (none, h1)
    else if not (header.magic == 0xD00DFEED)
    then some (none, free_device_tree dt h1)
    else if ltb 16 header.last_comp_version
    then some (none, free_device_tree dt h1)
    else load_root fuel dtb (reservation_loop 4096 dtb header.off_mem_rsvmap dt h1)
