-- ===== src/DeviceTree/Ending.antt =====
-- That `load_device_tree_node` of source/dev/device_tree.c ends on every sequence of bytes.
use raspberry_pi_os.Base.{
  ℕ, zero, suc, ◌+◌, ◌*◌, ◌/◌, ◌%◌, ◌^◌, ◌≤◌, arith, Option, some, none, List, [], drop, ltb,
  ltb→lt, ◌==◌, if◌then◌else◌, if-either, Bool-cases, inl, inr,
}
use raspberry_pi_os.Text.Number.{c_string}
use raspberry_pi_os.Text.Strings.{strlen}
use raspberry_pi_os.Alloc.Heap.{Heap, kmalloc}
use raspberry_pi_os.DeviceTree.{
  be32_at, DtProperty, DtNode, zero_node, set_name, add_property, add_child, Parsed, parse_ended,
  parse_failed, parse_out_of_fuel, load_property, enter_node, after_child, after_property,
  node_loop, load_device_tree_node,
}

-- The parser has failed, or it has ended at some token or behind it.
abbrev pub EndsFrom : (tokens : ℕ) → Parsed → Type 0
EndsFrom tokens (parse_ended t node h) = tokens ≤ t
EndsFrom tokens (parse_failed node h) = 0 ≤ 0
EndsFrom tokens parse_out_of_fuel = 1 ≤ 0

weaken : (p q : ℕ) (r : Parsed) → p ≤ q → EndsFrom q r → EndsFrom p r
weaken p q (parse_ended t node h) le ends = omega (arith, le, ends)
weaken p q (parse_failed node h) le ends = omega arith
weaken p q parse_out_of_fuel le ends = ends

module _ (dtb : List ℕ) (node_tokens_end prop_strings : ℕ) where
  Ending : (loop : ℕ → DtNode → Heap → Parsed) → (fuel : ℕ) → Type 0
  Ending loop fuel =
      (tokens : ℕ) (node : DtNode) (h : Heap)
      → 1 ≤ fuel
      → node_tokens_end + 4 ≤ tokens + 4 * fuel
      → EndsFrom tokens (loop tokens node h)

  enter_node-EndsFrom :
      (loop : ℕ → DtNode → Heap → Parsed) (fuel tokens : ℕ) (node : DtNode) (h : Heap)
      → Ending loop fuel
      → 1 ≤ fuel
      → node_tokens_end ≤ tokens + 4 * fuel
      → EndsFrom tokens (enter_node loop dtb tokens node h)
  unfolding enter_node Ending
  enter_node-EndsFrom loop fuel tokens node h ending some_fuel fuelled =
      let name = drop (tokens + 4) dtb in
      let (name_ptr, h1) = kmalloc h in
      let q = tokens + 4 + 4 * ((strlen name + 4) / 4) in
      let named = set_name name_ptr (c_string name) node in
      if-either (EndsFrom tokens) (be32_at dtb tokens == 9) (parse_ended tokens node h)
        (if name_ptr == 0 then parse_failed (set_name 0 [] node) h1 else loop q named h1)
        (λ e. omega arith)
        (λ e.
          if-either (EndsFrom tokens) (name_ptr == 0) (parse_failed (set_name 0 [] node) h1)
            (loop q named h1) (λ e'. omega arith)
            (λ e'.
              weaken tokens q (loop q named h1) (omega arith)
                (ending q named h1 some_fuel (omega (arith, fuelled)))))

  after_child-EndsFrom :
      (loop : ℕ → DtNode → Heap → Parsed) (fuel tokens : ℕ) (node : DtNode) (child : Parsed)
      → Ending loop fuel
      → 1 ≤ fuel
      → node_tokens_end ≤ tokens + 4 * fuel
      → EndsFrom tokens child
      → EndsFrom tokens (after_child loop node child)
  unfolding after_child Ending
  after_child-EndsFrom loop fuel tokens node (parse_ended t new_node h) ending some_fuel fuelled
        ends =
      let whole = add_child new_node node in
      weaken tokens (t + 4) (loop (t + 4) whole h) (omega (arith, ends))
        (ending (t + 4) whole h some_fuel (omega (arith, ends, fuelled)))
  after_child-EndsFrom loop fuel tokens node (parse_failed new_node h) ending some_fuel fuelled
        ends =
      omega arith
  after_child-EndsFrom loop fuel tokens node parse_out_of_fuel ending some_fuel fuelled ends = ends

  after_property-EndsFrom :
      (loop : ℕ → DtNode → Heap → Parsed) (fuel tokens next : ℕ) (node : DtNode)
      (r : Option DtProperty × Heap)
      → Ending loop fuel
      → 1 ≤ fuel
      → node_tokens_end ≤ tokens + 4 * fuel
      → tokens + 4 ≤ next
      → EndsFrom tokens (after_property loop next node r)
  unfolding after_property Ending
  after_property-EndsFrom loop fuel tokens next node (none, h) ending some_fuel fuelled behind =
      omega arith
  after_property-EndsFrom loop fuel tokens next node (some p, h) ending some_fuel fuelled behind =
      weaken tokens next (loop next (add_property p node) h) (omega (arith, behind))
        (ending next (add_property p node) h some_fuel (omega (arith, fuelled, behind)))

  node_loop-Ending : (fuel : ℕ) → Ending (node_loop fuel dtb node_tokens_end prop_strings) fuel
  unfolding node_loop Ending
  node_loop-Ending zero tokens node h some_fuel fuelled = absurd (omega (arith, some_fuel))
  node_loop-Ending (suc fuel) tokens node h some_fuel fuelled =
      let loop = node_loop fuel dtb node_tokens_end prop_strings in
      let ending = node_loop-Ending fuel in
      let P = EndsFrom tokens in
      let tok = be32_at dtb tokens in
      let (new_node, h1) = kmalloc h in
      let entered = enter_node loop dtb tokens (zero_node new_node) h1 in
      let child = after_child loop node entered in
      let with_child = if new_node == 0 then parse_failed node h1 else child in
      let property_length = be32_at dtb (tokens + 4) in
      let next = tokens + 8 + 4 * ((property_length + 3) % 2 ^ 32 / 4) + 4 in
      let read =
        load_property dtb prop_strings property_length (be32_at dtb (tokens + 8)) (tokens + 12) h in
      let property = after_property loop next node read in
      let other = loop (tokens + 4) node h in
      let no_child = if tok == 3 then property else other in
      let no_end = if tok == 2 then parse_ended tokens node h else no_child in
      elim (Bool-cases (ltb tokens node_tokens_end)) [
        | inl inside ↦
            let lt = ltb→lt tokens node_tokens_end inside in
            let more : 1 ≤ fuel = omega (arith, fuelled, lt) in
            let left : node_tokens_end ≤ tokens + 4 * fuel = omega (arith, fuelled) in
            rw inside (
              if-either P (tok == 1) with_child no_end
                (λ e1.
                  if-either P (new_node == 0) (parse_failed node h1) child (λ e. omega arith)
                    (λ e. after_child-EndsFrom loop fuel tokens node entered ending more left (
                      enter_node-EndsFrom loop fuel tokens (zero_node new_node) h1 ending more
                        left)))
                (λ e1.
                  if-either P (tok == 2) (parse_ended tokens node h) no_child (λ e2. omega arith)
                    (λ e2.
                      if-either P (tok == 3) property other
                        (λ e3.
                          after_property-EndsFrom loop fuel tokens next node read ending more left
                            (omega arith))
                        (λ e3.
                          weaken tokens (tokens + 4) other (omega arith)
                            (ending (tokens + 4) node h more (omega (arith, left)))))))
        | inr outside ↦ rw outside (omega arith)
      ]

-- Whatever the bytes are, and whatever memory there is, the parser of a node does not run out of fuel
-- when it has one round for every word from the start of the node to the end of the structure and at
-- least one: it fails, or it stops at a place that is not before the start of the node.
pub load_device_tree_node-EndsFrom :
    (dtb : List ℕ) (tokens node_tokens_end prop_strings fuel : ℕ) (node : DtNode) (h : Heap)
    → 1 ≤ fuel
    → node_tokens_end ≤ tokens + 4 * fuel
    → EndsFrom tokens (load_device_tree_node fuel dtb tokens node_tokens_end node prop_strings h)
unfolding load_device_tree_node
load_device_tree_node-EndsFrom dtb tokens end strings fuel node h some_fuel fuelled =
    enter_node-EndsFrom dtb end strings (node_loop fuel dtb end strings) fuel tokens node h
      (node_loop-Ending dtb end strings fuel) some_fuel fuelled
