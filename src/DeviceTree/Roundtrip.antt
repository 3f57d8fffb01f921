-- ===== src/DeviceTree/Roundtrip.antt =====
-- `load_device_tree_node` of source/dev/device_tree.c undoes the format.
use raspberry_pi_os.Base.{
  [], ◌∷◌, ℕ, zero, suc, ◌+◌, ◌-◌, ◌*◌, ◌/◌, ◌%◌, ◌^◌, ◌≤◌, ◌≡◌, refl, ap, ◌∙◌, arith, List, ◌++◌,
  length, drop, lt→ltb,
}
use raspberry_pi_os.Text.Number.{c_string}
use raspberry_pi_os.Alloc.Heap.{Heap, kmalloc}
use raspberry_pi_os.DeviceTree.{
  be32_at, DtProperty, DtNode, dt_node, null_node, zero_node, add_property, parse_ended,
  load_property, after_child, after_property, node_loop, load_device_tree_node, Parsed,
}
use raspberry_pi_os.DeviceTree.Reading.{drop-at, be32_at-drop, bytes_at-drop}
use raspberry_pi_os.Alloc.Heap.Balance.{given, kmalloc-given}
use raspberry_pi_os.DeviceTree.Format.{
  DtItems, no_items, property_item, nop_item, child_item, be32, zeros, value_room, name_room,
  item_bytes, item_size, AllNonzero, AreWellFormed, allocs, loaded, loaded-given,
}
use raspberry_pi_os.DeviceTree.Nodes.{
  loop-end, loop-nop, loop-property, loop-child, load_property_lem, enter_node_lem, size_lem,
  after_value, after_name, after_items,
}

-- The parser has ended, with the properties and the children of a node and the heap.
abbrev ended :
    (tokens ptr np : ℕ) (nm : List ℕ) (peer : DtNode) → List DtProperty × DtNode × Heap → Parsed
ended tokens ptr np nm peer r = parse_ended tokens (dt_node ptr np nm r.0 r.1 peer) r.2

-- The loop over the items of a node.
Loads : List ℕ → (node_tokens_end prop_strings : ℕ) → DtItems → Type 0
Loads dtb node_tokens_end prop_strings items =
    (fuel tokens : ℕ) (rest : List ℕ) (ptr np : ℕ) (nm : List ℕ) (ps : List DtProperty)
    (cs peer : DtNode) (h : Heap)
    → drop tokens dtb ≡ item_bytes items rest
    → AreWellFormed items
    → tokens + item_size items ≤ node_tokens_end
    → item_size items ≤ 4 * fuel
    → allocs items ≤ given h.grants
    → node_loop fuel dtb node_tokens_end prop_strings tokens (dt_node ptr np nm ps cs peer) h
      ≡ ended (tokens + item_size items - 4) ptr np nm peer (loaded dtb prop_strings items ps cs h)

module _ (dtb : List ℕ) (node_tokens_end prop_strings : ℕ) where
  no_items-Loads : Loads dtb node_tokens_end prop_strings no_items
  unfolding Loads
  no_items-Loads zero tokens rest ptr np nm ps cs peer h here well fits fuelled enough =
      absurd (omega arith)
  no_items-Loads (suc fuel) tokens rest ptr np nm ps cs peer h here well fits fuelled enough =
      let node = dt_node ptr np nm ps cs peer in
      loop-end fuel dtb node_tokens_end prop_strings tokens node h
        (lt→ltb tokens node_tokens_end (omega arith))
        (be32_at-drop dtb tokens 2 rest here (omega arith))
      ∙ ap (λ t. parse_ended t node h) (omega arith)

  nop-Loads :
      (items : DtItems)
      → Loads dtb node_tokens_end prop_strings items
      → Loads dtb node_tokens_end prop_strings (nop_item items)
  unfolding Loads
  nop-Loads items later zero tokens rest ptr np nm ps cs peer h here well fits fuelled enough =
      absurd (omega arith)
  nop-Loads items later (suc fuel) tokens rest ptr np nm ps cs peer h here well fits fuelled
        enough =
      let node = dt_node ptr np nm ps cs peer in
      loop-nop fuel dtb node_tokens_end prop_strings tokens node h
        (lt→ltb tokens node_tokens_end (omega arith))
        (be32_at-drop dtb tokens 4 (item_bytes items rest) here (omega arith))
      ∙ later fuel (tokens + 4) rest ptr np nm ps cs peer h
          (drop-at dtb tokens 4 (tokens + 4) here refl) well (omega arith) (omega arith) enough
      ∙ ap (λ t. ended t ptr np nm peer (loaded dtb prop_strings items ps cs h)) (omega arith)

  property-Loads :
      (name_off : ℕ) (value : List ℕ) (items : DtItems)
      → Loads dtb node_tokens_end prop_strings items
      → Loads dtb node_tokens_end prop_strings (property_item name_off value items)
  unfolding Loads after_property
  property-Loads off value items later zero tokens rest ptr np nm ps cs peer h here well fits
        fuelled enough =
      absurd (omega arith)
  property-Loads off value items later (suc fuel) tokens rest ptr np nm ps cs peer h here
        (off_fits, len_fits, well) fits fuelled enough =
      let node = dt_node ptr np nm ps cs peer in
      let loop = node_loop fuel dtb node_tokens_end prop_strings in
      let len = length value in
      let padded = value ++ zeros (value_room len - len) (item_bytes items rest) in
      let next = λ (n : ℕ). tokens + 8 + 4 * ((n + 3) % 2 ^ 32 / 4) + 4 in
      let round = λ (n o : ℕ).
        after_property loop (next n) node (load_property dtb prop_strings n o (tokens + 12) h) in
      let made : List ℕ → DtProperty = λ v. record {
        ptr = (kmalloc h).0;
        key_ptr = (kmalloc (kmalloc (kmalloc h).1).1).0;
        key = c_string (drop (prop_strings + off) dtb);
        value_ptr = (kmalloc (kmalloc h).1).0;
        value = v;
        length = len;
      } in
      let h3 = (kmalloc (kmalloc (kmalloc h).1).1).1 in
      let g1 = kmalloc-given h (omega arith) in
      let g2 = kmalloc-given (kmalloc h).1 (omega (arith, g1.1)) in
      let g3 = kmalloc-given (kmalloc (kmalloc h).1).1 (omega (arith, g1.1, g2.1)) in
      let s = size_lem items in
      loop-property fuel dtb node_tokens_end prop_strings tokens node h
        (lt→ltb tokens node_tokens_end (omega (arith, s)))
        (be32_at-drop dtb tokens 3 (be32 len (be32 off padded)) here (omega arith))
      ∙ ap (λ n. round n (be32_at dtb (tokens + 8)))
          (be32_at-drop dtb (tokens + 4) len (be32 off padded)
            (drop-at dtb tokens 4 (tokens + 4) here refl) (omega arith))
      ∙ ap (round len) (
          be32_at-drop dtb (tokens + 8) off padded (drop-at dtb tokens 8 (tokens + 8) here refl)
            off_fits)
      ∙ ap (after_property loop (next len) node)
          (load_property_lem dtb prop_strings len off (tokens + 12) h (omega arith))
      ∙ ap (λ v. loop (next len) (add_property (made v) node) h3)
          (bytes_at-drop dtb (tokens + 12) value
            (zeros (value_room len - len) (item_bytes items rest))
            (drop-at dtb tokens 12 (tokens + 12) here refl))
      ∙ later fuel (next len) rest ptr np nm (made value ∷ ps) cs peer h3
          (ap (λ t. drop t dtb) (omega arith)
            ∙ after_value dtb tokens off value (item_bytes items rest) here)
          well (omega arith) (omega arith) (omega (arith, g1.1, g2.1, g3.1))
      ∙ ap (λ t. ended t ptr np nm peer (loaded dtb prop_strings items (made value ∷ ps) cs h3))
          (omega (arith, s))

  child-Loads :
      (name : List ℕ) (inside items : DtItems)
      → Loads dtb node_tokens_end prop_strings inside
      → Loads dtb node_tokens_end prop_strings items
      → Loads dtb node_tokens_end prop_strings (child_item name inside items)
  unfolding Loads after_child
  child-Loads name inside items within later zero tokens rest ptr np nm ps cs peer h here well fits
        fuelled enough =
      absurd (omega arith)
  child-Loads name inside items within later (suc fuel) tokens rest ptr np nm ps cs peer h here
        (all, well_in, well) fits fuelled enough =
      let node = dt_node ptr np nm ps cs peer in
      let loop = node_loop fuel dtb node_tokens_end prop_strings in
      let q = tokens + 4 + name_room (length name) in
      let more = item_bytes items rest in
      let g1 = kmalloc-given h (omega arith) in
      let h1 = (kmalloc h).1 in
      let g2 = kmalloc-given h1 (omega (arith, g1.1)) in
      let h2 = (kmalloc h1).1 in
      let new_node = zero_node (kmalloc h).0 in
      let child = loaded dtb prop_strings inside [] null_node h2 in
      let whole = dt_node (kmalloc h).0 (kmalloc h1).0 name child.0 child.1 cs in
      let g3 = loaded-given dtb prop_strings inside [] null_node h2 (omega (arith, g1.1, g2.1)) in
      let there = after_name dtb tokens name (item_bytes inside more) here in
      let behind = after_items dtb inside q more there in
      let s1 = size_lem inside in
      let s2 = size_lem items in
      loop-child fuel dtb node_tokens_end prop_strings tokens node h
        (lt→ltb tokens node_tokens_end (omega (arith, s1, s2)))
        (be32_at-drop dtb tokens 1
          (name ++ zeros (name_room (length name) - length name) (item_bytes inside more)) here
          (omega arith))
        g1.0
      ∙ ap (after_child loop node) (
          enter_node_lem loop dtb tokens name (item_bytes inside more) new_node h1 here all
            (omega (arith, g1.1))
          ∙ within fuel q more (kmalloc h).0 (kmalloc h1).0 name [] null_node null_node h2 there
              well_in (omega (arith, s2)) (omega (arith, s2)) (omega (arith, g1.1, g2.1)))
      ∙ later fuel (q + item_size inside - 4 + 4) rest ptr np nm ps whole peer child.2
          (ap (λ t. drop t dtb) (omega (arith, s1)) ∙ behind) well (omega (arith, s1))
          (omega (arith, s1)) (omega (arith, g1.1, g2.1, g3))
      ∙ ap (λ t. ended t ptr np nm peer (loaded dtb prop_strings items ps whole child.2))
          (omega (arith, s1, s2))

  loop-Loads : (items : DtItems) → Loads dtb node_tokens_end prop_strings items
  loop-Loads no_items = no_items-Loads
  loop-Loads (property_item name_off value items) =
      property-Loads name_off value items (loop-Loads items)
  loop-Loads (nop_item items) = nop-Loads items (loop-Loads items)
  loop-Loads (child_item name inside items) =
      child-Loads name inside items (loop-Loads inside) (loop-Loads items)

-- A new node that stands in the tree as the format lays it out, with any number of properties, empty
-- tokens and children below it, is loaded with its name and all of them, when there is memory for what
-- it holds and the tokens end behind it: each property has its value and the text at its offset as its
-- key, and properties and children are linked in the reverse of their order in the file. The parser
-- stops at the token that ends the node. A round for every token is enough fuel.
pub load_device_tree_node_lem :
    (dtb : List ℕ) (tokens node_tokens_end prop_strings fuel : ℕ) (name : List ℕ) (items : DtItems)
    (rest : List ℕ) (ptr : ℕ) (h : Heap)
    → drop tokens dtb
      ≡ be32 1 (name ++ zeros (name_room (length name) - length name) (item_bytes items rest))
    → AllNonzero name
    → AreWellFormed items
    → tokens + 4 + name_room (length name) + item_size items ≤ node_tokens_end
    → item_size items ≤ 4 * fuel
    → 1 + allocs items ≤ given h.grants
    → let (properties, children, h') = loaded dtb prop_strings items [] null_node (kmalloc h).1 in
      load_device_tree_node fuel dtb tokens node_tokens_end (zero_node ptr) prop_strings h
      ≡ parse_ended
          (tokens + 4 + name_room (length name) + item_size items - 4)
          (dt_node ptr (kmalloc h).0 name properties children null_node)
          h'
unfolding load_device_tree_node Loads
load_device_tree_node_lem dtb tokens end strings fuel name items rest ptr h here all well fits
      fuelled enough =
    let g = kmalloc-given h (omega arith) in
    enter_node_lem (node_loop fuel dtb end strings) dtb tokens name (item_bytes items rest)
      (zero_node ptr) h here all (omega arith)
    ∙ loop-Loads dtb end strings items fuel (tokens + 4 + name_room (length name)) rest ptr
        (kmalloc h).0 name [] null_node null_node (kmalloc h).1
        (after_name dtb tokens name (item_bytes items rest) here) well fits fuelled
        (omega (arith, g.1))
