-- ===== src/DeviceTree/Nodes.antt =====
-- The loop of `load_device_tree_node` in source/dev/device_tree.c over the items of a node.
use raspberry_pi_os.Base.{
  ℕ, suc, ◌+◌, ◌-◌, ◌*◌, ◌/◌, ◌%◌, ◌^◌, ◌≤◌, ◌≡◌, refl, ap, ◌∙◌, arith, true, false, some, List,
  ◌++◌, length, drop, ltb, ◌==◌,
}
use raspberry_pi_os.Text.Number.{c_string}
use raspberry_pi_os.Text.Strings.{strlen}
use raspberry_pi_os.Text.Strings.Copy.{strlen_lem}
use raspberry_pi_os.Alloc.Heap.{Heap, kmalloc}
use raspberry_pi_os.DeviceTree.{
  be32_at, bytes_at, DtNode, zero_node, set_name, Parsed, parse_ended, load_property, enter_node,
  after_child, after_property, node_loop,
}
use raspberry_pi_os.DeviceTree.Reading.{drop-at, be32_at-drop, drop-padded, c_string-name}
use raspberry_pi_os.Alloc.Heap.Balance.{given, kmalloc-given}
use raspberry_pi_os.DeviceTree.Format.{
  DtItems, no_items, property_item, nop_item, child_item, be32, zeros, value_room, name_room,
  item_bytes, item_size, AllNonzero,
}

-- One round of the loop, by the token that it meets.
module _ (fuel : ℕ) (dtb : List ℕ) (node_tokens_end prop_strings node_tokens : ℕ) (node : DtNode)
    (h : Heap) (inside : ltb node_tokens node_tokens_end ≡ true) where
  pub loop-end :
      be32_at dtb node_tokens ≡ 2
      → node_loop (suc fuel) dtb node_tokens_end prop_strings node_tokens node h
        ≡ parse_ended node_tokens node h
  unfolding node_loop
  loop-end tok = rw (inside, tok) refl

  pub loop-nop :
      be32_at dtb node_tokens ≡ 4
      → node_loop (suc fuel) dtb node_tokens_end prop_strings node_tokens node h
        ≡ node_loop fuel dtb node_tokens_end prop_strings (node_tokens + 4) node h
  unfolding node_loop
  loop-nop tok = rw (inside, tok) refl

  pub loop-property :
      be32_at dtb node_tokens ≡ 3
      → node_loop (suc fuel) dtb node_tokens_end prop_strings node_tokens node h
        ≡ after_property
            (node_loop fuel dtb node_tokens_end prop_strings)
            (node_tokens + 8 + 4 * ((be32_at dtb (node_tokens + 4) + 3) % 2 ^ 32 / 4) + 4)
            node
            (load_property dtb prop_strings
              (be32_at dtb (node_tokens + 4))
              (be32_at dtb (node_tokens + 8))
              (node_tokens + 12)
              h)
  unfolding node_loop
  loop-property tok = rw (inside, tok) refl

  pub loop-child :
      be32_at dtb node_tokens ≡ 1
      → ((kmalloc h).0 == 0) ≡ false
      → node_loop (suc fuel) dtb node_tokens_end prop_strings node_tokens node h
        ≡ after_child (node_loop fuel dtb node_tokens_end prop_strings) node (
            enter_node
              (node_loop fuel dtb node_tokens_end prop_strings)
              dtb
              node_tokens
              (zero_node (kmalloc h).0)
              (kmalloc h).1)
  unfolding node_loop
  loop-child tok granted = rw (inside, tok, granted) refl

pub load_property_lem :
    (dtb : List ℕ) (prop_strings property_length property_name_off value_tokens : ℕ) (h : Heap)
    → 3 ≤ given h.grants
    → load_property dtb prop_strings property_length property_name_off value_tokens h ≡ (
      some (record {
        ptr = (kmalloc h).0;
        key_ptr = (kmalloc (kmalloc (kmalloc h).1).1).0;
        key = c_string (drop (prop_strings + property_name_off) dtb);
        value_ptr = (kmalloc (kmalloc h).1).0;
        value = bytes_at dtb value_tokens property_length;
        length = property_length;
      }),
      (kmalloc (kmalloc (kmalloc h).1).1).1,
    )
unfolding load_property
load_property_lem dtb strings len off tokens h enough =
    let g1 = kmalloc-given h (omega arith) in
    let g2 = kmalloc-given (kmalloc h).1 (omega (arith, g1.1)) in
    let g3 = kmalloc-given (kmalloc (kmalloc h).1).1 (omega (arith, g1.1, g2.1)) in
    rw (g1.0, g2.0, g3.0) refl

pub enter_node_lem :
    (loop : ℕ → DtNode → Heap → Parsed) (dtb : List ℕ) (node_tokens : ℕ) (name rest : List ℕ)
    (node : DtNode) (h : Heap)
    → drop node_tokens dtb ≡ be32 1 (name ++ zeros (name_room (length name) - length name) rest)
    → AllNonzero name
    → 1 ≤ given h.grants
    → enter_node loop dtb node_tokens node h
      ≡ loop
          (node_tokens + 4 + name_room (length name))
          (set_name (kmalloc h).0 name node)
          (kmalloc h).1
unfolding enter_node
enter_node_lem loop dtb tokens name rest node h here all enough =
    let g = kmalloc-given h enough in
    let text = drop-at dtb tokens 4 (tokens + 4) here refl in
    let k = name_room (length name) - length name in
    let tok : be32_at dtb tokens ≡ 1 =
      be32_at-drop dtb tokens 1 (name ++ zeros k rest) here (omega arith) in
    let read : c_string (drop (tokens + 4) dtb) ≡ name =
      ap c_string text ∙ c_string-name name k rest all (omega arith) in
    let len : strlen (drop (tokens + 4) dtb) ≡ length name =
      strlen_lem (drop (tokens + 4) dtb) ∙ ap length read in
    rw (tok, g.0, len, read) refl

pub size_lem : (items : DtItems) → 4 ≤ item_size items
size_lem no_items = omega arith
size_lem (property_item name_off value items) = omega (arith, size_lem items)
size_lem (nop_item items) = omega (arith, size_lem items)
size_lem (child_item name inside items) = omega (arith, size_lem items)

pub after_value :
    (dtb : List ℕ) (tokens name_off : ℕ) (value rest : List ℕ)
    → drop tokens dtb
      ≡ be32 3 (
          be32
            (length value)
            (be32 name_off (value ++ zeros (value_room (length value) - length value) rest)))
    → drop (tokens + 12 + value_room (length value)) dtb ≡ rest
after_value dtb tokens name_off value rest here =
    let room = value_room (length value) in
    drop-at dtb (tokens + 12) room (tokens + 12 + room)
      (drop-at dtb tokens 12 (tokens + 12) here refl) refl
    ∙ drop-padded value rest room (omega arith)

pub after_name :
    (dtb : List ℕ) (tokens : ℕ) (name rest : List ℕ)
    → drop tokens dtb ≡ be32 1 (name ++ zeros (name_room (length name) - length name) rest)
    → drop (tokens + 4 + name_room (length name)) dtb ≡ rest
after_name dtb tokens name rest here =
    let room = name_room (length name) in
    drop-at dtb (tokens + 4) room (tokens + 4 + room) (drop-at dtb tokens 4 (tokens + 4) here refl)
      refl
    ∙ drop-padded name rest room (omega arith)

pub after_items :
    (dtb : List ℕ) (items : DtItems) (tokens : ℕ) (rest : List ℕ)
    → drop tokens dtb ≡ item_bytes items rest
    → drop (tokens + item_size items) dtb ≡ rest
after_items dtb no_items tokens rest here = drop-at dtb tokens 4 (tokens + 4) here refl
after_items dtb (property_item name_off value items) tokens rest here =
    ap (λ t. drop t dtb) (omega arith)
    ∙ after_items dtb items (tokens + 12 + value_room (length value)) rest
        (after_value dtb tokens name_off value (item_bytes items rest) here)
after_items dtb (nop_item items) tokens rest here =
    ap (λ t. drop t dtb) (omega arith)
    ∙ after_items dtb items (tokens + 4) rest (drop-at dtb tokens 4 (tokens + 4) here refl)
after_items dtb (child_item name inside items) tokens rest here =
    let q = tokens + 4 + name_room (length name) in
    ap (λ t. drop t dtb) (omega arith)
    ∙ after_items dtb items (q + item_size inside) rest (
        after_items dtb inside q (item_bytes items rest)
          (after_name dtb tokens name (item_bytes inside (item_bytes items rest)) here))
