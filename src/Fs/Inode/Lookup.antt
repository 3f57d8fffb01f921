-- ===== src/Fs/Inode/Lookup.antt =====
-- Paths in source/fs/inode.c lead down the tree.
use raspberry_pi_os.Base.{
  ltb, le→ltb, ℕ, zero, suc, ◌<◌, ◌≡◌, ◌≢◌, refl, sym, ap, ◌∙◌, arith, false, Option, none, some,
  List, [], ◌∷◌, ◌++◌, length, get_or, ◌==◌, if◌then◌else◌, Bool-cases, Option-cases, inl, inr,
  eq→==, ne→==, ==→eq,
}
use mathlib.Core.Path.{subst}
use mathlib.Core.Option.{none-ne-some, some-injective}
use raspberry_pi_os.Text.Strings.{strcmp}
use raspberry_pi_os.Fs.Inode.{
  Store, inode_is_new, search_children, climb, slash, next_token, fetch_if_new, after_token,
  path_loop, inode_from_path,
}

-- The list of peers that begins at an inode.
abbrev pub ArePeers : Store → ℕ → List ℕ → Type 0
ArePeers s it [] = it ≡ 0
ArePeers s it (c ∷ cs) = (it ≡ c) × (c ≢ 0) × ArePeers s (s c).peer_nodes cs

-- The first inode of a list with a name.
abbrev pub first_named : Store → List ℕ → (name : List ℕ) → Option ℕ
first_named s [] name = none
first_named s (c ∷ cs) name =
    let rest = first_named s cs name in if strcmp name (s c).filename == 0 then some c else rest

abbrev pub or_null : Option ℕ → ℕ
or_null none = 0
or_null (some c) = c

search_children_lem :
    (fuel : ℕ) (s : Store) (it : ℕ) (cs : List ℕ) (name : List ℕ)
    → ArePeers s it cs
    → length cs < fuel
    → search_children fuel s it name ≡ or_null (first_named s cs name)
unfolding search_children
search_children_lem zero s it cs name peers enough = absurd (omega arith)
search_children_lem (suc fuel) s it [] name peers enough = rw (eq→== it 0 peers) refl
search_children_lem (suc fuel) s it (c ∷ cs) name (here, exists, rest) enough =
    let later = search_children_lem fuel s (s c).peer_nodes cs name rest (omega arith) in
    rw (here, ne→== c 0 exists, later)
      (elim (Bool-cases (strcmp name (s c).filename == 0)) [
        | inl same ↦ rw same refl
        | inr other ↦ rw other refl
      ])

-- The tree of the inodes: each with its children, which are fewer than the rounds of a search.
pub record IsLoaded (fuel : ℕ) (s : Store) (children : ℕ → List ℕ) : Type 0 where
  pub peers : (n : ℕ) → ArePeers s (s n).child_nodes (children n)
  pub few : (n : ℕ) → length (children n) < fuel

-- Down the tree by names, one after the other; 0 when there is none.
abbrev pub resolve : Store → (children : ℕ → List ℕ) → Option ℕ → List (List ℕ) → Option ℕ
resolve s children none ts = none
resolve s children (some n) [] = some n
resolve s children (some n) (t ∷ ts) = resolve s children (first_named s (children n) t) ts

-- Every inode on this way in which a name is looked up has been read.
abbrev pub IsRead : Store → (children : ℕ → List ℕ) → Option ℕ → List (List ℕ) → Type 0
IsRead s children none ts = Unit {0}
IsRead s children (some n) [] = Unit {0}
IsRead s children (some n) (t ∷ ts) =
    (inode_is_new (s n) ≡ false) × IsRead s children (first_named s (children n) t) ts

resolve-end : (s : Store) (children : ℕ → List ℕ) (o : Option ℕ) → resolve s children o [] ≡ o
resolve-end s children none = refl
resolve-end s children (some n) = refl

-- The path with these names.
abbrev pub join : List (List ℕ) → List ℕ
join [] = []
join (t ∷ []) = t
join (t ∷ u ∷ ts) = t ++ (slash ∷ join (u ∷ ts))

-- A name in a path: a character at least and at most 255, and no slash and no zero.
abbrev pub HasNoSlash : List ℕ → Type 0
HasNoSlash [] = Unit {0}
HasNoSlash (c ∷ t) = (c ≢ slash) × (c ≢ 0) × HasNoSlash t

abbrev pub AreNames : List (List ℕ) → Type 0
AreNames [] = Unit {0}
AreNames (t ∷ ts) = (0 < length t) × HasNoSlash t × (length t < 256) × AreNames ts

next_token-last : (t : List ℕ) → HasNoSlash t → next_token t ≡ (t, [])
unfolding next_token
next_token-last [] h = refl
next_token-last (c ∷ t) h = rw (next_token-last t h.2, ne→== c slash h.0) refl

next_token-middle :
    (t path : List ℕ) → HasNoSlash t → next_token (t ++ (slash ∷ path)) ≡ (t, slash ∷ path)
unfolding next_token
next_token-middle [] path h = refl
next_token-middle (c ∷ t) path h = rw (next_token-middle t path h.2, ne→== c slash h.0) refl

module _ (fetch_data push_data : Store → ℕ → ℕ × Store) (fuel : ℕ) (s : Store)
    (children : ℕ → List ℕ) (loaded : IsLoaded fuel s children) where
  -- One round, with the child that is found.
  path_round :
      (rounds : ℕ) (path token rest : List ℕ) (node : ℕ) (child : Option ℕ)
      → inode_is_new (s node) ≡ false
      → length token < 256
      → next_token path ≡ (token, rest)
      → first_named s (children node) token ≡ child
      → path_loop fetch_data push_data (suc rounds) fuel s path node ≡ (
          if or_null child == 0
          then some (0, s)
          else after_token fetch_data push_data s rest
              (or_null child)
              (λ path'. path_loop fetch_data push_data rounds fuel s path' (or_null child)))
  unfolding path_loop fetch_if_new
  path_round rounds path token rest node child read short split found =
      let fits : ltb 255 (length token) ≡ false =
        le→ltb 255 (length token) (omega (arith, short)) in
      rw
        (
          split,
          fits,
          read,
          search_children_lem fuel s (s node).child_nodes (children node) token (loaded.peers node)
              (loaded.few node),
          found,
        )
        refl

  found_exists :
      (cs : List ℕ) (it : ℕ) (name : List ℕ) (c : ℕ)
      → ArePeers s it cs
      → first_named s cs name ≡ some c
      → c ≢ 0
  found_exists [] it name c peers found = absurd (none-ne-some c found)
  found_exists (x ∷ cs) it name c (here, exists, rest) found =
      elim (Bool-cases (strcmp name (s x).filename == 0)) [
        | inl same ↦
            let e : some x ≡ some c = rw same at found in
            λ zero_c. exists (some-injective x c e ∙ zero_c)
        | inr other ↦
            let e : first_named s cs name ≡ some c = rw other at found in
            found_exists cs (s x).peer_nodes name c rest e
      ]

  -- The last name of a path.
  last_round :
      (rounds : ℕ) (t : List ℕ) (node : ℕ) (child : Option ℕ)
      → inode_is_new (s node) ≡ false
      → length t < 256
      → HasNoSlash t
      → first_named s (children node) t ≡ child
      → path_loop fetch_data push_data (suc rounds) fuel s t node ≡ some (or_null child, s)
  unfolding after_token
  last_round rounds t node child read short plain found =
      path_round rounds t t [] node child read short (next_token-last t plain) found
      ∙ elim (Bool-cases (or_null child == 0)) [
        | inl null ↦ rw (null, ==→eq (or_null child) 0 null) refl
        | inr exists ↦ rw exists refl
      ]

  join-cons :
      (t : List ℕ) (ts : List (List ℕ))
      → 0 < length t
      → (d : ℕ) × (path : List ℕ) × (join (t ∷ ts) ≡ d ∷ path)
  join-cons [] ts h = absurd (omega arith)
  join-cons (d ∷ t) [] h = (d, t, refl)
  join-cons (d ∷ t) (u ∷ ts) h = (d, t ++ (slash ∷ join (u ∷ ts)), refl)

  first_char :
      (t : List ℕ) (ts : List (List ℕ)) → AreNames (t ∷ ts) → get_or (join (t ∷ ts)) 0 0 ≢ 0
  first_char [] ts names = absurd (omega (arith, names.0))
  first_char (c ∷ t) [] names = names.1.1
  first_char (c ∷ t) (u ∷ ts) names = names.1.1

  path_loop_lem :
      (rounds : ℕ) (t : List ℕ) (ts : List (List ℕ)) (node : ℕ)
      → AreNames (t ∷ ts)
      → IsRead s children (some node) (t ∷ ts)
      → length ts < rounds
      → path_loop fetch_data push_data rounds fuel s (join (t ∷ ts)) node
        ≡ some (or_null (resolve s children (some node) (t ∷ ts)), s)
  unfolding after_token
  path_loop_lem zero t ts node names read enough = absurd (omega arith)
  path_loop_lem (suc rounds) t [] node (some_chars, plain, short, rest) (read, later) enough =
      last_round rounds t node (first_named s (children node) t) read short plain refl
      ∙ ap (λ o. some (or_null o, s))
          (sym (resolve-end s children (first_named s (children node) t)))
  path_loop_lem (suc rounds) t (u ∷ ts) node (some_chars, plain, short, rest) (read, later) enough =
      let (d, path, split) = join-cons u ts rest.0 in
      let token : next_token (join (t ∷ u ∷ ts)) ≡ (t, slash ∷ d ∷ path) =
        next_token-middle t (join (u ∷ ts)) plain ∙ ap (λ l. (t, slash ∷ l)) split in
      elim (Option-cases (first_named s (children node) t)) [
        | inl missing ↦
            path_round rounds (join (t ∷ u ∷ ts)) t (slash ∷ d ∷ path) node none read short token
              missing
            ∙ ap (λ o. some (or_null (resolve s children o (u ∷ ts)), s)) (sym missing)
        | inr (c, found) ↦
            path_round rounds (join (t ∷ u ∷ ts)) t (slash ∷ d ∷ path) node (some c) read short
              token found
            ∙ rw
                (ne→== c 0
                  (found_exists (children node) (s node).child_nodes t c (loaded.peers node) found))
                (ap (λ l. path_loop fetch_data push_data rounds fuel s l c) (sym split)
                  ∙ path_loop_lem rounds u ts c rest
                      (subst (λ o. IsRead s children o (u ∷ ts)) found later) (omega arith))
            ∙ ap (λ o. some (or_null (resolve s children o (u ∷ ts)), s)) (sym found)
      ]

  -- The root is `steps` links up.
  abbrev pub IsAbove : ℕ → (steps : ℕ) → ℕ → Type 0
  IsAbove node zero top = (node ≡ top) × ((s node).parent_node ≡ 0)
  IsAbove node (suc steps) top = ((s node).parent_node ≢ 0) × IsAbove (s node).parent_node steps top

  climb_lem :
      (n : ℕ) (node steps top : ℕ) → IsAbove node steps top → steps < n → climb n s node ≡ top
  unfolding climb
  climb_lem zero node steps top above enough = absurd (omega arith)
  climb_lem (suc n) node zero top above enough = rw (eq→== _ 0 above.1) above.0
  climb_lem (suc n) node (suc steps) top above enough =
      rw (ne→== _ 0 above.0) (climb_lem n (s node).parent_node steps top above.1 (omega arith))

  -- A path from `/` leads from the root, wherever the search starts, down by its names, at most 255 of
  -- them with at most 255 characters each, each time to the first child with the name, when every inode
  -- on the way in which a name is looked up has been read; the result is 0 when a name is missing, and
  -- nothing is changed or written past the end of an array.
  pub inode_from_path_lem :
      (node steps top : ℕ) (t : List ℕ) (ts : List (List ℕ))
      → IsAbove node steps top
      → steps < fuel
      → AreNames (t ∷ ts)
      → length ts < 255
      → IsRead s children (some top) (t ∷ ts)
      → inode_from_path fetch_data push_data fuel s node (slash ∷ join (t ∷ ts))
        ≡ some (or_null (resolve s children (some top) (t ∷ ts)), s)
  unfolding inode_from_path
  inode_from_path_lem node steps top t ts above deep names few read =
      rw
        (
          climb_lem fuel node steps top above deep,
          ne→== (get_or (join (t ∷ ts)) 0 0) 0 (first_char t ts names),
        )
        (path_loop_lem 255 t ts top names read few)
