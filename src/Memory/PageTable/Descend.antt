-- ===== src/Memory/PageTable/Descend.antt =====
-- The inner loop of `page_table_map_address` reaches the table of the wanted level.
use mathlib.Core.Path.{subst}
use raspberry_pi_os.Base.{
  ℕ, zero, suc, ◌+◌, ◌≤◌, ◌≡◌, refl, ◌∙◌, ap, arith, true, false, some, List, [], ◌∷◌, length, ◌==◌,
  Bool-cases, inl, inr, bit_and,
}
use raspberry_pi_os.Memory.Page.{complement64, to_kern, to_phys}
use raspberry_pi_os.Memory.PageTable.{
  Tables, address_index, is_table_entry, is_leaf_entry, get_address_from_descriptor,
  page_table_insert_table_descriptor,
}
use raspberry_pi_os.Memory.PageTable.Index.{prefix, prefix-suc, table_target}
use raspberry_pi_os.Memory.PageTable.Map.{take_fresh, alloc_table, Descent, at, conflict, descend}
use raspberry_pi_os.Memory.PageTable.Tree.{Owner, IsFresh, IsTree, Keeps, Extends}
use raspberry_pi_os.Memory.PageTable.Grow.{
  grown, grown_owner, grown-IsTree, grown-Keeps, grown-Extends, grown-follow, grown-fresh,
}

-- From the table `t` of level `i`, the entries for `a` lead in that many steps to the table `u`.
abbrev pub Leads : Tables → ℕ → ℕ → ℕ → ℕ → ℕ → Type 0
Leads s a zero i t u = t ≡ u
Leads s a (suc rounds) i t u =
    let e = s.entry t (address_index a i) in
    (is_table_entry e i ≡ true)
    × Leads s a rounds (suc i) (to_kern (get_address_from_descriptor e)) u

-- What is kept of the tables between two states, and what the later one may still allocate.
pub record Later (own own' : Owner) (s s' : Tables) (spent : ℕ) : Type 0 where
  pub tree : IsTree own' s'
  pub extends : Extends own own'
  pub keeps : Keeps own s s'
  pub left : length s.fresh ≤ length s'.fresh + spent

abbrev pub Descends : Owner → Tables → ℕ → ℕ → ℕ → ℕ → Descent → Type 0
Descends own s a rounds i t (at u s') =
    (own' : Owner) × Later own own' s s' rounds
    × (own' u ≡ some (i + rounds, prefix a (i + rounds)))
    × Leads s' a rounds i t u
Descends own s a rounds i t (conflict s') = (own' : Owner) × Later own own' s s' rounds

Later-refl : {own : Owner} {s : Tables} → IsTree own s → Later own own s s 0
Later-refl tree = record {
  tree = tree;
  extends = λ t v h. h;
  keeps = λ t level p idx o present. refl;
  left = omega arith;
}

Later-trans :
    {own own' own'' : Owner} {s s' s'' : Tables} {m n : ℕ} (k : ℕ)
    → Later own own' s s' m
    → Later own' own'' s' s'' n
    → m + n ≤ k
    → Later own own'' s s'' k
Later-trans k l r few = record {
  tree = r.tree;
  extends = λ t v h. r.extends t v (l.extends t v h);
  keeps = λ t level p idx o present.
      let same = l.keeps t level p idx o present in
      r.keeps t level p idx (l.extends t _ o) (rw same present) ∙ same;
  left = omega (arith, l.left, r.left);
}

-- A longer path, from the table above.
Descends-step :
    (own own' : Owner) (s s' : Tables) (a rounds i t t' : ℕ) (d : Descent) (n : ℕ)
    → n ≤ 1
    → Later own own' s s' n
    → own t ≡ some (i, prefix a i)
    → is_table_entry (s'.entry t (address_index a i)) i ≡ true
    → to_kern (get_address_from_descriptor (s'.entry t (address_index a i))) ≡ t'
    → Descends own' s' a rounds (suc i) t' d
    → Descends own s a (suc rounds) i t d
Descends-step own own' s s' a rounds i t t' (at u s'') n few l here follow target
      (own'', l', there, leads) =
    let sum : suc i + rounds ≡ i + suc rounds = omega arith in
    let same : s''.entry t (address_index a i) ≡ s'.entry t (address_index a i) =
      l'.keeps t i (prefix a i) (address_index a i) (l.extends t _ here) (rw follow refl) in
    (
      own'',
      Later-trans (suc rounds) l l' (omega arith),
      subst (λ k. own'' u ≡ some (k, prefix a k)) sum there,
      (rw same follow, rw (same, target) leads),
    )
Descends-step own own' s s' a rounds i t t' (conflict s'') n few l here follow target (own'', l') =
    (own'', Later-trans (suc rounds) l l' (omega arith))

-- Following an entry that is there.
follow-target :
    (own : Owner) (s : Tables) (a i t : ℕ)
    → IsTree own s
    → own t ≡ some (i, prefix a i)
    → i ≤ 2
    → is_table_entry (s.entry t (address_index a i)) i ≡ true
    → let e = s.entry t (address_index a i) in
      (to_kern (get_address_from_descriptor e) ≡ to_kern (bit_and e (complement64 3)))
      × (own (to_kern (bit_and e (complement64 3))) ≡ some (suc i, prefix a (suc i)))
follow-target own s a i t tree here bound follow =
    let link = tree.linked t i (prefix a i) (address_index a i) here follow in
    let target = table_target (s.entry t (address_index a i)) link.marked link.small in
    (rw (target.0, target.1) refl, rw (target.1, prefix-suc a i (omega arith)) link.owned)

fresh-cons : (l : List ℕ) (n : ℕ) → suc n ≤ length l → (p : ℕ) × (ps : List ℕ) × (l ≡ p ∷ ps)
fresh-cons [] n h = absurd (omega arith)
fresh-cons (p ∷ ps) n h = (p, ps, refl)

alloc_table-cons :
    (s : Tables) (p : ℕ) (ps : List ℕ) → s.fresh ≡ p ∷ ps → alloc_table s ≡ take_fresh (p ∷ ps) s
unfolding alloc_table
alloc_table-cons s p ps e = ap (λ l. take_fresh l s) e

take_fresh-head : (s : Tables) (p : ℕ) (ps : List ℕ) → (take_fresh (p ∷ ps) s).0 ≡ p
unfolding take_fresh
take_fresh-head s p ps = refl

-- The round that creates a table, given the rounds after it.
descend_grow :
    (rounds a : ℕ) (own : Owner) (s : Tables) (t i : ℕ)
    → IsTree own s
    → own t ≡ some (i, prefix a i)
    → i + suc rounds ≤ 3
    → suc rounds ≤ length s.fresh
    → is_table_entry (s.entry t (address_index a i)) i ≡ false
    → is_leaf_entry (s.entry t (address_index a i)) i ≡ false
    → ((own' : Owner) (s' : Tables) (t' : ℕ)
        → IsTree own' s'
        → own' t' ≡ some (suc i, prefix a (suc i))
        → rounds ≤ length s'.fresh
        → Descends own' s' a rounds (suc i) t' (descend rounds s' t' (suc i) a))
    → let create = alloc_table s in
      let extended = page_table_insert_table_descriptor create.1 t (to_phys create.0) a i in
      Descends own s a (suc rounds) i t (descend rounds extended create.0 (suc i) a)
descend_grow rounds a own s t i tree here bound room absent free rest =
    let (p, ps, e) = fresh-cons s.fresh rounds room in
    let pages : IsFresh own (p ∷ ps) = subst (IsFresh own) e tree.fresh in
    let low : i ≤ 2 = omega arith in
    let s' = grown own s p ps tree pages t i a low here in
    let own' = grown_owner own s p ps tree pages t i a low here in
    let tree' = grown-IsTree own s p ps tree pages t i a low here in
    let follow = grown-follow own s p ps tree pages t i a low here in
    let rest_length : length s'.fresh ≡ length ps =
      ap length (grown-fresh own s p ps tree pages t i a low here) in
    let first_length : length s.fresh ≡ suc (length ps) = ap length e in
    let self : (p == p) ≡ true = ground arith in
    let later : Later own own' s s' 1 = record {
      tree = tree';
      extends = grown-Extends own s p ps tree pages t i a low here;
      keeps = grown-Keeps own s p ps tree pages t i a low here absent free;
      left = omega arith;
    } in
    rw (alloc_table-cons s p ps e, take_fresh-head s p ps)
      (Descends-step own own' s s' a rounds i t p _ 1 (omega arith) later here follow.0 follow.1
        (rest own' s' p tree' (rw self refl) (omega arith)))

-- The loop ends at the table of the wanted level and prefix, or at a leaf in the way; either way
-- the tables stay a tree and no entry in use is lost.
pub descend_lem :
    (rounds a : ℕ) (own : Owner) (s : Tables) (t i : ℕ)
    → IsTree own s
    → own t ≡ some (i, prefix a i)
    → i + rounds ≤ 3
    → rounds ≤ length s.fresh
    → Descends own s a rounds i t (descend rounds s t i a)
unfolding descend
descend_lem zero a own s t i tree here bound room =
    let sum : i + 0 ≡ i = omega arith in (own, Later-refl tree, rw sum here, refl)
descend_lem (suc rounds) a own s t i tree here bound room =
    let e = s.entry t (address_index a i) in
    elim (Bool-cases (is_leaf_entry e i)) [
      | inl leaf ↦
          rw leaf (own, Later-trans (suc rounds) (Later-refl tree) (Later-refl tree) (omega arith))
      | inr free ↦ elim (Bool-cases (is_table_entry e i)) [
        | inl follow ↦
            let target = follow-target own s a i t tree here (omega arith) follow in
            rw (free, follow)
              (Descends-step own own s s a rounds i t (to_kern (bit_and e (complement64 3))) _ 0
                (omega arith) (Later-refl tree) here follow target.0
                (descend_lem rounds a own s (to_kern (bit_and e (complement64 3))) (suc i) tree
                  target.1 (omega arith) (omega arith)))
        | inr absent ↦
            rw (free, absent)
              (descend_grow rounds a own s t i tree here bound room absent free
                (λ own' s' t' tree' here' room'.
                  descend_lem rounds a own' s' t' (suc i) tree' here' (omega arith) room'))
      ]
    ]
