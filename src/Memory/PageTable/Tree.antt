-- ===== src/Memory/PageTable/Tree.antt =====
-- The tables form a tree: the level and the address prefix of a table determine it, and every table
-- entry leads to the table of the next level and the longer prefix.
use raspberry_pi_os.Base.{
  ℕ, suc, ◌+◌, ◌-◌, ◌*◌, ◌%◌, ◌^◌, ◌≤◌, ◌<◌, ◌≡◌, ◌≢◌, sym, ◌∙◌, arith, true, false, if◌then◌else◌,
  ◌==◌, ◌||◌, Option, none, some, List, [], ◌∷◌, Bool-cases, inl, inr, ==→eq,
}
use raspberry_pi_os.Memory.Page.{to_kern, va_offset}
use raspberry_pi_os.Memory.PageTable.{Tables, is_table_entry, is_leaf_entry}
use mathlib.Core.Path.{ap}

-- Level and prefix of each table in use.
abbrev pub Owner : Type 0
Owner = ℕ → Option (ℕ × ℕ)

abbrev pub adopt : Owner → ℕ → ℕ × ℕ → Owner
adopt own p v = λ t. if t == p then some v else own t

pub record Link (own : Owner) (e level p idx : ℕ) : Type 0 where
  pub marked : e % 4096 ≡ 3
  pub small : e < 2 ^ 48
  pub owned : own (to_kern (e - 3)) ≡ some (suc level, p * 512 + idx)

abbrev pub NotIn : ℕ → List ℕ → Type 0
NotIn p [] = Unit {0}
NotIn p (q ∷ qs) = (q ≢ p) × NotIn p qs

-- Pages that the allocator has still to give are aligned kernel addresses, distinct and unused.
abbrev pub IsFresh : Owner → List ℕ → Type 0
IsFresh own [] = Unit {0}
IsFresh own (p ∷ ps) =
    ((own p ≡ none) × (p % 4096 ≡ 0) × (va_offset ≤ p) × (p < va_offset + 2 ^ 48) × NotIn p ps)
    × IsFresh own ps

pub record IsTree (own : Owner) (s : Tables) : Type 0 where
  pub linked :
      (t level p idx : ℕ)
      → own t ≡ some (level, p)
      → is_table_entry (s.entry t idx) level ≡ true
      → Link own (s.entry t idx) level p idx
  pub fresh : IsFresh own s.fresh

abbrev pub IsPresent : ℕ → ℕ → Type 0
IsPresent e level = (is_table_entry e level || is_leaf_entry e level) ≡ true

-- The entries in use are not overwritten.
abbrev pub Keeps : Owner → Tables → Tables → Type 0
Keeps own s s' =
    (t level p idx : ℕ)
    → own t ≡ some (level, p)
    → IsPresent (s.entry t idx) level
    → s'.entry t idx ≡ s.entry t idx

abbrev pub Extends : Owner → Owner → Type 0
Extends own own' = (t : ℕ) (v : ℕ × ℕ) → own t ≡ some v → own' t ≡ some v

pub IsFresh-adopt :
    (own : Owner) (p : ℕ) (v : ℕ × ℕ) (ps : List ℕ)
    → NotIn p ps
    → IsFresh own ps
    → IsFresh (adopt own p v) ps
IsFresh-adopt own p v [] out f = tt
IsFresh-adopt own p v (q ∷ qs) out f =
    let new : (q == p) ≡ false = ground arith in
    ((rw new f.0.0, f.0.1, f.0.2, f.0.3, f.0.4), IsFresh-adopt own p v qs out.1 f.1)

pub Extends-adopt : (own : Owner) (p : ℕ) (v : ℕ × ℕ) → own p ≡ none → Extends own (adopt own p v)
Extends-adopt own p v out t w h = elim (Bool-cases (t == p)) [
  | inl same ↦ let e : t ≡ p = ==→eq t p same in cc (sym h ∙ ap own e ∙ out)
  | inr other ↦ rw other h
]

pub Extends-ne :
    (own : Owner) (p t : ℕ) (v : ℕ × ℕ) → own p ≡ none → own t ≡ some v → (t == p) ≡ false
Extends-ne own p t v out o = elim (Bool-cases (t == p)) [
  | inl same ↦ cc (sym o ∙ ap own (==→eq t p same) ∙ out)
  | inr other ↦ other
]

pub zero-IsAbsent : (level : ℕ) → is_table_entry 0 level ≡ false
unfolding is_table_entry
zero-IsAbsent level = ground arith
