-- ===== src/Memory/PageTable/Frame.antt =====
-- What a change of the tables does to the translation of an address: nothing, as long as the
-- entries on the path of the address are kept.
use mathlib.Core.Path.{subst}
use raspberry_pi_os.Base.{
  ℕ, zero, suc, ◌+◌, ◌≤◌, ◌<◌, ◌≡◌, ◌≢◌, refl, arith, true, some, Bool-cases, inl, inr,
}
use raspberry_pi_os.Memory.Page.{to_kern}
use raspberry_pi_os.Memory.PageTable.{
  Tables, address_index, is_table_entry, is_leaf_entry, get_address_from_descriptor, walk,
}
use raspberry_pi_os.Memory.PageTable.Index.{prefix, prefix-suc, table_target, prefix-below}
use raspberry_pi_os.Memory.PageTable.Tree.{Owner, IsTree, IsPresent}
use raspberry_pi_os.Memory.PageTable.Descend.{Leads}

-- The entries that translate `a`, in the tables above `limit`.
abbrev pub KeepsPath : Owner → ℕ → Tables → Tables → ℕ → Type 0
KeepsPath own a s s' limit =
    (t level : ℕ)
    → own t ≡ some (level, prefix a level)
    → level < limit
    → IsPresent (s.entry t (address_index a level)) level
    → s'.entry t (address_index a level) ≡ s.entry t (address_index a level)

-- A table entry leads to the table of the next level, and is not at the last level.
next-owner :
    (own : Owner) (s : Tables) (a i t : ℕ)
    → IsTree own s
    → own t ≡ some (i, prefix a i)
    → i ≤ 3
    → is_table_entry (s.entry t (address_index a i)) i ≡ true
    → own (to_kern (get_address_from_descriptor (s.entry t (address_index a i))))
      ≡ some (suc i, prefix a (suc i))
next-owner own s a i t tree here bound follow =
    let link = tree.linked t i (prefix a i) (address_index a i) here follow in
    let target = table_target (s.entry t (address_index a i)) link.marked link.small in
    rw (target.0, prefix-suc a i bound) link.owned

pub Leads-keep :
    (rounds a : ℕ) (own : Owner) (s s' : Tables) (i t u : ℕ)
    → IsTree own s
    → own t ≡ some (i, prefix a i)
    → i + rounds ≤ 3
    → KeepsPath own a s s' (i + rounds)
    → Leads s a rounds i t u
    → Leads s' a rounds i t u
Leads-keep zero a own s s' i t u tree here bound keep leads = leads
Leads-keep (suc rounds) a own s s' i t u tree here bound keep (follow, leads) =
    let same = keep t i here (omega arith) (rw follow refl) in
    (
      rw same follow,
      rw same (
          Leads-keep rounds a own s s' (suc i) _ u tree
            (next-owner own s a i t tree here (omega arith) follow) (omega arith)
            (λ t' level o lt present. keep t' level o (omega arith) present) leads),
    )

pub prefix-down :
    (k j a c : ℕ) → j + k ≤ 4 → prefix a (j + k) ≡ prefix c (j + k) → prefix a j ≡ prefix c j
prefix-down zero j a c h e =
    let same : j + 0 ≡ j = omega arith in subst (λ x. prefix a x ≡ prefix c x) same e
prefix-down (suc k) j a c h e =
    let next : j + suc k ≡ suc j + k = omega arith in
    let up = subst (λ x. prefix a x ≡ prefix c x) next e in
    (prefix-below j a c (omega arith) (prefix-down k (suc j) a c (omega arith) up)).0

-- Two addresses with a common prefix take the same path.
pub Leads-prefix :
    (rounds a c : ℕ) (s : Tables) (i t u : ℕ)
    → i + rounds ≤ 4
    → prefix a (i + rounds) ≡ prefix c (i + rounds)
    → Leads s c rounds i t u
    → Leads s a rounds i t u
Leads-prefix zero a c s i t u bound e leads = leads
Leads-prefix (suc rounds) a c s i t u bound e (follow, leads) =
    let next : i + suc rounds ≡ suc i + rounds = omega arith in
    let up = subst (λ x. prefix a x ≡ prefix c x) next e in
    let below =
      prefix-below i a c (omega arith) (prefix-down rounds (suc i) a c (omega arith) up) in
    rw below.1 (follow, Leads-prefix rounds a c s (suc i) _ u (omega arith) up leads)

pub walk-Leads :
    (rounds total n : ℕ) (a : ℕ) (s : Tables) (i l t u : ℕ)
    → total ≡ rounds + n
    → l ≡ i + rounds
    → Leads s a rounds i t u
    → walk total s i t a ≡ walk n s l u a
unfolding walk
walk-Leads zero total n a s i l t u e f leads =
    let same : total ≡ n = omega arith in
    let level : l ≡ i = omega arith in rw (same, level, leads) refl
walk-Leads (suc rounds) zero n a s i l t u e f leads = absurd (omega arith)
walk-Leads (suc rounds) (suc total) n a s i l t u e f (follow, leads) =
    rw follow (walk-Leads rounds total n a s (suc i) l _ u (omega arith) (omega arith) leads)

-- An address that is translated keeps its translation.
pub walk-keep :
    (rounds a : ℕ) (own : Owner) (s s' : Tables) (i t : ℕ)
    → IsTree own s
    → own t ≡ some (i, prefix a i)
    → i + rounds ≤ 4
    → KeepsPath own a s s' (i + rounds)
    → walk rounds s i t a ≢ 0
    → walk rounds s' i t a ≡ walk rounds s i t a
unfolding walk
walk-keep zero a own s s' i t tree here bound keep live = absurd (live refl)
walk-keep (suc rounds) a own s s' i t tree here bound keep live =
    let e = s.entry t (address_index a i) in
    elim (Bool-cases (is_table_entry e i)) [
      | inl follow ↦
          let same = keep t i here (omega arith) (rw follow refl) in
          rw (same, follow)
            (walk-keep rounds a own s s' (suc i) _ tree
              (next-owner own s a i t tree here (omega arith) follow) (omega arith)
              (λ t' level o lt present. keep t' level o (omega arith) present) (rw follow at live))
      | inr absent ↦ elim (Bool-cases (is_leaf_entry e i)) [
        | inl leaf ↦
            let same = keep t i here (omega arith) (rw (absent, leaf) refl) in
            rw (same, absent, leaf) refl
        | inr free ↦ absurd (live (rw (absent, free) refl))
      ]
    ]
