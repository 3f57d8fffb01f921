-- ===== src/Alloc/Buddy/Links.antt =====
-- Doubly linked lists, as source/alloc/buddy.c keeps them twice over.
use mathlib.Core.Path.{subst}
use raspberry_pi_os.Base.{
  ℕ, ◌≤◌, ◌<◌, ◌≡◌, ◌≢◌, refl, sym, ◌∙◌, arith, true, false, List, [], ◌∷◌, ◌++◌, ◌==◌,
  if◌then◌else◌, eq→==, ne→==, ◌⊎◌, inl, inr,
}
use raspberry_pi_os.Alloc.Pool.Chain.{occurrences, occurrences-append, occurrences-head}

-- The blocks that are linked from p on; the first one's predecessor is `before`.
abbrev pub Linked : (next prev : ℕ → ℕ) → (before p : ℕ) → List ℕ → Type 0
Linked next prev before p [] = p ≡ 0
Linked next prev before p (x ∷ xs) =
    (p ≡ x) × (x ≢ 0) × (prev x ≡ before) × Linked next prev x (next x) xs

-- Links that agree on the blocks of the list.
pub Linked-agree :
    (next prev next' prev' : ℕ → ℕ) (before p : ℕ) (xs : List ℕ)
    → ((x : ℕ) → 0 < occurrences x xs → (next' x ≡ next x) × (prev' x ≡ prev x))
    → Linked next prev before p xs
    → Linked next' prev' before p xs
Linked-agree next prev next' prev' before p [] same l = l
Linked-agree next prev next' prev' before p (x ∷ xs) same (e, ne, e', l) =
    let (n, q) = same x (omega (arith, occurrences-head x x xs refl)) in
    (
      e,
      ne,
      q ∙ e',
      subst (λ z. Linked next' prev' x z xs) (sym n)
          (Linked-agree next prev next' prev' x (next x) xs (λ y h. same y (ground arith)) l),
    )

abbrev pub unlink_next : (next prev : ℕ → ℕ) → ℕ → ℕ → ℕ
unlink_next next prev b x = if prev b == 0 then next x else if x == prev b then next b else next x

abbrev pub unlink_prev : (next prev : ℕ → ℕ) → ℕ → ℕ → ℕ
unlink_prev next prev b x = if next b == 0 then prev x else if x == next b then prev b else prev x

-- Where a list starts once its first part has lost what followed.
abbrev pub start_of : (p : ℕ) → (front : List ℕ) → (behind : ℕ) → ℕ
start_of p [] behind = behind
start_of p (x ∷ front) behind = p

unlink-head :
    (next prev : ℕ → ℕ) (before b : ℕ) (back : List ℕ)
    → ((a : ℕ) → occurrences a (b ∷ back) ≤ 1)
    → (before ≡ 0) ⊎ (occurrences before (b ∷ back) ≡ 0)
    → prev b ≡ before
    → Linked next prev b (next b) back
    → Linked (unlink_next next prev b) (unlink_prev next prev b) before (next b) back
unlink-head next prev before b [] once out e l = l
unlink-head next prev before b (y ∷ back) once out e (e', ne, p, l) =
    let some_next : (next b == 0) ≡ false = ne→== (next b) 0 (λ z. ne (sym e' ∙ z)) in
    let here : (y == next b) ≡ true = eq→== y (next b) (sym e') in
    let at_y : unlink_prev next prev b y ≡ before = rw (some_next, here) e in
    let kept : (x : ℕ) → 0 < occurrences x (y ∷ back) → unlink_next next prev b x ≡ next x =
      λ x h. ground arith in
    (
      e',
      ne,
      at_y,
      subst (λ z. Linked (unlink_next next prev b) (unlink_prev next prev b) y z back)
          (sym (kept y (omega (arith, occurrences-head y y back refl))))
          (Linked-agree next prev (unlink_next next prev b) (unlink_prev next prev b) y (next y)
            back (λ x h. (kept x (ground arith), (let single = once x in ground arith))) l),
    )

pub next-in :
    (next prev : ℕ → ℕ) (before p b : ℕ) (front back : List ℕ)
    → Linked next prev before p (front ++ (b ∷ back))
    → (next b ≡ 0) ⊎ (0 < occurrences (next b) back)
next-in next prev before p b [] [] (e, ne, e', l) = inl l
next-in next prev before p b [] (y ∷ back) (e, ne, e', l) =
    inr (omega (arith, occurrences-head (next b) y back l.0))
next-in next prev before p b (x ∷ front) back (e, ne, e', l) =
    next-in next prev x (next x) b front back l

pub prev-in :
    (next prev : ℕ → ℕ) (before p b z : ℕ) (front back : List ℕ)
    → Linked next prev before p ((z ∷ front) ++ (b ∷ back))
    → 0 < occurrences (prev b) (z ∷ front)
prev-in next prev before p b z [] back (e, ne, e', l) =
    omega (arith, occurrences-head (prev b) z [] l.2)
prev-in next prev before p b z (w ∷ front) back (e, ne, e', l) =
    let later = prev-in next prev z (next z) b w front back l in omega arith

unlink-next_at :
    (next prev : ℕ → ℕ) (before p b x : ℕ) (front back : List ℕ)
    → ((a : ℕ) → occurrences a (x ∷ front ++ (b ∷ back)) ≤ 1)
    → Linked next prev before p (x ∷ front ++ (b ∷ back))
    → unlink_next next prev b x ≡ start_of (next x) front (next b)
unlink-next_at next prev before p b x [] back once (e, ne, e', l) =
    let at_b : prev b ≡ x = l.2 in
    let some_prev : (prev b == 0) ≡ false = ne→== (prev b) 0 (λ z. ne (sym at_b ∙ z)) in
    let here : (x == prev b) ≡ true = eq→== x (prev b) (sym at_b) in rw (some_prev, here) refl
unlink-next_at next prev before p b x (z ∷ front) back once (e, ne, e', l) =
    let inside = prev-in next prev x (next x) b z front back l in
    let single = once x in
    let parts = occurrences-append x (z ∷ front) (b ∷ back) in
    let other : x ≢ prev b = λ same.
      let there = subst (λ y. 0 < occurrences y (z ∷ front)) (sym same) inside in
      omega (arith, occurrences-head x x (z ∷ front ++ (b ∷ back)) refl) in
    ground arith

unlink-prev_at :
    (next prev : ℕ → ℕ) (before p b x : ℕ) (front back : List ℕ)
    → ((a : ℕ) → occurrences a (x ∷ front ++ (b ∷ back)) ≤ 1)
    → Linked next prev before p (x ∷ front ++ (b ∷ back))
    → unlink_prev next prev b x ≡ prev x
unlink-prev_at next prev before p b x front back once (e, ne, e', l) =
    elim (next-in next prev x (next x) b front back l) [
      | inl last ↦ rw (eq→== (next b) 0 last) refl
      | inr inside ↦
          let single = once x in
          let parts = occurrences-append x front (b ∷ back) in
          let other : x ≢ next b = λ same.
            let there = subst (λ y. 0 < occurrences y back) (sym same) inside in
            omega (arith, occurrences-head x x (front ++ (b ∷ back)) refl) in
          ground arith
    ]

-- Taking a block out of a doubly linked list, as the code relinks its neighbours, leaves the list of
-- the others.
pub unlink-Linked :
    (next prev : ℕ → ℕ) (before p b : ℕ) (front back : List ℕ)
    → ((a : ℕ) → occurrences a (front ++ (b ∷ back)) ≤ 1)
    → (before ≡ 0) ⊎ (occurrences before (front ++ (b ∷ back)) ≡ 0)
    → Linked next prev before p (front ++ (b ∷ back))
    → Linked
        (unlink_next next prev b)
        (unlink_prev next prev b)
        before
        (start_of p front (next b))
        (front ++ back)
unlink-Linked next prev before p b [] back once out (e, ne, e', l) =
    unlink-head next prev before b back once out e' l
unlink-Linked next prev before p b (x ∷ front) back once out (e, ne, e', l) =
    let rest =
      unlink-Linked next prev x (next x) b front back (λ a. let single = once a in omega arith)
        (inr
          (let single = once x in omega (arith, occurrences-head x x (front ++ (b ∷ back)) refl)))
        l in
    (
      e,
      ne,
      unlink-prev_at next prev before p b x front back once (e, ne, e', l) ∙ e',
      subst (λ z. Linked (unlink_next next prev b) (unlink_prev next prev b) x z (front ++ back))
          (sym (unlink-next_at next prev before p b x front back once (e, ne, e', l))) rest,
    )
