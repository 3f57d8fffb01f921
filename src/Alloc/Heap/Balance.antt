-- ===== src/Alloc/Heap/Balance.antt =====
-- What is granted and what is given back, for the clients of source/alloc/buddy.c.
use raspberry_pi_os.Base.{
  ne→==, ℕ, zero, suc, ◌+◌, ◌≤◌, ◌≡◌, refl, ◌∙◌, arith, List, [], ◌∷◌, ◌++◌, true, false, ◌==◌,
  if◌then◌else◌, Bool-cases, inl, inr, eq→==, ==→eq,
}
use raspberry_pi_os.Alloc.Heap.{Heap, grant, kmalloc, is_live, take_back, free}

-- How often an address stands in a list.
abbrev pub uses : ℕ → List ℕ → ℕ
uses a [] = 0
uses a (b ∷ rest) = (if b == a then 1 else 0) + uses a rest

pub uses-append : (a : ℕ) (xs ys : List ℕ) → uses a (xs ++ ys) ≡ uses a xs + uses a ys
uses-append a [] ys = omega arith
uses-append a (x ∷ xs) ys = omega (arith, uses-append a xs ys)

is_live-used : (a : ℕ) (l : List ℕ) → 1 ≤ uses a l → is_live a l ≡ true
is_live-used a [] h = absurd (omega arith)
is_live-used a (b ∷ l) h = elim (Bool-cases (b == a)) [
  | inl here ↦ rw here refl
  | inr other ↦
      let later : 1 ≤ 0 + uses a l = rw other at h in rw other (is_live-used a l (omega arith))
]

take_back-uses :
    (a x : ℕ) (l : List ℕ)
    → 1 ≤ uses a l
    → uses x (take_back a l) + (if a == x then 1 else 0) ≡ uses x l
take_back-uses a x [] h = absurd (omega arith)
take_back-uses a x (b ∷ l) h = elim (Bool-cases (b == a)) [
  | inl here ↦ let e : b ≡ a = ==→eq b a here in rw (here, e) (omega arith)
  | inr other ↦
      let later : 1 ≤ 0 + uses a l = rw other at h in
      rw other (omega (arith, take_back-uses a x l (omega arith)))
]

-- `after` is `before` without what `given` lists, and no call of `free` was wrong.
pub record GivesBack (given : List ℕ) (before after : Heap) : Type 0 where
  pub balance : (a : ℕ) → uses a after.live + uses a given ≡ uses a before.live
  pub none_wrong : after.bad_frees ≡ before.bad_frees

pub GivesBack-nothing : (h : Heap) → GivesBack [] h h
GivesBack-nothing h = record { balance = λ a. omega arith; none_wrong = refl }

pub GivesBack-then :
    (xs ys : List ℕ) (h k l : Heap) → GivesBack xs h k → GivesBack ys k l → GivesBack (xs ++ ys) h l
GivesBack-then xs ys h k l first next = record {
  balance = λ a. omega (arith, uses-append a xs ys, first.balance a, next.balance a);
  none_wrong = next.none_wrong ∙ first.none_wrong;
}

-- Everything on the list is live, as often as it stands there.
abbrev pub Holds : Heap → List ℕ → Type 0
Holds h owned = (a : ℕ) → uses a owned ≤ uses a h.live

pub free_lem : (a : ℕ) (h : Heap) → 1 ≤ uses a h.live → GivesBack (a ∷ []) h (free a h)
unfolding free
free_lem a h live =
    rw (is_live-used a h.live live)
      (record { balance = λ x. omega (arith, take_back-uses a x h.live live); none_wrong = refl })

pub Holds-rest : (xs ys : List ℕ) (h k : Heap) → Holds h (xs ++ ys) → GivesBack xs h k → Holds k ys
Holds-rest xs ys h k all given = λ a. omega (arith, uses-append a xs ys, all a, given.balance a)

pub Holds-head : (x : ℕ) (xs : List ℕ) (h : Heap) → Holds h (x ∷ xs) → 1 ≤ uses x h.live
Holds-head x xs h all =
    let e : (x == x) ≡ true = eq→== x x refl in
    let at_x : (if x == x then 1 else 0) + uses x xs ≤ uses x h.live = all x in
    let got : 1 + uses x xs ≤ uses x h.live = rw e at at_x in omega arith

pub free-then :
    (x : ℕ) (xs : List ℕ) (h l : Heap)
    → Holds h (x ∷ xs)
    → (Holds (free x h) xs → GivesBack xs (free x h) l)
    → GivesBack (x ∷ xs) h l
free-then x xs h l all rest =
    let first = free_lem x h (Holds-head x xs h all) in
    GivesBack-then (x ∷ []) xs h (free x h) l first
      (rest (Holds-rest (x ∷ []) xs h (free x h) all first))

-- What `kmalloc` grants can be given back at once.
pub free-granted :
    (a : ℕ) (l g b : List ℕ)
    → free a (record { grants = g; live = a ∷ l; bad_frees = b })
      ≡ record { grants = g; live = l; bad_frees = b }
unfolding free
free-granted a l g b = rw (eq→== a a refl) refl

-- What `free` does to the address that was granted last.
pub free-last :
    (a : ℕ) (l : List ℕ) (h : Heap)
    → h.live ≡ a ∷ l
    → ((free a h).live ≡ l) × ((free a h).bad_frees ≡ h.bad_frees)
unfolding free
free-last a l h e = rw (e, eq→== a a refl) (refl, refl)

grant_lem :
    (gs : List ℕ) (h : Heap)
    → ((grant gs h).1.live ≡ (if (grant gs h).0 == 0 then h.live else (grant gs h).0 ∷ h.live))
      × ((grant gs h).1.bad_frees ≡ h.bad_frees)
unfolding grant
grant_lem [] h = (refl, refl)
grant_lem (zero ∷ rest) h = (refl, refl)
grant_lem (suc a ∷ rest) h =
    let positive : (suc a == 0) ≡ false = ground arith in rw positive (refl, refl)

pub kmalloc_lem :
    (h : Heap)
    → ((kmalloc h).1.live ≡ (if (kmalloc h).0 == 0 then h.live else (kmalloc h).0 ∷ h.live))
      × ((kmalloc h).1.bad_frees ≡ h.bad_frees)
unfolding kmalloc
kmalloc_lem h = grant_lem h.grants h

pub kmalloc-failed : (h : Heap) → ((kmalloc h).0 == 0) ≡ true → (kmalloc h).1.live ≡ h.live
kmalloc-failed h failed = rw failed at (kmalloc_lem h).0

pub kmalloc-granted :
    (h : Heap) → ((kmalloc h).0 == 0) ≡ false → (kmalloc h).1.live ≡ (kmalloc h).0 ∷ h.live
kmalloc-granted h granted = rw granted at (kmalloc_lem h).0

-- How many of the next calls of `kmalloc` grant memory.
abbrev pub given : List ℕ → ℕ
given [] = 0
given (zero ∷ rest) = 0
given (suc a ∷ rest) = 1 + given rest

grant-given :
    (gs : List ℕ) (h : Heap)
    → 1 ≤ given gs
    → (((grant gs h).0 == 0) ≡ false) × (given (grant gs h).1.grants + 1 ≡ given gs)
unfolding grant
grant-given [] h some_given = absurd (omega arith)
grant-given (zero ∷ rest) h some_given = absurd (omega arith)
grant-given (suc a ∷ rest) h some_given = (ne→== (suc a) 0 (λ e. absurd (omega arith)), omega arith)

pub kmalloc-given :
    (h : Heap)
    → 1 ≤ given h.grants
    → (((kmalloc h).0 == 0) ≡ false) × (given (kmalloc h).1.grants + 1 ≡ given h.grants)
unfolding kmalloc
kmalloc-given h some_given = grant-given h.grants h some_given
