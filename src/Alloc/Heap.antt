-- ===== src/Alloc/Heap.antt =====
-- What the other parts of the kernel see of source/alloc/buddy.c: `kmalloc` grants an address or, as
-- 0, nothing, and `free` takes back what was granted. `grants` lists what the next calls of `kmalloc`
-- return, `live` what is granted and not given back, and `bad_frees` the calls of `free` with an
-- address that is not live.
pub mod Balance
use raspberry_pi_os.Base.{ℕ, zero, suc, Bool, List, [], ◌∷◌, ◌==◌, if◌then◌else◌}

pub record Heap : Type 0 where
  pub grants : List ℕ
  pub live : List ℕ
  pub bad_frees : List ℕ

unfoldable pub grant : List ℕ → Heap → ℕ × Heap
grant [] h = (0, h)
grant (zero ∷ rest) h = (0, record h { grants = rest })
grant (suc a ∷ rest) h = (suc a, record h { grants = rest; live = suc a ∷ h.live })

unfoldable pub kmalloc : Heap → ℕ × Heap
unfolding grant
kmalloc h = grant h.grants h

abbrev pub is_live : ℕ → List ℕ → Bool
is_live a [] = Bool.false
is_live a (b ∷ rest) = let later = is_live a rest in if b == a then Bool.true else later

abbrev pub take_back : ℕ → List ℕ → List ℕ
take_back a [] = []
take_back a (b ∷ rest) = let later = take_back a rest in if b == a then rest else b ∷ later

unfoldable pub free : ℕ → Heap → Heap
free a h =
    if is_live a h.live
    then record h { live = take_back a h.live }
    else record h { bad_frees = a ∷ h.bad_frees }
