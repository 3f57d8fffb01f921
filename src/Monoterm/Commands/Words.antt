-- ===== src/Monoterm/Commands/Words.antt =====
-- The parts of a line in source/monoterm/monoterm.c, and the command that is found for them.
use raspberry_pi_os.Base.{
  some, ◌<◌, ◌+◌, ℕ, zero, suc, ◌≤◌, ◌≡◌, ◌≢◌, refl, sym, ap, ◌∙◌, arith, true, false, List, [],
  ◌∷◌, ◌++◌, length, length-append, take, drop, lt→ltb, ◌==◌, eq→==, ne→==,
}
use raspberry_pi_os.Alloc.Heap.{Heap, kmalloc}
use raspberry_pi_os.Alloc.Heap.Balance.{given, kmalloc-given}
use raspberry_pi_os.Text.Strings.{strncmp, strcmp}
use raspberry_pi_os.Text.Strings.Compare.{strncmp_lem}
use raspberry_pi_os.Monoterm.Commands.{
  get_token_length, tokenize, MonotermCmd, run_command, with_tokens, process_input,
}

-- The words of a line, each with a space behind it.
abbrev pub spaced : List (List ℕ) → List ℕ
spaced [] = []
spaced (w ∷ ws) = w ++ (32 ∷ spaced ws)

abbrev pub NoSpace : List ℕ → Type 0
NoSpace [] = 0 ≤ 0
NoSpace (c ∷ w) = (c ≢ 32) × NoSpace w

abbrev pub AreWords : List (List ℕ) → Type 0
AreWords [] = 0 ≤ 0
AreWords (w ∷ ws) = (1 ≤ length w) × NoSpace w × AreWords ws

get_token_length-word :
    (w rest : List ℕ) → NoSpace w → get_token_length (w ++ (32 ∷ rest)) 32 ≡ length w
unfolding get_token_length
get_token_length-word [] rest no_space = refl
get_token_length-word (c ∷ w) rest (other, no_space) =
    rw (ne→== c 32 other, get_token_length-word w rest no_space) (omega arith)

take-length : (w rest : List ℕ) → take (length w) (w ++ rest) ≡ w
take-length [] rest = refl
take-length (c ∷ w) rest = ap (λ t. c ∷ t) (take-length w rest)

drop-length : (w rest : List ℕ) → drop (length w) (w ++ rest) ≡ rest
drop-length [] rest = refl
drop-length (c ∷ w) rest = drop-length w rest

append_assoc :
    (xs : List (List ℕ)) (y : List ℕ) (zs : List (List ℕ)) → (xs ++ (y ∷ [])) ++ zs ≡ xs ++ (y ∷ zs)
append_assoc [] y zs = refl
append_assoc (x ∷ xs) y zs = ap (λ t. x ∷ t) (append_assoc xs y zs)

append_nil : (xs : List (List ℕ)) → xs ++ [] ≡ xs
append_nil [] = refl
append_nil (x ∷ xs) = ap (λ t. x ∷ t) (append_nil xs)

-- The heap after some calls of `kmalloc`.
abbrev pub granted : ℕ → Heap → Heap
granted zero h = h
granted (suc n) h = granted n (kmalloc h).1

-- A word at the start of what is left of the line, and a space there.
tokenize-word :
    (fuel c : ℕ) (w rest : List ℕ) (args : List (List ℕ)) (h : Heap)
    → NoSpace (c ∷ w)
    → length args < 64
    → ((kmalloc h).0 == 0) ≡ false
    → tokenize (suc fuel) ((c ∷ w) ++ (32 ∷ rest)) args h
      ≡ tokenize fuel (32 ∷ rest) (args ++ ((c ∷ w) ∷ [])) (kmalloc h).1
unfolding tokenize
tokenize-word fuel c w rest args h no_space room memory =
    rw
      (
        get_token_length-word (c ∷ w) rest no_space,
        lt→ltb 0 (suc (length w)) (omega arith),
        lt→ltb (length args) 64 room,
        memory,
        take-length w (32 ∷ rest),
        drop-length w (32 ∷ rest),
      )
      refl

tokenize-space :
    (fuel : ℕ) (rest : List ℕ) (args : List (List ℕ)) (h : Heap)
    → tokenize (suc fuel) (32 ∷ rest) args h ≡ tokenize fuel rest args h
unfolding tokenize get_token_length
tokenize-space fuel rest args h = refl

tokenize-nothing :
    (fuel : ℕ) (args : List (List ℕ)) (h : Heap) → tokenize fuel [] args h ≡ some (args, h)
unfolding tokenize
tokenize-nothing zero args h = refl
tokenize-nothing (suc fuel) args h = refl

tokenize-spaced :
    (ws : List (List ℕ)) (fuel : ℕ) (args : List (List ℕ)) (h : Heap)
    → AreWords ws
    → length args + length ws ≤ 64
    → length ws ≤ given h.grants
    → length (spaced ws) ≤ fuel
    → tokenize fuel (spaced ws) args h ≡ some (args ++ ws, granted (length ws) h)
tokenize-spaced [] fuel args h words room memory enough =
    tokenize-nothing fuel args h ∙ ap (λ t. some (t, h)) (sym (append_nil args))
tokenize-spaced ([] ∷ ws) fuel args h (some_char, no_space, words) room memory enough =
    absurd (omega arith)
tokenize-spaced ((c ∷ w) ∷ ws) zero args h words room memory enough = absurd (omega arith)
tokenize-spaced ((c ∷ w) ∷ ws) (suc zero) args h words room memory enough =
    absurd (omega (arith, length-append w (32 ∷ spaced ws)))
tokenize-spaced ((c ∷ w) ∷ ws) (suc (suc fuel)) args h (some_char, no_space, words) room memory
      enough =
    let args' = args ++ ((c ∷ w) ∷ []) in
    let g = kmalloc-given h (omega (arith, memory)) in
    tokenize-word (suc fuel) c w (spaced ws) args h no_space (omega (arith, room)) g.0
    ∙ tokenize-space fuel (spaced ws) args' (kmalloc h).1
    ∙ tokenize-spaced ws fuel args' (kmalloc h).1 words
        (omega (arith, room, length-append args ((c ∷ w) ∷ []))) (omega (arith, memory, g.1))
        (omega (arith, length-append w (32 ∷ spaced ws)))
    ∙ ap (λ t. some (t, granted (length ws) (kmalloc h).1)) (append_assoc args (c ∷ w) ws)

strcmp-differs : (s1 s2 : List ℕ) → s1 ≢ s2 → (strcmp s1 s2 == 0) ≡ false
unfolding strcmp
strcmp-differs s1 s2 other = ne→== (strncmp s1 s2 0) 0 (λ e. other ((strncmp_lem s1 s2 0).0 e))

strcmp-same : (s : List ℕ) → (strcmp s s == 0) ≡ true
unfolding strcmp
strcmp-same s = eq→== (strncmp s s 0) 0 ((strncmp_lem s s 0).1 refl)

-- Commands with other names, none of which ends the table.
abbrev pub HaveOtherNames : {State : Type 0} → List ℕ → List (MonotermCmd State) → Type 0
HaveOtherNames name [] = 0 ≤ 0
HaveOtherNames name (c ∷ rest) = (c.cmd ≢ []) × (c.cmd ≢ name) × HaveOtherNames name rest

run_command_lem :
    {State : Type 0} (before after : List (MonotermCmd State)) (c : MonotermCmd State)
    (args : List (List ℕ)) (s : Heap × State)
    → HaveOtherNames c.cmd before
    → c.cmd ≢ []
    → run_command (before ++ (c ∷ after)) (c.cmd ∷ args) s ≡ c.cmd_func (c.cmd ∷ args) s
unfolding run_command
run_command_lem [] after c args s others named =
    rw (strcmp-differs c.cmd [] named, strcmp-same c.cmd) refl
run_command_lem (b ∷ before) after c args s (b_named, b_other, others) named =
    rw (strcmp-differs b.cmd [] b_named, strcmp-differs b.cmd c.cmd b_other)
      (run_command_lem before after c args s others named)

-- A line of at most 64 words, each with a space behind it, for which there is memory, runs the first
-- command of the table that has the first word as its name, and gives it exactly the words of the line,
-- the name included; the result of the command is the result of the line. The memory of the words stays
-- allocated.
pub process_input_lem :
    {State : Type 0} (before after : List (MonotermCmd State)) (c : MonotermCmd State)
    (args : List (List ℕ)) (h : Heap) (s : State)
    → HaveOtherNames c.cmd before
    → AreWords (c.cmd ∷ args)
    → length (c.cmd ∷ args) ≤ 64
    → length (c.cmd ∷ args) ≤ given h.grants
    → process_input (before ++ (c ∷ after)) (spaced (c.cmd ∷ args)) h s
      ≡ some (c.cmd_func (c.cmd ∷ args) (granted (length (c.cmd ∷ args)) h, s))
unfolding process_input with_tokens
process_input_lem before after c args h s others words room memory =
    let line = spaced (c.cmd ∷ args) in
    let named : c.cmd ≢ [] = λ e. absurd (omega (arith, ap length e, words.0)) in
    ap (with_tokens (before ++ (c ∷ after)) s) (
      tokenize-spaced (c.cmd ∷ args) (length line) [] h words (omega (arith, room)) memory
        (omega arith))
    ∙ ap some
        (run_command_lem before after c args (granted (length (c.cmd ∷ args)) h, s) others named)
