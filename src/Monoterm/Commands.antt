-- ===== src/Monoterm/Commands.antt =====
-- `get_token_length` and `process_input` of source/monoterm/monoterm.c: a line is split at spaces, and the
-- command that its first part names gets the parts. A line is the text before its zero. The
-- parts are copied to memory that is never freed, and their addresses to an array of 64; `none` stands
-- for a write past the end of the array, or to the address 0 when there is no memory.
pub mod Words
mod Tests
use raspberry_pi_os.Base.{
  not, Option, some, none, ℕ, zero, suc, ◌+◌, ◌-◌, ◌^◌, Bool, ◌||◌, List, [], ◌∷◌, ◌++◌, length,
  take, drop, ltb, ◌==◌, if◌then◌else◌,
}
use raspberry_pi_os.Alloc.Heap.{Heap, kmalloc}
use raspberry_pi_os.Text.Strings.{strcmp}

unfoldable pub get_token_length : (s : List ℕ) (delimiter : ℕ) → ℕ
get_token_length [] delimiter = 0
get_token_length (c ∷ s) delimiter =
    let rest = get_token_length s delimiter in if c == delimiter then 0 else 1 + rest

abbrev pub max_tokens : ℕ
max_tokens = 64

-- The loop over the line; a round for each character is enough.
unfoldable pub tokenize :
    (fuel : ℕ) → (s : List ℕ) → (args : List (List ℕ)) → Heap → Option (List (List ℕ) × Heap)
tokenize zero s args h = some (args, h)
tokenize (suc fuel) [] args h = some (args, h)
tokenize (suc fuel) (c ∷ s) args h =
    let token_len = get_token_length (c ∷ s) 32 in
    let (token, h') = kmalloc h in
    let behind_token =
      tokenize fuel (drop token_len (c ∷ s)) (args ++ (take token_len (c ∷ s) ∷ [])) h' in
    let behind_space = tokenize fuel s args h in
    if not (ltb 0 token_len)
    then behind_space
    else if not (ltb (length args) max_tokens)
    then none
    else if token == 0
    then none
    else behind_token

-- A command has its name and a function, which changes the heap and the rest of the state.
pub record MonotermCmd {ℓ} (State : Type ℓ) : Type ℓ where
  pub cmd : List ℕ
  pub cmd_func : List (List ℕ) → Heap × State → ℕ × Heap × State

-- The search through the table of commands, up to the last one, whose name is empty.
unfoldable pub run_command {ℓ} :
    {State : Type ℓ}
    → List (MonotermCmd State)
    → (args : List (List ℕ)) → Heap × State
    → ℕ × Heap × State
run_command [] args s = (2 ^ 32 - 1, s.0, s.1)
run_command (c ∷ rest) [] s = if strcmp c.cmd [] == 0 then (2 ^ 32 - 1, s.0, s.1) else (0, s.0, s.1)
run_command (c ∷ rest) (name ∷ args) s =
    let later = run_command rest (name ∷ args) s in
    if strcmp c.cmd [] == 0
    then (2 ^ 32 - 1, s.0, s.1)
    else if strcmp c.cmd name == 0
    then c.cmd_func (name ∷ args) s
    else later

unfoldable pub with_tokens {ℓ} :
    {State : Type ℓ}
    → List (MonotermCmd State)
    → State
    → Option (List (List ℕ) × Heap)
    → Option (ℕ × Heap × State)
with_tokens monoterm_cmds s none = none
with_tokens monoterm_cmds s (some (args, h)) = some (run_command monoterm_cmds args (h, s))

unfoldable pub process_input {ℓ} :
    {State : Type ℓ}
    → List (MonotermCmd State)
    → (line : List ℕ) → Heap
    → State
    → Option (ℕ × Heap × State)
process_input monoterm_cmds line h s =
    with_tokens monoterm_cmds s (tokenize (length line) line [] h)
