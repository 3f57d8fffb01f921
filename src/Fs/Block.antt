-- ===== src/Fs/Block.antt =====
-- source/dev/block.c: the calls of a block device go to the driver if it has them. `State` is the state
-- of the driver with the medium; a call returns a code, the bytes that it reads, and the new state.
use raspberry_pi_os.Base.{ℕ, ◌-◌, ◌^◌, Option, none, some, List, []}

pub record BlockDev (State : Type 0) : Type 0 where
  pub block_size : ℕ
  pub driver_read_blk : Option (State → ℕ × List ℕ × State)
  pub driver_read_nblk : Option (State → ℕ → ℕ × List ℕ × State)
  pub driver_read_blks : Option (State → ℕ → ℕ × List ℕ × State)
  pub driver_write_blk : Option (State → List ℕ → ℕ × State)
  pub driver_write_blks : Option (State → ℕ → List ℕ → ℕ × State)
  pub driver_seek_blk : Option (State → ℕ → ℕ × State)

-- The int −1.
abbrev pub error_code : ℕ
error_code = 2 ^ 32 - 1

module _ {State : Type 0} where
  -- What a call of a function that the driver may lack returns.
  abbrev pub call_read : Option (State → ℕ × List ℕ × State) → State → ℕ × List ℕ × State
  call_read none s = (error_code, [], s)
  call_read (some f) s = f s

  abbrev pub call_read_n : Option (State → ℕ → ℕ × List ℕ × State) → State → ℕ → ℕ × List ℕ × State
  call_read_n none s n = (error_code, [], s)
  call_read_n (some f) s n = f s n

  unfoldable pub read_blk : BlockDev State → State → ℕ × List ℕ × State
  read_blk dev s = call_read dev.driver_read_blk s

  unfoldable pub read_nblk : BlockDev State → State → (n : ℕ) → ℕ × List ℕ × State
  read_nblk dev s n = call_read_n dev.driver_read_nblk s n

  unfoldable pub read_blks : BlockDev State → State → (n : ℕ) → ℕ × List ℕ × State
  read_blks dev s n = call_read_n dev.driver_read_blks s n

  abbrev call_write : Option (State → List ℕ → ℕ × State) → State → List ℕ → ℕ × State
  call_write none s buf = (error_code, s)
  call_write (some f) s buf = f s buf

  abbrev call_write_n : Option (State → ℕ → List ℕ → ℕ × State) → State → ℕ → List ℕ → ℕ × State
  call_write_n none s n buf = (error_code, s)
  call_write_n (some f) s n buf = f s n buf

  abbrev call_seek : Option (State → ℕ → ℕ × State) → State → ℕ → ℕ × State
  call_seek none s n = (error_code, s)
  call_seek (some f) s n = f s n

  unfoldable pub write_blk : BlockDev State → State → List ℕ → ℕ × State
  write_blk dev s buf = call_write dev.driver_write_blk s buf

  unfoldable pub write_blks : BlockDev State → State → (n : ℕ) → List ℕ → ℕ × State
  write_blks dev s n buf = call_write_n dev.driver_write_blks s n buf

  unfoldable pub seek_blk : BlockDev State → State → (iblk : ℕ) → ℕ × State
  seek_blk dev s iblk = call_seek dev.driver_seek_blk s iblk
