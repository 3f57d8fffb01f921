-- ===== src/Fs/Fat32/Chain/Content.antt =====
-- The bytes that a chain of clusters of source/fs/fat32.c holds are those that are read.
use raspberry_pi_os.Base.{
  ℕ, zero, suc, ◌+◌, ◌-◌, ◌%◌, ◌^◌, ◌≤◌, ◌<◌, ◌≡◌, refl, sym, ap, ◌∙◌, arith, true, false, none,
  some, List, [], ◌∷◌, ◌++◌, length, take, get_or, ltb, if◌then◌else◌, Bool-cases, inl, inr, ◌⊎◌,
  length-append, ltb→lt, ltb→le, lt→ltb, le→ltb,
}
use mathlib.Core.List.{append-nil}
use raspberry_pi_os.Fs.Block.{BlockDev}
use raspberry_pi_os.Fs.Bytes.{write_at, write_from}
use raspberry_pi_os.Fs.Fat32.{Fat32Disk, fat32_load_cluster, is_end_of_chain}
use raspberry_pi_os.Fs.Fat32.Chain.{
  FileInode, ChainLoad, chain_read, chain_no_fuel, after_cluster, chain_loop,
  fat32_load_cluster_chain, FileFetch, fetched, fetch_no_fuel, after_chain, fetch_into, fetch_file,
  with_state, memory_for,
}
use raspberry_pi_os.Fs.Overlay.{
  write_at-append, take-append_short, take-append_long, take-all, length-write_at, write_from-full,
  length-take,
}
use mathlib.Core.Path.{subst}

-- The clusters of a file, as the table links them.
pub data IsChain (fat : List ℕ) : ℕ → List ℕ → Type 0 where
  last : (c : ℕ) → is_end_of_chain (get_or fat c 0) ≡ true → IsChain fat c (c ∷ [])
  link :
      (c : ℕ) (cs : List ℕ)
      → is_end_of_chain (get_or fat c 0) ≡ false
      → IsChain fat (get_or fat c 0) cs
      → IsChain fat c (c ∷ cs)

-- What a cluster holds, and the device on which reading it up to `n` bytes succeeds and gives the first
-- n of them: the contract of the driver that the file system relies on.
pub record HoldsClusters {State : Type 0} (dev : BlockDev State) (part : Fat32Disk)
    (cluster_bytes : ℕ → List ℕ) : Type 0 where
  pub whole : (c : ℕ) → length (cluster_bytes c) ≡ part.bytes_per_cluster
  pub loads :
      (n c : ℕ) (s : State)
      → 0 < n
      → (s' : State) × (fat32_load_cluster dev part n c s ≡ (some (take n (cluster_bytes c)), s'))

abbrev pub contents : (ℕ → List ℕ) → List ℕ → List ℕ
contents cluster_bytes [] = []
contents cluster_bytes (c ∷ cs) = cluster_bytes c ++ contents cluster_bytes cs

-- The chain was read into the buffer from place `i` on, up to `size`.
abbrev pub ReadInto :
    {State : Type 0} {dev : BlockDev State} {part : Fat32Disk} (buffer : List ℕ) (size i : ℕ)
    (bytes : List ℕ)
    → ChainLoad dev part
    → Type 0
ReadInto buffer size i bytes (chain_read count buffer' s) =
    (buffer' ≡ write_at buffer i (take (size - i) bytes))
    × (ltb count size ≡ ltb (i + length bytes) size)
ReadInto buffer size i bytes chain_no_fuel = ⊥

module _ {State : Type 0} (dev : BlockDev State) (part : Fat32Disk) (cluster_bytes : ℕ → List ℕ)
    (holds : HoldsClusters dev part cluster_bytes) (some_bytes : 0 < part.bytes_per_cluster)
    (size : ℕ) (small : size + part.bytes_per_cluster < 2 ^ 32) where
  abbrev next : ℕ → ℕ
  next c = get_or part.fat c 0

  -- A round that finds data to read.
  chain_step :
      (fuel : ℕ) (buffer : List ℕ) (i c : ℕ) (s : State)
      → i < size
      → (s' : State) × (chain_loop dev part (suc fuel) buffer size i c s ≡ (
          let filled = write_at buffer i (take (size - i) (cluster_bytes c)) in
          if is_end_of_chain (next c)
          then chain_read (i + part.bytes_per_cluster) filled s'
          else chain_loop dev part fuel filled size (i + part.bytes_per_cluster) (next c) s'))
  unfolding chain_loop after_cluster
  chain_step fuel buffer i c s below =
      let (s', loaded) = holds.loads (size - i) c s (omega arith) in
      let wrap : (i + part.bytes_per_cluster) % 2 ^ 32 ≡ i + part.bytes_per_cluster = omega arith in
      (s', rw (lt→ltb i size below, loaded, wrap) refl)

  chain_stop :
      (fuel : ℕ) (buffer : List ℕ) (i c : ℕ) (s : State)
      → size ≤ i
      → chain_loop dev part (suc fuel) buffer size i c s ≡ chain_read i buffer s
  unfolding chain_loop
  chain_stop fuel buffer i c s above = rw (le→ltb i size above) refl

  -- A cluster that does not fill the buffer, with what is read behind it.
  continue :
      (buffer : List ℕ) (i c : ℕ) (rest : List ℕ) (r : ChainLoad dev part)
      → i + length (cluster_bytes c) < size
      → length buffer ≡ size
      → ReadInto
          (write_at buffer i (take (size - i) (cluster_bytes c)))
          size
          (i + part.bytes_per_cluster)
          rest
          r
      → ReadInto buffer size i (cluster_bytes c ++ rest) r
  continue buffer i c rest (chain_read count buffer' s) lt fits (read, short) =
      let bytes = cluster_bytes c in
      let whole = holds.whole c in
      let left : size - (i + length bytes) ≡ size - i - length bytes = omega arith in
      (
        rw (take-append_long (size - i) bytes rest (omega arith)) (
            read
            ∙ rw (take-all (size - i) bytes (omega arith), sym whole, left)
                (write_at-append buffer i bytes (take (size - i - length bytes) rest)
                  (omega arith))),
        short ∙ ap (λ n. ltb n size) (omega (arith, length-append bytes rest, whole)),
      )
  continue buffer i c rest chain_no_fuel lt fits read = read

  chain_lem :
      (fuel : ℕ) (cs : List ℕ) (buffer : List ℕ) (i c : ℕ) (s : State)
      → IsChain part.fat c cs
      → i < size
      → length buffer ≡ size
      → length cs ≤ fuel
      → ReadInto buffer size i
          (contents cluster_bytes cs)
          (chain_loop dev part (suc fuel) buffer size i c s)
  chain_lem fuel _ buffer i _ s (last c end) below fits enough =
      let (s', step) = chain_step fuel buffer i c s below in
      rw (step, end, append-nil (cluster_bytes c), holds.whole c) (refl, refl)
  chain_lem zero _ buffer i _ s (link c cs more chain) below fits enough = absurd (omega arith)
  chain_lem (suc fuel) _ buffer i _ s (link c cs more chain) below fits enough =
      let bytes = cluster_bytes c in
      let rest = contents cluster_bytes cs in
      let (s', step) = chain_step (suc fuel) buffer i c s below in
      let filled = write_at buffer i (take (size - i) bytes) in
      let count = i + part.bytes_per_cluster in
      let whole = holds.whole c in
      elim (Bool-cases (ltb count size)) [
        | inr full ↦
            let above = ltb→le count size full in
            rw
              (
                step,
                more,
                chain_stop fuel filled count (next c) s' above,
                take-append_short (size - i) bytes rest (omega arith),
                length-append bytes rest,
                whole,
                full,
              )
              (refl, sym (le→ltb _ size (omega arith)))
        | inl partial ↦
            let lt = ltb→lt count size partial in
            let later =
              chain_lem fuel cs filled count (next c) s' chain lt
                (length-write_at buffer i (take (size - i) bytes) ∙ fits) (omega arith) in
            rw (step, more)
              (continue buffer i c rest
                (chain_loop dev part (suc fuel) filled size count (next c) s')
                (omega (arith, whole)) fits later)
      ]

-- The outcome for a file whose clusters hold `bytes`.
abbrev pub IsFetched :
    {State : Type 0} {dev : BlockDev State} {part : Fat32Disk} (n : FileInode) (bytes : List ℕ)
    → FileFetch dev part
    → Type 0
IsFetched n bytes (fetched code n' s) =
    ((n.data_size ≤ length bytes)
      × (code ≡ 0)
      × (n' ≡ record n { file_data = some (take n.data_size bytes); state = with_state n.state 2 }))
    ⊎ ((length bytes < n.data_size)
        × (code ≡ 1)
        × (n' ≡ record n { file_data = none; state = with_state n.state 1 }))
IsFetched n bytes fetch_no_fuel = ⊥

after_chain-IsFetched :
    {State : Type 0} {dev : BlockDev State} {part : Fat32Disk} (n : FileInode) (bytes : List ℕ)
    (buffer : List ℕ) (r : ChainLoad dev part)
    → length buffer ≡ n.data_size
    → ReadInto buffer n.data_size 0 bytes r
    → IsFetched n bytes (after_chain dev part n r)
unfolding after_chain
after_chain-IsFetched n bytes buffer chain_no_fuel fits read = read
after_chain-IsFetched n bytes buffer (chain_read count buffer' s) fits (read, short) =
    let plain : 0 + length bytes ≡ length bytes = omega arith in
    elim (Bool-cases (ltb (length bytes) n.data_size)) [
      | inl less ↦
          rw (short ∙ ap (λ k. ltb k n.data_size) plain ∙ less)
            (inr (ltb→lt (length bytes) n.data_size less, refl, refl))
      | inr enough ↦
          let le = ltb→le (length bytes) n.data_size enough in
          let filled : buffer' ≡ take n.data_size bytes =
            read
            ∙ ap (λ k. write_from buffer (take k bytes)) (omega arith)
            ∙ write_from-full buffer (take n.data_size bytes)
                (length-take n.data_size bytes le ∙ sym fits) in
          rw (short ∙ ap (λ k. ltb k n.data_size) plain ∙ enough) (
            inl (
              le,
              refl,
              ap (λ d. record n { file_data = some d; state = with_state n.state 2 }) filled,
            ))
    ]

-- On a device that reads clusters, a file gets the first `data_size` bytes of the clusters that the
-- table chains, and is valid; if the chain holds fewer, the call fails, the file has no data and is new
-- as before. One round of the loop for each cluster, and one more, is enough.
pub fetch_file_lem :
    {State : Type 0} (dev : BlockDev State) (part : Fat32Disk) (cluster_bytes : ℕ → List ℕ)
    → HoldsClusters dev part cluster_bytes
    → 0 < part.bytes_per_cluster
    → (n : FileInode) (cs : List ℕ) (buffer : List ℕ) (s : State) → n.file_data ≡ none
    → 0 < n.data_size
    → n.data_size + part.bytes_per_cluster < 2 ^ 32
    → length buffer ≡ n.data_size
    → IsChain part.fat n.cluster cs
    → IsFetched n
        (contents cluster_bytes cs)
        (fetch_file dev part (suc (length cs)) (some buffer) n s)
unfolding fetch_file fetch_into fat32_load_cluster_chain
fetch_file_lem dev part cluster_bytes holds positive n cs buffer s new nonempty small fits chain =
    subst (IsFetched n (contents cluster_bytes cs))
      (sym (
        ap (λ o. fetch_into dev part (suc (length cs)) n (memory_for dev part o (some buffer)) s)
          new))
      (after_chain-IsFetched n (contents cluster_bytes cs) buffer
        (chain_loop dev part (suc (length cs)) buffer n.data_size 0 n.cluster s) fits
        (chain_lem dev part cluster_bytes holds positive n.data_size small (length cs) cs buffer 0
          n.cluster s chain nonempty fits (omega arith)))
