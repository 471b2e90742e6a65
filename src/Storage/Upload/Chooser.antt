-- ===== src/Storage/Upload/Chooser.antt =====
-- `chonCachDay` of src/storage/upload_manager.cpp: how many chunks a session may send at once, and
-- where it buffers them. `parseBufferMode` is of src/storage/chunk_buffer.cpp. What the code reads of the
-- disk and of the other sessions is given: `free_space` (0 where it is not known), `held` (RAM of the others).
use telegram_disk.Base.{
  ℕ, ◌+◌, ◌-◌, ◌*◌, ◌/◌, ◌%◌, ◌≤◌, ◌<◌, ◌≡◌, ◌≢◌, ◌⊎◌, inl, inr, Bool-cases, ◌&&◌, ◌||◌, ltb, ◌==◌,
  if◌then◌else◌, arith,
}
use telegram_disk.Base.Bits.{Bytes}
use telegram_disk.Text.Ascii.{codes, to_lower}
use telegram_disk.Text.Trim.{trim, equal_bytes}
use telegram_disk.Storage.ChunkBuffer.{BufferMode, memory, disk, stream}

abbrev pub u64 : ℕ
u64 = 18446744073709551616

unfoldable pub parse_buffer_mode : Bytes → BufferMode
parse_buffer_mode s =
    let t = to_lower (trim s) in
    if equal_bytes t (codes "memory") || equal_bytes t (codes "ram")
    then memory
    else if equal_bytes t (codes "disk") || equal_bytes t (codes "dia")
    then disk
    else stream

-- `soManhSongSong_` and `cheDoDem_`.
pub record Choice : Type 0 where
  pub so_manh_song_song : ℕ
  pub che_do_dem : BufferMode

-- How many chunks the budget still holds, at least one.
unfoldable pub vua_duoc : ℕ → ℕ → ℕ → ℕ
vua_duoc budget held chunk_size =
    let con_lai = if ltb held budget then budget - held else 0 in
    let n = if ltb 0 chunk_size then con_lai / chunk_size else 0 in if ltb n 1 then 1 else n

choose_in : BufferMode → ℕ → ℕ → ℕ → ℕ → ℕ → Choice
unfolding vua_duoc
choose_in stream muon chunk_size free_space budget held =
    let can = muon * chunk_size % u64 in
    if ltb 0 free_space && ltb free_space ((can + can / 4) % u64)
    then record { so_manh_song_song = 1; che_do_dem = stream }
    else record { so_manh_song_song = muon; che_do_dem = disk }
choose_in memory muon chunk_size free_space budget held =
    let n = vua_duoc budget held chunk_size in
    record { so_manh_song_song = if ltb n muon then n else muon; che_do_dem = memory }
choose_in disk muon chunk_size free_space budget held = record {
  so_manh_song_song = muon;
  che_do_dem = disk;
}

-- `parallel_chunks` is 0 where the setting is negative: both become 1.
unfoldable pub chon_cach_day : Bytes → ℕ → ℕ → ℕ → ℕ → ℕ → Choice
unfolding choose_in parse_buffer_mode
chon_cach_day buffer_mode parallel_chunks chunk_size free_space budget held =
    let muon = if ltb parallel_chunks 1 then 1 else parallel_chunks in
    if muon == 1
    then record { so_manh_song_song = 1; che_do_dem = parse_buffer_mode buffer_mode }
    else choose_in (parse_buffer_mode buffer_mode) muon chunk_size free_space budget held

-- What a choice promises.
pub record IsSafe (parallel_chunks chunk_size budget held : ℕ) (c : Choice) : Type 0 where
  pub some_chunk : 1 ≤ c.so_manh_song_song
  pub asked : (c.so_manh_song_song ≤ 1) ⊎ (c.so_manh_song_song ≤ parallel_chunks)
  pub no_stream : 1 < c.so_manh_song_song → c.che_do_dem ≢ stream
  pub in_budget :
      1 < c.so_manh_song_song
      → c.che_do_dem ≡ memory
      → c.so_manh_song_song * chunk_size + held ≤ budget

times_div_le : (n q : ℕ) → 0 < q → n / q * q ≤ n
times_div_le n q h = grind arith

times_le : (m n q : ℕ) → m ≤ n → m * q ≤ n * q
times_le m n q h = grind arith

-- More than one chunk fits only by the division.
vua_duoc_many :
    (budget held chunk_size m : ℕ)
    → 1 < m
    → m ≤ vua_duoc budget held chunk_size
    → (0 < chunk_size) × (m ≤ (if ltb held budget then budget - held else 0) / chunk_size)
unfolding vua_duoc
vua_duoc_many budget held chunk_size m p h =
    let con_lai = if ltb held budget then budget - held else 0 in
    elim (Bool-cases (ltb 0 chunk_size)) [
      | inl a ↦ elim (Bool-cases (ltb (con_lai / chunk_size) 1)) [
        | inl b ↦ absurd (omega (arith, p, simp (a, b) at h))
        | inr b ↦ (ground (arith, a), simp (a, b) at h)
      ]
      | inr a ↦ absurd (omega (arith, p, simp a at h))
    ]

vua_duoc_fits :
    (budget held chunk_size m : ℕ)
    → 1 < m
    → m ≤ vua_duoc budget held chunk_size
    → m * chunk_size + held ≤ budget
vua_duoc_fits budget held chunk_size m p h =
    let (sized, few) = vua_duoc_many budget held chunk_size m p h in
    elim (Bool-cases (ltb held budget)) [
      | inl a ↦
          let room : held < budget = ground (arith, a) in
          let fits = times_div_le (budget - held) chunk_size sized in
          omega (
            arith,
            times_le m ((budget - held) / chunk_size) chunk_size (simp a at few),
            fits,
            room,
          )
      | inr a ↦ absurd (
          omega (
            arith,
            times_le m (0 / chunk_size) chunk_size (simp a at few),
            times_div_le 0 chunk_size sized,
            times_le 1 m chunk_size (omega (arith, p)),
            sized,
          ))
    ]

choose_in-IsSafe :
    (mode : BufferMode) (muon chunk_size free_space budget held : ℕ)
    → 1 < muon
    → IsSafe muon chunk_size budget held (choose_in mode muon chunk_size free_space budget held)
unfolding choose_in
choose_in-IsSafe stream muon chunk_size free_space budget held h =
    elim (Bool-cases (
      ltb 0 free_space
      && ltb free_space ((muon * chunk_size % u64 + muon * chunk_size % u64 / 4) % u64))) [
        | inl c ↦ rw c (record {
          some_chunk = omega arith;
          asked = inl (omega arith);
          no_stream = λ l. absurd (omega (arith, l));
          in_budget = λ l _. absurd (omega (arith, l));
        })
        | inr c ↦ rw c (record {
          some_chunk = omega (arith, h);
          asked = inr (omega arith);
          no_stream = λ _ e. ground (arith, e);
          in_budget = λ _ e. absurd (ground (arith, e));
        })
      ]
choose_in-IsSafe memory muon chunk_size free_space budget held h =
    let n = vua_duoc budget held chunk_size in
    let least : 1 ≤ n = unfold vua_duoc in ground arith in
    record {
      some_chunk = ground (arith, least, h);
      asked = inr (ground arith);
      no_stream = λ _ e. ground (arith, e);
      in_budget = λ l _. vua_duoc_fits budget held chunk_size _ l (ground arith);
    }
choose_in-IsSafe disk muon chunk_size free_space budget held h = record {
  some_chunk = omega (arith, h);
  asked = inr (omega arith);
  no_stream = λ _ e. ground (arith, e);
  in_budget = λ _ e. absurd (ground (arith, e));
}

-- Whatever the settings, a session sends at least one chunk at a time and no more than the setting
-- asks for; several at once are never streamed; and in RAM their buffers fit, with what the other
-- sessions hold, into the budget.
pub chon_cach_day-IsSafe :
    (buffer_mode : Bytes) (parallel_chunks chunk_size free_space budget held : ℕ)
    → IsSafe parallel_chunks chunk_size budget held
        (chon_cach_day buffer_mode parallel_chunks chunk_size free_space budget held)
unfolding chon_cach_day
chon_cach_day-IsSafe buffer_mode parallel_chunks chunk_size free_space budget held =
    elim (Bool-cases (ltb parallel_chunks 1)) [
      | inl a ↦ rw a (record {
        some_chunk = omega arith;
        asked = inl (omega arith);
        no_stream = λ l. absurd (omega (arith, l));
        in_budget = λ l _. absurd (omega (arith, l));
      })
      | inr a ↦ elim (Bool-cases (parallel_chunks == 1)) [
        | inl b ↦
            rw (a, b)
              (record {
                some_chunk = omega arith;
                asked = inl (omega arith);
                no_stream = λ l. absurd (omega (arith, l));
                in_budget = λ l _. absurd (omega (arith, l));
              })
        | inr b ↦
            rw (a, b)
              (choose_in-IsSafe (parse_buffer_mode buffer_mode) parallel_chunks chunk_size
                free_space budget held (ground (arith, a, b)))
      ]
    ]
