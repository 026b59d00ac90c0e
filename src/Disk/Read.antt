-- ===== src/Disk/Read.antt =====
-- `diskstreamer_read` returns the bytes of the disk from the stream's position on.
use maer_os.Common.{
  ℕ, zero, suc, ◌+◌, ◌-◌, ◌*◌, ◌/◌, ◌%◌, ◌^◌, ◌≤◌, ◌<◌, ◌≡◌, refl, ap, ap₂, ◌∙◌, some, ◌∷◌, ◌++◌,
  arith, leb, true, false, all_ok, dec_lt,
}
use maer_os.Disk.{
  Device, DiskStream, bytes_from, disk_read_block, total_to_read, behind, diskstreamer_read,
}

pub bytes_from-append :
    (buf : ℕ → ℕ) (i a b : ℕ)
    → bytes_from buf i a ++ bytes_from buf (i + a) b ≡ bytes_from buf i (a + b)
bytes_from-append buf i zero b =
    let e : i + 0 ≡ i = omega arith in let f : 0 + b ≡ b = omega arith in rw (e, f)
bytes_from-append buf i (suc a) b =
    let e : i + suc a ≡ i + 1 + a = omega arith in
    let f : suc a + b ≡ suc (a + b) = omega arith in
    rw (e, f) (ap (λ l. buf i ∷ l) (bytes_from-append buf (i + 1) a b))

bytes_from-shift :
    (image : ℕ → ℕ) (base i n : ℕ)
    → bytes_from (λ k. image (base + k)) i n ≡ bytes_from image (base + i) n
bytes_from-shift image base i zero = refl
bytes_from-shift image base i (suc n) =
    let e : base + i + 1 ≡ base + (i + 1) = omega arith in
    rw e (ap (λ l. image (base + i) ∷ l) (bytes_from-shift image base (i + 1) n))

-- The device gives the sectors of an image, up to the one with the number `last`.
abbrev pub Holds : Device → (ℕ → ℕ) → ℕ → Type 0
Holds device image last = (s : ℕ) → s ≤ last → device s ≡ some (λ i. image (s * 512 + i))

to_read_within : (offset total : ℕ) → offset + total < 512 → total_to_read offset total ≡ total
unfolding total_to_read
to_read_within offset total h = ground arith

to_read_across :
    (offset total : ℕ) → 512 ≤ offset + total → total_to_read offset total ≡ 512 - offset
unfolding total_to_read
to_read_across offset total h = ground arith

module _ (device : Device) where
  pub read_within :
      (fuel total : ℕ) (stream : DiskStream) (buf : ℕ → ℕ)
      → device (stream.pos / 512) ≡ some buf
      → stream.pos % 512 + total < 512
      → stream.pos + total < 2 ^ 31
      → diskstreamer_read device (suc fuel) stream total
        ≡ some
            (all_ok, bytes_from buf (stream.pos % 512) total, record { pos = stream.pos + total })
  unfolding diskstreamer_read disk_read_block
  read_within fuel total stream buf d h b =
      let fits : leb (2 ^ 31) (stream.pos + total) ≡ false = ground arith in
      let inside : leb 512 (stream.pos % 512 + total) ≡ false = ground arith in
      rw (fits, diskstreamer_read) (rw d (rw (inside, to_read_within _ total h)))

  pub read_across :
      (fuel total : ℕ) (stream : DiskStream) (buf : ℕ → ℕ)
      → device (stream.pos / 512) ≡ some buf
      → 512 ≤ stream.pos % 512 + total
      → stream.pos + total < 2 ^ 31
      → diskstreamer_read device (suc fuel) stream total
        ≡ behind (bytes_from buf (stream.pos % 512) (512 - stream.pos % 512)) (
            diskstreamer_read device fuel
              (record { pos = stream.pos + (512 - stream.pos % 512) })
              (total - (512 - stream.pos % 512)))
  unfolding diskstreamer_read disk_read_block
  read_across fuel total stream buf d h b =
      let fits : leb (2 ^ 31) (stream.pos + total) ≡ false = ground arith in
      let over : leb 512 (stream.pos % 512 + total) ≡ true = ground arith in
      rw (fits, diskstreamer_read) (rw d (rw (over, to_read_across _ total h)))

module _ (device : Device) (image : ℕ → ℕ) where
  sector_bytes :
      (pos n : ℕ)
      → bytes_from (λ i. image (pos / 512 * 512 + i)) (pos % 512) n ≡ bytes_from image pos n
  sector_bytes pos n =
      let e : pos / 512 * 512 + pos % 512 ≡ pos = omega arith in
      bytes_from-shift image (pos / 512 * 512) (pos % 512) n ∙ ap (λ p. bytes_from image p n) e

  -- On a device that holds an image, a read of `total` bytes that ends below 2 ^ 31 succeeds, returns
  -- exactly the bytes of the image from the stream's position on, across any number of sectors, and
  -- moves the stream behind them; the recursion ends within one round for each sector.
  pub diskstreamer_read_lem :
      (fuel total : ℕ) (stream : DiskStream)
      → Holds device image ((stream.pos + total) / 512)
      → stream.pos % 512 + total < fuel * 512
      → stream.pos + total < 2 ^ 31
      → diskstreamer_read device fuel stream total
        ≡ some (all_ok, bytes_from image stream.pos total, record { pos = stream.pos + total })
  diskstreamer_read_lem zero total stream d h b = absurd (omega arith)
  diskstreamer_read_lem (suc fuel) total stream d h b =
      elim (dec_lt (stream.pos % 512 + total) 512) [
        | yes p ↦
            read_within device fuel total stream _ (d (stream.pos / 512) (omega arith)) p b
            ∙ ap (λ l. some (all_ok, l, record { pos = stream.pos + total }))
                (sector_bytes stream.pos total)
        | no p ↦
            let n = 512 - stream.pos % 512 in
            let stream' : DiskStream = record { pos = stream.pos + n } in
            let end : stream.pos + n + (total - n) ≡ stream.pos + total = omega arith in
            let all : n + (total - n) ≡ total = omega arith in
            read_across device fuel total stream _ (d (stream.pos / 512) (omega arith))
              (omega arith) b
            ∙ ap (behind _) (
                diskstreamer_read_lem fuel (total - n) stream' (λ s q. d s (omega arith))
                  (omega arith) (omega arith))
            ∙ ap₂ (λ l k. some (all_ok, l, record { pos = k }))
                (ap (λ l. l ++ bytes_from image (stream.pos + n) (total - n))
                    (sector_bytes stream.pos n)
                  ∙ bytes_from-append image stream.pos n (total - n)
                  ∙ ap (bytes_from image stream.pos) all)
                end
      ]
