-- ===== src/Gdt/Decode.antt =====
-- A descriptor decoded the way the processor does, and that an encoded one decodes to its source.
use maer_os.Common.{
  ℕ, ◌+◌, ◌*◌, ◌/◌, ◌%◌, ◌^◌, ◌≤◌, ◌<◌, ◌≡◌, ◌≢◌, refl, sym, ap, ◌∙◌, true, false, none, some, leb,
  ◌==◌, if◌then◌else◌, bit_and, bit_and_mask, bit_or_fields, arith, dec_lt, ◌⊎◌, inl, inr, lt→ltb,
  le→ltb, ==_false,
}
use maer_os.Gdt.{GdtStructured, GdtEntry, encode_fields, encode_gdt_entry}

-- The base of the segment: bytes 2, 3, 4 and 7.
abbrev pub decoded_base : GdtEntry → ℕ
decoded_base e = e.b2 + e.b3 * 2 ^ 8 + e.b4 * 2 ^ 16 + e.b7 * 2 ^ 24

-- The twenty bits of the limit: bytes 0 and 1 and the low half of byte 6.
abbrev pub raw_limit : GdtEntry → ℕ
raw_limit e = e.b0 + e.b1 * 2 ^ 8 + e.b6 % 2 ^ 4 * 2 ^ 16

-- The last offset in the segment: if bit 7 of byte 6 is set, the limit counts pages of 4096 bytes.
abbrev pub decoded_limit : GdtEntry → ℕ
decoded_limit e = if leb 128 e.b6 then raw_limit e * 4096 + 4095 else raw_limit e

pub record IsSource (s : GdtStructured) : Type 0 where
  pub base_word : s.base < 2 ^ 32
  pub limit_word : s.limit < 2 ^ 32

-- The bytes as arithmetic: `q` is 4 for a limit in bytes, 12 for one in pages.
fields_base :
    (q limit : ℕ) (s : GdtStructured)
    → s.base < 2 ^ 32
    → decoded_base (encode_fields (q * 16) limit s) ≡ s.base
unfolding encode_fields
fields_base q limit s h =
    rw
      (
        bit_and_mask 8 s.base,
        bit_and_mask 8 (s.base / 2 ^ 8),
        bit_and_mask 8 (s.base / 2 ^ 16),
        bit_and_mask 8 (s.base / 2 ^ 24),
      )
      (omega arith)

fields_flags :
    (q limit : ℕ) (s : GdtStructured)
    → (encode_fields (q * 16) limit s).b6 ≡ q * 16 + limit / 2 ^ 16 % 16
unfolding encode_fields
fields_flags q limit s =
    rw (bit_and_mask 4 (limit / 2 ^ 16)) (bit_or_fields 4 q (limit / 2 ^ 16 % 16) (omega arith))

fields_limit :
    (q limit : ℕ) (s : GdtStructured)
    → limit < 2 ^ 20
    → raw_limit (encode_fields (q * 16) limit s) ≡ limit
unfolding encode_fields
fields_limit q limit s h =
    rw
      (
        bit_and_mask 8 limit,
        bit_and_mask 8 (limit / 2 ^ 8),
        bit_and_mask 4 (limit / 2 ^ 16),
        bit_or_fields 4 q (limit / 2 ^ 16 % 16) (omega arith),
      )
      (omega arith)

encode_bytes :
    (s : GdtStructured) → s.limit ≤ 65536 → encode_gdt_entry s ≡ some (encode_fields 0x40 s.limit s)
unfolding encode_gdt_entry
encode_bytes s h = let b = le→ltb 65536 s.limit h in rw b refl

encode_pages :
    (s : GdtStructured)
    → 65536 < s.limit
    → s.limit % 4096 ≡ 4095
    → encode_gdt_entry s ≡ some (encode_fields 0xC0 (s.limit / 2 ^ 12) s)
unfolding encode_gdt_entry
encode_pages s h e =
    let b = lt→ltb 65536 s.limit h in
    let m : bit_and s.limit 0xFFF ≡ 0xFFF = bit_and_mask 12 s.limit ∙ e in rw (b, m) refl

decoded_bytes :
    (limit : ℕ) (s : GdtStructured)
    → limit ≤ 65536
    → decoded_limit (encode_fields 0x40 limit s) ≡ limit
decoded_bytes limit s h =
    let f = fields_flags 4 limit s in
    let b : leb 128 (encode_fields 0x40 limit s).b6 ≡ false = ground arith in
    rw b (fields_limit 4 limit s (omega arith))

decoded_pages :
    (limit : ℕ) (s : GdtStructured)
    → limit < 2 ^ 20
    → decoded_limit (encode_fields 0xC0 limit s) ≡ limit * 4096 + 4095
decoded_pages limit s h =
    let f = fields_flags 12 limit s in
    let b : leb 128 (encode_fields 0xC0 limit s).b6 ≡ true = ground arith in
    rw b (ap (λ n. n * 4096 + 4095) (fields_limit 12 limit s h))

whole_pages : (n : ℕ) → n % 4096 ≡ 4095 → n / 2 ^ 12 * 4096 + 4095 ≡ n
whole_pages n e = omega arith

encode_panics :
    (s : GdtStructured) → 65536 < s.limit → s.limit % 4096 ≢ 4095 → encode_gdt_entry s ≡ none
unfolding encode_gdt_entry
encode_panics s h n =
    let b = lt→ltb 65536 s.limit h in
    let m : (bit_and s.limit 0xFFF == 0xFFF) ≡ false =
      ==_false _ _ (λ e. n (sym (bit_and_mask 12 s.limit) ∙ e)) in
    rw (b, m) refl

encode_type : (flags limit : ℕ) (s : GdtStructured) → (encode_fields flags limit s).b5 ≡ s.type
unfolding encode_fields
encode_type flags limit s = refl

-- A source whose limit is at most 65536, or is the last byte of a page, is encoded, and the entry
-- decodes to its base, limit and type; a longer segment that does not end with a page panics.
pub encode_gdt_entry_lem :
    (s : GdtStructured)
    → IsSource s
    → ((s.limit ≤ 65536) ⊎ (s.limit % 4096 ≡ 4095)
        → (e : GdtEntry) × (encode_gdt_entry s ≡ some e)
          × (decoded_base e ≡ s.base)
          × (decoded_limit e ≡ s.limit)
          × (e.b5 ≡ s.type))
      × (65536 < s.limit → s.limit % 4096 ≢ 4095 → encode_gdt_entry s ≡ none)
encode_gdt_entry_lem s v =
    let w = v.limit_word in
    let h = v.base_word in
    (
      λ fits. elim (dec_lt 65536 s.limit) [
        | no small ↦ (
          encode_fields 0x40 s.limit s,
          encode_bytes s (omega arith),
          fields_base 4 s.limit s h,
          decoded_bytes s.limit s (omega arith),
          encode_type 0x40 s.limit s,
        )
        | yes big ↦
            let e : s.limit % 4096 ≡ 4095 = elim fits [
              | inl p ↦ absurd (omega arith)
              | inr p ↦ p
            ] in
            (
              encode_fields 0xC0 (s.limit / 2 ^ 12) s,
              encode_pages s big e,
              fields_base 12 (s.limit / 2 ^ 12) s h,
              decoded_pages (s.limit / 2 ^ 12) s (omega arith) ∙ whole_pages s.limit e,
              encode_type 0xC0 (s.limit / 2 ^ 12) s,
            )
      ],
      λ big n. encode_panics s big n,
    )
