-- ===== src/Gdt/Tests.antt =====
-- The theorem on descriptors at the kernel's code segment.
use maer_os.Common.{ℕ, ◌%◌, ◌≤◌, ◌<◌, ◌≡◌, ◌≢◌, ◌⊎◌, refl, Option, none, some, List, [], ◌∷◌, arith}
use maer_os.Gdt.{
  GdtStructured, GdtEntry, encode_fields, encode_gdt_entry, gdt_structured_to_gdt, kernel_segments,
}
use maer_os.Gdt.Decode.{decoded_base, decoded_limit, encode_gdt_entry_lem}

abbrev kernel_code : GdtStructured
kernel_code = record { base = 0; limit = 0xffffffff; type = 0x9a }

encode_runs :
    encode_gdt_entry kernel_code
    ≡ some (record { b0 = 0xff; b1 = 0xff; b2 = 0; b3 = 0; b4 = 0; b5 = 0x9a; b6 = 0xcf; b7 = 0 })
unfolding encode_gdt_entry encode_fields
encode_runs = refl

abbrev count : Option (List GdtEntry) → ℕ
count none = 0
count (some []) = 1
count (some (e ∷ [])) = 2
count (some (e ∷ f ∷ es)) = 3

table_runs : count (gdt_structured_to_gdt (kernel_segments 0x5000 104)) ≡ 3
unfolding gdt_structured_to_gdt kernel_segments encode_gdt_entry encode_fields
table_runs = refl

encode_gdt_entry_lem_example :
    let s = kernel_code in
    ((s.limit ≤ 65536) ⊎ (s.limit % 4096 ≡ 4095)
      → (e : GdtEntry) × (encode_gdt_entry s ≡ some e)
        × (decoded_base e ≡ s.base)
        × (decoded_limit e ≡ s.limit)
        × (e.b5 ≡ s.type))
    × (65536 < s.limit → s.limit % 4096 ≢ 4095 → encode_gdt_entry s ≡ none)
encode_gdt_entry_lem_example =
    encode_gdt_entry_lem kernel_code (record { base_word = omega arith; limit_word = omega arith })
