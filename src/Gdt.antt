-- ===== src/Gdt.antt =====
-- src/gdt/gdt.c: segment descriptors as the processor reads them.
pub mod Decode
mod Tests
use maer_os.Common.{
  ℕ, ◌/◌, ◌^◌, Bool, Option, none, some, List, [], ◌∷◌, ltb, ◌==◌, not, ◌&&◌, if◌then◌else◌,
  bit_and, bit_or, u32,
}

-- `struct gdt_structured`
pub record GdtStructured : Type 0 where
  pub base : ℕ
  pub limit : ℕ
  pub type : ℕ

-- The eight bytes of a `struct gdt`, `target[0]` to `target[7]`.
pub record GdtEntry : Type 0 where
  pub b0 : ℕ
  pub b1 : ℕ
  pub b2 : ℕ
  pub b3 : ℕ
  pub b4 : ℕ
  pub b5 : ℕ
  pub b6 : ℕ
  pub b7 : ℕ

-- The stores of `encodeGdtEntry` behind the choice of the flags and the scaled limit.
pub encode_fields : ℕ → ℕ → GdtStructured → GdtEntry
encode_fields flags limit source = record {
  b0 = bit_and limit 0xFF;
  b1 = bit_and (limit / 2 ^ 8) 0xFF;
  b2 = bit_and source.base 0xFF;
  b3 = bit_and (source.base / 2 ^ 8) 0xFF;
  b4 = bit_and (source.base / 2 ^ 16) 0xFF;
  b5 = source.type;
  b6 = bit_or flags (bit_and (limit / 2 ^ 16) 0x0F);
  b7 = bit_and (source.base / 2 ^ 24) 0xFF;
}

-- `encodeGdtEntry`. `none` is the panic, which does not return.
pub encode_gdt_entry : GdtStructured → Option GdtEntry
encode_gdt_entry source =
    if ltb 65536 source.limit && not (bit_and source.limit 0xFFF == 0xFFF)
    then none
    else some (
        if ltb 65536 source.limit
        then encode_fields 0xC0 (source.limit / 2 ^ 12) source
        else encode_fields 0x40 source.limit source)

-- The encoded entry in front of the rest of the table.
abbrev pub before : Option GdtEntry → Option (List GdtEntry) → Option (List GdtEntry)
before none rest = none
before (some e) none = none
before (some e) (some es) = some (e ∷ es)

pub gdt_structured_to_gdt : List GdtStructured → Option (List GdtEntry)
gdt_structured_to_gdt [] = some []
gdt_structured_to_gdt (s ∷ ss) = before (encode_gdt_entry s) (gdt_structured_to_gdt ss)

-- `gdt_structured` of src/kernel.c, with the address and the size of the task state segment.
pub kernel_segments : ℕ → ℕ → List GdtStructured
kernel_segments tss sizeof_tss =
    record { base = 0x00; limit = 0x00; type = 0x00 }
    ∷ record { base = 0x00; limit = 0xffffffff; type = 0x9a }
    ∷ record { base = 0x00; limit = 0xffffffff; type = 0x92 }
    ∷ record { base = 0x00; limit = 0xffffffff; type = 0xf8 }
    ∷ record { base = 0x00; limit = 0xffffffff; type = 0xf2 }
    ∷ record { base = tss; limit = sizeof_tss; type = 0xE9 }
    ∷ []
