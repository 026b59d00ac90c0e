-- ===== src/File/Table.antt =====
-- New descriptors are found again under their number, and freed ones give their slot back.
use maer_os.Common.{
  ℕ, zero, suc, ◌+◌, ◌-◌, ◌≤◌, ◌<◌, ◌≡◌, ◌≢◌, refl, sym, ap, subst, ◌∙◌, Option, none, some, [],
  ◌∷◌, get_elem?, set, length, arith, leb, pos, true, false, Option-cases, inl, inr,
}
use mathlib.Core.Option.{some-injective}
use maer_os.File.{
  FileDescriptor, Descriptors, free_slot, file_new_descriptor, file_get_descriptor,
  file_free_descriptor,
}

none-some : {A : Type 0} {a : A} → none ≡ some a → ⊥
none-some e = cc

-- The first free slot, and that every slot before it is taken.
free_slot_lem :
    (ds : Descriptors) (k i : ℕ)
    → free_slot ds k ≡ some i
    → (k ≤ i) × (get_elem? ds (i - k) ≡ some none)
unfolding free_slot
free_slot_lem [] k i e = absurd (none-some e)
free_slot_lem (none ∷ ds) k i e =
    let p : k ≡ i = some-injective _ _ e in
    let z : i - k ≡ 0 = omega arith in (omega arith, rw z refl)
free_slot_lem (some d ∷ ds) k i e =
    let r = free_slot_lem ds (k + 1) i e in
    let z : i - k ≡ suc (i - (k + 1)) = omega (arith, r.0) in (omega (arith, r.0), rw z r.1)

slot_inside :
    (ds : Descriptors) (i : ℕ) (s : Option FileDescriptor) → get_elem? ds i ≡ some s → i < length ds
slot_inside [] i s e = absurd (none-some e)
slot_inside (d ∷ ds) zero s e = omega arith
slot_inside (d ∷ ds) (suc i) s e = omega (arith, slot_inside ds i s e)

get_elem?-set :
    (ds : Descriptors) (i : ℕ) (v : Option FileDescriptor)
    → i < length ds
    → get_elem? (set ds i v) i ≡ some v
get_elem?-set [] i v h = absurd (omega arith)
get_elem?-set (d ∷ ds) zero v h = refl
get_elem?-set (d ∷ ds) (suc i) v h = get_elem?-set ds i v (omega arith)

get_elem?-set_ne :
    (ds : Descriptors) (i j : ℕ) (v : Option FileDescriptor)
    → i ≢ j
    → get_elem? (set ds i v) j ≡ get_elem? ds j
get_elem?-set_ne [] i j v h = refl
get_elem?-set_ne (d ∷ ds) zero zero v h = absurd (h refl)
get_elem?-set_ne (d ∷ ds) zero (suc j) v h = refl
get_elem?-set_ne (d ∷ ds) (suc i) zero v h = refl
get_elem?-set_ne (d ∷ ds) (suc i) (suc j) v h = get_elem?-set_ne ds i j v (λ e. h (ap suc e))

set_back :
    (ds : Descriptors) (i : ℕ) (v : Option FileDescriptor)
    → get_elem? ds i ≡ some none
    → set (set ds i v) i none ≡ ds
set_back [] i v e = refl
set_back (d ∷ ds) zero v e = ap (λ x. x ∷ ds) (sym (some-injective _ _ e))
set_back (d ∷ ds) (suc i) v e = ap (λ l. d ∷ l) (set_back ds i v e)

free_slot-none : (ds : Descriptors) (k i : ℕ) → free_slot ds k ≡ none → get_elem? ds i ≢ some none
unfolding free_slot
free_slot-none [] k i e h = none-some h
free_slot-none (none ∷ ds) k i e h = none-some (sym e)
free_slot-none (some d ∷ ds) k zero e h = none-some (sym (some-injective _ _ h))
free_slot-none (some d ∷ ds) k (suc i) e h = free_slot-none ds (k + 1) i e h

-- What a new descriptor is and does: its number is a slot's, from 1 on; it is found under that number
-- below 512, and nothing is found under 512; every other number finds what it did before; and
-- freeing it restores the table.
pub record IsNew (p : ℕ) (ds ds' : Descriptors) (desc : FileDescriptor) : Type 0 where
  pub holds : desc.private_data ≡ p
  pub from_one : 0 < desc.index
  pub in_table : desc.index ≤ length ds
  pub found : desc.index < 512 → file_get_descriptor (pos desc.index) ds' ≡ some desc
  pub lost : 512 ≤ desc.index → file_get_descriptor (pos desc.index) ds' ≡ none
  pub others :
      (fd : ℕ)
      → fd ≢ desc.index
      → file_get_descriptor (pos fd) ds' ≡ file_get_descriptor (pos fd) ds
  pub freed : file_free_descriptor desc ds' ≡ ds

get_below :
    (ds : Descriptors) (i : ℕ) (d : Option FileDescriptor)
    → i + 1 < 512
    → get_elem? ds i ≡ some d
    → file_get_descriptor (pos (suc i)) ds ≡ d
unfolding file_get_descriptor
get_below ds i d h e =
    let b : leb 512 (suc i) ≡ false = ground arith in rw (b, file_get_descriptor) (rw e refl)

get_above : (ds : Descriptors) (i : ℕ) → 512 ≤ i + 1 → file_get_descriptor (pos (suc i)) ds ≡ none
unfolding file_get_descriptor
get_above ds i h = let b : leb 512 (suc i) ≡ true = ground arith in rw (b, file_get_descriptor) refl

get_other :
    (ds : Descriptors) (i fd : ℕ) (v : Option FileDescriptor)
    → fd ≢ i + 1
    → file_get_descriptor (pos fd) (set ds i v) ≡ file_get_descriptor (pos fd) ds
unfolding file_get_descriptor
get_other ds i zero v h = refl
get_other ds i (suc n) v h =
    let e = get_elem?-set_ne ds i n v (λ q. h (omega (arith, q))) in
    rw (e, file_get_descriptor) refl

new_descriptor :
    (p : ℕ) (ds : Descriptors) (i : ℕ)
    → free_slot ds 0 ≡ some i
    → file_new_descriptor p ds
      ≡ some (
        record { index = i + 1; private_data = p },
        set ds i (some (record { index = i + 1; private_data = p })),
      )
unfolding file_new_descriptor
new_descriptor p ds i e = rw (e, file_new_descriptor) refl

-- While a slot of the table is free, a new descriptor is given and is new in the sense above.
pub file_new_descriptor-IsNew :
    (p : ℕ) (ds : Descriptors) (free : ℕ)
    → get_elem? ds free ≡ some none
    → (desc : FileDescriptor) × (ds' : Descriptors) × (file_new_descriptor p ds ≡ some (desc, ds'))
      × IsNew p ds ds' desc
unfolding file_free_descriptor
file_new_descriptor-IsNew p ds free h = elim (Option-cases (free_slot ds 0)) [
  | inl e ↦ absurd (free_slot-none ds 0 free e h)
  | inr (i, e) ↦
      let desc : FileDescriptor = record { index = i + 1; private_data = p } in
      let z : i - 0 ≡ i = omega arith in
      let slot = subst (λ k. get_elem? ds k ≡ some none) z (free_slot_lem ds 0 i e).1 in
      let inside = slot_inside ds i none slot in
      let s : i + 1 ≡ suc i = omega arith in
      (
        desc,
        set ds i (some desc),
        new_descriptor p ds i e,
        record {
          holds = refl;
          from_one = omega arith;
          in_table = omega arith;
          found = λ q.
              subst (λ k. file_get_descriptor (pos k) (set ds i (some desc)) ≡ some desc) (sym s)
                (get_below (set ds i (some desc)) i (some desc) q
                  (get_elem?-set ds i (some desc) inside));
          lost = λ q.
              subst (λ k. file_get_descriptor (pos k) (set ds i (some desc)) ≡ none) (sym s)
                (get_above (set ds i (some desc)) i q);
          others = λ fd q. get_other ds i fd (some desc) q;
          freed =
              let q : i + 1 - 1 ≡ i = omega arith in
              ap (λ k. set (set ds i (some desc)) k none) q ∙ set_back ds i (some desc) slot;
        },
      )
]
