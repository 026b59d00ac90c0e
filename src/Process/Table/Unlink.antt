-- ===== src/Process/Table/Unlink.antt =====
-- A process that leaves the table.
use maer_os.Common.{
  ℕ, zero, suc, ◌≡◌, ◌≢◌, ◌<◌, refl, sym, ap, ◌∙◌, true, false, Option, none, some, List, [], ◌∷◌,
  set, get_or, length, length-set, subst, ℕ_discrete, get_or-set_self, get_or-set_ne, ==_false,
  arith,
}
use maer_os.Process.Table.{
  Processes, process_switch, first_process, process_switch_to_any, is_current, process_unlink,
}

-- The process stands in some slot.
abbrev pub Stands : ℕ → List (Option ℕ) → Type 0
Stands process slots = (i : ℕ) × (i < length slots) × (get_or slots i none ≡ some process)

first-Stands :
    (slots : List (Option ℕ)) (process : ℕ)
    → first_process slots ≡ some process
    → Stands process slots
unfolding first_process
first-Stands [] process e = absurd cc
first-Stands (none ∷ slots) process e =
    let (i, b, s) = first-Stands slots process e in (suc i, omega arith, s)
first-Stands (some q ∷ slots) process e = (0, omega arith, e)

first_found :
    (slots : List (Option ℕ)) (i q : ℕ)
    → get_or slots i none ≡ some q
    → (f : ℕ) × (first_process slots ≡ some f)
unfolding first_process
first_found [] i q e = absurd cc
first_found (some p ∷ slots) i q e = (p, refl)
first_found (none ∷ slots) zero q e = absurd cc
first_found (none ∷ slots) (suc i) q e = first_found slots i q e

-- No process has two slots, and the current one has a slot.
pub record IsTable (s : Processes) : Type 0 where
  pub current : (c : ℕ) × (s.current_process ≡ some c) × Stands c s.processes
  pub once :
      (i j p : ℕ) → get_or s.processes i none ≡ some p → get_or s.processes j none ≡ some p → i ≡ j

module _ (slots : List (Option ℕ)) (id process : ℕ) (b : id < length slots)
    (here : get_or slots id none ≡ some process) where
  abbrev emptied : List (Option ℕ)
  emptied = set slots id none

  still : (i p : ℕ) → get_or emptied i none ≡ some p → (i ≢ id) × (get_or slots i none ≡ some p)
  still i p e =
      let ne : i ≢ id = λ z.
        let n = get_or-set_self slots id none none b in
        let e' : get_or emptied id none ≡ some p =
          subst (λ (k : ℕ). get_or emptied k none ≡ some p) z e in
        absurd cc in
      (ne, sym (get_or-set_ne slots id i none none (λ z. ne (sym z))) ∙ e)

  stays : (c : ℕ) → c ≢ process → Stands c slots → Stands c emptied
  stays c d (i, l, e) =
      let ne : id ≢ i = λ z.
        let e' : get_or slots id none ≡ some c =
          subst (λ (k : ℕ). get_or slots k none ≡ some c) (sym z) e in
        absurd (d (cc (here, e'))) in
      (
        i,
        omega (arith, length-set {A = Option ℕ} slots id none),
        get_or-set_ne slots id i none none ne ∙ e,
      )

unlink_current :
    (id process c f : ℕ) (s : Processes)
    → s.current_process ≡ some process
    → first_process (set s.processes id none) ≡ some f
    → process_unlink id process s
      ≡ some (record { processes = set s.processes id none; current_process = some f })
unfolding process_unlink process_switch_to_any process_switch
unlink_current id process c f s e n =
    let t : is_current process s.current_process ≡ true = rw e (ground arith) in
    rw (t, process_unlink) (rw (n, process_switch_to_any) refl)

unlink_other :
    (id process c : ℕ) (s : Processes)
    → s.current_process ≡ some c
    → c ≢ process
    → process_unlink id process s
      ≡ some (record { processes = set s.processes id none; current_process = some c })
unfolding process_unlink
unlink_other id process c s e d =
    let t : is_current process s.current_process ≡ false = rw e (==_false c process d) in
    rw (t, process_unlink)
      (ap (λ k. some (record { processes = set s.processes id none; current_process = k })) e)

-- In a table in which no process has two slots and the current one has a slot: while another process
-- has a slot too, a process that leaves by its id frees its slot, the table stays such a table, the
-- current process is another one, and every other slot is what it was.
pub process_unlink-IsTable :
    (id process other : ℕ) (s : Processes)
    → IsTable s
    → id < length s.processes
    → get_or s.processes id none ≡ some process
    → other ≢ process
    → Stands other s.processes
    → (s' : Processes) × (process_unlink id process s ≡ some s')
      × IsTable s'
      × (get_or s'.processes id none ≡ none)
      × (s'.current_process ≢ some process)
      × ((i : ℕ) → i ≢ id → get_or s'.processes i none ≡ get_or s.processes i none)
process_unlink-IsTable id process other s v b here d o =
    let slots' = set s.processes id none in
    let free = get_or-set_self s.processes id none none b in
    let same : (i : ℕ) → i ≢ id → get_or slots' i none ≡ get_or s.processes i none =
      λ i ne. get_or-set_ne s.processes id i none none (λ z. ne (sym z)) in
    let once : (i j p : ℕ) → get_or slots' i none ≡ some p → get_or slots' j none ≡ some p → i ≡ j =
      λ i j p e e'.
        v.once i j p (still s.processes id process b here i p e).1
          (still s.processes id process b here j p e').1 in
    let (c, e, stands) = v.current in
    elim (ℕ_discrete c process) [
      | no ne ↦ (
        record { processes = slots'; current_process = some c },
        unlink_other id process c s e ne,
        record {
          current = (c, refl, stays s.processes id process b here c ne stands);
          once = once;
        },
        free,
        (λ q. ne cc),
        same,
      )
      | yes z ↦
          let (i, l, q) = stays s.processes id process b here other d o in
          let (f, first) = first_found slots' i other q in
          let (j, m, r) = first-Stands slots' f first in
          let nf : f ≢ process = λ w.
            let (nj, rj) = still s.processes id process b here j f r in
            nj (v.once j id process (rj ∙ ap some w) here) in
          (
            record { processes = slots'; current_process = some f },
            unlink_current id process c f s (e ∙ ap some z) first,
            record { current = (f, refl, (j, m, r)); once = once },
            free,
            (λ q. nf cc),
            same,
          )
    ]
