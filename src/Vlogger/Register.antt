-- ===== src/Vlogger/Register.antt =====
-- `RegisterLogger` of pkg/vlogger/log.go: the entries of the table that it writes, and when it panics.
use f5_ipam_ctlr.Prelude.{
  Bool-cases, arith, get_elem?, get_elem?-set, if◌then◌else◌, inl, inr, leb, length, length-set,
  ltb, none, pos, refl, set, some, suc, true, zero, ℕ, ◌&&◌, ◌+◌, ◌-◌, ◌<◌, ◌↔◌, ◌≡◌, ◌≤◌,
}
use f5_ipam_ctlr.Vlogger.{Logging, register_logger, register_loop, rounds, set_entry}

module _ (log : ℕ) where
  register_loop_outside :
      (k m : ℕ) (st : Logging)
      → length st.vlog < m + k
      → 0 < k
      → register_loop k (pos m) log st ≡ none
  unfolding register_loop set_entry
  register_loop_outside zero m st h pos_k = absurd (omega arith)
  register_loop_outside (suc k) m st h pos_k = elim (Bool-cases (ltb m (length st.vlog))) [
    | inl inside ↦
        let st' = record st { vlog = set st.vlog m (some log) } in
        rw (register_loop, inside)
          (register_loop_outside k (suc m) st' (omega (arith, length-set st.vlog m (some log)))
            (ground arith))
    | inr outside ↦ rw (register_loop, outside) refl
  ]

  -- The table after entries from `m` on were written, `k` of them.
  record Written (k m : ℕ) (st st' : Logging) : Type 0 where
    ends : register_loop k (pos m) log st ≡ some st'
    entries :
        (i : ℕ)
        → get_elem? st'.vlog i
          ≡ (if leb m i && ltb i (m + k) then some (some log) else get_elem? st.vlog i)
    others : st' ≡ record st { vlog = st'.vlog }

  register_loop_inside :
      (k m : ℕ) (st : Logging) → m + k ≤ length st.vlog → (st' : Logging) × Written k m st st'
  unfolding register_loop set_entry
  register_loop_inside zero m st h =
      (st, record { ends = refl; entries = λ i. ground arith; others = refl })
  register_loop_inside (suc k) m st h =
      let st1 = record st { vlog = set st.vlog m (some log) } in
      let (st', w) =
        register_loop_inside k (suc m) st1 (omega (arith, length-set st.vlog m (some log))) in
      let inside : ltb m (length st.vlog) ≡ true = ground arith in
      (
        st',
        record {
          ends = rw (register_loop, inside) w.ends;
          entries = λ i. ground (arith, w.entries i, get_elem?-set st.vlog m i (some log));
          others = w.others;
        },
      )

-- RegisterLogger panics exactly if its range is not empty and ends beyond the table; otherwise it
-- writes exactly the entries from the least level to the greatest, and changes nothing else.
pub register_logger_bounds :
    (m n log : ℕ) (st : Logging)
    → ((register_logger (pos m) (pos n) log st ≡ none) ↔ ((m ≤ n) × (length st.vlog ≤ n)))
      × ((st' : Logging)
          → register_logger (pos m) (pos n) log st ≡ some st'
          → (st' ≡ record st { vlog = st'.vlog })
            × ((i : ℕ)
                → get_elem? st'.vlog i
                  ≡ (if leb m i && leb i n then some (some log) else get_elem? st.vlog i)))
unfolding register_logger rounds
register_logger_bounds m n log st = elim (Bool-cases (leb m n && leb (length st.vlog) n)) [
  | inl outside ↦
      let stops = register_loop_outside log (suc n - m) m st (ground arith) (ground arith) in
      ((λ e. (ground arith, ground arith), λ h. stops), λ st' e. cc (stops, e))
  | inr fine ↦ elim (Bool-cases (leb m n)) [
    | inl some_levels ↦
        let (st1, w) = register_loop_inside log (suc n - m) m st (ground arith) in
        (
          (λ e. cc (w.ends, e), λ h. absurd (ground arith)),
          λ st' e.
              let same : st1 ≡ st' = cc (w.ends, e) in
              let w' : Written log (suc n - m) m st st' = rw (← same) w in
              (w'.others, λ i. ground (arith, w'.entries i)),
        )
    | inr no_level ↦
        let no_rounds : suc n - m ≡ 0 = ground arith in
        let ends : register_loop (suc n - m) (pos m) log st ≡ some st =
          rw (no_rounds, register_loop) refl in
        (
          (λ e. cc (ends, e), λ h. absurd (ground arith)),
          λ st' e. let same : st ≡ st' = cc (ends, e) in rw (← same) (refl, λ i. ground arith),
        )
  ]
]
