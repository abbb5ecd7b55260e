-- ===== src/Unwind/Codes/Loop.antt =====
-- The loop over the unwind codes: how far each code moves it, and its rounds.
use uefipp.Base.{
  ℕ, zero, suc, ◌+◌, ◌<◌, ◌≤◌, ◌≡◌, ◌≢◌, refl, Bool, false, ◌&&◌, Expected, value, unexpected,
  ◌>>=◌, Bool-cases, inl, inr, ltb, arith,
}
use uefipp.Pe.{Memory}
use uefipp.Unwind.Codes.{
  UnwindError, out_of_fuel, lift, Context, Header, UnwindOperation, push_nonvolatile,
  allocate_large, allocate_small, set_frame_pointer, save_nonvolatile, save_nonvolatile_far,
  save_xmm128, save_xmm128_far, push_machine_frame, unnamed, operation, operation_info,
  operation_slot_count, code_offset, undo, run_codes,
}

-- A code that is undone moves the index past exactly the slots that OperationSlotCount gives it, as
-- a code that is skipped does.
pub undo-slot_count :
    (m : Memory) (codes : ℕ) (h : Header) (i : ℕ) (c : Context) (op : UnwindOperation) (info : ℕ)
    {c' : Context} {i' : ℕ}
    → undo m codes h i c op info ≡ value (c', i')
    → i' ≡ i + operation_slot_count op info
unfolding undo
undo-slot_count m codes h i c push_nonvolatile info e = ground arith
undo-slot_count m codes h i c allocate_large info e = ground arith
undo-slot_count m codes h i c allocate_small info e = ground arith
undo-slot_count m codes h i c set_frame_pointer info e = ground arith
undo-slot_count m codes h i c save_nonvolatile info e = ground arith
undo-slot_count m codes h i c save_nonvolatile_far info e = ground arith
undo-slot_count m codes h i c save_xmm128 info e = ground arith
undo-slot_count m codes h i c save_xmm128_far info e = ground arith
undo-slot_count m codes h i c push_machine_frame info e = cc
undo-slot_count m codes h i c unnamed info e = cc

slot_count_pos : (op : UnwindOperation) (info : ℕ) → 1 ≤ operation_slot_count op info
slot_count_pos push_nonvolatile info = omega arith
slot_count_pos allocate_large info = ground arith
slot_count_pos allocate_small info = omega arith
slot_count_pos set_frame_pointer info = omega arith
slot_count_pos save_nonvolatile info = omega arith
slot_count_pos save_nonvolatile_far info = omega arith
slot_count_pos save_xmm128 info = omega arith
slot_count_pos save_xmm128_far info = omega arith
slot_count_pos push_machine_frame info = omega arith
slot_count_pos unnamed info = omega arith

module _ (m : Memory) (codes : ℕ) (h : Header) (in_prolog : Bool) (offset : ℕ) where
  undone_ends :
      (fuel i n : ℕ) (r : Expected UnwindError (Context × ℕ))
      → ((c' : Context) (i' : ℕ) → r ≡ value (c', i') → i' ≡ i + n)
      → ((j : ℕ) (c' : Context)
          → j ≡ i + n
          → run_codes m codes h in_prolog offset fuel j c' ≢ unexpected out_of_fuel)
      → (lift r >>= λ x. run_codes m codes h in_prolog offset fuel x.1 x.0) ≢ unexpected out_of_fuel
  undone_ends fuel i n (value (c', i')) moved ih = ih i' c' (moved c' i' refl)
  undone_ends fuel i n (unexpected e) moved ih = λ p. cc

  -- With more rounds than slots left the loop over the codes never runs out of fuel.
  pub run_codes_ends :
      (fuel i : ℕ) (c : Context)
      → h.code_count < fuel + i
      → i ≤ h.code_count
      → run_codes m codes h in_prolog offset fuel i c ≢ unexpected out_of_fuel
  unfolding run_codes
  run_codes_ends zero i c lt le = absurd (omega arith)
  run_codes_ends (suc fuel) i c lt le = elim (Bool-cases (ltb i h.code_count)) [
    | inr n ↦ rw (n, run_codes) (λ e. cc)
    | inl y ↦
        rw (y, run_codes)
          (elim (Bool-cases (ltb h.code_count (i + slots))) [
            | inl z ↦ rw z (λ e. cc)
            | inr z ↦ rw z (elim (Bool-cases (in_prolog && ltb offset (code_offset m codes i))) [
              | inl s ↦ rw s (run_codes_ends fuel (i + slots) c (omega (arith, pos)) (ground arith))
              | inr s ↦ rw s (
                  undone_ends fuel i slots (undo m codes h i c op info)
                    (λ c' i' e. undo-slot_count m codes h i c op info e)
                    λ j c' e. run_codes_ends fuel j c' (omega (arith, pos)) (ground arith))
            ])
          ])
  ]
    where
      op : UnwindOperation
      op = operation m codes i

      info : ℕ
      info = operation_info m codes i

      slots : ℕ
      slots = operation_slot_count op info

      pos : 1 ≤ slots
      pos = slot_count_pos op info

  -- Without codes the loop changes nothing.
  pub run_codes_none :
      (fuel : ℕ) (c : Context)
      → h.code_count ≡ 0
      → run_codes m codes h in_prolog offset (suc fuel) 0 c ≡ value c
  unfolding run_codes
  run_codes_none fuel c e =
      let over : ltb 0 h.code_count ≡ false = ground arith in rw (over, run_codes)
