-- ===== src/Unwind/Codes/Prolog.antt =====
-- What the loop over the codes that describe a prolog gives from the function's body.
use uefipp.Base.{
  ℕ, zero, suc, ◌+◌, ◌*◌, ◌<◌, ◌≤◌, ◌≡◌, refl, ap, ◌∙◌, true, false, List, [], ◌∷◌, value, ltb,
  arith,
}
use uefipp.Pe.{Memory, read64}
use uefipp.Unwind.Codes.{
  Context, Header, sub64, Nonvolatile, rbx, rbp, rsi, rdi, r12, r13, r14, r15, register,
  get_register, set_register, restored, operation, operation_info, operation_slot_count, add64,
  undo, run_codes,
}
use uefipp.Unwind.Codes.Instructions.{
  id_of, Instruction, push, take_small, take_large, take_huge, save, save_far, save_vector,
  save_vector_far, set_frame, Did, Ran, entered, then_did, Describes, slots_of, Laid,
}

register-id_of : (r : Nonvolatile) → register (id_of r) ≡ value r
unfolding register
register-id_of rbx = refl
register-id_of rbp = refl
register-id_of rsi = refl
register-id_of rdi = refl
register-id_of r12 = refl
register-id_of r13 = refl
register-id_of r14 = refl
register-id_of r15 = refl

set_get :
    (r : Nonvolatile) (c : Context) (v : ℕ)
    → set_register r (get_register r c) (set_register r v c) ≡ c
set_get rbx c v = refl
set_get rbp c v = refl
set_get rsi c v = refl
set_get rdi c v = refl
set_get r12 c v = refl
set_get r13 c v = refl
set_get r14 c v = refl
set_get r15 c v = refl

put_back :
    (r : Nonvolatile) (c : Context) (s v : ℕ)
    → record (set_register r (get_register r c) (set_register r v (record c { rsp = s }))) {
      rsp = c.rsp;
    }
      ≡ c
put_back rbx c s v = refl
put_back rbp c s v = refl
put_back rsi c s v = refl
put_back rdi c s v = refl
put_back r12 c s v = refl
put_back r13 c s v = refl
put_back r14 c s v = refl
put_back r15 c s v = refl

set_register_rsp : (r : Nonvolatile) (v : ℕ) (c : Context) → (set_register r v c).rsp ≡ c.rsp
set_register_rsp rbx v c = refl
set_register_rsp rbp v c = refl
set_register_rsp rsi v c = refl
set_register_rsp rdi v c = refl
set_register_rsp r12 v c = refl
set_register_rsp r13 v c = refl
set_register_rsp r14 v c = refl
set_register_rsp r15 v c = refl

get_register_rsp :
    (r : Nonvolatile) (c : Context) (s : ℕ)
    → get_register r (record c { rsp = s }) ≡ get_register r c
get_register_rsp rbx c s = refl
get_register_rsp rbp c s = refl
get_register_rsp rsi c s = refl
get_register_rsp rdi c s = refl
get_register_rsp r12 c s = refl
get_register_rsp r13 c s = refl
get_register_rsp r14 c s = refl
get_register_rsp r15 c s = refl

restored_register :
    (m : Memory) (r : Nonvolatile) (offset x : ℕ) (c : Context)
    → read64 m (add64 c.rsp offset) ≡ x
    → restored m (id_of r) offset c ≡ value (set_register r x c)
unfolding restored
restored_register m r offset x c e =
    rw (register-id_of r) (ap (λ (t : ℕ). value (set_register r t c)) e)

-- Undoing the code of an instruction gives back the context before it.
undo-Did :
    (m : Memory) (codes : ℕ) (h : Header) (i : ℕ) (x : Instruction) {c c' : Context}
    → Describes m codes h i x
    → i + slots_of x ≤ h.code_count
    → Did m c x c'
    → undo m codes h i c' (operation m codes i) (operation_info m codes i)
      ≡ value (c, i + slots_of x)
unfolding undo
undo-Did m codes h i (push r) (o, n) le (Did.pushed c _ s v e lt held) =
    let top : (set_register r v (record c { rsp = s })).rsp ≡ s =
      set_register_rsp r v (record c { rsp = s }) in
    let same : add64 s 0 ≡ s = omega arith in
    let up : add64 s 8 ≡ c.rsp = omega arith in
    rw (o, n)
      (rw
        (restored_register m r 0 (get_register r c) (set_register r v (record c { rsp = s }))
          (rw (top, same) held))
        (rw (top, up) (ap (λ (t : Context). value (t, i + 1)) (put_back r c s v))))
undo-Did m codes h i (take_small info) (o, n) le (Did.took_small c _ s e lt) =
    let up : add64 s (info * 8 + 8) ≡ c.rsp = omega arith in rw (o, n, up)
undo-Did m codes h i (take_large units) (o, n, w) le (Did.took_large c _ s e lt) =
    let up : add64 s (units * 8) ≡ c.rsp = omega arith in
    let room : ltb (i + 1) h.code_count ≡ true = ground arith in rw (o, n, room, w, up)
undo-Did m codes h i (save r units) (o, n, w) le (Did.saved c _ _ v held) =
    let room : ltb (i + 1) h.code_count ≡ true = ground arith in
    rw (o, n, room, w)
      (rw
        (restored_register m r (units * 8) (get_register r c) (set_register r v c)
          (rw (set_register_rsp r v c) held))
        (ap (λ (t : Context). value (t, i + 2)) (set_get r c v)))
undo-Did m codes h i (take_huge bytes) (o, n, w) le (Did.took_huge c _ s e lt) =
    let up : add64 s bytes ≡ c.rsp = omega arith in
    let room : ltb (i + 2) h.code_count ≡ true = ground arith in rw (o, n, room, w, up)
undo-Did m codes h i (save_far r bytes) (o, n, w) le (Did.saved_far c _ _ v held) =
    let room : ltb (i + 2) h.code_count ≡ true = ground arith in
    rw (o, n, room, w)
      (rw
        (restored_register m r bytes (get_register r c) (set_register r v c)
          (rw (set_register_rsp r v c) held))
        (ap (λ (t : Context). value (t, i + 3)) (set_get r c v)))
undo-Did m codes h i save_vector o le (Did.saved_vector c) =
    let room : ltb (i + 1) h.code_count ≡ true = ground arith in rw (o, room)
undo-Did m codes h i save_vector_far o le (Did.saved_vector_far c) =
    let room : ltb (i + 2) h.code_count ≡ true = ground arith in rw (o, room)
undo-Did m codes h i (set_frame r offset) (o, n, w) le (Did.framed c _ _ s e lt) =
    let same : get_register r (record c { rsp = s }) ≡ c.rsp + offset =
      get_register_rsp r c s ∙ e in
    let down : sub64 (c.rsp + offset) offset ≡ c.rsp = omega arith in
    rw (o, n, register-id_of r, w, same, down)

Describes-slots :
    (m : Memory) (codes : ℕ) (h : Header) (i : ℕ) (x : Instruction)
    → Describes m codes h i x
    → operation_slot_count (operation m codes i) (operation_info m codes i) ≡ slots_of x
Describes-slots m codes h i (push r) (o, n) = rw o
Describes-slots m codes h i (take_small info) (o, n) = rw o
Describes-slots m codes h i (take_large units) (o, n, w) = rw (o, n)
Describes-slots m codes h i (save r units) (o, n, w) = rw o
Describes-slots m codes h i (take_huge bytes) (o, n, w) = rw (o, n)
Describes-slots m codes h i (save_far r bytes) (o, n, w) = rw o
Describes-slots m codes h i save_vector o = rw o
Describes-slots m codes h i save_vector_far o = rw o
Describes-slots m codes h i (set_frame r offset) (o, n, w) = rw o

slots_pos : (x : Instruction) → 1 ≤ slots_of x
slots_pos (push r) = omega arith
slots_pos (take_small info) = omega arith
slots_pos (take_large units) = omega arith
slots_pos (save r units) = omega arith
slots_pos (take_huge bytes) = omega arith
slots_pos (save_far r bytes) = omega arith
slots_pos save_vector = omega arith
slots_pos save_vector_far = omega arith
slots_pos (set_frame r offset) = omega arith

Laid-le :
    (m : Memory) (codes : ℕ) (h : Header) (i : ℕ) (is : List Instruction)
    → Laid m codes h i is
    → i ≤ h.code_count
Laid-le m codes h i [] laid = omega arith
Laid-le m codes h i (x ∷ xs) laid = omega (arith, laid.1)

pub run_codes-Ran :
    (m : Memory) (codes : ℕ) (h : Header) (offset fuel i : ℕ) {is : List Instruction}
    {entry c : Context}
    → Ran m entry is c
    → Laid m codes h i is
    → h.code_count < fuel + i
    → run_codes m codes h false offset fuel i c ≡ value entry
unfolding run_codes
run_codes-Ran m codes h offset zero i {is = is} r laid enough =
    absurd (omega (arith, Laid-le m codes h i is laid))
run_codes-Ran m codes h offset (suc fuel) i entered laid enough =
    let over : ltb i h.code_count ≡ false = ground arith in rw (over, run_codes)
run_codes-Ran m codes h offset (suc fuel) i (then_did {is = is} {c = c} x r did) (d, le, rest)
      enough =
    let more : ltb i h.code_count ≡ true = ground (arith, slots_pos x) in
    let slots = Describes-slots m codes h i x d in
    let room : ltb h.code_count (i + slots_of x) ≡ false = ground arith in
    rw (more, run_codes)
      (rw (slots, room, undo-Did m codes h i x d le did)
        (run_codes-Ran m codes h offset fuel (i + slots_of x) r rest (omega (arith, slots_pos x))))
