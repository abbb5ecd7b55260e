-- ===== src/Assembly/Layout/Assembling/Images.antt =====
-- What Assemble writes, against an assembler that only appends: the image of a program is the image of
-- each node, one behind the other.
use uefipp.Base.{
  ℕ, ◌+◌, ◌-◌, ◌^◌, ◌%◌, ◌<◌, ◌≡◌, refl, ap, sym, ◌∙◌, Option, none, some, List, [], ◌∷◌, ◌++◌,
  length, get_or, drop, replicate, ◌==◌, value, ◌>>◌, require, Bool-cases, inl, inr, arith,
  append-nil, take-append, drop-append, length-replicate, drop-replicate,
}
use uefipp.Alignment.{align_up}
use uefipp.Alignment.Multiples.{align_up_fits}
use uefipp.Assembly.Instructions.{Instruction}
use uefipp.Assembly.Programs.{
  AssemblyError, Target, Node, instruction_node, label_node, data_node, align_node, Section,
}
use uefipp.Assembly.Layout.{placed_size, resolve, Backend, Grants}
use uefipp.Assembly.Layout.Assembling.{
  Output, encoded, overwritten, relocations_of, push_relocations, recorded, write_encoded,
  write_resolved, write_instruction, write_node,
}
use uefipp.Assembly.Layout.Assembling.Settled.{SizeOf, bind_value, value_injective}

-- The offset behind nodes that start at a cursor.
abbrev pub end_of : List Node → List ℕ → ℕ → ℕ
end_of [] sizes c = c
end_of (n ∷ ns) sizes c = end_of ns (drop 1 sizes) (c + placed_size n c (get_or sizes 0 0))

-- No offset passes 64 bits.
abbrev pub FitsNodes : List Node → List ℕ → ℕ → Type 0
FitsNodes [] sizes c = Unit {0}
FitsNodes (n ∷ ns) sizes c =
    (c + placed_size n c (get_or sizes 0 0) < 2 ^ 64)
    × FitsNodes ns (drop 1 sizes) (c + placed_size n c (get_or sizes 0 0))

module _ (base : ℕ) (addresses : List ℕ) where
  -- The address of a label node at a cursor is the one that the addresses have.
  abbrev pub LabelAt : Node → ℕ → Type 0
  LabelAt (label_node l) c = get_or addresses l 0 ≡ (base + c) % 2 ^ 64
  LabelAt (instruction_node i t) c = Unit {0}
  LabelAt (data_node bytes) c = Unit {0}
  LabelAt (align_node a fill) c = Unit {0}

  abbrev pub LabelsAt : List Node → List ℕ → ℕ → Type 0
  LabelsAt [] sizes c = Unit {0}
  LabelsAt (n ∷ ns) sizes c =
      LabelAt n c × LabelsAt ns (drop 1 sizes) (c + placed_size n c (get_or sizes 0 0))

module _ (b : Backend) (base : ℕ) (addresses : List ℕ) where
  -- The bytes of one node behind the bytes before it.
  pub data NodeImage (before : List ℕ) : Node → List ℕ → Type 0 where
    of_instruction :
        (i : Instruction) (t : Option Target) (r : Instruction) (bytes : List ℕ)
        → resolve addresses i t ≡ value r
        → b.encode r (length bytes) ((base + length before) % 2 ^ 64) ≡ some bytes
        → NodeImage before (instruction_node i t) bytes
    of_label :
        (l : ℕ)
        → get_or addresses l 0 ≡ (base + length before) % 2 ^ 64
        → NodeImage before (label_node l) []
    of_data : (bytes : List ℕ) → NodeImage before (data_node bytes) bytes
    of_align :
        (a fill n : ℕ)
        → length before + n ≡ align_up (length before) a
        → NodeImage before (align_node a fill) (replicate n fill)

  pub data Image : List Node → List ℕ → List ℕ → Type 0 where
    finished : {before : List ℕ} → Image [] before before
    next :
        {n : Node} {ns : List Node} {before bytes after : List ℕ}
        → NodeImage before n bytes
        → Image ns (before ++ bytes) after
        → Image (n ∷ ns) before after

  -- The sections in turn, with zeros up to where each starts.
  pub data SectionsImage : List Section → List ℕ → List ℕ → Type 0 where
    none_left : {before : List ℕ} → SectionsImage [] before before
    section :
        {s : Section} {ss : List Section} {before own after : List ℕ} (n : ℕ)
        → length before + n ≡ align_up (length before) s.alignment
        → Image s.nodes (before ++ replicate n 0) own
        → SectionsImage ss own after
        → SectionsImage (s ∷ ss) before after

overwritten_next :
    (d : List ℕ) (k : ℕ) (bytes : List ℕ)
    → overwritten (d ++ replicate k 0) (length d) bytes
      ≡ (d ++ bytes) ++ replicate (k - length bytes) 0
overwritten_next d k bytes =
    rw
      (
        take-append d (replicate k 0),
        drop-append d (replicate k 0) (length bytes) (length d + length bytes) refl,
        drop-replicate {A = ℕ} (length bytes) k 0,
      )
      refl

pub encoded_some : (r : Option (List ℕ)) (bytes : List ℕ) → encoded r ≡ value bytes → r ≡ some bytes
encoded_some none bytes e = cc e
encoded_some (some x) bytes e = cc e

sized_of : (m n : ℕ) (e : AssemblyError) {u : Unit {0}} → require (m == n) e ≡ value u → m ≡ n
sized_of m n e {u} h = elim (Bool-cases (m == n)) [ inl y ↦ ground arith | inr f ↦ cc (f, h) ]

unpadded : (d : List ℕ) (k : ℕ) → d ++ replicate k 0 ≡ (d ++ []) ++ replicate (k - 0) 0
unpadded d k =
    let same : k ≡ k - 0 = omega arith in
    ap (λ m. d ++ replicate m 0) same ∙ ap (λ x. x ++ replicate (k - 0) 0) (sym (append-nil d))

-- What writing a node leaves of a buffer that is written up to `d`.
pub record Wrote (b : Backend) (base : ℕ) (addresses : List ℕ) (n : Node) (d : List ℕ) (k size : ℕ)
    (out : Output) : Type 0 where
  pub bytes : List ℕ
  pub sized : length bytes ≡ size
  pub written : out.bytes ≡ (d ++ bytes) ++ replicate (k - size) 0
  pub image : NodeImage b base addresses d n bytes

module _ (b : Backend) (g : Grants) (base : ℕ) (addresses : List ℕ) (d : List ℕ) (k : ℕ)
    (out out' : Output) (start : out.bytes ≡ d ++ replicate k 0) where
  wrote :
      (n : Node) (size : ℕ) (bytes : List ℕ)
      → length bytes ≡ size
      → out'.bytes ≡ overwritten out.bytes (length d) bytes
      → NodeImage b base addresses d n bytes
      → Wrote b base addresses n d k size out'
  wrote n size bytes h e i = record {
    bytes = bytes;
    sized = h;
    written =
        e
        ∙ ap (λ x. overwritten x (length d) bytes) start
        ∙ overwritten_next d k bytes
        ∙ ap (λ m. (d ++ bytes) ++ replicate (k - m) 0) h;
    image = i;
  }

  write_encoded-Wrote :
      (i : Instruction) (t : Option Target) (size : ℕ) (r : Instruction) (bytes : List ℕ)
      → resolve addresses i t ≡ value r
      → b.encode r size ((base + length d) % 2 ^ 64) ≡ some bytes
      → write_encoded b g base addresses t (length d) size out r bytes ≡ value out'
      → Wrote b base addresses (instruction_node i t) d k size out'
  unfolding write_encoded
  write_encoded-Wrote i t size r bytes er eb e =
      let failure : AssemblyError = AssemblyError.encoding_failure in
      let pushed =
        push_relocations g.relocation
          (relocations_of addresses (length d) r t (b.decode bytes ((base + length d) % 2 ^ 64)))
          out.relocations in
      let (relocations, (e1, e2)) =
        bind_value (require (length bytes == size) failure >> pushed)
          (λ relocations. value (recorded (length d) out bytes relocations)) out' e in
      let (_, (e3, _)) =
        bind_value (require (length bytes == size) failure) (λ _. pushed) relocations e1 in
      let same : length bytes ≡ size = sized_of (length bytes) size failure e3 in
      let given : recorded (length d) out bytes relocations ≡ out' =
        value_injective (recorded (length d) out bytes relocations) out' e2 in
      wrote (instruction_node i t) size bytes same (sym (ap (λ (o : Output). o.bytes) given)) (
        of_instruction i t r bytes er
          (ap (λ n. b.encode r n ((base + length d) % 2 ^ 64)) same ∙ eb))

  write_instruction-Wrote :
      (i : Instruction) (t : Option Target) (size : ℕ)
      → write_instruction b g base addresses i t (length d) size out ≡ value out'
      → Wrote b base addresses (instruction_node i t) d k size out'
  unfolding write_instruction write_resolved
  write_instruction-Wrote i t size e =
      let (r, (er, e1)) =
        bind_value (resolve addresses i t) (write_resolved b g base addresses t (length d) size out)
          out' e in
      let (bytes, (eb, e2)) =
        bind_value (encoded (b.encode r size ((base + length d) % 2 ^ 64)))
          (write_encoded b g base addresses t (length d) size out r) out' e1 in
      write_encoded-Wrote i t size r bytes er
        (encoded_some (b.encode r size ((base + length d) % 2 ^ 64)) bytes eb) e2

  pub write_node-Wrote :
      (n : Node) (x : ℕ)
      → SizeOf n x
      → length d + placed_size n (length d) x < 2 ^ 64
      → LabelAt base addresses n (length d)
      → write_node b g base addresses n (length d) (placed_size n (length d) x) out ≡ value out'
      → Wrote b base addresses n d k (placed_size n (length d) x) out'
  unfolding write_node
  write_node-Wrote (instruction_node i t) x s f l e = write_instruction-Wrote i t x e
  write_node-Wrote (label_node m) x s f l e = record {
    bytes = [];
    sized = refl;
    written =
        sym (ap (λ (o : Output). o.bytes) (value_injective out out' e)) ∙ start ∙ unpadded d k;
    image = of_label m l;
  }
  write_node-Wrote (data_node bytes) x s f l e =
      wrote (data_node bytes) x bytes (sym s)
        (sym (
          ap (λ (o : Output). o.bytes)
            (value_injective (record out { bytes = overwritten out.bytes (length d) bytes }) out'
              e)))
        (of_data bytes)
  write_node-Wrote (align_node a fill) x s f l e =
      let size = placed_size (align_node a fill) (length d) x in
      wrote (align_node a fill) size (replicate size fill) (length-replicate size fill)
        (sym (
          ap (λ (o : Output). o.bytes)
            (value_injective
              (record out { bytes = overwritten out.bytes (length d) (replicate size fill) }) out'
              e)))
        (of_align a fill size (omega (arith, align_up_fits (length d) a)))
