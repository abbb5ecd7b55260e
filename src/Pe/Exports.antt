-- ===== src/Pe/Exports.antt =====
-- The export table that Image::Exports returns, against its description.
use mathlib.Core.List.{reverse, reverse-cons}
use uefipp.Base.{
  ℕ, zero, suc, ◌+◌, ◌*◌, ◌%◌, ◌^◌, ◌<◌, ◌≤◌, ◌≡◌, ◌≢◌, ◌↔◌, ◌∙◌, refl, sym, ap, Bool, true, false,
  Option, none, some, List, [], ◌∷◌, ◌++◌, append-nil, append_assoc, length, arith, ltb, ◌==◌,
  Bool-cases, Option-cases, inl, inr,
}
use uefipp.Pe.{
  Memory, Directory, Export, read16, read32, export_of, export_loop, exports, get_directory,
  is_vacant, rva_to_pointer, find_name, name_of, read_ascii_string,
}

module _ (m : Memory) (text : ℕ → List ℕ) (base : ℕ) where
  abbrev pub text_behind : Option ℕ → List ℕ
  text_behind none = []
  text_behind (some p) = text p

  -- The text that an offset into the image leads to, which is empty where it leads outside.
  abbrev pub text_at : ℕ → List ℕ
  text_at offset = text_behind (rva_to_pointer m base offset)

  -- The name of the function with the index `i`: the one beside the first of `count` ordinals that is
  -- this index, and no name where there is none or a table is missing.
  pub data IsNameOf (names ordinals : Option ℕ) (count i : ℕ) : List ℕ → Type 0 where
    no_names : names ≡ none → IsNameOf names ordinals count i []
    no_ordinals : ordinals ≡ none → IsNameOf names ordinals count i []
    named :
        (n o k : ℕ)
        → names ≡ some n
        → ordinals ≡ some o
        → k < count
        → read16 m (o + 2 * k) ≡ i
        → ((j : ℕ) → j < k → read16 m (o + 2 * j) ≢ i)
        → IsNameOf names ordinals count i (text_at (read32 m (n + 4 * k)))
    unnamed :
        (n o : ℕ)
        → names ≡ some n
        → ordinals ≡ some o
        → ((j : ℕ) → j < count → read16 m (o + 2 * j) ≢ i)
        → IsNameOf names ordinals count i []

  -- What the table that starts at `header` says of the function with the index `i` at the offset
  -- `offset`. An offset into the table itself is that of the name of a forwarder.
  pub record Describes (d : Directory) (header i offset : ℕ) (e : Export) : Type 0 where
    pub its_name :
        IsNameOf
          (rva_to_pointer m base (read32 m (header + 32)))
          (rva_to_pointer m base (read32 m (header + 36)))
          (read32 m (header + 24))
          i
          e.name
    pub its_ordinal : e.ordinal ≡ (read32 m (header + 16) + i) % 2 ^ 16
    pub its_rva : e.rva ≡ offset
    pub its_address : e.address ≡ (base + offset) % 2 ^ 64
    pub forwards : (e.forwarded ≡ true) ↔ ((d.rva ≤ offset) × (offset < (d.rva + d.size) % 2 ^ 32))
    pub to_forwarder : e.forwarded ≡ true → e.forwarder ≡ text_at offset
    pub to_none : e.forwarded ≡ false → e.forwarder ≡ []

  -- The functions of the table from the index `i` on, of which `left` are left, with an entry for
  -- each whose offset is not 0.
  pub data Lists (d : Directory) (header functions : ℕ) : ℕ → ℕ → List Export → Type 0 where
    at_end : (i : ℕ) → Lists d header functions i 0 []
    absent :
        (i left : ℕ) (es : List Export)
        → read32 m (functions + 4 * i) ≡ 0
        → Lists d header functions (i + 1) left es
        → Lists d header functions i (suc left) es
    present :
        (i left : ℕ) (e : Export) (es : List Export)
        → read32 m (functions + 4 * i) ≢ 0
        → Describes d header i (read32 m (functions + 4 * i)) e
        → Lists d header functions (i + 1) left es
        → Lists d header functions i (suc left) (e ∷ es)

  -- The export table of the image: none where the directory is vacant or leads outside of the image,
  -- as the table of functions may.
  pub data IsTable : List Export → Type 0 where
    vacant : is_vacant (get_directory m base 0) ≡ true → IsTable []
    no_header : rva_to_pointer m base (get_directory m base 0).rva ≡ none → IsTable []
    no_functions :
        (header : ℕ)
        → rva_to_pointer m base (get_directory m base 0).rva ≡ some header
        → rva_to_pointer m base (read32 m (header + 28)) ≡ none
        → IsTable []
    table :
        (header functions : ℕ) (es : List Export)
        → is_vacant (get_directory m base 0) ≡ false
        → rva_to_pointer m base (get_directory m base 0).rva ≡ some header
        → rva_to_pointer m base (read32 m (header + 28)) ≡ some functions
        → Lists (get_directory m base 0) header functions 0 (read32 m (header + 20)) es
        → IsTable es

  read_ascii_string-text_behind : (p : Option ℕ) → read_ascii_string m text base p ≡ text_behind p
  unfolding read_ascii_string
  read_ascii_string-text_behind none = refl
  read_ascii_string-text_behind (some p) = refl

  find_name-IsNameOf :
      (names ordinals : Option ℕ) (n o count i from left : ℕ)
      → names ≡ some n
      → ordinals ≡ some o
      → from + left ≡ count
      → ((j : ℕ) → j < from → read16 m (o + 2 * j) ≢ i)
      → IsNameOf names ordinals count i (find_name m text base n o i from left)
  unfolding find_name
  find_name-IsNameOf names ordinals n o count i from zero f g whole before =
      unnamed n o f g (λ j h. before j (omega arith))
  find_name-IsNameOf names ordinals n o count i from (suc left) f g whole before =
      elim (Bool-cases (read16 m (o + 2 * from) == i)) [
        | inl y ↦
            rw
              (
                find_name,
                y,
                read_ascii_string-text_behind (rva_to_pointer m base (read32 m (n + 4 * from))),
              )
              (named n o from f g (omega arith) (ground arith) before)
        | inr k ↦
            rw (find_name, k)
              (find_name-IsNameOf names ordinals n o count i (from + 1) left f g (omega arith)
                (λ j h. elim (Bool-cases (ltb j from)) [
                  | inl y ↦ before j (ground arith)
                  | inr z ↦
                      let same : j ≡ from = ground arith in rw same (λ e. absurd (ground arith))
                ]))
      ]

  name_of-IsNameOf :
      (names ordinals : Option ℕ) (count i : ℕ)
      → IsNameOf names ordinals count i (name_of m text base names ordinals count i)
  unfolding name_of
  name_of-IsNameOf none ordinals count i = no_names refl
  name_of-IsNameOf (some n) none count i = no_ordinals refl
  name_of-IsNameOf (some n) (some o) count i =
      find_name-IsNameOf (some n) (some o) n o count i 0 count refl refl (omega arith)
        (λ j h. absurd (omega arith))

  export_of-Describes :
      (d : Directory) (header i offset : ℕ)
      → Describes d header i offset (export_of m text base d header i offset)
  unfolding export_of
  export_of-Describes d header i offset = record {
    its_name =
        name_of-IsNameOf (rva_to_pointer m base (read32 m (header + 32)))
          (rva_to_pointer m base (read32 m (header + 36))) (read32 m (header + 24)) i;
    its_ordinal = refl;
    its_rva = refl;
    its_address = refl;
    forwards = ground arith;
    to_forwarder = λ e. rw e (read_ascii_string-text_behind (rva_to_pointer m base offset));
    to_none = λ e. rw e refl;
  }

  module _ (slots : ℕ → Bool) (ample : (n : ℕ) → slots n ≡ true) where
    -- The loop lists the entries behind those that it has, which it keeps with the last one first.
    export_loop-Lists :
        (d : Directory) (header functions i left : ℕ) (result : List Export)
        → (es : List Export) × (reverse
              (export_loop m text base slots d header functions i left result)
            ≡ reverse result ++ es)
          × Lists d header functions i left es
    unfolding export_loop
    export_loop-Lists d header functions i zero result =
        ([], sym (append-nil (reverse result)), at_end i)
    export_loop-Lists d header functions i (suc left) result =
        let offset : ℕ = read32 m (functions + 4 * i) in
        let entry : Export = export_of m text base d header i offset in
        elim (Bool-cases (offset == 0)) [
          | inl y ↦
              let (es, same, lists) = export_loop-Lists d header functions (i + 1) left result in
              (es, rw (export_loop, y) same, absent i left es (ground arith) lists)
          | inr n ↦
              let (es, same, lists) =
                export_loop-Lists d header functions (i + 1) left (entry ∷ result) in
              (
                entry ∷ es,
                rw (export_loop, n, ample (length result + 1))
                    (same
                      ∙ ap (λ (t : List Export). t ++ es) (reverse-cons entry result)
                      ∙ append_assoc (reverse result) (entry ∷ []) es),
                present i left entry es (λ e. absurd (ground arith))
                    (export_of-Describes d header i offset) lists,
              )
        ]

    -- Where memory suffices, Exports returns the export table of the image: nothing where the
    -- directory is vacant or it or the table of functions leads outside of the image, and else, in
    -- the order of the table, an entry for each function whose offset is not 0, with its name, its
    -- ordinal, its address and where it forwards to.
    pub exports-IsTable : IsTable (exports m text base slots)
    unfolding exports
    exports-IsTable = elim (Bool-cases (is_vacant (get_directory m base 0))) [
      | inl y ↦ rw (exports, y) (vacant y)
      | inr v ↦ elim (Option-cases (rva_to_pointer m base (get_directory m base 0).rva)) [
        | inl y ↦ rw (exports, v, y) (no_header y)
        | inr (header, h) ↦ elim (Option-cases (rva_to_pointer m base (read32 m (header + 28)))) [
          | inl y ↦ rw (exports, v, h, y) (no_functions header h y)
          | inr (functions, f) ↦
              let (es, same, lists) =
                export_loop-Lists (get_directory m base 0) header functions 0
                  (read32 m (header + 20)) [] in
              rw (exports, v, h, f, same) (table header functions es v h f lists)
        ]
      ]
    ]
