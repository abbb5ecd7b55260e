-- ===== src/Assembly/Layout/Assembling/Whole.antt =====
-- What Assemble returns for a whole program.
use uefipp.Base.{
  ℕ, ◌-◌, ◌≡◌, refl, ap, sym, ◌∙◌, not, List, [], ◌++◌, length, replicate, ◌==◌, Expected, value,
  ◌>>◌, require, arith, append-nil,
}
use mathlib.Core.Path.{subst}
use uefipp.Assembly.Programs.{AssemblyError, Program}
use uefipp.Assembly.Layout.{
  SectionPlace, Laid, compute_layout, maximum_label_id, invalid_address, Backend, Grants,
}
use uefipp.Assembly.Layout.Assembling.{
  Output, AssembledCode, section_table, write_sections, write_code, settle, assemble,
}
use uefipp.Assembly.Layout.Assembling.Settled.{bind_value, value_injective, settle-IsSettled}
use uefipp.Assembly.Layout.Assembling.Images.{SectionsImage}
use uefipp.Assembly.Layout.Assembling.Written.{
  end_of_sections, FitsSections, cursor-layout_sections, write_sections-WroteSections,
}
use uefipp.Assembly.Programs.Bound.{labels_of, AreDistinct}
use uefipp.Assembly.Programs.Reaching.{Reach, Reach-IsSound, IsSound-AreDistinct}
use uefipp.Assembly.Layout.Assembling.Placed.{compute_layout-LabelsAt}

module _ (b : Backend) (g : Grants) (base : ℕ) (p : Program) where
  -- What the settled sizes lay out, with the addresses of the labels.
  abbrev pub laid_out : List (List ℕ) → Laid SectionPlace
  laid_out sizes = compute_layout base (maximum_label_id p.sections 0) p.sections sizes

  assemble_writes :
      (sizes : List (List ℕ)) (code : AssembledCode)
      → settle b base p ≡ value sizes
      → assemble b g base p ≡ value code
      → write_code b g base p (laid_out sizes) ≡ value code
  unfolding assemble
  assemble_writes sizes code h e =
      let failure : AssemblyError = AssemblyError.invalid_section in
      let out_of_memory : AssemblyError = AssemblyError.allocation_failure in
      let checked : Expected AssemblyError (Unit {0}) =
        require (not (length p.sections == 0)) failure >> require g.vectors out_of_memory in
      let (found, (e1, e2)) =
        bind_value (checked >> settle b base p) (λ sizes. write_code b g base p (laid_out sizes))
          code e in
      let (_, (_, e3)) = bind_value checked (λ _. settle b base p) found e1 in
      let same : found ≡ sizes = value_injective found sizes (sym e3 ∙ h) in
      ap (λ sizes. write_code b g base p (laid_out sizes)) (sym same) ∙ e2

  write_code_writes :
      (laid : Laid SectionPlace) (code : AssembledCode)
      → write_code b g base p laid ≡ value code
      → (out : Output) × ((write_sections b g base laid.addresses p.sections laid.made
              (record { bytes = replicate laid.cursor 0; relocations = [] })
            ≡ value out)
          × (out.bytes ≡ code.bytes))
  unfolding write_code
  write_code_writes laid code e =
      let failure : AssemblyError = AssemblyError.allocation_failure in
      let checked : Expected AssemblyError (Unit {0}) =
        require (g.buffer laid.cursor) failure >> require g.section_table failure in
      let written =
        write_sections b g base laid.addresses p.sections laid.made
          (record { bytes = replicate laid.cursor 0; relocations = [] }) in
      let result : Output → AssembledCode = λ out. record {
        bytes = out.bytes;
        sections = section_table p.sections laid.made;
        relocations = out.relocations;
        base_address = base;
      } in
      let (out, (e1, e2)) = bind_value (checked >> written) (λ out. value (result out)) code e in
      let (_, (_, e3)) = bind_value checked (λ _. written) out e1 in
      (out, (e3, ap (λ (c : AssembledCode). c.bytes) (value_injective (result out) code e2)))

  assemble-SectionsImage :
      (sizes : List (List ℕ)) (code : AssembledCode)
      → AreDistinct (labels_of p.sections)
      → settle b base p ≡ value sizes
      → FitsSections p.sections sizes 0
      → assemble b g base p ≡ value code
      → SectionsImage b base (laid_out sizes).addresses p.sections [] code.bytes
  unfolding compute_layout
  assemble-SectionsImage sizes code d h f e =
      let laid = laid_out sizes in
      let settled = settle-IsSettled b base p sizes h in
      let (out, (e1, e2)) = write_code_writes laid code (assemble_writes sizes code h e) in
      let total = laid.cursor in
      let start = replicate (maximum_label_id p.sections 0) invalid_address in
      let end : total ≡ end_of_sections p.sections sizes 0 =
        cursor-layout_sections base p.sections sizes 0 start f in
      let zeros : total ≡ total - 0 = omega arith in
      let wrote =
        write_sections-WroteSections b g base laid.addresses total p.sections sizes 0 start []
          (record { bytes = replicate total 0; relocations = [] }) out refl
          (ap (λ k. replicate k 0) zeros) settled.sized f (omega (arith, end))
          (compute_layout-LabelsAt base p.sections sizes f d) e1 in
      let none_over : total - end_of_sections p.sections sizes 0 ≡ 0 = omega (arith, end) in
      let bytes : wrote.after ≡ code.bytes =
        sym (append-nil wrote.after)
        ∙ ap (λ k. wrote.after ++ replicate k 0) (sym none_over)
        ∙ sym wrote.written
        ∙ e2 in
      subst (SectionsImage b base laid.addresses p.sections []) bytes wrote.image

  -- Where Assemble succeeds, of a program that the operations of Program built, and no
  -- offset passes 64 bits, the code is the
  -- image of the program: section by section, each from the next multiple of its alignment on with
  -- zeros before it, and node by node the bytes given, the bytes that fill up an alignment, or an
  -- encoding, at its own address, of the instruction with its label replaced by the address at which
  -- the code has that label.
  pub assemble_image :
      (sizes : List (List ℕ)) (code : AssembledCode)
      → Reach p
      → settle b base p ≡ value sizes
      → FitsSections p.sections sizes 0
      → assemble b g base p ≡ value code
      → SectionsImage b base (laid_out sizes).addresses p.sections [] code.bytes
  assemble_image sizes code r =
      assemble-SectionsImage sizes code (IsSound-AreDistinct p (Reach-IsSound r))
