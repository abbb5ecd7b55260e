-- ===== src/Assembly/Programs/Growing.antt =====
-- A program with a section more, a label more, or a label bound.
use uefipp.Base.{
  ℕ, zero, suc, ◌+◌, ◌<◌, ◌≡◌, refl, ap, sym, ◌∙◌, true, false, not, ◌||◌, List, [], ◌∷◌, ◌++◌,
  length, All-append, leb, ◌==◌, arith, length-append,
}
use uefipp.Alignment.{is_power_of_two}
use uefipp.Assembly.Programs.{
  invalid_id, label_node, SectionKind, LabelState, Program, new_section, has_section,
  is_label_valid, bound_at, set_label, appended, with_node,
}
use uefipp.Assembly.Programs.Bound.{hit, occurrences-appended, occurrences-labels_of}
use uefipp.Assembly.Programs.Soundness.{
  IsSection, bit_of, IsSound, more_sections, length-appended, appended-IsSection, section_exists,
  label_exists,
}

bound_at-append :
    (ls : List LabelState) (x : LabelState) (l : ℕ)
    → x.bound ≡ false
    → bound_at (ls ++ x ∷ []) l ≡ bound_at ls l
bound_at-append [] x zero h = h
bound_at-append [] x (suc l) h = refl
bound_at-append (y ∷ ls) x zero h = refl
bound_at-append (y ∷ ls) x (suc l) h = bound_at-append ls x l h

length-set_label :
    (ls : List LabelState) (l : ℕ) (x : LabelState) → length (set_label ls l x) ≡ length ls
length-set_label [] l x = refl
length-set_label (y ∷ ls) zero x = refl
length-set_label (y ∷ ls) (suc l) x = omega (arith, length-set_label ls l x)

bound_at-set_label :
    (ls : List LabelState) (l : ℕ) (x : LabelState) (m : ℕ)
    → l < length ls
    → x.bound ≡ true
    → bound_at ls l ≡ false
    → bit_of (bound_at (set_label ls l x) m) ≡ hit m l + bit_of (bound_at ls m)
bound_at-set_label [] l x m k h u = absurd (omega arith)
bound_at-set_label (y ∷ ls) zero x zero k h u = rw (h, u) refl
bound_at-set_label (y ∷ ls) zero x (suc m) k h u = ground arith
bound_at-set_label (y ∷ ls) (suc l) x zero k h u = ground arith
bound_at-set_label (y ∷ ls) (suc l) x (suc m) k h u =
    let shifted : hit (suc m) (suc l) ≡ hit m l = ground arith in
    omega (arith, shifted, bound_at-set_label ls l x m (omega arith) h u)

module _ (p : Program) (h : IsSound p) where
  pub new_section-IsSound :
      (kind : SectionKind) (name : List ℕ) (alignment : ℕ)
      → (alignment == 0 || not (is_power_of_two alignment) || leb invalid_id (length p.sections))
        ≡ false
      → IsSound (record p {
        sections = p.sections ++ new_section (length p.sections) kind name alignment ∷ [];
      })
  new_section-IsSound kind name alignment e =
      let s = new_section (length p.sections) kind name alignment in
      let nonzero : (alignment == 0) ≡ false = ground arith in
      let power : is_power_of_two alignment ≡ true = ground arith in
      let few : length p.sections < invalid_id = ground arith in
      let own : IsSection (length p.labels) s = record {
        nodes_are = tt;
        aligned = rw (nonzero, power) refl;
      } in
      record {
        labels_few = h.labels_few;
        sections_few = omega (arith, few, length-append p.sections (s ∷ []));
        sections_are =
            All-append (IsSection (length p.labels)) p.sections (s ∷ []) h.sections_are (own, tt);
        bound_once = λ l. occurrences-labels_of l p.sections s refl ∙ h.bound_once l;
      }

  pub new_label-IsSound :
      length p.labels < invalid_id
      → IsSound
          (record p { labels = p.labels ++ record { bound = false; section = invalid_id } ∷ [] })
  new_label-IsSound few =
      let x : LabelState = record { bound = false; section = invalid_id } in
      let longer = length-append p.labels (x ∷ []) in
      record {
        labels_few = omega (arith, few, longer);
        sections_few = h.sections_few;
        sections_are =
            more_sections (length p.labels) (length (p.labels ++ x ∷ [])) (omega (arith, longer))
              p.sections h.sections_are;
        bound_once = λ l. h.bound_once l ∙ ap bit_of (sym (bound_at-append p.labels x l refl));
      }

  pub bound-IsSound :
      (l : ℕ)
      → is_label_valid p l ≡ true
      → bound_at p.labels l ≡ false
      → has_section p p.current ≡ true
      → IsSound (record (with_node p (label_node l)) {
        labels = set_label p.labels l (record { bound = true; section = p.current });
      })
  bound-IsSound l valid unbound c =
      let x : LabelState = record { bound = true; section = p.current } in
      let few = label_exists p l valid in
      let same = length-set_label p.labels l x in
      let sections = appended p.sections p.current (label_node l) in
      record {
        labels_few = omega (arith, same, h.labels_few);
        sections_few =
            omega (arith, h.sections_few, length-appended p.sections p.current (label_node l));
        sections_are =
            more_sections (length p.labels) (length (set_label p.labels l x)) (omega (arith, same))
              sections
              (appended-IsSection (length p.labels) p.sections p.current (label_node l)
                h.sections_are few);
        bound_once = λ m. omega (
          arith,
          occurrences-appended m p.sections p.current (label_node l) (section_exists p p.current c),
          bound_at-set_label p.labels l x m few refl unbound,
          h.bound_once m,
        );
      }
