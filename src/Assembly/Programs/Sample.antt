-- ===== src/Assembly/Programs/Sample.antt =====
-- A program built step by step: a jump over data and padding to a return.
use uefipp.Base.{true, none, some, [], ◌∷◌}
use uefipp.Alignment.{is_power_of_two}
use uefipp.Assembly.Instructions.{Mnemonic, BranchWidth, Instruction, immediate, unresolved, plain}
use uefipp.Assembly.Programs.{
  instruction_node, label_node, data_node, align_node, SectionKind, Program, text_name, new_program,
  create_label, append_to_label, append_data, align, bind_label, append_instruction,
}
use uefipp.Assembly.Programs.Soundness.{IsSound}
use uefipp.Assembly.Programs.Reaching.{
  Reach, starts, goes, creates_label, appends_to_label, appends_data, aligns, binds_label,
  appends_instruction, Reach-IsSound,
}

abbrev pub jump : Instruction
jump = record {
  mnemonic = Mnemonic.jmp;
  branch_size = BranchWidth.automatic;
  options = 0;
  operands = immediate unresolved 0 ∷ [];
}

abbrev pub sample : Program
sample = record {
  sections =
      record {
        id = 0;
        kind = SectionKind.text;
        name = text_name;
        alignment = 16;
        nodes =
            instruction_node jump (some (record { label = 0; operand_index = 0 }))
            ∷ data_node (1 ∷ 2 ∷ 3 ∷ [])
            ∷ align_node 8 0xcc
            ∷ label_node 0
            ∷ instruction_node (plain Mnemonic.ret) none
            ∷ [];
      }
      ∷ [];
  labels = record { bound = true; section = 0 } ∷ [];
  current = 0;
}

pub sample_reached : Reach sample
unfolding new_program create_label append_to_label append_data align bind_label append_instruction
    is_power_of_two
sample_reached =
    goes
      (goes
        (goes
          (goes (goes (goes (starts true) (creates_label true)) (appends_to_label true jump 0 0))
            (appends_data true (some (1 ∷ 2 ∷ 3 ∷ []))))
          (aligns true 8 0xcc))
        (binds_label true 0))
      (appends_instruction true (plain Mnemonic.ret))

Reach-IsSound_example : IsSound sample
Reach-IsSound_example = Reach-IsSound sample_reached
