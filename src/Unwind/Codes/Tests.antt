-- ===== src/Unwind/Codes/Tests.antt =====
-- The prolog of a function with a frame register, whose body has moved the stack pointer.
use uefipp.Base.{List, [], ◌∷◌, ◌==◌, if◌then◌else◌}
use uefipp.Pe.{Memory}
use uefipp.Unwind.Codes.{Header, Context, Nonvolatile}
use uefipp.Unwind.Codes.Instructions.{Instruction, push, take_small, set_frame}

-- The three codes at 8192, and the register that was pushed.
abbrev memory : Memory
memory a =
    if a == 8193
    then 0x03
    else if a == 8195
    then 0x32
    else if a == 8197
    then 0x50
    else if a == 1048568
    then 1
    else 0

abbrev header : Header
header = record {
  version_and_flags = 1;
  prolog_size = 10;
  code_count = 3;
  frame_register_and_offset = 0x15;
}

abbrev entry : Context
entry = record {
  rip = 4896;
  rsp = 1048576;
  rbx = 7;
  rbp = 1;
  rsi = 2;
  rdi = 3;
  r12 = 4;
  r13 = 5;
  r14 = 6;
  r15 = 8;
}

abbrev current : Context
current = record entry { rbp = 1048552; rsp = 1000000 }

abbrev prolog : List Instruction
prolog = set_frame Nonvolatile.rbp 16 ∷ take_small 3 ∷ push Nonvolatile.rbp ∷ []
