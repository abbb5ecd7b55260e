-- ===== src/Lib.antt =====
-- UEFIpp, a C++ library for UEFI programs: a model of its parts that compute, and what is proved of
-- them. The rest of the library calls the firmware through these parts or wraps its tables.
--
-- The parts, with the files of the model that stand for them:
--
--   Base: the native numbers with Boolean tests, Library::Expected with its chaining (`if (!r)
--   return Failure(r.Error());` is a do block), lemmas on lists and on bits.
--   Io: the errors of UEFIpp/Include/UEFIpp/IO/Core/Error.hpp, which the conversions return.
--   Io/Sinks and Io/Sources: UEFIpp/Include/UEFIpp/IO/Core/Operations.hpp and
--   UEFIpp/Include/UEFIpp/IO/Adapter/Buffered.hpp. A sink or a source is a state of any type with the
--   function WriteSome or ReadSome; what these are documented to do is the record `Takes` or `Gives`,
--   and a buffered sink or source has them as well, so that adapters can be stacked.
--   Io/Adapters: UEFIpp/Include/UEFIpp/IO/Adapter/Utility.hpp, the sinks and sources in memory, one
--   function for each WriteSome or ReadSome, and TeeSink over any two sinks.
--   Io/Newlines: UEFIpp/Include/UEFIpp/IO/Adapter/Newline.hpp. `put_byte` is a round of the loop of
--   WriteSome under each policy.
--   Text: UEFIpp/Include/UEFIpp/IO/Text/Utf.hpp. `feed` and `finish` are Utf8Decoder::Feed and
--   Finish, from the decoder's state to the next one and the result; `encode_utf8` and
--   `encode_utf16` return the part of the output array that the returned count covers. Text/Convert
--   has the conversions of whole strings. Text/Encoding says in plain arithmetic what the encodings
--   are; Text/States gives the decoder's states names and describes a step as a relation.
--   Strings: the searches of UEFIpp/Include/UEFIpp/Library/String/StringView.hpp that paths use.
--   Paths: UEFIpp/Source/FileSystem/Path.cpp, one function for each method of Path. Paths/Names says
--   what the scans for components find, Paths/Normal what Normalized computes, Paths/Files what the
--   operations on file names do.
--   Pe: UEFIpp/Source/Executable/Pe/Image.cpp, a loaded image read through its base address.
--   Unwind: UEFIpp/Source/Architecture/X64/Unwind/Unwinder.cpp. `lookup` is LookupRuntimeFunction,
--   `virtual_unwind` is VirtualUnwind, `run_chain` its outer loop, `run_codes` its inner loop and
--   `undo` its switch. It reads the image through Pe.
--   Alignment: the alignment functions of UEFIpp/Include/UEFIpp/Foundation/Bit.hpp on 64 bits.
--   Heap: UEFIpp/Source/CRT/Heap.cpp over the pool of UEFIpp/Source/Memory/Allocator.cpp, whose
--   firmware calls are the record `Firmware`; each operation takes the heap to the next one.
--   Assembly: UEFIpp/Source/Architecture/X64/Assembly. Assembly/Programs has the operations of
--   Program, each taking the program to the next one; Assembly/Emitting those of Assembler that add
--   an instruction; Assembly/Layout and Assembly/Layout/Assembling have Assemble: `compute_layout` is
--   ComputeLayout, `converge` the loop of passes, `write_code` what follows it. A program that
--   Assembly/Programs/Reaching describes is what Assemble is given.
--   LineEditor: UEFIpp/Source/IO/Terminal/LineEditor.cpp. `on_key` is what the loop of ReadLine does
--   with a key, LineEditor/Redraw has Redraw and ReadLine itself. The line is shown as code points by
--   LineEditor/Texts, with the encodings of Text; LineEditor/Effects has what a key may do to it.
--   Numbers: the integers as text, ParseInteger of UEFIpp/Include/UEFIpp/IO/Text/Scan.hpp and the
--   formatter of the integers of UEFIpp/Include/UEFIpp/IO/Text/Format.hpp. `format_unsigned` is
--   FormatUnsigned: the pieces that it writes, in order, and the calls of the writer up to the first
--   that fails.
--   CString: UEFIpp/Source/CRT/String.cpp, the C string functions on a memory of characters; those
--   that write return the memory afterwards. CString/Texts says where a terminated text stands.
--
-- Memory is a function from addresses to bytes; a read of a wider field is written out, little
-- endian. Numbers are natural; where the source computes in 16, 32 or 64 bits and a sum can leave
-- them, the wrap is written out. A string, a view or a vector is a list. The allocator is code
-- outside of these parts: a parameter answers whether a string's storage can hold that many
-- elements, and another one does so for vectors. Theorems that need memory say so by a hypothesis
-- that the answer is always yes.
--
-- Loops are structural where they count down or consume a list. On fuel are: the scan for
-- components, with the length of the text; the search of a table, with one round more than it has
-- entries; the loop over unwind codes, with one round more than there are slots; the loop that
-- feeds a byte until it is consumed, with two rounds; the loops that write and read, with one round
-- more than there are bytes; Peek, with two more than the capacity; the C string functions, with
-- one more than there are characters; the loops of Redraw, with one round more than the line has
-- bytes; the passes of Assemble, with the 32 that the source allows; and the chain of unwind
-- information, with the fuel that VirtualUnwind is given. FormatUnsigned has 64 rounds, the most
-- digits that a 64-bit number has. Where that is enough, a theorem beside the loop says so.
--
-- Not modelled: the firmware's tables and protocols and what wraps them (files, consoles, memory
-- services, PCI and network protocols), the terminal, which is a parameter of the line editor, the
-- conversions to and from Zydis and the disassembler, parameters of the assembler, the symbol
-- readers of Reverse, the operators of the C runtime, formats of texts and of floating-point
-- numbers, containers and callables. An unaligned or null read, which the source leaves to the
-- machine, has no error of its own in the model.
pub mod Base
pub mod Io
pub mod Text
pub mod Strings
pub mod Paths
pub mod Pe
pub mod Unwind
pub mod Alignment
pub mod Heap
pub mod CString
pub mod Assembly
pub mod LineEditor
pub mod Numbers
