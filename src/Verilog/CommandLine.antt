-- ===== src/Verilog/CommandLine.antt =====
-- src/verilog2hif/verilog2hif_parse_line.cpp: which files are read as Verilog and which as
-- Verilog-AMS, and the name of the output.
pub mod Extension
pub mod Files
mod Tests
use hif_frontend.Common.{
  ℕ, ◌+◌, ◌-◌, Bool, true, false, ◌||◌, ◌==◌, Option, none, some, List, [], ◌∷◌, ◌++◌, length, drop,
  if◌then◌else◌, Bytes, codes,
}
use hif_frontend.Common.Sets.{is_empty}
use hif_frontend.Common.Text.{find_last, substr_after}
use hif_frontend.Common.Search.{find_text}

-- `checkExtension`: the first place of the extension is the end of the name.
unfoldable pub check_extension : (file_name extension : Bytes) → Bool
check_extension file_name extension = elim (find_text extension file_name) [
  | none ↦ false
  | some index ↦ length file_name - index == length extension
]

-- `_checkVerilogFile` and `_checkVerilogAmsFile`
abbrev pub check_verilog_file : Bytes → Bool
check_verilog_file file_name = check_extension file_name (codes ".v")

abbrev pub check_verilog_ams_file : Bytes → Bool
check_verilog_ams_file file_name =
    check_extension file_name (codes ".va") || check_extension file_name (codes ".vams")

-- `_cleanFileName`: what stands behind the last slash.
abbrev pub clean_file_name : Bytes → Bytes
clean_file_name file_name = substr_after (find_last (λ c. c == b'/') file_name) file_name

-- `messageError`: no input file, or the cleaned name of a file that is of neither kind.
pub data ArgumentError : Type 0 where
  input_file_missing : ArgumentError
  unrecognized_file_format : Bytes → ArgumentError

pub data Arguments : Type 0 where
  -- `_files` and `_amsFiles`
  arguments : (files ams_files : List Bytes) → Arguments
  refused : ArgumentError → Arguments

-- The loop over `_files`: `checked` are those that the iterator has passed.
unfoldable pub validate_files : (checked ams_files rest : List Bytes) → Arguments
unfolding check_extension
validate_files checked ams_files [] = arguments checked ams_files
validate_files checked ams_files (file ∷ rest) =
    let verilog = validate_files (checked ++ (file ∷ [])) ams_files rest in
    let ams = validate_files checked (ams_files ++ (file ∷ [])) rest in
    if check_verilog_file (clean_file_name file)
    then verilog
    else if check_verilog_ams_file (clean_file_name file)
    then ams
    else refused (unrecognized_file_format (clean_file_name file))

-- The files of the command line, past the options that print and leave.
unfoldable pub validate_arguments : (files : List Bytes) → Arguments
unfolding validate_files
validate_arguments files =
    if is_empty files then refused input_file_missing else validate_files [] [] files

-- The value of the option `-o` becomes the output's name.
unfoldable pub output_file_name : Bytes → Bytes
output_file_name out =
    if is_empty out
    then codes "out.hif.xml"
    else elim (find_text (codes ".hif.xml") out) [ none ↦ out ++ codes ".hif.xml" | some ix ↦ out ]
