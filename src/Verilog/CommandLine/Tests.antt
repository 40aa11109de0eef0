-- ===== src/Verilog/CommandLine/Tests.antt =====
-- Names of files, and the instances of the theorems at them.
use hif_frontend.Common.{◌≡◌, ◌↔◌, refl, true, false, List, [], ◌∷◌, Bytes, codes, if◌then◌else◌}
use hif_frontend.Common.Sets.{is_empty}
use hif_frontend.Verilog.CommandLine.{
  check_extension, arguments, refused, input_file_missing, validate_arguments, output_file_name,
}
use hif_frontend.Common.Text.{find_last}
use hif_frontend.Common.Search.{find_text}
use hif_frontend.Verilog.CommandLine.Extension.{EndsOnly, check_extension-EndsOnly}
use hif_frontend.Verilog.CommandLine.Files.{
  first_unrecognized, sorted_files, validate_arguments_lem,
}

-- A name in which the extension stands twice is not taken.
twice : check_extension (codes "cpu.v2.v") (codes ".v") ≡ false
unfolding check_extension find_text
twice = refl

check_extension-EndsOnly_example :
    (check_extension (codes "cpu.v2.v") (codes ".v") ≡ true)
    ↔ EndsOnly (codes "cpu.v2.v") (codes ".v")
check_extension-EndsOnly_example = check_extension-EndsOnly (codes "cpu.v2.v") (codes ".v")

abbrev some_files : List Bytes
some_files = codes "src/cpu.v" ∷ codes "pll.vams" ∷ codes "alu.v" ∷ []

two_kinds :
    validate_arguments some_files
    ≡ arguments (codes "src/cpu.v" ∷ codes "alu.v" ∷ []) (codes "pll.vams" ∷ [])
unfolding validate_arguments find_text find_last
two_kinds = refl

validate_arguments_example : validate_arguments some_files ≡ (
    if is_empty some_files
    then refused input_file_missing
    else sorted_files some_files (first_unrecognized some_files))
validate_arguments_example = validate_arguments_lem some_files

output_with_extension : output_file_name (codes "cpu") ≡ codes "cpu.hif.xml"
unfolding output_file_name find_text
output_with_extension = refl
