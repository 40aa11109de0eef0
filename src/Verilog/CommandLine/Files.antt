-- ===== src/Verilog/CommandLine/Files.antt =====
-- What becomes of the files of the command line.
use hif_frontend.Common.{
  ◌≡◌, refl, ◌∙◌, ap, Bool, true, false, not, ◌||◌, inl, inr, Option, none, some, List, [], ◌∷◌,
  ◌++◌, append-nil, append_assoc, if◌then◌else◌, keep, Bool-cases, Bytes,
}
use hif_frontend.Common.Sets.{is_empty}
use hif_frontend.Verilog.CommandLine.{
  check_verilog_file, check_verilog_ams_file, clean_file_name, input_file_missing,
  unrecognized_file_format, Arguments, arguments, refused, validate_files, validate_arguments,
}

abbrev pub is_verilog : Bytes → Bool
is_verilog file = check_verilog_file (clean_file_name file)

abbrev pub is_ams : Bytes → Bool
is_ams file = check_verilog_ams_file (clean_file_name file)

-- The first file that is of neither kind.
abbrev pub first_unrecognized : List Bytes → Option Bytes
first_unrecognized [] = none
first_unrecognized (file ∷ rest) =
    if is_verilog file || is_ams file then first_unrecognized rest else some file

-- The files in the order of the command line, those of each kind by themselves.
abbrev pub sorted_files : (files : List Bytes) → Option Bytes → Arguments
sorted_files files none = arguments (keep is_verilog files) (keep (λ f. not (is_verilog f)) files)
sorted_files files (some file) = refused (unrecognized_file_format (clean_file_name file))

abbrev continued : (checked ams_files files : List Bytes) → Option Bytes → Arguments
continued checked ams_files files none =
    arguments (checked ++ keep is_verilog files) (ams_files ++ keep (λ f. not (is_verilog f)) files)
continued checked ams_files files (some file) =
    refused (unrecognized_file_format (clean_file_name file))

continued_verilog :
    (file : Bytes) (rest checked ams_files : List Bytes)
    → is_verilog file ≡ true
    → (o : Option Bytes)
    → continued (checked ++ (file ∷ [])) ams_files rest o
      ≡ continued checked ams_files (file ∷ rest) o
continued_verilog file rest checked ams_files e none = rw e (
    ap (λ t. arguments t (ams_files ++ keep (λ f. not (is_verilog f)) rest))
      (append_assoc checked (file ∷ []) (keep is_verilog rest)))
continued_verilog file rest checked ams_files e (some f) = refl

continued_ams :
    (file : Bytes) (rest checked ams_files : List Bytes)
    → is_verilog file ≡ false
    → (o : Option Bytes)
    → continued checked (ams_files ++ (file ∷ [])) rest o
      ≡ continued checked ams_files (file ∷ rest) o
continued_ams file rest checked ams_files e none = rw e (
    ap (λ t. arguments (checked ++ keep is_verilog rest) t)
      (append_assoc ams_files (file ∷ []) (keep (λ f. not (is_verilog f)) rest)))
continued_ams file rest checked ams_files e (some f) = refl

continued_none :
    (files : List Bytes) (o : Option Bytes) → continued [] [] files o ≡ sorted_files files o
continued_none files none = refl
continued_none files (some f) = refl

validate_files-continued :
    (files checked ams_files : List Bytes)
    → validate_files checked ams_files files
      ≡ continued checked ams_files files (first_unrecognized files)
unfolding validate_files
validate_files-continued [] checked ams_files = rw (append-nil checked, append-nil ams_files) refl
validate_files-continued (file ∷ rest) checked ams_files = elim (Bool-cases (is_verilog file)) [
  | inl e ↦ rw e (
      validate_files-continued rest (checked ++ (file ∷ [])) ams_files
      ∙ continued_verilog file rest checked ams_files e (first_unrecognized rest))
  | inr e ↦ elim (Bool-cases (is_ams file)) [
    | inl e' ↦
        rw (e, e')
          (validate_files-continued rest checked (ams_files ++ (file ∷ []))
            ∙ continued_ams file rest checked ams_files e (first_unrecognized rest))
    | inr e' ↦ rw (e, e') refl
  ]
]

-- Without a file the arguments are refused. Otherwise, if every file is of one of the two kinds,
-- each list gets its kind in the order of the command line, and a file of both kinds counts as
-- Verilog; if one is not, the first such file's cleaned name is reported.
pub validate_arguments_lem :
    (files : List Bytes)
    → validate_arguments files ≡ (
        if is_empty files
        then refused input_file_missing
        else sorted_files files (first_unrecognized files))
unfolding validate_arguments
validate_arguments_lem [] = refl
validate_arguments_lem (file ∷ rest) =
    validate_files-continued (file ∷ rest) [] []
    ∙ continued_none (file ∷ rest) (first_unrecognized (file ∷ rest))
