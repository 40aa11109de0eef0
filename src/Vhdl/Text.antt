-- ===== src/Vhdl/Text.antt =====
-- src/vhdl2hif/vhdl_support.cpp and the loops of src/vhdl2hif/VhdlParser.cpp that clean a token.
pub mod Laws
use mathlib.Core.Option
use hif_frontend.Common.{ℕ, zero, suc, Option, none, some, List, [], ◌∷◌, ◌++◌, map, Bytes, length}
use hif_frontend.Common.Text.{find, erase, tolower, toupper}

unfoldable pub string_to_lower : Bytes → Bytes
string_to_lower = map tolower

unfoldable pub string_to_upper : Bytes → Bytes
string_to_upper = map toupper

-- `while ((i = name.find(c)) != npos) name.erase(i, 1);`, with fuel.
pub erase_loop : ℕ → ℕ → Bytes → Bytes
unfolding find erase
erase_loop zero c name = name
erase_loop (suc fuel) c name = elim (find c name) [
  | none ↦ name
  | some i ↦ erase_loop fuel c (erase name i)
]

-- Each round makes the text shorter, so its length is enough fuel.
unfoldable pub erase_all : ℕ → Bytes → Bytes
unfolding erase_loop
erase_all c name = erase_loop (length name) c name
