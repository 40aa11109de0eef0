-- ===== src/Verilog/Ams.antt =====
-- `AmsMarker` of src/verilog2hif/mark_ams_language.cpp: which views, library definitions and systems
-- get the language AMS. A scope (a view or a library definition) is its address.
pub mod Events
pub mod Closure
pub mod Complete
pub mod System
mod Tests
use hif_frontend.Common.{ℕ, Bool, true, false, ◌||◌, Option, none, some, ◌==◌, if◌then◌else◌}
use hif_frontend.Common.Outcome.{Result, ok, err, fatal, ◌>>=◌}

-- Where a node stands: its nearest parents that are a view and a library definition.
pub record Place : Type 0 where
  pub view : Option ℕ
  pub library_def : Option ℕ

-- The language of the scopes, true for AMS; `_isAms`; and whether the system is AMS.
pub record Marker : Type 0 where
  pub languages : ℕ → Bool
  pub is_ams : Bool
  pub system_ams : Bool

-- A call of a method of the visitor, with the calls that the library makes from it: `symbol` for
-- `visitFunctionCall`, `visitIdentifier`, `visitProcedureCall`, `visitTypeReference` and
-- `visitViewReference`, with the declaration of the symbol.
mutual
  pub data Visit (D : Type 0) : Type 0 where
    symbol : Visits D → (declaration : Option D) → Place → Visit D
    state_table : Visits D → (is_analog : Bool) → Place → Visit D
    library_def : Visits D → (is_standard : Bool) → Visit D
    view : Visits D → (is_standard : Bool) → Visit D
    system : Visits D → Visit D
    -- a method that is not overridden
    inherited : Visits D → Visit D

  pub data Visits (D : Type 0) : Type 0 where
    no_visits : Visits D
    next_visit : Visit D → Visits D → Visits D

-- `setLanguageID(ams)` of a parent, if there is one.
abbrev pub set_language : Option ℕ → (ℕ → Bool) → ℕ → Bool
set_language none languages s = languages s
set_language (some t) languages s = s == t || languages s

unfoldable pub mark_scope : Place → Marker → Marker
mark_scope place marker = record {
  languages = set_language place.library_def (set_language place.view marker.languages);
  is_ams = true;
  system_ams = marker.system_ams;
}

abbrev pub close_system : Marker → Marker
close_system marker = record {
  languages = marker.languages;
  is_ams = marker.is_ams;
  system_ams = marker.is_ams || marker.system_ams;
}

-- `object_get_language` is the library's, true for AMS, with the languages of the scopes.
module _ {D : Type 0} (object_get_language : (ℕ → Bool) → D → Bool) where
  abbrev pub mark_symbol : D → Place → Marker → Marker
  mark_symbol decl place marker =
      if object_get_language marker.languages decl then mark_scope place marker else marker

  abbrev pub check_ams_symbol : Option D → Place → Marker → Result Marker
  check_ams_symbol none place marker = err (fatal "Declaration not found")
  check_ams_symbol (some decl) place marker = ok (mark_symbol decl place marker)

  unfoldable mutual
    pub visit : Visit D → Marker → Result Marker
    visit (symbol below decl place) marker = visit_all below marker >>= check_ams_symbol decl place
    visit (state_table below true place) marker =
        visit_all below marker >>= λ marker. ok (mark_scope place marker)
    visit (state_table below false place) marker = visit_all below marker
    visit (library_def below true) marker = ok marker
    visit (library_def below false) marker = visit_all below marker
    visit (view below true) marker = ok marker
    visit (view below false) marker = visit_all below marker
    visit (system below) marker = visit_all below marker >>= λ marker. ok (close_system marker)
    visit (inherited below) marker = visit_all below marker

    pub visit_all : Visits D → Marker → Result Marker
    visit_all no_visits marker = ok marker
    visit_all (next_visit one rest) marker = visit one marker >>= visit_all rest

  -- The marker starts with the languages that the parser and the library set.
  unfoldable pub mark_ams_language : Visit D → (ℕ → Bool) → Bool → Result Marker
  unfolding visit
  mark_ams_language top languages system_ams =
      visit top (record { languages = languages; is_ams = false; system_ams = system_ams })
