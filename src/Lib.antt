-- ===== src/Lib.antt =====
-- hif-frontend: the translators vhdl2hif and verilog2hif, which parse VHDL and Verilog and build a
-- tree of the HIF library. Grammars (grammar/*.yxx) call routines of a parser class for each rule;
-- visitors then fix the tree. The HIF library, its semantics and the C++ runtime's conversions of
-- reals are not in the repository.
--
-- The parts, and where they are modelled:
--
-- Common: shared names. Common/Tests, Common/Lists, Common/Int: tests, lists and signed integers over
--   the native numbers. Common/Outcome: how a routine ends; `messageError`, a failed
--   `messageAssert` and `yyerror` (which stops the program, as HALT_ON_UNSUPPORTED_RULES is defined)
--   are `fatal`, an `int` out of range is `undefined`, and an index that the string class rejects is
--   `out_of_range`. Common/Text: the parts of std::string and of the C library that the code uses,
--   on texts as lists of bytes. Common/Search: `find` of a text. Common/Sets: sets of addresses, and
--   maps into them whose `operator[]` makes an empty set. Common/Digits: the numbers that digits
--   spell, which the theorems on literals compare with.
-- Hif: values, ranges and types, with what the sources set on the nodes they create.
--
-- Vhdl (src/vhdl2hif):
--   Vhdl/Bits: oct2bits, hex2bits, dec2bits, toBits, bit2decimal of vhdl_support.cpp.
--   Vhdl/Text: stringToLower, stringToUpper, and the loops that erase a character.
--   Vhdl/Literals: parse_BasedLiteral, parse_BitStringLiteral, parse_CharacterLiteral,
--     parser_DecimalLiteral, parse_NumericLiteral, parse_StringLiteral of VhdlParser.cpp. `pow` on
--     integers, `atof` and the conversion to `double` are parameters.
--   Vhdl/Types: resolveType of VhdlParser.cpp.
--   Vhdl/Expressions: _getBwise, _replaceLogicalOperators, _replaceRelationalOperators and
--     visitExpression of PostParsingVisitor_step1.cpp, on the semantic types of the operands.
--   Vhdl/Operators: _parseOperator, _makeParam, _makeReturnType, _makeType of
--     PostParsingVisitor_step2.cpp; Vhdl/Operators/Tables: the calls of
--     _addStandardOperatorOverloads for each library; Vhdl/Operators/Standard: visitSystem, the
--     insertion, and _removeStandardOperatorOverloads, on libraries whose declarations are their own
--     or overloads with an address; the traversal between the two, GuideVisitor::visitSystem of the
--     library, is a parameter. Vhdl/Operators/Overloaded: _getOverloadedFunctionName.
--   Vhdl/Libraries: fro2string and resolveLibraryType of vhdl_support.cpp.
--   Vhdl/Duplicates: _hasSameSignagure and _fixSubProgramsDeclarations of
--     PostParsingVisitor_fixRanges.cpp, with the trash as marks on the declarations.
--   Vhdl/Ranges: visitFunctionCall, _fixTypeAttributeCall and visitInt of the same file;
--     Vhdl/Ranges/Libraries: visitLibrary.
-- Verilog (src/verilog2hif):
--   Verilog/Binary: convertToBinary of verilog_support.cpp.
--   Verilog/Numbers: number_t and parse_UnsignedNumber, parse_DecNumber, parse_RealTime,
--     parse_BasedNumber of verilog_parser.cpp; Verilog/Sized: parse_DecBasedNumber.
--   Verilog/Timescale: getTimeValue, parse_timescale, SetTimescale of verilog_parser_extension.cpp.
--   Verilog/Defaults: _checkViewTimeScale of FixDescription_2.cpp, which the visitor calls wherever a
--     time is used.
--   Verilog/Initial: _collectInitialProcesses, _splitInitialProcesses, _mergeInitialProcesses of
--     FixDescription_2.cpp, as visitDesignUnit calls them. A list of pointers into the module's
--     processes is the list of those processes; the search for a wrong statement is a parameter.
--   Verilog/CommandLine: checkExtension, _validateArguments and its helpers of
--     verilog2hif_parse_line.cpp, past the options that print and leave.
--   Verilog/Cones: the logic cones of FixDescription_3.cpp, in the order in which they are made.
--     Verilog/Cones/Tree: what the HIF library says of the tree, as the fields of a record that the
--     other parts take. Verilog/Cones/Info: InfoStruct, calculateRequiredDeclType,
--     getWritingCallFormal, fillInfoMap. Verilog/Cones/Graph: generateLogicConesGraph on the keys of
--     infoMap in a given order, and the loop of generateConeFunctions that merges parents
--     without a cone. Verilog/Cones/Sources: calculateParentNodes and its calls.
--     Verilog/Cones/Sensitivities: fixSensitivities, on sensitivity lists whose operations are
--     parameters. A node is its address, and the iteration over a set is in the order of its list.
--   Verilog/Constants: _isConstantExpr, _isFoldableIntoDeclaration and visitGlobalAction of
--     FixDescription_1.cpp; Verilog/Constants/Replication: _fixSystemTaskCalls,
--     _checkReplicationCount and _fixiteratedConcat. The symbols of a value, with what the library
--     says of them, are a parameter.
--   Verilog/Concat: concat of verilog_support.cpp, and parse_Concatenation and
--     parse_MultipleConcatenation of verilog_parser.cpp.
--   Verilog/ModuleItems: _manageModuleItemDeclarations of verilog_parser_extension.cpp.
--   Verilog/Processes: visitStateTable, _fixAllSignalsSesitivity and _fixProcessesWithWait of
--     FixDescription_1.cpp.
--   Verilog/Ams: AmsMarker of mark_ams_language.cpp, on the calls that the library's visitor makes of
--     its methods, nested as they are; Verilog/Ams/Events: the same as one sequence.
--   Verilog/Actions: _buildActionListFromStatement (Verilog/Actions/Procedural),
--     _buildActionListFromAnalogStatement and parse_AnalogEventControlStatement of
--     verilog_parser.cpp (Verilog/Actions/Analog),
--     _buildSensitivityFromEventControl, _buildSensitivityFromAnalogEventControl and the loop that
--     fixes a sensitivity (Verilog/Actions/Watching). Actions that the grammar made are a parameter,
--     and so is `push_back`, which the code also calls with a null pointer.
--
-- Bounds and fuel: an `int` has 32 bits. The loop of dec2bits has 32 rounds of fuel, enough for an
-- `int`. The loops that erase or replace a character have the length of the text as fuel, enough as
-- each round takes one such character away. Sizes of literals above the largest `int` give no round
-- of convertToBinary, as in the code. calculateParentNodes has fuel for the depth of its calls, enough
-- if it is above the length of every path of the graph; the loop over the references of waits has fuel
-- for its rounds, and needs one more than there are references. A replication has as many rounds as its
-- count says, and a count above the largest `int` is undefined for the parser, which counts with one.
--
-- Not modelled: the grammars and lexers, the making of the cones' procedures and of their calls, the
-- routines that only assemble nodes, the visitors that lean on the semantics of the HIF library,
-- messages, code positions, the freeing of nodes, and routines that nothing calls (str_replace,
-- clean_bitvalues, _manageClockCondition). A node is a value; where identity matters (the
-- overloads that are taken out again, the references of the logic cones) it has an address.
pub mod Common
pub mod Hif
pub mod Vhdl
pub mod Verilog
